-- ===== src/Config.antt =====
-- internal/config/config.go: the records of the configuration.
pub mod Env
pub mod Load
pub mod Valid
use Prim.Native.String.{◌++◌}
use email_service_with_aws_s.Base.{String, Bool, ◌==◌, ℤ, Bytes}

pub record AppConfig : Type 0 where
  pub env : String
  pub log_level : String

unfoldable pub is_prod : AppConfig → Bool
is_prod a = a.env == "production"

unfoldable pub is_debug : AppConfig → Bool
is_debug a = a.log_level == "debug"

-- Durations are nanoseconds.
pub record DatabaseConfig : Type 0 where
  pub host : String
  pub port : String
  pub user : String
  pub password : String
  pub database : String
  pub max_open_conns : ℤ
  pub max_idle_conns : ℤ
  pub conn_max_lifetime : ℤ

unfoldable pub dsn : DatabaseConfig → String
dsn c =
    c.user
    ++ (":"
        ++ (c.password
            ++ ("@tcp("
                ++ (c.host
                    ++ (":"
                        ++ (c.port
                            ++ (")/"
                                ++ (c.database
                                    ++ "?parseTime=true&charset=utf8mb4&collation=utf8mb4_unicode_ci"))))))))

unfoldable pub safe_dsn : DatabaseConfig → String
safe_dsn c = c.user ++ (":***@tcp(" ++ (c.host ++ (":" ++ (c.port ++ (")/" ++ c.database)))))

pub record RedisConfig : Type 0 where
  pub host : String
  pub port : String
  pub password : String
  pub db : ℤ
  pub pool_size : ℤ

unfoldable pub addr : RedisConfig → String
addr c = c.host ++ (":" ++ c.port)

pub record AwsConfig : Type 0 where
  pub region : String
  pub access_key_id : String
  pub secret_access_key : String
  pub ses_configuration_set : String
  pub sns_topic_arn : String
  pub sns_webhook_secret : String

pub record ServerConfig : Type 0 where
  pub port : String
  pub read_timeout : ℤ
  pub write_timeout : ℤ
  pub idle_timeout : ℤ

pub record SmtpConfig : Type 0 where
  pub port : String
  pub domain : String
  pub tls_cert_file : String
  pub tls_key_file : String
  pub max_message_bytes : ℤ
  pub max_recipients : ℤ
  pub max_connections : ℤ
  pub read_timeout : ℤ
  pub write_timeout : ℤ
  pub allow_insecure_auth : Bool

pub record TrackingConfig : Type 0 where
  pub base_url : String
  pub pixel_path : String
  pub click_path : String
  pub hmac_secret : Bytes

pub record QueueConfig : Type 0 where
  pub max_retries : ℤ
  pub retry_delay : ℤ

pub record WorkerConfig : Type 0 where
  pub concurrency : ℤ

pub record SecurityConfig : Type 0 where
  pub bcrypt_cost : ℤ
  pub admin_api_key : String

pub record Settings : Type 0 where
  pub app : AppConfig
  pub database : DatabaseConfig
  pub redis : RedisConfig
  pub aws : AwsConfig
  pub api_server : ServerConfig
  pub smtp : SmtpConfig
  pub tracking : TrackingConfig
  pub queue : QueueConfig
  pub worker : WorkerConfig
  pub security : SecurityConfig
