-- ===== src/Config/Load.antt =====
-- internal/config/config.go: populate, validate and Load.
use Prim.Native.String.{◌++◌}
use email_service_with_aws_s.Base.{
  ℕ, ◌*◌, String, Bool, not, ◌||◌, Option, none, some, List, [], ◌∷◌, ℤ, pos, leb_ℤ, ltb, length,
  is_empty, if◌then◌else◌, bytes, message, Result, ok, err,
}
use email_service_with_aws_s.Config.{Settings}
use email_service_with_aws_s.Config.Env.{
  parse_hmac_secret, trim_slashes, get_env, get_env_int, get_env_duration, get_env_bool,
}

abbrev seconds : ℕ → ℤ
seconds n = pos (n * 1000000000)

module _ (env : String → String) (parse_duration : String → Option ℤ) where
  abbrev text_or : String → String → String
  text_or = get_env env parse_duration

  abbrev int_or : String → ℕ → ℤ
  int_or key fallback = get_env_int env parse_duration key (pos fallback)

  abbrev duration_or : String → ℤ → ℤ
  duration_or = get_env_duration env parse_duration

  unfoldable pub populate : Settings
  populate = record {
    app = record {
      env = text_or "APP_ENV" "development";
      log_level = text_or "APP_LOG_LEVEL" "info";
    };
    database = record {
      host = env "MYSQL_HOST";
      port = text_or "MYSQL_PORT" "3306";
      user = env "MYSQL_USER";
      password = env "MYSQL_PASSWORD";
      database = env "MYSQL_DATABASE";
      max_open_conns = int_or "MYSQL_MAX_OPEN_CONNS" 25;
      max_idle_conns = int_or "MYSQL_MAX_IDLE_CONNS" 10;
      conn_max_lifetime = duration_or "MYSQL_CONN_MAX_LIFETIME" (seconds 300);
    };
    redis = record {
      host = text_or "REDIS_HOST" "localhost";
      port = text_or "REDIS_PORT" "6379";
      password = env "REDIS_PASSWORD";
      db = int_or "REDIS_DB" 0;
      pool_size = int_or "REDIS_POOL_SIZE" 10;
    };
    aws = record {
      region = env "AWS_REGION";
      access_key_id = env "AWS_ACCESS_KEY_ID";
      secret_access_key = env "AWS_SECRET_ACCESS_KEY";
      ses_configuration_set = env "SES_CONFIGURATION_SET";
      sns_topic_arn = env "SNS_TOPIC_ARN";
      sns_webhook_secret = env "SNS_WEBHOOK_SECRET";
    };
    api_server = record {
      port = text_or "API_PORT" "8080";
      read_timeout = duration_or "API_READ_TIMEOUT" (seconds 30);
      write_timeout = duration_or "API_WRITE_TIMEOUT" (seconds 30);
      idle_timeout = duration_or "API_IDLE_TIMEOUT" (seconds 60);
    };
    smtp = record {
      port = text_or "SMTP_PORT" "587";
      domain = text_or "SMTP_DOMAIN" "localhost";
      tls_cert_file = env "SMTP_TLS_CERT_FILE";
      tls_key_file = env "SMTP_TLS_KEY_FILE";
      max_message_bytes = int_or "SMTP_MAX_MESSAGE_BYTES" (25 * 1024 * 1024);
      max_recipients = int_or "SMTP_MAX_RECIPIENTS" 50;
      max_connections = int_or "SMTP_MAX_CONNECTIONS" 1000;
      read_timeout = duration_or "SMTP_READ_TIMEOUT" (seconds 60);
      write_timeout = duration_or "SMTP_WRITE_TIMEOUT" (seconds 30);
      allow_insecure_auth =
          get_env_bool env parse_duration "SMTP_ALLOW_INSECURE_AUTH"
            (is_empty (env "SMTP_TLS_CERT_FILE"));
    };
    tracking = record {
      base_url = trim_slashes (env "TRACKING_BASE_URL");
      pixel_path = text_or "TRACKING_PIXEL_PATH" "/t/open";
      click_path = text_or "TRACKING_CLICK_PATH" "/t/click";
      hmac_secret = parse_hmac_secret (env "TRACKING_HMAC_SECRET");
    };
    queue = record {
      max_retries = int_or "QUEUE_RETRY_MAX" 3;
      retry_delay = duration_or "QUEUE_RETRY_DELAY" (seconds 5);
    };
    worker = record { concurrency = int_or "QUEUE_CONCURRENCY" 10 };
    security = record {
      bcrypt_cost = int_or "BCRYPT_COST" 12;
      admin_api_key = env "ADMIN_API_KEY";
    };
  }

-- `if fault { add(msg) }`, before the checks that follow
unfoldable pub add : Bool → String → List String → List String
add fault msg rest = if fault then msg ∷ rest else rest

-- len(s), in bytes
abbrev pub size : String → ℕ
size s = length (bytes s)

-- From the tracking settings on.
unfoldable pub more_faults : Settings → List String
more_faults c = add (is_empty c.tracking.base_url) "TRACKING_BASE_URL is required" (
    add (ltb (length c.tracking.hmac_secret) 16)
      "TRACKING_HMAC_SECRET must be at least 16 bytes (32 hex chars)"
      (add
        (not (leb_ℤ (pos 4) c.security.bcrypt_cost) || not (leb_ℤ c.security.bcrypt_cost (pos 31)))
        "BCRYPT_COST must be between 4 and 31"
        (add (ltb (size c.security.admin_api_key) 16) "ADMIN_API_KEY must be at least 16 characters"
          (add (not (leb_ℤ (pos 1) c.worker.concurrency)) "QUEUE_CONCURRENCY must be >= 1"
            (add (not (leb_ℤ (pos 0) c.queue.max_retries)) "QUEUE_RETRY_MAX must be >= 0" [])))))

-- The messages that validate joins.
unfoldable pub faults : Settings → List String
unfolding more_faults
faults c = add (is_empty c.database.host) "MYSQL_HOST is required" (
    add (is_empty c.database.user) "MYSQL_USER is required" (
      add (is_empty c.database.password) "MYSQL_PASSWORD is required" (
        add (is_empty c.database.database) "MYSQL_DATABASE is required" (
          add (not (leb_ℤ c.database.max_idle_conns c.database.max_open_conns))
            "MYSQL_MAX_OPEN_CONNS must be >= MYSQL_MAX_IDLE_CONNS"
            (add (is_empty c.redis.host) "REDIS_HOST is required"
              (add (is_empty c.aws.region) "AWS_REGION is required" (more_faults c)))))))

-- errors.Join
joined : List String → String
joined [] = ""
joined (m ∷ []) = m
joined (m ∷ l) = m ++ ("\n" ++ joined l)

-- none for nil
unfoldable pub validate : Settings → Result (Unit {0})
unfolding joined
validate c = elim (faults c) [ [] ↦ ok tt | m ∷ l ↦ err (message (joined (m ∷ l))) ]

-- godotenv.Load comes before: it sets variables of `env`.
unfoldable pub load : (String → String) → (String → Option ℤ) → Result Settings
load env parse_duration =
    let c = populate env parse_duration in elim (validate c) [ err e ↦ err e | ok done ↦ ok c ]

-- MustLoad, none for its panic
unfoldable pub must_load : (String → String) → (String → Option ℤ) → Option Settings
must_load env parse_duration = elim (load env parse_duration) [ err e ↦ none | ok c ↦ some c ]
