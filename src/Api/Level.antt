-- ===== src/Api/Level.antt =====
-- newLogger of cmd/api/main.go.
use email_service_with_aws_s.Base.{String, ◌==◌, if◌then◌else◌}

pub data Level : Type 0 where
  debug info warn error : Level

unfoldable pub new_logger : String → Level
new_logger level =
    if level == "debug"
    then debug
    else if level == "warn"
    then warn
    else if level == "error"
    then error
    else info
