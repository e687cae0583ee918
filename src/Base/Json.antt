-- ===== src/Base/Json.antt =====
-- encoding/json for one type of values: what Marshal writes Unmarshal reads back. Its texts are UTF-8;
-- Marshal puts U+FFFD for the bytes of a text that is not.
use mathlib.Core.Path.{◌≡◌}
use email_service_with_aws_s.Base.Errors.{Result, ok}

pub record Codec (A : Type 0) : Type 1 where
  pub Text : Type 0
  pub marshal : A → Result Text
  pub unmarshal : Text → Result A
  pub unmarshal-marshal : (a : A) (t : Text) → marshal a ≡ ok t → unmarshal t ≡ ok a
