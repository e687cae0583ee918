-- ===== src/Config/Env.antt =====
-- internal/config/config.go: the helpers that read a variable. `env` is os.Getenv, which is empty for a
-- variable that is not set.
use Prim.Native.Char.{code}
use email_service_with_aws_s.Base.{
  ℕ, ◌+◌, ◌-◌, ◌*◌, String, ◌≡◌, refl, Bool, true, false, ◌&&◌, ◌||◌, Option, none, some, [], ◌∷◌,
  ◌==◌, ℤ, leb, nat_eq, is_empty, atoi, if◌then◌else◌, Bytes, bytes,
}

-- strconv.ParseBool
unfoldable pub parse_bool : String → Option Bool
parse_bool s =
    if s == "1" || (s == "t" || (s == "T" || (s == "TRUE" || (s == "true" || s == "True"))))
    then some true
    else if s == "0" || (s == "f" || (s == "F" || (s == "FALSE" || (s == "false" || s == "False"))))
    then some false
    else none

-- A digit of hexadecimal.
hex_value : ℕ → Option ℕ
hex_value c =
    if leb b'0' c && leb c b'9'
    then some (c - b'0')
    else if leb b'a' c && leb c b'f'
    then some (c - b'a' + 10)
    else if leb b'A' c && leb c b'F'
    then some (c - b'A' + 10)
    else none

hex_pair : Option ℕ → Option ℕ → Option Bytes → Option Bytes
hex_pair (some a) (some b) (some rest) = some ((16 * a + b) ∷ rest)
hex_pair _ _ _ = none

-- hex.DecodeString, none for an error
unfoldable pub hex_decode : Bytes → Option Bytes
unfolding hex_value hex_pair
hex_decode [] = some []
hex_decode (a ∷ []) = none
hex_decode (a ∷ b ∷ l) = hex_pair (hex_value a) (hex_value b) (hex_decode l)

unfoldable pub parse_hmac_secret : String → Bytes
parse_hmac_secret s =
    if is_empty s then [] else elim (hex_decode (bytes s)) [ some b ↦ b | none ↦ bytes s ]

-- strings.TrimRight(s, "/")
unfoldable pub trim_slashes : String → String
trim_slashes String.[] = ""
trim_slashes (String.◌∷◌ c s) =
    let rest = trim_slashes s in
    if nat_eq (code c) b'/' && is_empty rest then "" else String.◌∷◌ c rest

-- `parse_duration` is time.ParseDuration, none for an error.
module _ (env : String → String) (parse_duration : String → Option ℤ) where
  unfoldable pub get_env : String → String → String
  get_env key fallback = if is_empty (env key) then fallback else env key

  parsed : {A : Type 0} → Option A → A → A
  parsed none fallback = fallback
  parsed (some a) fallback = a

  unfoldable pub get_env_int : String → ℤ → ℤ
  unfolding parsed
  get_env_int key fallback =
      if is_empty (env key) then fallback else parsed (atoi (env key)) fallback

  unfoldable pub get_env_duration : String → ℤ → ℤ
  unfolding parsed
  get_env_duration key fallback =
      if is_empty (env key) then fallback else parsed (parse_duration (env key)) fallback

  unfoldable pub get_env_bool : String → Bool → Bool
  unfolding parsed
  get_env_bool key fallback =
      if is_empty (env key) then fallback else parsed (parse_bool (env key)) fallback

from_hex : parse_hmac_secret "0aFf" ≡ 10 ∷ 255 ∷ []
unfolding parse_hmac_secret hex_decode hex_pair hex_value is_empty
from_hex = refl

not_hex : parse_hmac_secret "abc" ≡ 97 ∷ 98 ∷ 99 ∷ []
unfolding parse_hmac_secret hex_decode hex_pair hex_value is_empty
not_hex = refl

no_slashes : trim_slashes "http://x//" ≡ "http://x"
unfolding trim_slashes is_empty
no_slashes = refl
