-- ===== src/Middleware.antt =====
-- internal/middleware/auth.go and admin.go: what stands before the handlers of the HTTP interface.
use Prim.Native.Char.{code}
use Prim.Native.String.{String}
use email_service_with_aws_s.Base.{
  ℕ, ◌≡◌, refl, Bool, ◌&&◌, ◌||◌, Option, none, some, ◌==◌, leb, nat_eq, to_lower, is_empty,
  has_prefix, if◌then◌else◌, Codec, Error, Result, ok, err,
}
use email_service_with_aws_s.Redis.Cache.{Cache}
use email_service_with_aws_s.Sql.{Table, Collation}
use email_service_with_aws_s.Repository.Models.{Client, client_clash, is_not_found}
use email_service_with_aws_s.Delivery.Errors.{error_text}
use email_service_with_aws_s.Auth.Snapshot.{ClientSnapshot}
use email_service_with_aws_s.Auth.{Calls, validate_api_key}

-- unicode.IsSpace
is_space : ℕ → Bool
is_space c =
    (leb 9 c && leb c 13)
    || (nat_eq c 32
        || (nat_eq c 133
            || (nat_eq c 160
                || (nat_eq c 5760
                    || ((leb 8192 c && leb c 8202)
                        || (nat_eq c 8232
                            || (nat_eq c 8233
                                || (nat_eq c 8239 || (nat_eq c 8287 || nat_eq c 12288)))))))))

trim_left : String → String
unfolding is_space
trim_left String.[] = ""
trim_left (String.◌∷◌ c s) =
    let rest = trim_left s in if is_space (code c) then rest else String.◌∷◌ c s

trim_right : String → String
unfolding is_space
trim_right String.[] = ""
trim_right (String.◌∷◌ c s) =
    let rest = trim_right s in if is_space (code c) && is_empty rest then "" else String.◌∷◌ c rest

-- strings.TrimSpace
unfoldable pub trim_space : String → String
unfolding trim_left trim_right
trim_space s = trim_right (trim_left s)

-- What follows a prefix of lower case ASCII letters and spaces, which folds no other character than
-- its own upper case.
unfoldable pub after_folded : String → String → Option String
after_folded String.[] s = some s
after_folded (String.◌∷◌ p ps) String.[] = none
after_folded (String.◌∷◌ p ps) (String.◌∷◌ c s) =
    let rest = after_folded ps s in if nat_eq (to_lower (code c)) (code p) then rest else none

-- A header that is no longer than the prefix leaves no token either.
unfoldable pub parse_bearer_token : String → Option String
unfolding after_folded trim_space
parse_bearer_token header = elim (after_folded "bearer " header) [
  | none ↦ none
  | some rest ↦ if is_empty (trim_space rest) then none else some (trim_space rest)
]

-- strings.Contains
unfoldable pub contains : String → String → Bool
unfolding has_prefix
contains String.[] sub = has_prefix sub ""
contains (String.◌∷◌ c s) sub = has_prefix sub (String.◌∷◌ c s) || contains s sub

unfoldable pub is_invalid_credential : Error → Bool
is_invalid_credential e =
    is_not_found e
    || (contains (error_text e) "invalid api key" || contains (error_text e) "api key is empty")

-- The client that goes on to the handler, or the status that ends the request.
pub data Passage : Type 0 where
  passes : Client → Passage
  aborts : ℕ → Passage

module _ (text : Collation) (clients : Table Client (client_clash text))
    (json : Codec ClientSnapshot) (cache : Cache json.Text) where
  abbrev pub passage : Result Client → Passage
  passage (ok client) = passes client
  passage (err e) = if is_invalid_credential e then aborts 401 else aborts 500

  unfoldable pub api_key_middleware :
      Calls → String → clients.State → cache.State → Passage × cache.State
  api_key_middleware net header db s = elim (parse_bearer_token header) [
    | none ↦ (aborts 401, s)
    | some key ↦
        let (r, s') = validate_api_key text clients json cache net key db s in (passage r, s')
  ]

-- none for a request that goes on
unfoldable pub admin_key_middleware : String → String → Option ℕ
admin_key_middleware admin_key header = elim (parse_bearer_token header) [
  | none ↦ some 401
  | some token ↦ if token == admin_key then none else some 401
]

bearer : parse_bearer_token "BEARER  abc " ≡ some "abc"
unfolding parse_bearer_token after_folded trim_space trim_left trim_right is_space is_empty
bearer = refl

no_token : parse_bearer_token "Bearer " ≡ none
unfolding parse_bearer_token after_folded trim_space trim_left trim_right is_space is_empty
no_token = refl
