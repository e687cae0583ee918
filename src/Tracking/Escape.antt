-- ===== src/Tracking/Escape.antt =====
-- url.QueryEscape and url.QueryUnescape of Go's net/url, over bytes.
use email_service_with_aws_s.Base.{
  ℕ, ◌+◌, ◌-◌, ◌*◌, ◌/◌, ◌%◌, Bool, ◌&&◌, ◌||◌, Option, none, some, [], ◌∷◌, ◌++◌, ◌≡◌, refl, ltb,
  leb, nat_eq, if◌then◌else◌, Bytes, bytes,
}

-- Letters, digits and - _ . ~
unfoldable pub is_unreserved : ℕ → Bool
is_unreserved c =
    (leb b'a' c && leb c b'z')
    || ((leb b'A' c && leb c b'Z')
        || ((leb b'0' c && leb c b'9')
            || (nat_eq c b'-' || (nat_eq c b'_' || (nat_eq c b'.' || nat_eq c b'~')))))

-- A digit of "0123456789ABCDEF"
unfoldable pub hex_digit : ℕ → ℕ
hex_digit d = if ltb d 10 then 48 + d else 55 + d

unfoldable pub escape_byte : ℕ → Bytes
unfolding is_unreserved hex_digit
escape_byte c =
    if is_unreserved c
    then c ∷ []
    else if nat_eq c b' '
    then b'+' ∷ []
    else b'%' ∷ hex_digit (c / 16) ∷ hex_digit (c % 16) ∷ []

unfoldable pub query_escape : Bytes → Bytes
unfolding escape_byte
query_escape [] = []
query_escape (c ∷ s) = escape_byte c ++ query_escape s

-- The value of a hexadecimal digit in either case.
unfoldable pub unhex : ℕ → Option ℕ
unhex c =
    if leb b'0' c && leb c b'9'
    then some (c - 48)
    else if leb b'a' c && leb c b'f'
    then some (c - 87)
    else if leb b'A' c && leb c b'F'
    then some (c - 55)
    else none

abbrev pub cons_byte : Option ℕ → Option ℕ → Option Bytes → Option Bytes
cons_byte (some h) (some l) (some s) = some ((16 * h + l) ∷ s)
cons_byte _ _ _ = none

abbrev pub cons_plain : ℕ → Option Bytes → Option Bytes
cons_plain c none = none
cons_plain c (some s) = some (c ∷ s)

-- none: a % without two hexadecimal digits
unfoldable pub query_unescape : Bytes → Option Bytes
unfolding unhex
query_unescape [] = some []
query_unescape (c ∷ []) =
    if nat_eq c b'%' then none else some ((if nat_eq c b'+' then b' ' else c) ∷ [])
query_unescape (c ∷ d ∷ []) =
    let rest = query_unescape (d ∷ []) in
    if nat_eq c b'%' then none else cons_plain (if nat_eq c b'+' then b' ' else c) rest
query_unescape (c ∷ d ∷ e ∷ s) =
    let after_code = query_unescape s in
    let rest = query_unescape (d ∷ e ∷ s) in
    if nat_eq c b'%'
    then cons_byte (unhex d) (unhex e) after_code
    else cons_plain (if nat_eq c b'+' then b' ' else c) rest

escapes :
    (query_escape (bytes "https://x.y/?a=b c+d%") ≡ bytes "https%3A%2F%2Fx.y%2F%3Fa%3Db+c%2Bd%25")
    × (query_unescape (bytes "a%2Bb+c") ≡ some (bytes "a+b c"))
    × (query_unescape (bytes "50%") ≡ none)
unfolding query_escape query_unescape
escapes = (refl, refl, refl)
