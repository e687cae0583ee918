-- ===== src/Tracking/RoundTrip.antt =====
-- What unescaping an escaped text returns.
use email_service_with_aws_s.Base.{
  ℕ, ◌/◌, ◌%◌, ◌<◌, false, some, [], ◌∷◌, ◌++◌, ◌≡◌, refl, arith, nat_eq, if◌then◌else◌, Bytes, All,
}
use email_service_with_aws_s.Tracking.Escape.{
  hex_digit, escape_byte, query_escape, unhex, cons_byte, cons_plain, query_unescape,
}

unhex-hex_digit : (d : ℕ) → d < 16 → unhex (hex_digit d) ≡ some d
unfolding unhex hex_digit
unhex-hex_digit d h = ground arith

pub unescape-plain :
    (c : ℕ) (s : Bytes)
    → nat_eq c b'%' ≡ false
    → query_unescape (c ∷ s) ≡ cons_plain (if nat_eq c b'+' then b' ' else c) (query_unescape s)
unfolding query_unescape
unescape-plain c [] h = ground (arith, h)
unescape-plain c (d ∷ []) h = rw h
unescape-plain c (d ∷ e ∷ s) h = rw h

unescape-code :
    (d e : ℕ) (s : Bytes)
    → query_unescape (b'%' ∷ d ∷ e ∷ s) ≡ cons_byte (unhex d) (unhex e) (query_unescape s)
unfolding query_unescape
unescape-code d e s = refl

unescape-escape_byte :
    (c : ℕ) (s t : Bytes)
    → c < 256
    → query_unescape s ≡ some t
    → query_unescape (escape_byte c ++ s) ≡ some (c ∷ t)
unfolding escape_byte
unescape-escape_byte c s t h e = ground (
  arith,
  unescape-plain c s,
  unescape-plain b'+' s,
  unescape-code (hex_digit (c / 16)) (hex_digit (c % 16)) s,
  unhex-hex_digit (c / 16),
  unhex-hex_digit (c % 16),
)

-- Unescaping undoes escaping, for every text of bytes.
pub query_unescape-query_escape :
    (s : Bytes) → All (λ c. c < 256) s → query_unescape (query_escape s) ≡ some s
unfolding query_escape query_unescape
query_unescape-query_escape [] h = refl
query_unescape-query_escape (c ∷ s) (b, h) =
    unescape-escape_byte c (query_escape s) s b (query_unescape-query_escape s h)
