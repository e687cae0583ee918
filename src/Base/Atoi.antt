-- ===== src/Base/Atoi.antt =====
-- strconv.Atoi of a 64-bit machine.
use Prim.Native.Nat.{ℕ, ◌+◌, ◌-◌, ◌*◌}
use Prim.Native.Char.{code}
use Prim.Native.String.{String}
use mathlib.Core.Path.{◌≡◌, refl}
use mathlib.Core.Bool.{◌&&◌}
use mathlib.Core.Option.{Option, none, some}
use email_service_with_aws_s.Base.Tests.{leb, ltb, nat_eq, if◌then◌else◌}
use email_service_with_aws_s.Base.Int.{ℤ, pos, negsuc}

-- `n` and the digits that follow.
digits : ℕ → String → Option ℕ
digits n String.[] = some n
digits n (String.◌∷◌ c s) =
    let rest = digits (n * 10 + (code c - b'0')) s in
    if leb b'0' (code c) && leb (code c) b'9' then rest else none

unsigned : String → Option ℕ
unfolding digits
unsigned String.[] = none
unsigned (String.◌∷◌ c s) = digits 0 (String.◌∷◌ c s)

-- 2^63
abbrev limit : ℕ
limit = 9223372036854775808

abbrev in_range : Option ℕ → Option ℤ
in_range none = none
in_range (some n) = if ltb n limit then some (pos n) else none

abbrev minus : ℕ → ℤ
minus n = if nat_eq n 0 then pos 0 else negsuc (n - 1)

abbrev negated : Option ℕ → Option ℤ
negated none = none
negated (some n) = if leb n limit then some (minus n) else none

-- none for an error
unfoldable pub atoi : String → Option ℤ
unfolding unsigned
atoi String.[] = none
atoi (String.◌∷◌ c s) =
    if nat_eq (code c) b'-'
    then negated (unsigned s)
    else if nat_eq (code c) b'+'
    then in_range (unsigned s)
    else in_range (unsigned (String.◌∷◌ c s))

minus_twelve : atoi "-12" ≡ some (negsuc 11)
unfolding atoi unsigned digits
minus_twelve = refl

no_number : atoi "1_000" ≡ none
unfolding atoi unsigned digits
no_number = refl

too_large : atoi "9223372036854775808" ≡ none
unfolding atoi unsigned digits
too_large = refl
