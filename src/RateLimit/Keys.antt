-- ===== src/RateLimit/Keys.antt =====
-- The Redis keys of internal/ratelimit/ratelimit.go.
use Prim.Native.String.{◌++◌}
use Prim.Native.Char.{code}
use text.Mathlib.TextLemmas.{
  append_cancel_left, cons-append, head-eq_of_cons-eq, tail-eq_of_cons-eq,
}
use email_service_with_aws_s.Base.{
  ℕ, ◌/◌, ◌%◌, String, ◌≡◌, ◌≢◌, ◌∙◌, ap, sym, inl, inr, Bool-cases, eq_iff, arith, false, ◌==◌,
  refl, nat_eq, if◌then◌else◌,
}
use email_service_with_aws_s.RateLimit.Calendar.{Time}

digit : ℕ → String
digit d =
    if nat_eq d 0
    then "0"
    else if nat_eq d 1
    then "1"
    else if nat_eq d 2
    then "2"
    else if nat_eq d 3
    then "3"
    else if nat_eq d 4
    then "4"
    else if nat_eq d 5
    then "5"
    else if nat_eq d 6
    then "6"
    else if nat_eq d 7
    then "7"
    else if nat_eq d 8
    then "8"
    else "9"

-- t.Format("200601"): the year in four digits and the month in two
unfoldable pub year_month : Time → String
unfolding digit
year_month t =
    digit (t.year / 1000 % 10)
    ++ (digit (t.year / 100 % 10)
        ++ (digit (t.year / 10 % 10)
            ++ (digit (t.year % 10) ++ (digit (t.month / 10 % 10) ++ digit (t.month % 10)))))

unfoldable pub hourly_key : String → String
hourly_key client_id = "ratelimit:" ++ (client_id ++ ":hourly")

unfoldable pub monthly_key : String → Time → String
unfolding year_month
monthly_key client_id t = "ratelimit:" ++ (client_id ++ (":monthly:" ++ year_month t))

-- The keys of a client differ.
apart : (month : String) → ":hourly" ≢ ":monthly:" ++ month
apart month = λ e.
    let tails : "hourly" ≡ "monthly:" ++ month =
      tail-eq_of_cons-eq (e ∙ cons-append ":" "monthly:" month) in
    let heads : code "h" ≡ code "m" =
      ap code (head-eq_of_cons-eq (tails ∙ cons-append "m" "onthly:" month)) in
    omega (arith, heads)

pub monthly_ne_hourly : (id : String) (t : Time) → (monthly_key id t == hourly_key id) ≡ false
unfolding hourly_key monthly_key
monthly_ne_hourly id t = elim (Bool-cases (monthly_key id t == hourly_key id)) [
  | inr ne ↦ ne
  | inl same ↦
      let e : hourly_key id ≡ monthly_key id t = sym ((eq_iff _ _).0 same) in
      absurd (
        apart (year_month t) (
          append_cancel_left id ":hourly" (":monthly:" ++ year_month t) (
            append_cancel_left "ratelimit:" (id ++ ":hourly") (id ++ (":monthly:" ++ year_month t))
              e)))
]

keys :
    (hourly_key "c1" ≡ "ratelimit:c1:hourly")
    × (monthly_key "c1" (record { year = 2024; month = 9; day = 3; nanos = 0 })
        ≡ "ratelimit:c1:monthly:202409")
unfolding hourly_key monthly_key
keys = (refl, refl)
