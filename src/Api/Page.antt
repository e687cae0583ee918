-- ===== src/Api/Page.antt =====
-- internal/api/response.go: Page; cmd/api/main.go: parseIntQuery.
use Prim.Native.Nat.{◌-◌, ◌/◌}
use native.Mathlib.Nat.{lt-mul-div-succ, div-mul-le_self}
use email_service_with_aws_s.Base.{
  ℕ, ◌+◌, ◌*◌, ◌≤◌, ◌<◌, String, Option, none, some, ℤ, leb_ℤ, ◌≤ℤ◌, ltb, arith, if◌then◌else◌,
  atoi,
}

pub record PaginationMeta : Type 0 where
  pub page : ℕ
  pub limit : ℕ
  pub total : ℕ
  pub pages : ℕ

-- math.Ceil(float64(total) / float64(limit)), which is exact for totals below 2^45 and the limits up to
-- 200 of the handlers.
unfoldable pub ceiling : ℕ → ℕ → ℕ
ceiling total limit = (total + limit - 1) / limit

unfoldable pub pagination : ℕ → ℕ → ℕ → PaginationMeta
unfolding ceiling
pagination page limit total =
    let pages = ceiling total limit in
    record { page = page; limit = limit; total = total; pages = if ltb pages 1 then 1 else pages }

clamped : Option ℤ → ℤ → ℤ → ℤ → ℤ
clamped none default_val min max = default_val
clamped (some v) default_val min max =
    if leb_ℤ min v then (if leb_ℤ v max then v else max) else default_val

unfoldable pub parse_int_query : String → ℤ → ℤ → ℤ → ℤ
unfolding clamped
parse_int_query query default_val min max = clamped (atoi query) default_val min max

clamped_bounds :
    (o : Option ℤ) (d low high : ℤ)
    → low ≤ℤ d
    → d ≤ℤ high
    → (low ≤ℤ clamped o d low high) × (clamped o d low high ≤ℤ high)
unfolding clamped
clamped_bounds none d low high h k = (h, k)
clamped_bounds (some v) d low high h k = (ground arith, ground arith)

pub parse_int_query_bounds :
    (query : String) (default_val min max : ℤ)
    → min ≤ℤ default_val
    → default_val ≤ℤ max
    → (min ≤ℤ parse_int_query query default_val min max)
      × (parse_int_query query default_val min max ≤ℤ max)
unfolding parse_int_query
parse_int_query_bounds query d low high h k = clamped_bounds (atoi query) d low high h k

ceiling_bounds :
    (total limit : ℕ)
    → 1 ≤ limit
    → (total ≤ ceiling total limit * limit) × (ceiling total limit * limit < total + limit)
unfolding ceiling
ceiling_bounds total limit h =
    let above = lt-mul-div-succ (total + limit - 1) {b = limit} h in
    let below = div-mul-le_self (total + limit - 1) limit in
    (ground (arith, above), ground (arith, below))

-- The pages have room for every row.
pub pages_room :
    (page limit total : ℕ) → 1 ≤ limit → total ≤ (pagination page limit total).pages * limit
unfolding pagination
pages_room page limit total h =
    let (room, tight) = ceiling_bounds total limit h in ground (arith, room)
