-- ===== src/Api/Listing.antt =====
-- What GET /v1/emails lists, page by page.
use mathlib.Core.List.{Permᴰ, Perm}
use mathlib.Core.List.Perm
use mathlib.Core.Logic.{∥∥₁_elim}
use native.Mathlib.Nat.{ℕ_set}
use Prim.Native.Nat.{◌-◌}
use email_service_with_aws_s.Base.{
  ℕ, suc, ◌+◌, ◌*◌, ◌≤◌, String, ◌≡◌, refl, sym, ap, ◌∙◌, List, length, select, arith, arrived, ok,
  nat_eq, false, drop,
}
use email_service_with_aws_s.Sql.{Table, Collation, Falls}
use email_service_with_aws_s.Sql.Sorted.{Tells, Falls-unique}
use email_service_with_aws_s.Repository.Models.{Client, EmailLog, log_clash}
use email_service_with_aws_s.Repository.Logs.{log_query, list, count_logs}
use email_service_with_aws_s.Api.{answers}
use email_service_with_aws_s.Api.Page.{pagination, pages_room}
use email_service_with_aws_s.Api.Pages.{rows_of, pages_from, pages_from_lem}
use email_service_with_aws_s.Api.Reports.{filter_of, email_page}

module _ {ℓ} {A : Type ℓ} where
  length-Permᴰ : (l k : List A) → Permᴰ l k → length l ≡ length k
  length-Permᴰ _ _ Permᴰ.nil = refl
  length-Permᴰ _ _ (Permᴰ.cons {l₁ = l} {l₂ = k} e p) = ap suc (length-Permᴰ l k p)
  length-Permᴰ _ _ (Permᴰ.swap e f) = refl
  length-Permᴰ _ _ (Permᴰ.trans {l₁ = l} {l₂ = m} {l₃ = k} p q) =
      length-Permᴰ l m p ∙ length-Permᴰ m k q

  length-Perm : (l k : List A) → Perm l k → length l ≡ length k
  length-Perm l k p = ∥∥₁_elim p (ℕ_set (length l) (length k)) (length-Permᴰ l k)

unit : (n : ℕ) → 1 - 1 + n ≡ n
unit n = omega arith

positive : (n : ℕ) → 1 ≤ n → nat_eq n 0 ≡ false
positive n h = ground arith

all_pages :
    {A : Type 0} (page limit : ℕ) (l : List A)
    → 1 ≤ limit
    → pages_from 1 (pagination page limit (length l)).pages limit l ≡ l
all_pages page limit l h =
    let n = (pagination page limit (length l)).pages in
    let start : (1 - 1) * limit ≡ 0 = omega arith in
    let room : length l ≤ (1 - 1 + n) * limit = rw (unit n) (pages_room page limit (length l) h) in
    pages_from_lem 1 n limit l (omega arith) room ∙ ap (λ k. drop k l) start

module _ (text : Collation) (logs : Table EmailLog (log_clash text)) where
  -- The logs that a request selects, in no order.
  abbrev pub selected : Client → String → logs.State → List EmailLog
  selected client status s =
      select (log_query text (filter_of text logs client status 0 0)) (logs.rows s)

  abbrev pub time_of : EmailLog → ℕ
  time_of log = log.created_at

  list_page :
      (page limit : ℕ) (status : String) (client : Client) (s : logs.State) (l : List EmailLog)
      → 1 ≤ limit
      → Tells time_of (selected client status s)
      → Perm l (selected client status s)
      → Falls time_of l
      → list text logs arrived (filter_of text logs client status limit ((page - 1) * limit)) s
        ≡ ok (rows_of page limit l)
  unfolding list filter_of
  list_page page limit status client s l h tells p f =
      let q = log_query text (filter_of text logs client status 0 0) in
      let (k, p', f', e) = logs.page_value q time_of limit ((page - 1) * limit) s in
      let same : k ≡ l =
        Falls-unique time_of k l
          (λ r t mr mt. tells r t ((Perm.mem_iff p').0 mr) ((Perm.mem_iff p').0 mt))
          (Perm.trans p' (Perm.symm p)) f' f in
      rw (positive limit h) (ap ok (e ∙ ap (rows_of page limit) same))

  count_page :
      (status : String) (client : Client) (s : logs.State) (l : List EmailLog)
      → Perm l (selected client status s)
      → count_logs text logs arrived (filter_of text logs client status 0 0) s ≡ ok (length l)
  unfolding count_logs
  count_page status client s l p =
      rw
        (logs.count_value (log_query text (filter_of text logs client status 0 0)) s
          ∙ sym (length-Perm l (selected client status s) p))
        refl

  -- If the selected logs differ in the second of their creation, then there is one list of them,
  -- newest first, of which every page has its rows, and the number of pages is such that the pages
  -- together are this list, so that each log is listed once.
  pub email_page_lem :
      (limit : ℕ) (status : String) (client : Client) (s : logs.State)
      → 1 ≤ limit
      → Tells time_of (selected client status s)
      → (l : List EmailLog) × Perm l (selected client status s)
        × Falls time_of l
        × ((page : ℕ)
            → email_page text logs arrived arrived page limit status client s
              ≡ answers 200 (rows_of page limit l, pagination page limit (length l)))
        × ((page : ℕ) → pages_from 1 (pagination page limit (length l)).pages limit l ≡ l)
  unfolding email_page
  email_page_lem limit status client s h tells =
      let q = log_query text (filter_of text logs client status 0 0) in
      let l = logs.ordered q time_of s in
      let p = logs.ordered_perm q time_of s in
      let f = logs.ordered_falls q time_of s in
      (
        l,
        p,
        f,
        λ page.
            rw
              (
                list_page page limit status client s l h tells p f,
                count_page status client s l p,
                email_page,
              )
              refl,
        λ page. all_pages page limit l h,
      )
