-- ===== src/Repository/StatLaws.antt =====
-- Daily statistics: what one increment does to the totals of a range of days.
use email_service_with_aws_s.Base.{
  ℕ, suc, ◌+◌, ◌≤◌, String, ◌≡◌, refl, Bool, true, false, ◌&&◌, none, some, List, [], ◌∷◌, ◌++◌,
  arith, select, any, Bool-cases, inl, inr, if◌then◌else◌, ok, Outcome, arrived, map_ok, is_ok, ap,
  select-append, length,
}
use email_service_with_aws_s.Sql.{Table, Collation, update_where}
use email_service_with_aws_s.Repository.Models.{EmailDailyStat, stat_clash, StatsSummary}
use email_service_with_aws_s.Repository.Stats.{
  Column, column, bump, empty_day, sum_of, in_days, allowed_stat_column, increment_stat,
  get_summary,
}
use email_service_with_aws_s.Repository.Stats.Column.{
  sent, delivered, opened, clicked, bounced, complained,
}

-- The total of one column.
abbrev pub total : Column → StatsSummary → ℕ
total sent t = t.sent
total delivered t = t.delivered
total opened t = t.opened
total clicked t = t.clicked
total bounced t = t.bounced
total complained t = t.complained

abbrev pub same_column : Column → Column → Bool
same_column sent sent = true
same_column delivered delivered = true
same_column opened opened = true
same_column clicked clicked = true
same_column bounced bounced = true
same_column complained complained = true
same_column _ _ = false

column-bump :
    (c d : Column) (r : EmailDailyStat)
    → column d (bump c r) ≡ (if same_column c d then suc (column d r) else column d r)
column-bump sent d r = ground arith
column-bump c d r = ground arith

sum_of-append :
    (c : Column) (l k : List EmailDailyStat) → sum_of c (l ++ k) ≡ sum_of c l + sum_of c k
unfolding sum_of
sum_of-append c [] k = omega arith
sum_of-append c (r ∷ l) k = omega (arith, sum_of-append c l k)

column-empty_day :
    (d : Column) (client_id : String) (date : ℕ) → column d (empty_day client_id date) ≡ 0
column-empty_day sent client_id date = refl
column-empty_day d client_id date = ground arith

key-bump :
    (c : Column) (r : EmailDailyStat)
    → ((bump c r).client_id ≡ r.client_id) × ((bump c r).date ≡ r.date)
key-bump c r = ground arith

-- A bump of the rows that `day` selects, seen through a test `p` that is `b` on all of them.
sum_of-update_where :
    (c d : Column) (day p : EmailDailyStat → Bool) (b : Bool) (l : List EmailDailyStat)
    → ((r : EmailDailyStat) → p (bump c r) ≡ p r)
    → ((r : EmailDailyStat) → day r ≡ true → p r ≡ b)
    → sum_of d (select p (update_where day (bump c) l))
      ≡ sum_of d (select p l) + (if same_column c d && b then length (select day l) else 0)
unfolding sum_of
sum_of-update_where c d day p b [] keep same = ground arith
sum_of-update_where c d day p b (r ∷ l) keep same =
    ground (arith, keep r, same r, column-bump c d r, sum_of-update_where c d day p b l keep same)

module _ (text : Collation) (table : Table EmailDailyStat (stat_clash text)) (client_id : String)
    (date : ℕ) where
  open table use {State, rows}

  abbrev day_of : EmailDailyStat
  day_of = empty_day client_id date

  -- One row at most for the client and the day, as the primary key wants.
  abbrev pub HasOneRow : State → Type 0
  HasOneRow s = length (select (stat_clash text day_of) (rows s)) ≤ 1

  in_days-bump :
      (c : Column) (cl : String) (f t : ℕ) (r : EmailDailyStat)
      → in_days text cl f t (bump c r) ≡ in_days text cl f t r
  in_days-bump c cl f t r = ground (arith, key-bump c r)

  in_days_of_day :
      (cl : String) (f t : ℕ) (r : EmailDailyStat)
      → stat_clash text day_of r ≡ true
      → in_days text cl f t r ≡ in_days text cl f t day_of
  in_days_of_day cl f t r h = ground (
    arith,
    text.same_trans client_id r.client_id cl,
    text.same_trans r.client_id client_id cl,
    text.same_sym client_id r.client_id,
  )

  length_of_any :
      (p : EmailDailyStat → Bool) (l : List EmailDailyStat)
      → any p l ≡ true
      → 1 ≤ length (select p l)
  length_of_any p [] h = cc
  length_of_any p (r ∷ l) h = ground (arith, length_of_any p l)

  clash-bump : (c : Column) → stat_clash text (bump c day_of) ≡ stat_clash text day_of
  clash-bump sent = refl
  clash-bump c = refl

  upsert_sum :
      (c d : Column) (cl : String) (f t : ℕ) (s : State)
      → HasOneRow s
      → sum_of d (select (in_days text cl f t) (rows (table.upsert (bump c day_of) (bump c) s)))
        ≡ sum_of d (select (in_days text cl f t) (rows s))
          + (if same_column c d && in_days text cl f t day_of then 1 else 0)
  unfolding sum_of
  upsert_sum c d cl f t s one = rw (table.rows-upsert (bump c day_of) (bump c) s) (
      rw (clash-bump c) (elim (Bool-cases (any (stat_clash text day_of) (rows s))) [
        | inl old ↦ rw old (
            ground (
              arith,
              sum_of-update_where c d (stat_clash text day_of) (in_days text cl f t)
                  (in_days text cl f t day_of) (rows s) (in_days-bump c cl f t)
                  (in_days_of_day cl f t),
              length_of_any (stat_clash text day_of) (rows s) old,
            ))
        | inr new ↦ rw new (
            rw (select-append (in_days text cl f t) (rows s) (bump c day_of ∷ [])) (
              rw
                (sum_of-append d (select (in_days text cl f t) (rows s))
                  (select (in_days text cl f t) (bump c day_of ∷ [])))
                (ground (
                  arith,
                  in_days-bump c cl f t day_of,
                  column-bump c d day_of,
                  column-empty_day d client_id date,
                ))))
      ]))

  -- If the client has one row at most for the day and no call is lost, an event of a known column
  -- adds one to that column of every range of days that holds its date, for its own client, and
  -- nothing to any other total.
  pub summary-increment_stat :
      (name : String) (c d : Column) (cl : String) (f t : ℕ) (s : State)
      → HasOneRow s
      → allowed_stat_column name ≡ some c
      → map_ok (total d) (
          get_summary text table arrived cl f t
            (increment_stat text table arrived client_id date name s).1)
        ≡ map_ok
            (λ u. total d u + (if same_column c d && in_days text cl f t day_of then 1 else 0))
            (get_summary text table arrived cl f t s)
  unfolding increment_stat get_summary
  summary-increment_stat name c sent cl f t s one named =
      rw named (ap ok (upsert_sum c sent cl f t s one))
  summary-increment_stat name c d cl f t s one named =
      rw named (ap ok (upsert_sum c d cl f t s one))

  -- A name that is no column is an error, and the table stays as it is.
  pub increment_stat_unknown :
      (net : Outcome) (name : String) (s : State)
      → allowed_stat_column name ≡ none
      → (is_ok (increment_stat text table net client_id date name s).0 ≡ false)
        × ((increment_stat text table net client_id date name s).1 ≡ s)
  unfolding increment_stat
  increment_stat_unknown net name s unknown = rw unknown (refl, refl)
