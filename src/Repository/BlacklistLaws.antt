-- ===== src/Repository/BlacklistLaws.antt =====
-- The blacklist of a client: what a look-up answers after each statement.
use email_service_with_aws_s.Base.{
  ℕ, String, ◌≡◌, refl, Bool, true, not, ◌&&◌, ◌||◌, List, [], ◌∷◌, ◌++◌, arith, select, any, ltb,
  length, Bool-cases, inl, inr, ap, ok, arrived, map_ok,
}
use email_service_with_aws_s.Sql.{Table, Collation, delete_where}
use email_service_with_aws_s.Repository.Models.{BlacklistedEmail, blacklist_clash}
use email_service_with_aws_s.Repository.Blacklist.{
  is_entry, of_client, is_blacklisted, add, remove, remove_all,
}

count_any :
    (p : BlacklistedEmail → Bool) (l : List BlacklistedEmail)
    → ltb 0 (length (select p l)) ≡ any p l
count_any p [] = refl
count_any p (e ∷ l) = ground (arith, count_any p l)

any-append :
    (p : BlacklistedEmail → Bool) (l k : List BlacklistedEmail)
    → any p (l ++ k) ≡ (any p l || any p k)
any-append p [] k = refl
any-append p (e ∷ l) k = ground (arith, any-append p l k)

any-delete_where :
    (p q : BlacklistedEmail → Bool) (b : Bool) (l : List BlacklistedEmail)
    → ((e : BlacklistedEmail) → p e ≡ true → q e ≡ b)
    → any p (delete_where q l) ≡ (not b && any p l)
any-delete_where p q b [] same = ground arith
any-delete_where p q b (e ∷ l) same = ground (arith, same e, any-delete_where p q b l same)

module _ (text : Collation) (table : Table BlacklistedEmail (blacklist_clash text)) where
  open table use {State, rows}

  -- Both pairs name the same entry.
  abbrev pub same_entry : String → String → String → String → Bool
  same_entry c e c' e' = text.same c c' && text.same e e'

  pub blacklisted-eq-any :
      (c e : String) (s : State)
      → is_blacklisted text table arrived c e s ≡ ok (any (is_entry text c e) (rows s))
  unfolding is_blacklisted
  blacklisted-eq-any c e s =
      rw (table.count_value (is_entry text c e) s) (rw (count_any (is_entry text c e) (rows s)))

  any_of_same :
      (a : BlacklistedEmail) (c e : String) (l : List BlacklistedEmail)
      → same_entry a.client_id a.email c e ≡ true
      → any (is_entry text c e) l ≡ any (blacklist_clash text a) l
  any_of_same a c e [] h = refl
  any_of_same a c e (x ∷ l) h = ground (
    arith,
    any_of_same a c e l h,
    text.same_trans a.client_id c x.client_id,
    text.same_trans a.email e x.email,
    text.same_sym x.client_id c,
    text.same_sym x.email e,
    text.same_sym a.client_id c,
    text.same_sym a.email e,
    text.same_sym a.client_id x.client_id,
    text.same_sym a.email x.email,
    text.same_trans x.client_id a.client_id c,
    text.same_trans x.email a.email e,
  )

  -- An address that was added is blacklisted for its client, whether or not it was before; every
  -- other look-up answers as before.
  pub is_blacklisted-add :
      (at : ℕ) (a : BlacklistedEmail) (c e : String) (s : State)
      → is_blacklisted text table arrived c e (add text table arrived at a s).1
        ≡ map_ok
            (λ old. same_entry a.client_id a.email c e || old)
            (is_blacklisted text table arrived c e s)
  unfolding add
  is_blacklisted-add at a c e s =
      rw (blacklisted-eq-any c e (add text table arrived at a s).1, blacklisted-eq-any c e s)
        (rw (table.rows-insert_ignore (record a { created_at = at }) s)
          (elim (Bool-cases (any (blacklist_clash text a) (rows s))) [
            | inl old ↦ rw old (ground (arith, old, any_of_same a c e (rows s)))
            | inr new ↦ rw new (
                rw (any-append (is_entry text c e) (rows s) (record a { created_at = at } ∷ []))
                  (ground arith))
          ]))

  entry_agrees :
      (c e c' e' : String) (x : BlacklistedEmail)
      → is_entry text c e x ≡ true
      → is_entry text c' e' x ≡ same_entry c e c' e'
  entry_agrees c e c' e' x h = ground (
    arith,
    text.same_sym x.client_id c,
    text.same_sym x.email e,
    text.same_trans c x.client_id c',
    text.same_trans e x.email e',
    text.same_trans x.client_id c c',
    text.same_trans x.email e e',
  )

  -- An address that was removed is not blacklisted for its client; every other look-up answers as
  -- before.
  pub is_blacklisted-remove :
      (c e c' e' : String) (s : State)
      → is_blacklisted text table arrived c e (remove text table arrived c' e' s).1
        ≡ map_ok
            (λ old. not (same_entry c e c' e') && old)
            (is_blacklisted text table arrived c e s)
  unfolding remove
  is_blacklisted-remove c e c' e' s =
      rw (blacklisted-eq-any c e (remove text table arrived c' e' s).1, blacklisted-eq-any c e s)
        (rw (table.rows-delete (is_entry text c' e') s) (
          ap ok (
            any-delete_where (is_entry text c e) (is_entry text c' e') (same_entry c e c' e')
              (rows s) (entry_agrees c e c' e'))))

  client_agrees :
      (c e c' : String) (x : BlacklistedEmail)
      → is_entry text c e x ≡ true
      → of_client text c' x ≡ text.same c c'
  client_agrees c e c' x h = ground (
    arith,
    text.same_sym x.client_id c,
    text.same_trans c x.client_id c',
    text.same_trans x.client_id c c',
  )

  -- RemoveAll clears the addresses of its client and of no other.
  pub is_blacklisted-remove_all :
      (c e c' : String) (s : State)
      → is_blacklisted text table arrived c e (remove_all text table arrived c' s).1
        ≡ map_ok (λ old. not (text.same c c') && old) (is_blacklisted text table arrived c e s)
  unfolding remove_all
  is_blacklisted-remove_all c e c' s =
      rw (blacklisted-eq-any c e (remove_all text table arrived c' s).1, blacklisted-eq-any c e s)
        (rw (table.rows-delete (of_client text c') s) (
          ap ok (
            any-delete_where (is_entry text c e) (of_client text c') (text.same c c') (rows s)
              (client_agrees c e c'))))
