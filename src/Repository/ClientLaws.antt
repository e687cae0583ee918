-- ===== src/Repository/ClientLaws.antt =====
-- What the queries of the logins find once Create has stored a client.
use email_service_with_aws_s.Base.{
  ℕ, String, ◌≡◌, refl, ◌∙◌, Bool, true, some, [], ◌∷◌, any, select, select-append, arith, inl, inr,
  Bool-cases, ok, Outcome, arrived, lost, late,
}
use email_service_with_aws_s.Sql.{Table, Collation, Inserted, stored, duplicate_key}
use email_service_with_aws_s.Sql.Rows.{get-eq-first, select-eq-nil_of_implies}
use email_service_with_aws_s.Repository.Models.{Client, client_clash}
use email_service_with_aws_s.Repository.Clients.{
  has_api_key, has_smtp_username, get_by_api_key, get_by_smtp_username, create, unless_duplicate,
}

module _ (text : Collation) (clients : Table Client (client_clash text)) where
  -- A row that was inserted is the one that a test finds which is true of it and of no row with other
  -- keys.
  get-insert :
      (test : Client → Bool) (c : Client) (s : clients.State)
      → ((r : Client) → test r ≡ true → client_clash text c r ≡ true)
      → test c ≡ true
      → (clients.insert c s).0 ≡ stored
      → clients.get test (clients.insert c s).1 ≡ some c
  get-insert test c s sub t e = elim (Bool-cases (any (client_clash text c) (clients.rows s))) [
    | inl m ↦ cc (rw m at (clients.insert_value c s), e)
    | inr m ↦
        let rows' = rw m at (clients.rows-insert c s) in
        let alone : select test (clients.rows (clients.insert c s).1) ≡ c ∷ [] = rw rows' (
          select-append test (clients.rows s) (c ∷ [])
          ∙ rw (select-eq-nil_of_implies (client_clash text c) test (clients.rows s) sub m)
              (rw t refl)) in
        rw (get-eq-first clients test (clients.insert c s).1 (rw alone (omega arith)))
          (rw alone refl)
  ]

  abbrev pub stamped : ℕ → Client → Client
  stamped at c = record c { created_at = at; updated_at = at }

  was_stored :
      (context : String) (i : Inserted) (u : Unit {0})
      → unless_duplicate context (ok i) ≡ ok u
      → i ≡ stored
  was_stored context stored u e = refl
  was_stored context duplicate_key u e = cc

  key_clashes : (c r : Client) → has_api_key text c.api_key r ≡ true → client_clash text c r ≡ true
  key_clashes c r h = ground (arith, h, text.same_sym r.api_key c.api_key)

  name_clashes :
      (c r : Client)
      → has_smtp_username text c.smtp_username r ≡ true
      → client_clash text c r ≡ true
  name_clashes c r h = ground (arith, h, text.same_sym r.smtp_username c.smtp_username)

  -- A client that Create stored is what both queries of the logins find.
  pub create-Finds :
      (net : Outcome) (at : ℕ) (c : Client) (s : clients.State) (u : Unit {0})
      → c.is_active ≡ true
      → (create text clients net at c s).0 ≡ ok u
      → (get_by_api_key text clients arrived c.api_key (create text clients net at c s).1
          ≡ ok (stamped at c))
        × (get_by_smtp_username text clients arrived c.smtp_username
              (create text clients net at c s).1
            ≡ ok (stamped at c))
  unfolding create get_by_api_key get_by_smtp_username
  create-Finds (lost x) at c s u active e = cc
  create-Finds (late x) at c s u active e = cc
  create-Finds arrived at c s u active e =
      let done = was_stored "ClientRepository.Create" (clients.insert (stamped at c) s).0 u e in
      (
        rw
            (get-insert (has_api_key text c.api_key) (stamped at c) s (key_clashes (stamped at c))
              (ground (arith, active, text.same_refl c.api_key)) done)
            refl,
        rw
            (get-insert (has_smtp_username text c.smtp_username) (stamped at c) s
              (name_clashes (stamped at c)) (ground (arith, active, text.same_refl c.smtp_username))
              done)
            refl,
      )
