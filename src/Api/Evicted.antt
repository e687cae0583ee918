-- ===== src/Api/Evicted.antt =====
-- The logins of a client whose row is inactive and whose cached logins are evicted.
use mathlib.Core.List.{Memᴰ}
use email_service_with_aws_s.Base.{
  ℕ, String, ◌≡◌, ◌≢◌, refl, ap, Bool, true, false, some, List, [], ◌∷◌, eq_refl, arith,
  if◌then◌else◌, inl, inr, Codec, Result, ok, err, is_ok, Outcome, arrived, lost, late,
}
use email_service_with_aws_s.Redis.Cache.{Cache}
use email_service_with_aws_s.Sql.{Table, Collation, update_where}
use email_service_with_aws_s.Repository.Models.{Client, client_clash}
use email_service_with_aws_s.Repository.Clients.{touched, has_id, update_client}
use email_service_with_aws_s.Auth.Snapshot.{ClientSnapshot}
use email_service_with_aws_s.Auth.{
  Bcrypt, Calls, get_from_cache, validate_api_key, validate_smtp_credentials, invalidate_cache,
}
use email_service_with_aws_s.Auth.Writes.{Route, key_of, test_of, look, found}
use email_service_with_aws_s.Auth.Writes.Route.{by_api_key, by_smtp_username}
use email_service_with_aws_s.Auth.Source.{
  get_from_cache-Hit, validate_api_key-source, validate_smtp_credentials-source,
}

-- An updated table has the rows of the old one, changed where the test holds.
Memᴰ-update_where :
    {Row : Type 0} (test : Row → Bool) (change : Row → Row) (r : Row) (l : List Row)
    → Memᴰ r (update_where test change l)
    → (q : Row) × Memᴰ q l × (r ≡ (if test q then change q else q))
Memᴰ-update_where test change r [] m = elim m [ ]
Memᴰ-update_where test change r (x ∷ l) (Memᴰ.head e) = (x, Memᴰ.head refl, e)
Memᴰ-update_where test change r (x ∷ l) (Memᴰ.tail m) =
    let (q, m', e) = Memᴰ-update_where test change r l m in (q, Memᴰ.tail m', e)

module _ (text : Collation) (clients : Table Client (client_clash text))
    (json : Codec ClientSnapshot) (cache : Cache json.Text) where
  -- The keys of the table are unique: rows that clash are one row.
  abbrev pub IsKeyed : clients.State → Type 0
  IsKeyed db =
      (r q : Client)
      → Memᴰ r (clients.rows db)
      → Memᴰ q (clients.rows db)
      → client_clash text r q ≡ true
      → text.same r.id q.id ≡ true

  name_of : Route → Client → String
  name_of by_api_key c = c.api_key
  name_of by_smtp_username c = c.smtp_username

  -- The row of a client whose status is set to inactive.
  module _ (db : clients.State) (keyed : IsKeyed db) (row : Client)
      (inside : Memᴰ row (clients.rows db)) (at : ℕ) where
    abbrev change : Client → Client
    change r = touched at r (record r {
      name = row.name;
      hourly_limit = row.hourly_limit;
      monthly_limit = row.monthly_limit;
      is_active = false;
    })

    unnamed :
        (route : Route) (q : Client)
        → Memᴰ q (clients.rows db)
        → test_of text route (name_of route row) (if has_id text row.id q then change q else q)
          ≡ false
    unfolding name_of
    unnamed by_api_key q m = ground (arith, keyed q row m inside)
    unnamed by_smtp_username q m = ground (arith, keyed q row m inside)

    module _ (db' : clients.State)
        (renamed : clients.rows db'
          ≡ update_where (has_id text row.id) change (clients.rows db)) where
      nobody :
          (route : Route) (net : Outcome) (x : Client)
          → look text clients json cache route net (name_of route row) db' ≢ ok x
      nobody route net x = λ e.
          let (m, t) = found text clients json cache route net (name_of route row) db' x e in
          let (q, m', same) =
            Memᴰ-update_where (has_id text row.id) change x (clients.rows db) (rw renamed at m) in
          cc (unnamed route q m', ap (test_of text route (name_of route row)) same, t)

      module _ (s : cache.State) where
        abbrev evicted : cache.State
        evicted =
            (invalidate_cache text clients json cache arrived (record row { is_active = false })
              s).1

        not_cached :
            (route : Route) (t : ℕ) (w : json.Text)
            → cache.get t (key_of route (name_of route row)) evicted ≢ some w
        unfolding invalidate_cache name_of
        not_cached by_api_key t w = λ e.
            let gone = (cache.get-del _ s t (key_of by_api_key row.api_key) w e).0 in
            cc (eq_refl (key_of by_api_key row.api_key), gone)
        not_cached by_smtp_username t w = λ e.
            let gone = (cache.get-del _ s t (key_of by_smtp_username row.smtp_username) w e).0 in
            ground (arith, eq_refl (key_of by_smtp_username row.smtp_username), gone)

        no_hit :
            (route : Route) (net : Outcome) (t : ℕ) (x : Client)
            → get_from_cache text clients json cache net t
                (key_of route (name_of route row))
                evicted
              ≢ ok x
        no_hit route net t x = λ e.
            let hit =
              get_from_cache-Hit text clients json cache net t (key_of route (name_of route row)) x
                evicted e in
            not_cached route t hit.w hit.held

        pub refused_key :
            (net : Calls) (x : Client)
            → (validate_api_key text clients json cache net row.api_key db' evicted).0 ≢ ok x
        unfolding name_of
        refused_key net x = λ e.
            elim (validate_api_key-source text clients json cache db' evicted net row.api_key x e) [
              | inl h ↦ no_hit by_api_key net.looked_up net.at x h
              | inr h ↦ nobody by_api_key net.found x h
            ]

        pub refused_login :
            (net : Calls) (bcrypt : Bcrypt) (password : String) (x : Client)
            → (validate_smtp_credentials text clients json cache bcrypt net row.smtp_username
                password db' evicted).0
              ≢ ok x
        unfolding name_of
        refused_login net bcrypt password x = λ e.
            elim (validate_smtp_credentials-source text clients json cache db' evicted net
              row.smtp_username bcrypt password x e).0 [
                | inl h ↦ no_hit by_smtp_username net.looked_up net.at x h
                | inr h ↦ nobody by_smtp_username net.found x h
              ]

  pub rows-update_client :
      (net : Outcome) (at : ℕ) (c : Client) (db : clients.State) (u : Unit {0})
      → (update_client text clients net at c db).0 ≡ ok u
      → clients.rows (update_client text clients net at c db).1
        ≡ update_where
            (has_id text c.id)
            (λ r. touched at r (record r {
              name = c.name;
              hourly_limit = c.hourly_limit;
              monthly_limit = c.monthly_limit;
              is_active = c.is_active;
            }))
            (clients.rows db)
  unfolding update_client
  rows-update_client arrived at c db u e = clients.rows-update _ _ db
  rows-update_client (lost x) at c db u e = cc
  rows-update_client (late x) at c db u e = cc

  pub is_ok-eq-false : (r : Result Client) → ((x : Client) → r ≢ ok x) → is_ok r ≡ false
  is_ok-eq-false (ok x) h = absurd (h x refl)
  is_ok-eq-false (err e) h = refl
