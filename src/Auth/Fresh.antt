-- ===== src/Auth/Fresh.antt =====
-- How old the client can be that the cache answers with.
use mathlib.Core.List.{Memᴰ}
use email_service_with_aws_s.Base.{
  ℕ, ◌+◌, ◌≤◌, ◌<◌, String, ◌≡◌, sym, ap, ◌∙◌, true, none, some, inl, inr, arith, Codec, ok,
  ok-injective, Outcome, arrived, lost, late,
}
use email_service_with_aws_s.Redis.Cache.{Cache}
use email_service_with_aws_s.Sql.{Table, Collation}
use email_service_with_aws_s.Repository.Models.{Client, client_clash}
use email_service_with_aws_s.Auth.Snapshot.{
  ClientSnapshot, to_snapshot, from_snapshot, from_snapshot-to_snapshot,
}
use email_service_with_aws_s.Auth.{cache_ttl, write_to_cache, invalidate_cache}
use email_service_with_aws_s.Auth.Writes.{
  Route, key_of, test_of, same_test, look, found, Written, unwritten, set_to,
  write_to_cache-Written,
}

module _ (text : Collation) (clients : Table Client (client_clash text))
    (json : Codec ClientSnapshot) (cache : Cache json.Text) (db : ℕ → clients.State)
    (patience : ℕ) where
  open json use {unmarshal}

  -- The row was in the table and active at a time no later than `t`, less than the time to live
  -- and a request before it.
  pub record WasActive (route : Route) (name : String) (client : Client) (t : ℕ) : Type 0 where
    pub then' : ℕ
    pub past : then' ≤ t
    pub recent : t < then' + patience + cache_ttl
    pub in_table : Memᴰ client (clients.rows (db then'))
    pub active : test_of text route name client ≡ true

  -- The caches that any interleaving of the calls of the authenticators leaves, at some time. A
  -- client is written that the database answered with at most `patience` earlier.
  pub data Reaches : ℕ → cache.State → Type 0 where
    start :
        (now : ℕ) (s : cache.State)
        → ((t : ℕ) (k : String) → cache.get t k s ≡ none)
        → Reaches now s
    wait : (now later : ℕ) (s : cache.State) → Reaches now s → now ≤ later → Reaches later s
    fill :
        (now asked : ℕ) (s : cache.State) (route : Route) (name : String) (client : Client)
        (read written : Outcome)
        → Reaches now s
        → asked ≤ now
        → now ≤ asked + patience
        → look text clients json cache route read name (db asked) ≡ ok client
        → Reaches now
            (write_to_cache text clients json cache written now (key_of route name) client s)
    evict :
        (now : ℕ) (s : cache.State) (client : Client) (net : Outcome)
        → Reaches now s
        → Reaches now (invalidate_cache text clients json cache net client s).1

  abbrev pub IsFresh : ℕ → cache.State → Type 0
  IsFresh now s =
      (t : ℕ) (route : Route) (name : String) (w : json.Text) (snap : ClientSnapshot)
      → now ≤ t
      → cache.get t (key_of route name) s ≡ some w
      → unmarshal w ≡ ok snap
      → WasActive route name (from_snapshot snap) t

  fill-IsFresh :
      (now asked : ℕ) (s v : cache.State) (route : Route) (name : String) (client : Client)
      (read : Outcome)
      → IsFresh now s
      → asked ≤ now
      → now ≤ asked + patience
      → look text clients json cache route read name (db asked) ≡ ok client
      → Written text clients json cache now (key_of route name) client s v
      → IsFresh now v
  fill-IsFresh now asked s v route name client read h p q e (unwritten m) = rw m h
  fill-IsFresh now asked s v route name client read h p q e (set_to w m m') = λ t θ n w' snap l g u.
      elim (cache.get-set now (key_of route name) cache_ttl w s t (key_of θ n) w' (rw m' at g)) [
        | inr (other, kept) ↦ h t θ n w' snap l kept u
        | inl (same_key, same, young) ↦
            let (inside, test) =
              found text clients json cache route read name (db asked) client e in
            let snapshot : snap ≡ to_snapshot client =
              ok-injective snap (to_snapshot client) (
                sym u
                ∙ ap unmarshal (sym same)
                ∙ json.unmarshal-marshal (to_snapshot client) w m) in
            let client' : from_snapshot snap ≡ client =
              ap from_snapshot snapshot ∙ from_snapshot-to_snapshot client in
            record {
              then' = asked;
              past = omega (arith, p, l);
              recent = omega (arith, young, q);
              in_table = rw client' inside;
              active =
                  rw client'
                    (ap (λ f. f client) (sym (same_test text route θ name n same_key)) ∙ test);
            }
      ]

  evict-IsFresh :
      (now : ℕ) (s : cache.State) (client : Client) (net : Outcome)
      → IsFresh now s
      → IsFresh now (invalidate_cache text clients json cache net client s).1
  unfolding invalidate_cache
  evict-IsFresh now s client (lost e) h = h
  evict-IsFresh now s client arrived h =
      λ t θ n w snap l g u. h t θ n w snap l (cache.get-del _ s t (key_of θ n) w g).1 u
  evict-IsFresh now s client (late e) h =
      λ t θ n w snap l g u. h t θ n w snap l (cache.get-del _ s t (key_of θ n) w g).1 u

  pub Reaches-IsFresh : (now : ℕ) (s : cache.State) → Reaches now s → IsFresh now s
  Reaches-IsFresh _ _ (start now s none_there) =
      λ t θ n w snap l g u. cc (none_there t (key_of θ n), g)
  Reaches-IsFresh _ _ (wait now later s r p) =
      λ t θ n w snap l g u. Reaches-IsFresh now s r t θ n w snap (omega arith) g u
  Reaches-IsFresh _ _ (fill now asked s route name client read written r p q e) =
      fill-IsFresh now asked s _ route name client read (Reaches-IsFresh now s r) p q e
        (write_to_cache-Written text clients json cache written now (key_of route name) client s)
  Reaches-IsFresh _ _ (evict now s client net r) =
      evict-IsFresh now s client net (Reaches-IsFresh now s r)
