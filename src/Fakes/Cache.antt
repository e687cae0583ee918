-- ===== src/Fakes/Cache.antt =====
-- A cache in memory: each key has a value and the time at which it is gone.
use text.Mathlib.TextEquality.{eq_iff}
use email_service_with_aws_s.Base.{
  ℕ, ◌+◌, ◌<◌, String, ◌≡◌, sym, false, Option, none, some, List, ◌==◌, ltb, arith, if◌then◌else◌,
  Bool-cases, ◌⊎◌, inl, inr, Codec, ok,
}
use email_service_with_aws_s.Redis.Cache.{Cache, among}
use email_service_with_aws_s.Auth.Snapshot.{ClientSnapshot}

module _ (Text : Type 0) where
  abbrev pub Store : Type 0
  Store = String → Option (ℕ × Text)

  abbrev pub fresh : ℕ → Option (ℕ × Text) → Option Text
  fresh t none = none
  fresh t (some (e, v)) = if ltb t e then some v else none

  fresh-some : (t e : ℕ) (v w : Text) → fresh t (some (e, v)) ≡ some w → (v ≡ w) × (t < e)
  fresh-some t e v w h = elim (Bool-cases (ltb t e)) [
    | inl m ↦ (ground (arith, m, h), ground (arith, m))
    | inr m ↦ absurd (ground (arith, m, h))
  ]

  abbrev pub put : ℕ → String → ℕ → Text → Store → Store
  put at k ttl v s = λ j. if k == j then some (at + ttl, v) else s j

  pub fresh-put :
      (at : ℕ) (k : String) (ttl : ℕ) (v : Text) (s : Store) (t : ℕ) (j : String) (w : Text)
      → fresh t (put at k ttl v s j) ≡ some w
      → ((k ≡ j) × (v ≡ w) × (t < at + ttl)) ⊎ (((k == j) ≡ false) × (fresh t (s j) ≡ some w))
  fresh-put at k ttl v s t j w h = elim (Bool-cases (k == j)) [
    | inl m ↦
        let (same, young) = fresh-some t (at + ttl) v w (rw m at h) in
        inl ((eq_iff k j).0 m, same, young)
    | inr m ↦ inr (m, rw m at h)
  ]

  abbrev pub drop_keys : List String → Store → Store
  drop_keys keys s = λ j. if among keys j then none else s j

  pub fresh-drop_keys :
      (keys : List String) (s : Store) (t : ℕ) (j : String) (w : Text)
      → fresh t (drop_keys keys s j) ≡ some w
      → (among keys j ≡ false) × (fresh t (s j) ≡ some w)
  fresh-drop_keys keys s t j w h = elim (Bool-cases (among keys j)) [
    | inl m ↦ cc (rw m at h)
    | inr m ↦ (m, rw m at h)
  ]

  abbrev pub memory_cache : Cache Text
  memory_cache = record {
    State = Store;
    get = λ t k s. fresh t (s k);
    set = put;
    del = drop_keys;
    get-set = fresh-put;
    get-del = fresh-drop_keys;
  }

abbrev pub plain_snapshots : Codec ClientSnapshot
plain_snapshots = record {
  Text = ClientSnapshot;
  marshal = ok;
  unmarshal = ok;
  unmarshal-marshal = λ a t e. sym e;
}
