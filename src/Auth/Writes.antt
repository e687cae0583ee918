-- ===== src/Auth/Writes.antt =====
-- The keys of the cache, and what is read for them and written under them.
use Prim.Native.String.{◌++◌}
use Prim.Native.Char.{code}
use text.Mathlib.TextLemmas.{append_cancel_left, append_assoc, cons-append, head-eq_of_cons-eq}
use mathlib.Core.List.{Memᴰ}
use email_service_with_aws_s.Base.{
  ℕ, String, ◌≡◌, ◌≢◌, refl, sym, ap, ◌∙◌, Bool, true, some, Option-cases, inl, inr, arith, Codec,
  Result, Result-cases, ok, ok-injective, Outcome, arrived, lost, late, query,
}
use email_service_with_aws_s.Redis.Cache.{Cache}
use email_service_with_aws_s.Sql.{Table, Collation}
use email_service_with_aws_s.Repository.Models.{Client, client_clash}
use email_service_with_aws_s.Repository.Logs.{one_row}
use email_service_with_aws_s.Repository.Clients.{
  has_api_key, has_smtp_username, get_by_api_key, get_by_smtp_username,
}
use email_service_with_aws_s.Auth.Snapshot.{ClientSnapshot, to_snapshot}
use email_service_with_aws_s.Auth.{
  api_key_cache_prefix, smtp_cache_prefix, cache_ttl, write_to_cache,
}

-- The two ways to name a client.
pub data Route : Type 0 where
  by_api_key by_smtp_username : Route

abbrev pub key_of : Route → String → String
key_of by_api_key name = api_key_cache_prefix ++ name
key_of by_smtp_username name = smtp_cache_prefix ++ name

apart : (n m : String) → key_of by_api_key n ≢ key_of by_smtp_username m
apart n m = λ e.
    let tails : "apikey:" ++ n ≡ "smtp:" ++ m =
      append_cancel_left "auth:client:" ("apikey:" ++ n) ("smtp:" ++ m) (
        sym (append_assoc "auth:client:" "apikey:" n)
        ∙ e
        ∙ append_assoc "auth:client:" "smtp:" m) in
    let heads : code "a" ≡ code "s" =
      ap code (
        head-eq_of_cons-eq (sym (cons-append "a" "pikey:" n) ∙ tails ∙ cons-append "s" "mtp:" m)) in
    omega (arith, heads)

module _ (text : Collation) where
  abbrev pub test_of : Route → String → Client → Bool
  test_of by_api_key = has_api_key text
  test_of by_smtp_username = has_smtp_username text

  -- A key of the cache tells the route and the name.
  pub same_test : (ρ θ : Route) (n m : String) → key_of ρ n ≡ key_of θ m → test_of ρ n ≡ test_of θ m
  same_test by_api_key by_api_key n m e =
      ap (has_api_key text) (append_cancel_left api_key_cache_prefix n m e)
  same_test by_api_key by_smtp_username n m e = absurd (apart n m e)
  same_test by_smtp_username by_api_key n m e = absurd (apart m n (sym e))
  same_test by_smtp_username by_smtp_username n m e =
      ap (has_smtp_username text) (append_cancel_left smtp_cache_prefix n m e)

  module _ (clients : Table Client (client_clash text)) (json : Codec ClientSnapshot)
      (cache : Cache json.Text) where
    open json use {marshal, unmarshal}

    -- What the table answered to one of the two queries.
    abbrev pub look : Route → Outcome → String → clients.State → Result Client
    look by_api_key = get_by_api_key text clients
    look by_smtp_username = get_by_smtp_username text clients

    pub one_found :
        (test : Client → Bool) (net : Outcome) (context : String) (s : clients.State)
        (client : Client)
        → one_row context (query net (clients.get test s)) ≡ ok client
        → Memᴰ client (clients.rows s) × (test client ≡ true)
    one_found test arrived context s client e = elim (Option-cases (clients.get test s)) [
      | inl m ↦ cc (m, e)
      | inr (c, m) ↦
          clients.get_some test s client (m ∙ ap some (ok-injective c client (rw m at e)))
    ]
    one_found test (lost x) context s client e = cc
    one_found test (late x) context s client e = cc

    pub found :
        (route : Route) (net : Outcome) (name : String) (s : clients.State) (client : Client)
        → look route net name s ≡ ok client
        → Memᴰ client (clients.rows s) × (test_of route name client ≡ true)
    unfolding get_by_api_key get_by_smtp_username
    found by_api_key net name s client e =
        one_found (has_api_key text name) net "ClientRepository.GetByAPIKey" s client e
    found by_smtp_username net name s client e =
        one_found (has_smtp_username text name) net "ClientRepository.GetBySMTPUsername" s client e

    -- A write of the cache is none, or a SET of the client's snapshot.
    pub data Written (now : ℕ) (key : String) (client : Client) (s v : cache.State) : Type 0 where
      unwritten : v ≡ s → Written now key client s v
      set_to :
          (w : json.Text)
          → marshal (to_snapshot client) ≡ ok w
          → v ≡ cache.set now key cache_ttl w s
          → Written now key client s v

    marshalled :
        (net : Outcome) (now : ℕ) (key : String) (client : Client) (s : cache.State) (w : json.Text)
        → marshal (to_snapshot client) ≡ ok w
        → Written now key client s (write_to_cache text clients json cache net now key client s)
    unfolding write_to_cache
    marshalled arrived now key client s w m = set_to w m (rw (m, write_to_cache) refl)
    marshalled (lost e) now key client s w m = unwritten (rw (m, write_to_cache) refl)
    marshalled (late e) now key client s w m = set_to w m (rw (m, write_to_cache) refl)

    pub write_to_cache-Written :
        (net : Outcome) (now : ℕ) (key : String) (client : Client) (s : cache.State)
        → Written now key client s (write_to_cache text clients json cache net now key client s)
    unfolding write_to_cache
    write_to_cache-Written net now key client s =
        elim (Result-cases (marshal (to_snapshot client))) [
          | inr (e, m) ↦ unwritten (rw (m, write_to_cache) refl)
          | inl (w, m) ↦ marshalled net now key client s w m
        ]
