-- ===== src/Examples/Logins.antt =====
-- One client, who logs in, is made inactive, and is refused.
use mathlib.Core.List.{Memᴰ}
use email_service_with_aws_s.Base.{
  ◌≡◌, refl, true, false, none, [], ◌∷◌, ◌==◌, eq_refl, pos, arith, ok, arrived, is_ok,
  ok-injective, is_empty, is_empty,
}
use email_service_with_aws_s.Sql.{Table}
use email_service_with_aws_s.Redis.Cache.{Cache}
use email_service_with_aws_s.Repository.Models.{Client, client_clash}
use email_service_with_aws_s.Repository.Clients.{
  create, get_by_id, update_client, get_by_smtp_username,
}
use email_service_with_aws_s.Auth.Snapshot.{ClientSnapshot}
use email_service_with_aws_s.Auth.{
  generate_api_key, hash_password, Bcrypt, Calls, get_from_cache, validate_api_key,
  validate_smtp_credentials,
}
use email_service_with_aws_s.Auth.Fresh.{WasActive, Reaches, start}
use email_service_with_aws_s.Auth.Writes.Route.{by_smtp_username}
use email_service_with_aws_s.Auth.Recent.{validate_smtp_credentials-WasActive}
use email_service_with_aws_s.Auth.Direct.{direct, IsCoherent, validate_api_key-eq-direct}
use email_service_with_aws_s.Api.{Answer}
use email_service_with_aws_s.Api.Admin.{set_client_status, NewClient, Conditions, create_client}
use email_service_with_aws_s.Api.Created.{IsReady, create_client-IsReady}
use email_service_with_aws_s.Api.Deactivation.{set_client_status-IsRefused}
use email_service_with_aws_s.Fakes.Sql.{exact, memory_table}
use email_service_with_aws_s.Fakes.Cache.{memory_cache, plain_snapshots}

abbrev pub bea : Client
bea = record {
  id = "c";
  name = "Bea";
  smtp_username = "bea";
  smtp_password_hash = "secret";
  api_key = "em_live_1";
  hourly_limit = pos 5;
  monthly_limit = pos 9;
  is_active = true;
  created_at = 1;
  updated_at = 1;
}

abbrev pub table : Table Client (client_clash exact)
table = memory_table (client_clash exact)

abbrev pub store : Cache ClientSnapshot
store = memory_cache ClientSnapshot

abbrev pub nothing : store.State
nothing = λ k. none

abbrev plain_bcrypt : Bcrypt
plain_bcrypt = record {
  matches = λ hash password. hash == password;
  generate = λ password cost. ok password;
  matches-generate = λ password cost hash e. rw (ok-injective password hash e) (eq_refl hash);
}

abbrev pub at_five : Calls
at_five = record { at = 5; looked_up = arrived; found = arrived; cached = arrived }

abbrev pub unchanged : Reaches exact table plain_snapshots store (λ t. bea ∷ []) 1 0 nothing
unchanged = start 0 nothing (λ t k. refl)

validate_smtp_credentials-WasActive_example :
    WasActive exact table plain_snapshots store (λ t. bea ∷ []) 1 by_smtp_username "bea" bea 5
    × (("secret" == "secret") ≡ true)
unfolding validate_smtp_credentials is_empty get_from_cache get_by_smtp_username
validate_smtp_credentials-WasActive_example =
    validate_smtp_credentials-WasActive exact table plain_snapshots store (λ t. bea ∷ []) 1 0
      nothing unchanged at_five (omega arith) plain_bcrypt "bea" "secret" bea refl

validate_api_key-eq-direct_example :
    ((validate_api_key exact table plain_snapshots store at_five "em_live_1" (bea ∷ []) nothing).0
      ≡ direct exact table plain_snapshots store "em_live_1" (bea ∷ []))
    × IsCoherent exact table plain_snapshots store
        (bea ∷ [])
        (validate_api_key exact table plain_snapshots store at_five "em_live_1"
          (bea ∷ [])
          nothing).1
validate_api_key-eq-direct_example =
    validate_api_key-eq-direct exact table plain_snapshots store (bea ∷ []) nothing
      (λ t route name w snap g u. cc) at_five refl "em_live_1"

only_bea : (r : Client) → Memᴰ r (bea ∷ []) → r ≡ bea
only_bea r (Memᴰ.head e) = e
only_bea r (Memᴰ.tail m) = elim m [ ]

abbrev idle : Client
idle = record bea { is_active = false }

abbrev made_idle : Answer Client × table.State × store.State
made_idle =
    set_client_status exact table plain_snapshots store arrived arrived 9 arrived "c" (ok false)
      (bea ∷ []) nothing

set_client_status-IsRefused_example :
    (is_ok
        (validate_api_key exact table plain_snapshots store at_five "em_live_1" made_idle.1
          made_idle.2).0
      ≡ false)
    × (is_ok
          (validate_smtp_credentials exact table plain_snapshots store plain_bcrypt at_five "bea"
            "secret" made_idle.1 made_idle.2).0
        ≡ false)
unfolding set_client_status get_by_id update_client
set_client_status-IsRefused_example =
    set_client_status-IsRefused exact table plain_snapshots store arrived arrived 9 "c" (bea ∷ [])
      nothing idle made_idle.1 made_idle.2 (λ r q m n h. rw (only_bea r m, only_bea q n) refl) refl
      at_five plain_bcrypt "secret"

abbrev chosen : Conditions
chosen = record { key_bytes = ok []; password_bytes = ok []; id = "n"; at = 4; created = arrived }

abbrev asked : NewClient
asked = record { name = "Cy"; smtp_username = "cy"; hourly_limit = pos 0; monthly_limit = pos 7 }

abbrev cy : Client
cy = record {
  id = "n";
  name = "Cy";
  smtp_username = "cy";
  smtp_password_hash = "x";
  api_key = "em_live_x";
  hourly_limit = pos 100;
  monthly_limit = pos 7;
  is_active = true;
  created_at = 0;
  updated_at = 0;
}

create_client-IsReady_example :
    IsReady exact table plain_bcrypt
      (λ b. "x")
      (pos 12)
      chosen
      cy
      "x"
      (create_client exact table plain_bcrypt (λ b. "x") (pos 12) chosen (ok asked) (bea ∷ [])).1
unfolding create_client generate_api_key hash_password create
create_client-IsReady_example =
    create_client-IsReady exact table plain_bcrypt (λ b. "x") (pos 12) chosen (ok asked) (bea ∷ [])
      (create_client exact table plain_bcrypt (λ b. "x") (pos 12) chosen (ok asked) (bea ∷ [])).1
      201 cy "x" refl
