-- ===== src/Config/Valid.antt =====
-- Which configurations Load accepts.
use email_service_with_aws_s.Base.{
  ◌≤◌, String, ◌≡◌, refl, sym, ap, ◌∙◌, ◌↔◌, Bool, true, false, Option, List, [], ◌∷◌, ℤ, pos, ◌≤ℤ◌,
  length, arith, is_empty, ok, ok-injective, is_ok, ◌⊎◌, inl, inr,
}
use email_service_with_aws_s.Config.{Settings}
use email_service_with_aws_s.Config.Load.{populate, add, size, faults, more_faults, validate, load}

-- What validate asks of a configuration.
pub record IsValid (c : Settings) : Type 0 where
  pub host : is_empty c.database.host ≡ false
  pub user : is_empty c.database.user ≡ false
  pub password : is_empty c.database.password ≡ false
  pub database : is_empty c.database.database ≡ false
  pub conns : c.database.max_idle_conns ≤ℤ c.database.max_open_conns
  pub redis_host : is_empty c.redis.host ≡ false
  pub region : is_empty c.aws.region ≡ false
  pub base_url : is_empty c.tracking.base_url ≡ false
  pub secret : 16 ≤ length c.tracking.hmac_secret
  pub cost_above : pos 4 ≤ℤ c.security.bcrypt_cost
  pub cost_below : c.security.bcrypt_cost ≤ℤ pos 31
  pub admin_key : 16 ≤ size c.security.admin_api_key
  pub workers : pos 1 ≤ℤ c.worker.concurrency
  pub retries : pos 0 ≤ℤ c.queue.max_retries

add-eq-nil : (b : Bool) (m : String) (l : List String) → add b m l ≡ [] → (b ≡ false) × (l ≡ [])
unfolding add
add-eq-nil true m l e = cc
add-eq-nil false m l e = (refl, e)

valid_of_faults : (c : Settings) → faults c ≡ [] → IsValid c
unfolding faults more_faults
valid_of_faults c e0 =
    let (host, e1) = add-eq-nil _ _ _ e0 in
    let (user, e2) = add-eq-nil _ _ _ e1 in
    let (password, e3) = add-eq-nil _ _ _ e2 in
    let (database, e4) = add-eq-nil _ _ _ e3 in
    let (conns, e5) = add-eq-nil _ _ _ e4 in
    let (redis_host, e6) = add-eq-nil _ _ _ e5 in
    let (region, e7) = add-eq-nil _ _ _ e6 in
    let (base_url, e8) = add-eq-nil _ _ _ e7 in
    let (secret, e9) = add-eq-nil _ _ _ e8 in
    let (cost, e10) = add-eq-nil _ _ _ e9 in
    let (admin_key, e11) = add-eq-nil _ _ _ e10 in
    let (workers, e12) = add-eq-nil _ _ _ e11 in
    let (retries, e13) = add-eq-nil _ _ _ e12 in
    record {
      host = host;
      user = user;
      password = password;
      database = database;
      conns = ground (arith, conns);
      redis_host = redis_host;
      region = region;
      base_url = base_url;
      secret = ground (arith, secret);
      cost_above = ground (arith, cost);
      cost_below = ground (arith, cost);
      admin_key = ground (arith, admin_key);
      workers = ground (arith, workers);
      retries = ground (arith, retries);
    }

no_fault : (b : Bool) (m : String) (l : List String) → b ≡ false → l ≡ [] → add b m l ≡ []
unfolding add
no_fault b m l e e' = rw (e, e', add) refl

faults_of_valid : (c : Settings) → IsValid c → faults c ≡ []
unfolding faults more_faults
faults_of_valid c v = no_fault _ _ _ v.host (
    no_fault _ _ _ v.user (
      no_fault _ _ _ v.password (
        no_fault _ _ _ v.database (
          no_fault _ _ _ (ground (arith, v.conns)) (
            no_fault _ _ _ v.redis_host (
              no_fault _ _ _ v.region (
                no_fault _ _ _ v.base_url (
                  no_fault _ _ _ (ground (arith, v.secret)) (
                    no_fault _ _ _ (ground (arith, v.cost_above, v.cost_below)) (
                      no_fault _ _ _ (ground (arith, v.admin_key)) (
                        no_fault _ _ _ (ground (arith, v.workers))
                          (no_fault _ _ _ (ground (arith, v.retries)) refl))))))))))))

List-cases : (l : List String) → (l ≡ []) ⊎ ((m : String) × (k : List String) × (l ≡ m ∷ k))
List-cases [] = inl refl
List-cases (m ∷ k) = inr (m, k, refl)

module _ (env : String → String) (parse_duration : String → Option ℤ) where
  abbrev made : Settings
  made = populate env parse_duration

  loads : faults made ≡ [] → load env parse_duration ≡ ok made
  unfolding load validate
  loads e = rw (e, load) refl

  refuses :
      (m : String) (k : List String) → faults made ≡ m ∷ k → is_ok (load env parse_duration) ≡ false
  unfolding load validate
  refuses m k e = rw (e, load) refl

  accepted : (c : Settings) → load env parse_duration ≡ ok c → (c ≡ made) × IsValid c
  accepted c e = elim (List-cases (faults made)) [
    | inr (m, k, f) ↦ cc (refuses m k f, ap is_ok e)
    | inl f ↦
        let same : c ≡ made = ok-injective c made (sym e ∙ loads f) in
        (same, rw same (valid_of_faults made f))
  ]

  -- Load gives the configuration that the variables and the defaults make, if and only if it passes
  -- every check of validate.
  pub load_lem : (c : Settings) → (load env parse_duration ≡ ok c) ↔ ((c ≡ made) × IsValid c)
  load_lem c =
      (accepted c, λ (same, v). loads (faults_of_valid made (rw same at v)) ∙ ap ok (sym same))
