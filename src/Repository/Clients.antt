-- ===== src/Repository/Clients.antt =====
-- internal/repository/client_repo.go.
use email_service_with_aws_s.Base.{
  ◌==◌, leb_ℤ, not, if◌then◌else◌, ℕ, String, Bool, true, false, ◌&&◌, List, ℤ, Result, ok, err,
  Outcome, attempt, attempt_, query, wrapped, wrap, duplicate,
}
use email_service_with_aws_s.Sql.{Table, Collation, Inserted, stored, duplicate_key}
use email_service_with_aws_s.Repository.Models.{Client, client_clash}
use email_service_with_aws_s.Repository.Logs.{one_row}

-- isDuplicateKeyErr(err) makes it ErrDuplicate.
abbrev pub unless_duplicate : String → Result Inserted → Result (Unit {0})
unless_duplicate context (ok stored) = ok tt
unless_duplicate context (ok duplicate_key) = err (wrap context duplicate)
unless_duplicate context (err e) = err (wrap context e)

abbrev same_limit : ℤ → ℤ → Bool
same_limit a b = leb_ℤ a b && leb_ℤ b a

abbrev same_flag : Bool → Bool → Bool
same_flag true b = b
same_flag false b = not b

-- Does an UPDATE leave all the columns that the statements set as they are?
abbrev pub is_unchanged : Client → Client → Bool
is_unchanged row row' =
    row.name == row'.name
    && (row.smtp_password_hash == row'.smtp_password_hash
        && (row.api_key == row'.api_key
            && (same_limit row.hourly_limit row'.hourly_limit
                && (same_limit row.monthly_limit row'.monthly_limit
                    && same_flag row.is_active row'.is_active))))

-- An UPDATE that changes a column of the row also sets updated_at, by its ON UPDATE clause.
abbrev pub touched : ℕ → Client → Client → Client
touched at row row' = record row' {
  updated_at = if is_unchanged row row' then row.updated_at else at;
}

module _ (text : Collation) where
  abbrev pub has_id : String → Client → Bool
  has_id id c = text.same c.id id

  -- api_key = ? AND is_active = 1
  abbrev pub has_api_key : String → Client → Bool
  has_api_key key c = text.same c.api_key key && c.is_active

  -- smtp_username = ? AND is_active = 1
  abbrev pub has_smtp_username : String → Client → Bool
  has_smtp_username username c = text.same c.smtp_username username && c.is_active

  module _ (table : Table Client (client_clash text)) where
    open table use {State, get, ordered, insert, update, update_key, delete}

    unfoldable pub get_by_id : Outcome → String → State → Result Client
    get_by_id net id s = one_row "ClientRepository.GetByID" (query net (get (has_id id) s))

    unfoldable pub get_by_api_key : Outcome → String → State → Result Client
    get_by_api_key net key s =
        one_row "ClientRepository.GetByAPIKey" (query net (get (has_api_key key) s))

    unfoldable pub get_by_smtp_username : Outcome → String → State → Result Client
    get_by_smtp_username net username s =
        one_row "ClientRepository.GetBySMTPUsername"
          (query net (get (has_smtp_username username) s))

    unfoldable pub list : Outcome → State → Result (List Client)
    list net s =
        wrapped "ClientRepository.List" (query net (ordered (λ _. true) (λ c. c.created_at) s))

    -- `at` is the server's clock, the default of both times.
    unfoldable pub create : Outcome → ℕ → Client → State → Result (Unit {0}) × State
    create net at c s =
        let (r, s') = attempt net (insert (record c { created_at = at; updated_at = at })) s in
        (unless_duplicate "ClientRepository.Create" r, s')

    unfoldable pub update_client : Outcome → ℕ → Client → State → Result (Unit {0}) × State
    update_client net at c s =
        let (r, s') =
          attempt_ net
            (update (has_id c.id) (λ row. touched at row (record row {
              name = c.name;
              hourly_limit = c.hourly_limit;
              monthly_limit = c.monthly_limit;
              is_active = c.is_active;
            })))
            s in
        (wrapped "ClientRepository.Update" r, s')

    unfoldable pub update_api_key :
        Outcome → ℕ → String → String → State → Result (Unit {0}) × State
    update_api_key net at id new_key s =
        let (r, s') =
          attempt net
            (update_key (has_id id) (λ row. touched at row (record row { api_key = new_key }))) s in
        (unless_duplicate "ClientRepository.UpdateAPIKey" r, s')

    unfoldable pub update_password :
        Outcome → ℕ → String → String → State → Result (Unit {0}) × State
    update_password net at id password_hash s =
        let (r, s') =
          attempt_ net
            (update (has_id id)
              (λ row. touched at row (record row { smtp_password_hash = password_hash })))
            s in
        (wrapped "ClientRepository.UpdatePassword" r, s')

    unfoldable pub update_limits : Outcome → ℕ → String → ℤ → ℤ → State → Result (Unit {0}) × State
    update_limits net at id hourly monthly s =
        let (r, s') =
          attempt_ net
            (update (has_id id) (λ row.
              touched at row (record row { hourly_limit = hourly; monthly_limit = monthly })))
            s in
        (wrapped "ClientRepository.UpdateLimits" r, s')

    unfoldable pub deactivate : Outcome → ℕ → String → State → Result (Unit {0}) × State
    deactivate net at id s =
        let (r, s') =
          attempt_ net
            (update (has_id id) (λ row. touched at row (record row { is_active = false }))) s in
        (wrapped "ClientRepository.Deactivate" r, s')

    unfoldable pub delete_client : Outcome → String → State → Result (Unit {0}) × State
    delete_client net id s =
        let (r, s') = attempt_ net (delete (has_id id)) s in
        (wrapped "ClientRepository.Delete" r, s')
