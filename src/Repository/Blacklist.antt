-- ===== src/Repository/Blacklist.antt =====
-- internal/repository/blacklist_repo.go.
use email_service_with_aws_s.Base.{
  ℕ, String, Bool, ◌&&◌, List, ltb, Result, Outcome, attempt_, query, wrapped,
}
use email_service_with_aws_s.Sql.{Table, Collation}
use email_service_with_aws_s.Repository.Models.{BlacklistedEmail, blacklist_clash}

module _ (text : Collation) where
  -- client_id = ? AND email = ?
  abbrev pub is_entry : String → String → BlacklistedEmail → Bool
  is_entry client_id email e = text.same e.client_id client_id && text.same e.email email

  abbrev pub of_client : String → BlacklistedEmail → Bool
  of_client client_id e = text.same e.client_id client_id

  module _ (table : Table BlacklistedEmail (blacklist_clash text)) where
    open table use {State, count, ordered, insert_ignore, delete}

    unfoldable pub is_blacklisted : Outcome → String → String → State → Result Bool
    is_blacklisted net client_id email s =
        wrapped "BlacklistRepository.IsBlacklisted"
          (query net (ltb 0 (count (is_entry client_id email) s)))

    -- `at` is the server's clock, the default of created_at.
    unfoldable pub add : Outcome → ℕ → BlacklistedEmail → State → Result (Unit {0}) × State
    add net at entry s =
        let (r, s') = attempt_ net (insert_ignore (record entry { created_at = at })) s in
        (wrapped "BlacklistRepository.Add" r, s')

    unfoldable pub remove : Outcome → String → String → State → Result (Unit {0}) × State
    remove net client_id email s =
        let (r, s') = attempt_ net (delete (is_entry client_id email)) s in
        (wrapped "BlacklistRepository.Remove" r, s')

    unfoldable pub list : Outcome → String → State → Result (List BlacklistedEmail)
    list net client_id s =
        wrapped "BlacklistRepository.List"
          (query net (ordered (of_client client_id) (λ e. e.created_at) s))

    unfoldable pub count_entries : Outcome → String → State → Result ℕ
    count_entries net client_id s =
        wrapped "BlacklistRepository.Count" (query net (count (of_client client_id) s))

    unfoldable pub remove_all : Outcome → String → State → Result (Unit {0}) × State
    remove_all net client_id s =
        let (r, s') = attempt_ net (delete (of_client client_id)) s in
        (wrapped "BlacklistRepository.RemoveAll" r, s')
