-- ===== src/Auth/Snapshot.antt =====
-- internal/auth/auth.go: the record that is cached.
use email_service_with_aws_s.Base.{ℕ, String, Bool, ℤ, ◌≡◌, refl}
use email_service_with_aws_s.Repository.Models.{Client}

pub record ClientSnapshot : Type 0 where
  pub id : String
  pub name : String
  pub smtp_username : String
  pub smtp_password_hash : String
  pub api_key : String
  pub hourly_limit : ℤ
  pub monthly_limit : ℤ
  pub is_active : Bool
  pub created_at : ℕ
  pub updated_at : ℕ

unfoldable pub to_snapshot : Client → ClientSnapshot
to_snapshot c = record {
  id = c.id;
  name = c.name;
  smtp_username = c.smtp_username;
  smtp_password_hash = c.smtp_password_hash;
  api_key = c.api_key;
  hourly_limit = c.hourly_limit;
  monthly_limit = c.monthly_limit;
  is_active = c.is_active;
  created_at = c.created_at;
  updated_at = c.updated_at;
}

unfoldable pub from_snapshot : ClientSnapshot → Client
from_snapshot s = record {
  id = s.id;
  name = s.name;
  smtp_username = s.smtp_username;
  smtp_password_hash = s.smtp_password_hash;
  api_key = s.api_key;
  hourly_limit = s.hourly_limit;
  monthly_limit = s.monthly_limit;
  is_active = s.is_active;
  created_at = s.created_at;
  updated_at = s.updated_at;
}

pub from_snapshot-to_snapshot : (c : Client) → from_snapshot (to_snapshot c) ≡ c
unfolding from_snapshot to_snapshot
from_snapshot-to_snapshot c = refl
