-- ===== src/Models.antt =====
-- backend/internal/models/models.go: the rows of the tables, and the database as the lists of its
-- rows. Identifiers and times are natural numbers; the relations that bun loads beside a row
-- (`Role`, `Permissions`) are left out of it.
use secure_auth_platform.Prelude.{ℕ, Bool, List, Option, Text}

pub record Role : Type 0 where
  pub id : ℕ
  pub name : Text
  pub description : Text

pub record User : Type 0 where
  pub id : ℕ
  pub role_id : Option ℕ
  pub name : Text
  pub email : Text
  pub password_hash : Text
  pub active : Bool
  pub created_at : ℕ
  pub updated_at : ℕ

pub record Permission : Type 0 where
  pub id : ℕ
  pub code : Text
  pub description : Text
  pub created_at : ℕ

pub record UserPermission : Type 0 where
  pub user_id : ℕ
  pub permission_id : ℕ

pub record Session : Type 0 where
  pub id : ℕ
  pub user_id : ℕ
  pub refresh_token_hash : Text
  pub expires_at : ℕ
  pub revoked : Bool
  pub revoked_at : Option ℕ
  pub ip_address : Option Text
  pub user_agent : Option Text
  pub last_activity_at : Option ℕ
  pub created_at : ℕ

-- A value of `map[string]any`, as the audit trail stores them.
pub data Datum : Type 0 where
  text : Text → Datum
  number : ℕ → Datum
  truth : Bool → Datum
  null : Datum

abbrev pub Data : Type 0
Data = List (Text × Datum)

pub record AuditLog : Type 0 where
  pub id : ℕ
  pub user_id : Option ℕ
  pub action : Text
  pub entity : Text
  pub entity_id : Option ℕ
  pub old_data : Option Data
  pub new_data : Option Data
  pub created_at : ℕ

-- The tables, newest rows first, and the next value of each identity column.
pub record Tables : Type 0 where
  pub roles : List Role
  pub users : List User
  pub permissions : List Permission
  pub user_permissions : List UserPermission
  pub sessions : List Session
  pub audit_logs : List AuditLog
  pub next_user : ℕ
  pub next_permission : ℕ
  pub next_session : ℕ
  pub next_audit : ℕ
