-- ===== src/Service/Audit.antt =====
-- backend/internal/service/audit.go
pub mod Runs
use secure_auth_platform.Prelude.{ℕ, List, ◌∷◌, Option, none, some, Text, bytes}
use secure_auth_platform.Exec.{ignore}
use secure_auth_platform.Models.{AuditLog, Data, text}
use secure_auth_platform.Env.{Env}
use secure_auth_platform.World.{App}
use secure_auth_platform.Repository.Audit

module _ (env : Env) where
  -- An audit entry that cannot be written is dropped. The identifier and the time of the row are
  -- the database's.
  unfoldable pub log :
      (user : Option ℕ) (action entity : Text) (entity_id : Option ℕ)
      (old_data new_data : Option Data)
      → App env (Unit {0})
  log user action entity entity_id old_data new_data = ignore (
      Audit.insert env (record {
        id = 0;
        user_id = user;
        action = action;
        entity = entity;
        entity_id = entity_id;
        old_data = old_data;
        new_data = new_data;
        created_at = 0;
      }))

  unfoldable pub list : (limit offset : ℕ) → App env (List AuditLog)
  list = Audit.list env

  unfoldable pub log_security_alert : Option ℕ → Text → Data → App env (Unit {0})
  log_security_alert user reason metadata =
      log user (bytes "security.alert") (bytes "security") none none
        (some ((bytes "reason", text reason) ∷ metadata))
