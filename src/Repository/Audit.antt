-- ===== src/Repository/Audit.antt =====
-- backend/internal/repository/audit.go
use secure_auth_platform.Prelude.{
  leb, ℕ, suc, Bool, true, Option, none, some, List, ◌∷◌, ◌==◌, any, take, drop, order_by,
  if◌then◌else◌, ◌≡◌, arith,
}
use secure_auth_platform.Exec.{ok, err, fault, Result}
use secure_auth_platform.Models.{AuditLog, Tables}
use secure_auth_platform.Env.{Env}
use secure_auth_platform.World.{App, sql}

-- audit_logs.user_id REFERENCES users(id)
unfoldable pub user_known : Option ℕ → Tables → Bool
user_known none t = true
user_known (some user) t = any (λ u. u.id == user) t.users

unfoldable pub insert_log : AuditLog → ℕ → Tables → Result (Unit {0}) × Tables
insert_log l now t =
    if user_known l.user_id t
    then (
      ok tt,
      record t {
        audit_logs = record l { id = t.next_audit; created_at = now } ∷ t.audit_logs;
        next_audit = suc t.next_audit;
      },
    )
    else (err fault, t)

pub insert_log-users :
    (l : AuditLog) (now : ℕ) (t : Tables) → (insert_log l now t).1.users ≡ t.users
unfolding insert_log
insert_log-users l now t = ground arith

pub insert_log-sessions :
    (l : AuditLog) (now : ℕ) (t : Tables) → (insert_log l now t).1.sessions ≡ t.sessions
unfolding insert_log
insert_log-sessions l now t = ground arith

pub insert_log-user_permissions :
    (l : AuditLog) (now : ℕ) (t : Tables)
    → (insert_log l now t).1.user_permissions ≡ t.user_permissions
unfolding insert_log
insert_log-user_permissions l now t = ground arith

module _ (env : Env) where
  unfoldable pub insert : AuditLog → App env (Unit {0})
  insert l = sql env (insert_log l)

  unfoldable pub list : (limit offset : ℕ) → App env (List AuditLog)
  list limit offset = sql env (λ _ t. (
    ok (take limit (drop offset (order_by (λ l m. leb m.created_at l.created_at) t.audit_logs))),
    t,
  ))
