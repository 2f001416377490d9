-- ===== src/Invariants/AuditTrail.antt =====
-- The audit trail: backend/internal/service/audit.go and its callers.
use mathlib.Core.List.{append_assoc}
use secure_auth_platform.Prelude.{
  Bool-cases, inl, inr, ◌≡◌, refl, ap, sym, ◌∙◌, List, [], ◌∷◌, ◌++◌, arith,
}
use secure_auth_platform.Models.{AuditLog, Tables}
use secure_auth_platform.Env.{Env}
use secure_auth_platform.World.{World}
use secure_auth_platform.World.Moves.{Preorder}
use secure_auth_platform.Repository.Sessions.{insert_session, revoke_rows, touch_rows, purge}
use secure_auth_platform.Repository.Users.{insert_user, write_user, rehash_user}
use secure_auth_platform.Repository.Permissions.{
  insert_permission, insert_grant, remove_grant, grant_everything, describe, delete_permission,
}
use secure_auth_platform.Repository.Audit.{insert_log, user_known}
use secure_auth_platform.Repository.Steps.{
  Step, opened, revoked, touched, purged, enrolled, edited, rehashed, coined, described, dropped,
  granted, ungranted, endowed, logged,
}
use secure_auth_platform.Server.{Operation, serve}
use secure_auth_platform.Server.Runs.{serve-rel}

-- The later trail is the earlier one with entries before it (newest first).
abbrev pub Grows : Tables → Tables → Type 0
Grows t u = (more : List AuditLog) × (u.audit_logs ≡ more ++ t.audit_logs)

Grows-same : (t u v : Tables) → u ≡ v → v.audit_logs ≡ t.audit_logs → Grows t u
Grows-same t u v e k = ([], ap (λ (x : Tables). x.audit_logs) e ∙ k)

Grows-trans : (t u v : Tables) → Grows t u → Grows u v → Grows t v
Grows-trans t u v (a, e) (b, k) =
    (b ++ a, k ∙ ap (λ l. b ++ l) e ∙ sym (append_assoc b a t.audit_logs))

grows : Preorder
grows = record { rel = Grows; refl_at = λ t. ([], refl); trans_at = Grows-trans }

Step-Grows : (t u : Tables) → Step t u → Grows t u
unfolding insert_session revoke_rows touch_rows purge insert_user write_user rehash_user
    insert_permission insert_grant remove_grant grant_everything describe delete_permission
    insert_log
Step-Grows t u (logged l now e) = elim (Bool-cases (user_known l.user_id t)) [
  | inl known ↦ (record l { id = t.next_audit; created_at = now } ∷ [], ground (arith, e, known))
  | inr unknown ↦ Grows-same t u _ e (ground (arith, unknown))
]
Step-Grows t u (opened s now e) = Grows-same t u _ e (ground arith)
Step-Grows t u (revoked p now e) = Grows-same t u _ e (ground arith)
Step-Grows t u (touched id now e) = Grows-same t u _ e (ground arith)
Step-Grows t u (purged now retention e) = Grows-same t u _ e (ground arith)
Step-Grows t u (enrolled x now e) = Grows-same t u _ e (ground arith)
Step-Grows t u (edited x e) = Grows-same t u _ e (ground arith)
Step-Grows t u (rehashed id hash now e) = Grows-same t u _ e (ground arith)
Step-Grows t u (coined p now e) = Grows-same t u _ e (ground arith)
Step-Grows t u (described id d e) = Grows-same t u _ e (ground arith)
Step-Grows t u (dropped id e) = Grows-same t u _ e (ground arith)
Step-Grows t u (granted user permission e) = Grows-same t u _ e (ground arith)
Step-Grows t u (ungranted user permission e) = Grows-same t u _ e (ground arith)
Step-Grows t u (endowed user e) = Grows-same t u _ e (ground arith)

-- Whatever operations run, and whatever fails in them, the audit trail afterwards is the trail
-- before, unchanged, with entries added at its new end.
pub serve-Grows :
    (env : Env) (os : List Operation) (w : World env.redis.State)
    → (more : List AuditLog) × ((serve env os w).db.audit_logs ≡ more ++ w.db.audit_logs)
unfolding grows
serve-Grows env os w = serve-rel env grows Step-Grows os w
