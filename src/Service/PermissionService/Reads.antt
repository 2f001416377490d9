-- ===== src/Service/PermissionService/Reads.antt =====
-- What permission checks do to the database: HasPermission of
-- backend/internal/service/permission.go.
use secure_auth_platform.Prelude.{ℕ, ◌≡◌, refl, ◌∙◌, Text}
use secure_auth_platform.Exec.{Result, ok, err}
use secure_auth_platform.Env.{Env}
use secure_auth_platform.World.Moves.{Preorder, Moves, Moves-sql, moves_rules}
use secure_auth_platform.Cache.PermissionCache.{Cached}
use secure_auth_platform.Repository.Permissions
use secure_auth_platform.Service.PermissionService.{
  check_in_database, check_and_fill, decide, has_permission,
}

-- An action that leaves the tables alone.
unfoldable pub same : Preorder
same = record { rel = λ t u. u ≡ t; refl_at = λ t. refl; trans_at = λ t u v p q. q ∙ p }

module _ (env : Env) where
  list_codes-same : (user : ℕ) → Moves env same (Permissions.list_codes_by_user_id env user)
  unfolding Permissions.list_codes_by_user_id same
  list_codes-same user = Moves-sql env same _ (λ now t. refl)

  in_database-same : (user : ℕ) (code : Text) → Moves env same (check_in_database env user code)
  unfolding check_in_database
  in_database-same user code = search (moves_rules, list_codes-same)

  and_fill-same : (user : ℕ) (code : Text) → Moves env same (check_and_fill env user code)
  unfolding check_and_fill
  and_fill-same user code = search (moves_rules, list_codes-same)

  decide-same :
      (user : ℕ) (code : Text) (r : Result Cached) → Moves env same (decide env user code r)
  unfolding decide
  decide-same user code (err e) = in_database-same user code
  decide-same user code (ok c) = search (moves_rules, and_fill-same)

  pub has_permission-same : (user : ℕ) (code : Text) → Moves env same (has_permission env user code)
  unfolding has_permission
  has_permission-same user code = search (moves_rules, decide-same)
