-- ===== src/Server/Runs.antt =====
-- A history of operations is a run of steps.
use secure_auth_platform.Prelude.{ℕ, List, [], ◌∷◌}
use secure_auth_platform.Exec.{Result, ok, err}
use secure_auth_platform.Models.{Session, Tables}
use secure_auth_platform.Env.{Env}
use secure_auth_platform.World.{World}
use secure_auth_platform.World.Moves.{Moves, Preorder, Moves-then}
use secure_auth_platform.Password.Runs.{hash_password-Runs}
use secure_auth_platform.Repository.Steps.{
  runs, Run, here, Run-trans, Step, Run-rel, Run-of_runs, Runs-sql,
}
use secure_auth_platform.Service.Audit.Runs.{audit_rules, log-Runs}
use secure_auth_platform.Service.Login.Runs.{login-Runs}
use secure_auth_platform.Service.Refresh.Runs.{
  refresh-Runs, logout-Runs, touch_session-Runs, list_active_sessions-Runs, revoke_session-Runs,
  revoke_other_sessions-Runs,
}
use secure_auth_platform.Service.PermissionService.Runs
use secure_auth_platform.Service.UserService.Runs as UserRuns
use secure_auth_platform.Http.Runs.Requests.{serve_route-Runs}
use secure_auth_platform.Server.{
  Operation, login, refresh, logout, touch, list_sessions, revoke_session, revoke_others,
  check_permission, grant, revoke, create_permission, describe_permission, delete_permission,
  create_user, update_user, request, cleanup, seed, log_expired, log_cleanup, cleanup_sessions,
  create_admin, seed_admin, perform, serve,
}

module _ (env : Env) where
  log_expired-Runs : (ss : List Session) → Moves env runs (log_expired env ss)
  unfolding log_expired
  log_expired-Runs [] = search audit_rules
  log_expired-Runs (s ∷ ss) =
      Moves-then env runs _ (log_expired env ss) (log-Runs env _ _ _ _ _ _) (log_expired-Runs ss)

  log_cleanup-Runs : (r : Result (ℕ × List Session)) → Moves env runs (log_cleanup env r)
  unfolding log_cleanup
  log_cleanup-Runs (ok (n, ss)) = log_expired-Runs ss
  log_cleanup-Runs (err e) = search audit_rules

  cleanup_sessions-Runs : Moves env runs (cleanup_sessions env)
  unfolding cleanup_sessions
  cleanup_sessions-Runs = search (audit_rules, log_cleanup-Runs)

  create_admin-Runs : Moves env runs (create_admin env)
  unfolding create_admin
  create_admin-Runs = search (audit_rules, hash_password-Runs, Runs-sql, here) depth 8

  seed_admin-Runs : Moves env runs (seed_admin env)
  unfolding seed_admin
  seed_admin-Runs = search (audit_rules, create_admin-Runs)

  perform-Runs : (o : Operation) → Moves env runs (perform env o)
  unfolding perform
  perform-Runs (login email password ip user_agent) = search (audit_rules, login-Runs)
  perform-Runs (refresh token ip user_agent) = search (audit_rules, refresh-Runs)
  perform-Runs (logout token) = logout-Runs env token
  perform-Runs (touch id) = search (audit_rules, touch_session-Runs)
  perform-Runs (list_sessions user) = search (audit_rules, list_active_sessions-Runs)
  perform-Runs (revoke_session id user) = revoke_session-Runs env id user
  perform-Runs (revoke_others user current) = revoke_other_sessions-Runs env user current
  perform-Runs (check_permission user code) = search (audit_rules, Runs.has_permission-Runs)
  perform-Runs (grant actor user permission) = Runs.grant-Runs env actor user permission
  perform-Runs (revoke actor user permission) = Runs.revoke-Runs env actor user permission
  perform-Runs (create_permission actor code d) = search (audit_rules, Runs.create-Runs)
  perform-Runs (describe_permission actor id d) = search (audit_rules, Runs.update_description-Runs)
  perform-Runs (delete_permission actor id) = Runs.delete-Runs env actor id
  perform-Runs (create_user actor input) = search (audit_rules, UserRuns.create-Runs)
  perform-Runs (update_user actor user input) = search (audit_rules, UserRuns.update-Runs)
  perform-Runs (request route req) = search (audit_rules, serve_route-Runs)
  perform-Runs cleanup = cleanup_sessions-Runs
  perform-Runs seed = seed_admin-Runs

  pub serve-Run : (os : List Operation) (w : World env.redis.State) → Run w.db (serve env os w).db
  unfolding serve
  serve-Run [] w = here
  serve-Run (o ∷ os) w =
      Run-trans w.db _ _ (Run-of_runs w.db _ ((perform-Runs o).at w))
        (serve-Run os (perform env o w).1)

  -- What every statement respects, every history respects.
  pub serve-rel :
      (r : Preorder)
      → ((t u : Tables) → Step t u → r.rel t u)
      → (os : List Operation) (w : World env.redis.State) → r.rel w.db (serve env os w).db
  serve-rel r k os w = Run-rel r k w.db (serve env os w).db (serve-Run os w)
