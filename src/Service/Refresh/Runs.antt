-- ===== src/Service/Refresh/Runs.antt =====
-- Refreshing, ending and touching sessions are runs of steps.
use secure_auth_platform.Prelude.{ℕ, Text}
use secure_auth_platform.Exec.{Error, Result, ok, err}
use secure_auth_platform.Models.{User, Session}
use secure_auth_platform.Env.{Env}
use secure_auth_platform.World.Moves.{Moves}
use secure_auth_platform.Repository.Sessions.{
  revoke_with_timestamp, revoke_all_by_user, revoke_all_by_user_except_current,
}
use secure_auth_platform.Repository.Runs.{revoke_where-Runs}
use secure_auth_platform.Repository.Steps.{runs}
use secure_auth_platform.Service.Audit.Runs.{audit_rules}
use secure_auth_platform.Service.Tokens.Runs.{create_session-Runs}
use secure_auth_platform.Service.PermissionService.Runs.{invalidate_user_cache-Runs}
use secure_auth_platform.Service.Refresh.{
  reuse, known_session, handle_refresh_miss, active_user, reissue, rotate, on_session, refresh,
  end_session, logout_session, logout, touch_session, list_active_sessions, revoke_session,
  revoke_other_sessions,
}

module _ (env : Env) where
  revoke_with_timestamp-Runs : (id : ℕ) → Moves env runs (revoke_with_timestamp env id)
  unfolding revoke_with_timestamp
  revoke_with_timestamp-Runs id = revoke_where-Runs env _

  pub revoke_all_by_user-Runs : (user : ℕ) → Moves env runs (revoke_all_by_user env user)
  unfolding revoke_all_by_user
  revoke_all_by_user-Runs user = revoke_where-Runs env _

  revoke_others-Runs :
      (user current : ℕ) → Moves env runs (revoke_all_by_user_except_current env user current)
  unfolding revoke_all_by_user_except_current
  revoke_others-Runs user current = revoke_where-Runs env _

  ruleset session_rules = (
    audit_rules, revoke_with_timestamp-Runs, revoke_all_by_user-Runs, revoke_others-Runs,
    create_session-Runs, invalidate_user_cache-Runs,
  )

  reuse-Runs : (session : Session) (ip : Text) → Moves env runs (reuse env session ip)
  unfolding reuse
  reuse-Runs session ip = search session_rules depth 8

  known_session-Runs : (ip : Text) (r : Result Session) → Moves env runs (known_session env ip r)
  unfolding known_session
  known_session-Runs ip (ok s) = search (session_rules, reuse-Runs)
  known_session-Runs ip (err Error.not_found) = search session_rules
  known_session-Runs ip (err _) = search session_rules

  handle_refresh_miss-Runs : (hash ip : Text) → Moves env runs (handle_refresh_miss env hash ip)
  unfolding handle_refresh_miss
  handle_refresh_miss-Runs hash ip = search (session_rules, known_session-Runs)

  active_user-Runs : (r : Result User) → Moves env runs (active_user env r)
  unfolding active_user
  active_user-Runs (ok u) = search session_rules
  active_user-Runs (err e) = search session_rules

  pub reissue-Runs :
      (session : Session) (user : User) (ip user_agent : Text)
      → Moves env runs (reissue env session user ip user_agent)
  unfolding reissue
  reissue-Runs session user ip user_agent = search session_rules depth 14

  rotate-Runs :
      (session : Session) (ip user_agent : Text) → Moves env runs (rotate env session ip user_agent)
  unfolding rotate
  rotate-Runs session ip user_agent =
      search (session_rules, active_user-Runs, reissue-Runs) depth 14

  on_session-Runs :
      (hash ip user_agent : Text) (r : Result Session)
      → Moves env runs (on_session env hash ip user_agent r)
  unfolding on_session
  on_session-Runs hash ip user_agent (ok s) = rotate-Runs s ip user_agent
  on_session-Runs hash ip user_agent (err Error.not_found) = handle_refresh_miss-Runs hash ip
  on_session-Runs hash ip user_agent (err _) = search session_rules

  pub refresh-Runs : (token ip user_agent : Text) → Moves env runs (refresh env token ip user_agent)
  unfolding refresh
  refresh-Runs token ip user_agent = search (session_rules, on_session-Runs)

  end_session-Runs : (session : Session) → Moves env runs (end_session env session)
  unfolding end_session
  end_session-Runs session = search session_rules

  logout_session-Runs : (r : Result Session) → Moves env runs (logout_session env r)
  unfolding logout_session
  logout_session-Runs (ok s) = end_session-Runs s
  logout_session-Runs (err Error.not_found) = search session_rules
  logout_session-Runs (err _) = search session_rules

  pub logout-Runs : (token : Text) → Moves env runs (logout env token)
  unfolding logout
  logout-Runs token = search (session_rules, logout_session-Runs)

  pub touch_session-Runs : (id : ℕ) → Moves env runs (touch_session env id)
  unfolding touch_session
  touch_session-Runs id = search session_rules

  pub list_active_sessions-Runs : (user : ℕ) → Moves env runs (list_active_sessions env user)
  unfolding list_active_sessions
  list_active_sessions-Runs user = search session_rules

  pub revoke_session-Runs : (id user : ℕ) → Moves env runs (revoke_session env id user)
  unfolding revoke_session
  revoke_session-Runs id user = search session_rules depth 8

  pub revoke_other_sessions-Runs :
      (user current : ℕ) → Moves env runs (revoke_other_sessions env user current)
  unfolding revoke_other_sessions
  revoke_other_sessions-Runs user current = search session_rules
