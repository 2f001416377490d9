-- ===== src/Service/Refresh.antt =====
-- backend/internal/service/auth.go: what becomes of a session after it is created
pub mod Runs
pub mod Rotation
pub mod Soundness
pub mod Totality
pub mod Race
use secure_auth_platform.Prelude.{
  ℕ, Bool, List, [], ◌∷◌, Option, none, some, Text, bytes, ltb, ◌==◌, if◌then◌else◌,
}
use secure_auth_platform.Exec.{
  Result, ok, err, not_found, invalid_session, token_reuse, not_session_owner, pure, fail, attempt,
  ignore, ◌>>=◌, ◌>>◌,
}
use secure_auth_platform.Models.{User, Session, Datum, text, number, null}
use secure_auth_platform.Env.{Env}
use secure_auth_platform.World.{App, time_now}
use secure_auth_platform.Repository.Sessions
use secure_auth_platform.Repository.Users
use secure_auth_platform.Service.Audit.{log, log_security_alert}
use secure_auth_platform.Service.Tokens.{TokenPair, create_session, hash_token}
use secure_auth_platform.Service.PermissionService.{invalidate_user_cache}

optional_text : Option Text → Datum
optional_text none = null
optional_text (some t) = text t

module _ (env : Env) where
  -- A known token of a dead session: every session of the user is revoked.
  unfoldable pub reuse : Session → Text → App env TokenPair
  reuse session ip = do
    ignore (Sessions.revoke_all_by_user env session.user_id)
    log env (some session.user_id) (bytes "session.revoked") (bytes "session") (some session.id)
        none
        (some (
          (bytes "reason", text (bytes "refresh_token_reuse"))
          ∷ (bytes "sessionId", number session.id)
          ∷ []))
    log_security_alert env (some session.user_id) (bytes "refresh_token_reuse")
        ((bytes "sessionId", number session.id) ∷ (bytes "ip", text ip) ∷ [])
    fail token_reuse

  known_session : Text → Result Session → App env TokenPair
  known_session ip (err not_found) = fail invalid_session
  known_session ip (err e) = fail e
  known_session ip (ok session) = if session.revoked then reuse session ip else do
    now ← time_now env
    if ltb session.expires_at now then reuse session ip else fail invalid_session

  unfoldable pub handle_refresh_miss : (hash ip : Text) → App env TokenPair
  unfolding known_session
  handle_refresh_miss hash ip = do
    session ← attempt (Sessions.find_by_token_hash env hash)
    known_session ip session

  active_user : Result User → App env User
  active_user (err e) = fail invalid_session
  active_user (ok user) = if user.active then pure user else fail invalid_session

  -- The new session, once the old one is revoked.
  unfoldable pub reissue : Session → User → (ip user_agent : Text) → App env TokenPair
  reissue session user ip user_agent = do
    pair ← create_session env user ip user_agent
    log env (some user.id) (bytes "session.refreshed") (bytes "session") (some session.id) none (
        some (
          (bytes "oldSessionId", number session.id)
          ∷ (bytes "newSessionId", number pair.session_id)
          ∷ []))
    invalidate_user_cache env user.id
    pure pair

  unfoldable pub rotate : Session → (ip user_agent : Text) → App env TokenPair
  unfolding active_user
  rotate session ip user_agent = do
    found ← attempt (Users.find_by_id env session.user_id)
    user ← active_user found
    Sessions.revoke_with_timestamp env session.id
    reissue session user ip user_agent

  pub on_session : (hash ip user_agent : Text) → Result Session → App env TokenPair
  on_session hash ip user_agent (ok session) = rotate session ip user_agent
  on_session hash ip user_agent (err not_found) = handle_refresh_miss hash ip
  on_session hash ip user_agent (err e) = fail e

  unfoldable pub refresh : (token ip user_agent : Text) → App env TokenPair
  unfolding on_session
  refresh token ip user_agent = do
    let hash = hash_token env token
    session ← attempt (Sessions.find_active_by_token_hash env hash)
    on_session hash ip user_agent session

  end_session : Session → App env (Unit {0})
  end_session session = do
    Sessions.revoke_with_timestamp env session.id
    log env (some session.user_id) (bytes "logout") (bytes "auth") (some session.user_id) none
        (some ((bytes "sessionId", number session.id) ∷ []))
    log env (some session.user_id) (bytes "session.revoked") (bytes "session") (some session.id)
        none (some ((bytes "reason", text (bytes "logout")) ∷ []))

  -- A token of no active session is no error.
  logout_session : Result Session → App env (Unit {0})
  unfolding end_session
  logout_session (ok session) = end_session session
  logout_session (err not_found) = pure tt
  logout_session (err e) = fail e

  unfoldable pub logout : Text → App env (Unit {0})
  unfolding logout_session
  logout token = do
    session ← attempt (Sessions.find_active_by_token_hash env (hash_token env token))
    logout_session session

  unfoldable pub touch_session : ℕ → App env Bool
  touch_session session_id = do rows ← Sessions.touch_activity env session_id; pure (ltb 0 rows)

  unfoldable pub list_active_sessions : ℕ → App env (List Session)
  list_active_sessions user = Sessions.find_active_by_user_id env user

  unfoldable pub revoke_session : (session_id user : ℕ) → App env (Unit {0})
  unfolding optional_text
  revoke_session session_id user = do
    session ← Sessions.find_by_id env session_id
    if session.user_id == user then pure tt else fail not_session_owner
    Sessions.revoke_with_timestamp env session_id
    log env (some user) (bytes "session.revoked_manually") (bytes "sessions") (some session_id)
        (some (
          (bytes "userAgent", optional_text session.user_agent)
          ∷ (bytes "ip", optional_text session.ip_address)
          ∷ []))
        none

  unfoldable pub revoke_other_sessions : (user current : ℕ) → App env (Unit {0})
  revoke_other_sessions user current = do
    Sessions.revoke_all_by_user_except_current env user current
    log env (some user) (bytes "sessions.revoked_others") (bytes "users") (some user) none none
