-- ===== src/Http/AuthHandler.antt =====
-- backend/internal/auth/handler.go
use secure_auth_platform.Prelude.{
  ℕ, ◌*◌, ◌-◌, ◌/◌, ℤ, pos, negsuc, Bool, List, [], ◌∷◌, none, some, bytes, ◌==◌, ◌=t=◌, ◌||◌,
  parse_int64, if◌then◌else◌,
}
use secure_auth_platform.Exec.{
  Error, Result, ok, err, not_found, invalid_credentials, rate_limited, rate_limit_down,
  invalid_session, token_reuse, pure, attempt, ◌>>=◌,
}
use secure_auth_platform.Models.{Session}
use secure_auth_platform.Env.{Env}
use secure_auth_platform.World.{App, sql, time_now}
use secure_auth_platform.Service.Tokens.{TokenPair, TokenClaims, second}
use secure_auth_platform.Service.Login
use secure_auth_platform.Service.Refresh
use secure_auth_platform.Http.Params.{for_some}
use secure_auth_platform.Http.{
  LoginRequest, Request, nothing, access_token, sessions, Outcome, replied, refused, failed, Answer,
  answer,
}

-- The window that app.go hands to the handler.
abbrev pub rate_window : ℕ
rate_window = 15 * 60 * second

abbrev hour : ℕ
hour = 3600 * second

-- setRefreshCookie, and the reply with the access token
abbrev pub with_tokens : TokenPair → Answer
with_tokens pair = record {
  cookie = some (record { value = pair.refresh_token; expires = pair.refresh_expires_at });
  retry_after = none;
  outcome = replied 200 (access_token pair.access_token);
}

-- clearRefreshCookie: the end is an hour ago.
abbrev pub clearing : ℕ → Outcome → Answer
clearing now o = record {
  cookie = some (record { value = []; expires = now - hour });
  retry_after = none;
  outcome = o;
}

unfoldable pub login_answer : Result TokenPair → Answer
login_answer (ok pair) = with_tokens pair
login_answer (err rate_limited) = record {
  cookie = none;
  retry_after = some (rate_window / second);
  outcome = refused 429 (bytes "too many login attempts");
}
login_answer (err rate_limit_down) = answer (refused 503 (bytes "login temporarily unavailable"))
login_answer (err invalid_credentials) = answer (refused 401 (bytes "invalid credentials"))
login_answer (err e) = answer (failed e)

unfoldable pub is_bad_session : Error → Bool
is_bad_session invalid_session = Bool.true
is_bad_session token_reuse = Bool.true
is_bad_session e = Bool.false

-- The sessions, with the mark of the one that asks.
unfoldable pub marked : ℕ → List Session → List (Session × Bool)
marked current [] = []
marked current (s ∷ ss) = (s, s.id == current) ∷ marked current ss

abbrev pub listed : ℕ → Result (List Session) → Answer
listed current (ok ss) = answer (replied 200 (sessions (marked current ss)))
listed current (err e) = answer (failed e)

abbrev pub done_or_failed : Result (Unit {0}) → Answer
done_or_failed (ok u) = answer (replied 204 nothing)
done_or_failed (err e) = answer (failed e)

module _ (env : Env) where
  unfoldable pub login_with : Request → LoginRequest → App env Answer
  login_with req body =
      if body.email =t= [] || body.password =t= []
      then pure (answer (refused 400 (bytes "email and password are required")))
      else (do
        r ← attempt (Login.login env body.email body.password req.ip req.user_agent)
        pure (login_answer r))

  unfoldable pub login : Request → App env Answer
  login req =
      for_some env req.login_body (answer (refused 400 (bytes "email and password are required")))
        (login_with req)

  unfoldable pub refresh_answer : Result TokenPair → App env Answer
  refresh_answer (ok pair) = pure (with_tokens pair)
  refresh_answer (err e) =
      if is_bad_session e
      then (do now ← time_now env; pure (clearing now (refused 401 (bytes "invalid session"))))
      else pure (answer (failed e))

  unfoldable pub refresh : Request → App env Answer
  refresh req =
      if req.refresh_cookie =t= []
      then pure (answer (refused 401 (bytes "missing refresh token")))
      else (do
        r ← attempt (Refresh.refresh env req.refresh_cookie req.ip req.user_agent)
        refresh_answer r)

  unfoldable pub cleared : App env Answer
  cleared = do now ← time_now env; pure (clearing now (replied 204 nothing))

  unfoldable pub logout_answer : Result (Unit {0}) → App env Answer
  logout_answer (ok u) = cleared
  logout_answer (err e) = pure (answer (failed e))

  unfoldable pub logout : Request → App env Answer
  logout req =
      if req.refresh_cookie =t= []
      then cleared
      else (do r ← attempt (Refresh.logout env req.refresh_cookie); logout_answer r)

  unfoldable pub list_sessions : TokenClaims → App env Answer
  list_sessions who = do
    r ← attempt (Refresh.list_active_sessions env who.user_id)
    pure (listed who.session_id r)

  -- No row has a negative identifier: the query for it finds nothing, if it does not fail.
  unfoldable pub find_negative : App env (Unit {0})
  find_negative = sql env (λ _ t. (err not_found, t))

  unfoldable pub revoke_parsed : TokenClaims → ℤ → App env Answer
  revoke_parsed who (negsuc n) = do r ← attempt find_negative; pure (done_or_failed r)
  revoke_parsed who (pos id) =
      if id == who.session_id
      then pure (answer (refused 409 (bytes "cannot revoke your current session")))
      else (do r ← attempt (Refresh.revoke_session env id who.user_id); pure (done_or_failed r))

  unfoldable pub revoke_session : Request → TokenClaims → App env Answer
  revoke_session req who =
      for_some env (parse_int64 req.id_param) (answer (refused 400 (bytes "invalid session id")))
        (revoke_parsed who)

  unfoldable pub revoke_all_sessions_except_current : TokenClaims → App env Answer
  revoke_all_sessions_except_current who = do
    r ← attempt (Refresh.revoke_other_sessions env who.user_id who.session_id)
    pure (done_or_failed r)
