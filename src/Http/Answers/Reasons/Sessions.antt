-- ===== src/Http/Answers/Reasons/Sessions.antt =====
-- Why the handlers of backend/internal/auth/handler.go answer as they do.
use secure_auth_platform.Prelude.{
  ℕ, ℤ, pos, negsuc, ◌≡◌, refl, ◌||◌, List, [], some, ◌==◌, ◌=t=◌, inl, inr, Bool-cases,
  parse_int64,
}
use secure_auth_platform.Exec.{Error, Result, ok, err, attempt, ◌>>=◌}
use secure_auth_platform.Models.{Session}
use secure_auth_platform.Env.{Env}
use secure_auth_platform.World.{World, time_now}
use secure_auth_platform.Service.Tokens.{TokenPair, TokenClaims}
use secure_auth_platform.Http.{LoginRequest, Request, status_of}
use secure_auth_platform.Http.AuthHandler
use secure_auth_platform.Http.Routes.{Route}
use secure_auth_platform.Http.Answers.Statuses.{
  early_status, needs, own_session, result_status, success_status, error_status,
}
use secure_auth_platform.Http.Answers.Calls.{
  early, called, login, refresh, logout, list_sessions, revoke_others, revoke_session,
  revoke_negative,
}
use secure_auth_platform.Http.Answers.Reasons.{Reason, status_at, for_some-Reason, refuse-Reason}

login_answer-status :
    (r : Result TokenPair)
    → status_of (AuthHandler.login_answer r).outcome ≡ result_status Route.post_login r
unfolding AuthHandler.login_answer result_status success_status error_status
login_answer-status (ok p) = refl
login_answer-status (err Error.rate_limited) = refl
login_answer-status (err Error.rate_limit_down) = refl
login_answer-status (err Error.invalid_credentials) = refl
login_answer-status (err _) = refl

listed-status :
    (n : ℕ) (r : Result (List Session))
    → status_of (AuthHandler.listed n r).outcome ≡ result_status Route.get_sessions r
unfolding result_status success_status error_status
listed-status n (ok ss) = refl
listed-status n (err _) = refl

others-status :
    (r : Result (Unit {0}))
    → status_of (AuthHandler.done_or_failed r).outcome ≡ result_status Route.delete_sessions r
unfolding result_status success_status error_status
others-status (ok u) = refl
others-status (err _) = refl

one-status :
    (r : Result (Unit {0}))
    → status_of (AuthHandler.done_or_failed r).outcome ≡ result_status Route.delete_session r
unfolding result_status success_status error_status
one-status (ok u) = refl
one-status (err _) = refl

module _ (env : Env) where
  refresh_answer-status :
      (r : Result TokenPair) (w : World env.redis.State)
      → status_at (AuthHandler.refresh_answer env r w) ≡ result_status Route.post_refresh r
  unfolding AuthHandler.refresh_answer AuthHandler.is_bad_session result_status success_status
      error_status time_now ◌>>=◌
  refresh_answer-status (ok p) w = refl
  refresh_answer-status (err Error.invalid_session) w = refl
  refresh_answer-status (err Error.token_reuse) w = refl
  refresh_answer-status (err _) w = refl

  cleared-status : (w : World env.redis.State) → status_at (AuthHandler.cleared env w) ≡ 204
  unfolding AuthHandler.cleared time_now ◌>>=◌
  cleared-status w = refl

  logout_answer-status :
      (r : Result (Unit {0})) (w : World env.redis.State)
      → status_at (AuthHandler.logout_answer env r w) ≡ result_status Route.post_logout r
  unfolding AuthHandler.logout_answer result_status success_status error_status
  logout_answer-status (ok p) w = cleared-status w
  logout_answer-status (err _) w = refl

  module _ (req : Request) (who : TokenClaims) (w : World env.redis.State) where
    login_with-Reason :
        (b : LoginRequest)
        → req.login_body ≡ some b
        → Reason env req who w Route.post_login (AuthHandler.login_with env req b)
    unfolding AuthHandler.login_with early_status needs attempt ◌>>=◌
    login_with-Reason b e =
        refuse-Reason env req who w Route.post_login (b.email =t= [] || b.password =t= []) 400 _ _
          (λ bad. rw (e, bad) refl)
          λ good. called _ _ (login b e) (rw (e, good) refl) (login_answer-status _)

    pub login-Reason : Reason env req who w Route.post_login (AuthHandler.login env req)
    unfolding AuthHandler.login early_status needs
    login-Reason =
        for_some-Reason env req who w Route.post_login req.login_body _ _ (λ e. early (rw e refl))
          login_with-Reason

    pub refresh-Reason : Reason env req who w Route.post_refresh (AuthHandler.refresh env req)
    unfolding AuthHandler.refresh early_status attempt ◌>>=◌
    refresh-Reason =
        refuse-Reason env req who w Route.post_refresh (req.refresh_cookie =t= []) 401 _ _
          (λ bad. rw bad refl) λ good. called _ _ refresh (rw good refl) (refresh_answer-status _ _)

    pub logout-Reason : Reason env req who w Route.post_logout (AuthHandler.logout env req)
    unfolding AuthHandler.logout early_status attempt ◌>>=◌
    logout-Reason = elim (Bool-cases (req.refresh_cookie =t= [])) [
      | inl bad ↦ rw bad (early (rw (bad, cleared-status w) refl))
      | inr good ↦ rw good (called _ _ logout (rw good refl) (logout_answer-status _ _))
    ]

    pub list_sessions-Reason :
        Reason env req who w Route.get_sessions (AuthHandler.list_sessions env who)
    unfolding AuthHandler.list_sessions early_status attempt ◌>>=◌
    list_sessions-Reason = called _ _ list_sessions refl (listed-status _ _)

    pub revoke_others-Reason :
        Reason env req who w Route.delete_sessions
          (AuthHandler.revoke_all_sessions_except_current env who)
    unfolding AuthHandler.revoke_all_sessions_except_current early_status attempt ◌>>=◌
    revoke_others-Reason = called _ _ revoke_others refl (others-status _)

    revoke_parsed-Reason :
        (z : ℤ)
        → parse_int64 req.id_param ≡ some z
        → Reason env req who w Route.delete_session (AuthHandler.revoke_parsed env who z)
    unfolding AuthHandler.revoke_parsed early_status needs own_session attempt ◌>>=◌
    revoke_parsed-Reason (negsuc n) e = called _ _ (revoke_negative n e) (rw e refl) (one-status _)
    revoke_parsed-Reason (pos id) e =
        refuse-Reason env req who w Route.delete_session (id == who.session_id) 409 _ _
          (λ own. rw (e, own) refl)
          λ other. called _ _ (revoke_session id e) (rw (e, other) refl) (one-status _)

    pub revoke_session-Reason :
        Reason env req who w Route.delete_session (AuthHandler.revoke_session env req who)
    unfolding AuthHandler.revoke_session early_status needs
    revoke_session-Reason =
        for_some-Reason env req who w Route.delete_session (parse_int64 req.id_param) _ _
          (λ e. early (rw e refl)) revoke_parsed-Reason
