-- ===== src/Http/Cookies.antt =====
-- What the refresh cookie says: Login and Refresh of backend/internal/auth/handler.go.
use secure_auth_platform.Prelude.{
  ◌≡◌, refl, sym, ap, ◌∙◌, true, ◌||◌, [], Option, none, some, bytes, ◌⊎◌, inl, inr, ◌=t=◌,
}
use secure_auth_platform.Exec.{
  Error, Result, ok, err, rate_limited, rate_limit_down, invalid_credentials, >>=-eq-ok,
  either_ran_on, attempt-ok, outcome-eq,
}
use secure_auth_platform.Models.{User}
use secure_auth_platform.Env.{Env}
use secure_auth_platform.World.{World}
use secure_auth_platform.Service.Tokens.{TokenPair}
use secure_auth_platform.Service.Login.Soundness.{Authentic, login_sound}
use secure_auth_platform.Service.Refresh
use secure_auth_platform.Http.{LoginRequest, Request, Cookie, refused, Answer, answer, status_of}
use secure_auth_platform.Http.Params.{for_some}
use secure_auth_platform.Http.AuthHandler.{
  login_answer, login_with, login, is_bad_session, refresh_answer, refresh,
}

login_answer-cookie :
    (r : Result TokenPair) (c : Cookie)
    → (login_answer r).cookie ≡ some c
    → (p : TokenPair) × (r ≡ ok p)
unfolding login_answer
login_answer-cookie (ok p) c h = (p, refl)
login_answer-cookie (err rate_limited) c h = cc
login_answer-cookie (err rate_limit_down) c h = cc
login_answer-cookie (err invalid_credentials) c h = cc
login_answer-cookie (err _) c h = cc

same_cookie : {d c : Cookie} → some d ≡ some c → (c.value ≡ d.value) × (c.expires ≡ d.expires)
same_cookie {d} {c} h =
    let same : c ≡ d = cc in
    (ap (λ (x : Cookie). x.value) same, ap (λ (x : Cookie). x.expires) same)

module _ (env : Env) where
  login_with-cookie :
      (req : Request) (body : LoginRequest) (w v : World env.redis.State) (a : Answer) (c : Cookie)
      → login_with env req body w ≡ (ok a, v)
      → a.cookie ≡ some c
      → (u : User) × Authentic env w.db body.email body.password u
  unfolding login_with
  login_with-cookie req body w v a c h k =
      elim (either_ran_on (body.email =t= [] || body.password =t= []) _ _ w h) [
        | inl (_, l) ↦ let (made, _) = outcome-eq l in cc
        | inr (_, l) ↦
            let (r, u, e, l') = >>=-eq-ok _ _ w l in
            let (made, _) = outcome-eq l' in
            let (p, is) = login_answer-cookie r c (ap (λ (x : Answer). x.cookie) made ∙ k) in
            login_sound env body.email body.password req.ip req.user_agent w u p
              (attempt-ok _ w e ∙ ap (λ (x : Result TokenPair). (x, u)) is)
      ]

  -- A login request whose answer sets the refresh cookie has a body, whose email is that of an
  -- active user and whose password the stored hash of that user accepts.
  pub login_cookie_sound :
      (req : Request) (w v : World env.redis.State) (a : Answer) (c : Cookie)
      → login env req w ≡ (ok a, v)
      → a.cookie ≡ some c
      → (body : LoginRequest) × (req.login_body ≡ some body)
        × (u : User) × Authentic env w.db body.email body.password u
  unfolding login for_some
  login_cookie_sound req w v a c h k = go req.login_body refl h
    where
      go :
          (o : Option LoginRequest)
          → req.login_body ≡ o
          → for_some env o
              (answer (refused 400 (bytes "email and password are required")))
              (login_with env req)
              w
            ≡ (ok a, v)
          → (body : LoginRequest) × (req.login_body ≡ some body)
            × (u : User) × Authentic env w.db body.email body.password u
      go none e l = let (made, _) = outcome-eq l in cc
      go (some body) e l =
          let (u, authentic) = login_with-cookie req body w v a c l k in (body, e, u, authentic)

  -- What a refresh answers when it sets the cookie: the new token of a refresh that succeeded, or
  -- an empty value with status 401, where the session was not good.
  abbrev pub CookieOf : Request → World env.redis.State → Answer → Cookie → Type 0
  CookieOf req w a c =
      ((p : TokenPair) × (u : World env.redis.State) × (Refresh.refresh env req.refresh_cookie
            req.ip req.user_agent w
          ≡ (ok p, u))
        × (c.value ≡ p.refresh_token)
        × (c.expires ≡ p.refresh_expires_at))
      ⊎ ((e : Error) × (u : World env.redis.State) × (Refresh.refresh env req.refresh_cookie req.ip
              req.user_agent w
            ≡ (err e, u))
          × (is_bad_session e ≡ true)
          × (c.value ≡ [])
          × (status_of a.outcome ≡ 401))

  refresh_answer-cookie :
      (r : Result TokenPair) (w v : World env.redis.State) (a : Answer) (c : Cookie)
      → refresh_answer env r w ≡ (ok a, v)
      → a.cookie ≡ some c
      → ((p : TokenPair) × (r ≡ ok p)
          × (c.value ≡ p.refresh_token)
          × (c.expires ≡ p.refresh_expires_at))
        ⊎ ((e : Error) × (r ≡ err e)
            × (is_bad_session e ≡ true)
            × (c.value ≡ [])
            × (status_of a.outcome ≡ 401))
  unfolding refresh_answer
  refresh_answer-cookie (ok p) w v a c h k =
      let (made, _) = outcome-eq h in
      let (value, end) = same_cookie (ap (λ (x : Answer). x.cookie) made ∙ k) in
      inl (p, refl, value, end)
  refresh_answer-cookie (err e) w v a c h k = elim (either_ran_on (is_bad_session e) _ _ w h) [
    | inl (bad, l) ↦
        let (now, u, _, l') = >>=-eq-ok _ _ w l in
        let (made, _) = outcome-eq l' in
        inr (
          e,
          refl,
          bad,
          (same_cookie (ap (λ (x : Answer). x.cookie) made ∙ k)).0,
          ap (λ (x : Answer). status_of x.outcome) (sym made),
        )
    | inr (_, l) ↦ let (made, _) = outcome-eq l in cc
  ]

  -- A refresh request whose answer sets the cookie sets the token and the end of a refresh that
  -- succeeded; or the refresh failed because of the session, the value is empty and the status is 401.
  pub refresh_cookie_sound :
      (req : Request) (w v : World env.redis.State) (a : Answer) (c : Cookie)
      → refresh env req w ≡ (ok a, v)
      → a.cookie ≡ some c
      → CookieOf req w a c
  unfolding refresh
  refresh_cookie_sound req w v a c h k = elim (either_ran_on (req.refresh_cookie =t= []) _ _ w h) [
    | inl (_, l) ↦ let (made, _) = outcome-eq l in cc
    | inr (_, l) ↦
        let (r, u, e, l') = >>=-eq-ok _ _ w l in
        let ran = attempt-ok _ w e in
        elim (refresh_answer-cookie r u v a c l' k) [
          | inl (p, is, q, q2) ↦ inl (p, u, ran ∙ ap (λ (x : Result TokenPair). (x, u)) is, q, q2)
          | inr (x, is, bad, q, q2) ↦
              inr (x, u, ran ∙ ap (λ (y : Result TokenPair). (y, u)) is, bad, q, q2)
        ]
  ]
