-- ===== src/Http/Gate/SignIn.antt =====
-- What Auth lets through: backend/middleware/auth.go.
use mathlib.Core.List.{Memᴰ}
use secure_auth_platform.Prelude.{
  ◌≡◌, refl, ap, subst, ◌∙◌, Bool, true, false, bytes, ◌⊎◌, inl, inr, has_prefix,
}
use secure_auth_platform.Exec.{Result, ok, err, >>=-eq-ok, either_ran_on, attempt-ok}
use secure_auth_platform.Models.{User, Tables}
use secure_auth_platform.Env.{Env}
use secure_auth_platform.World.{World, App}
use secure_auth_platform.Repository.Users
use secure_auth_platform.Repository.Finds.{user_by_id-ok}
use secure_auth_platform.Service.Tokens.{TokenClaims, validate_access_token}
use secure_auth_platform.Service.Refresh.{touch_session}
use secure_auth_platform.Http.{Request, Answer}
use secure_auth_platform.Http.Middleware
use secure_auth_platform.Http.Gate.{
  Aside-refl, Aside-trans, TurnedAway, Known, SignedIn, bearer, turned, later, ran, unmoved,
  find-Aside, touch-Aside, touched-ok, validate-same,
}

module _ (env : Env) where
  module _ (next : TokenClaims → App env Answer) where
    on_touched-splits :
        (who : TokenClaims) (r : Result Bool) (w v : World env.redis.State) (a : Answer)
        → Middleware.on_touched env next who r w ≡ (ok a, v)
        → TurnedAway env w a v ⊎ ((r ≡ ok true) × (next who w ≡ (ok a, v)))
    unfolding Middleware.on_touched
    on_touched-splits who (err e) w v a h = inl (turned env w v _ a h refl)
    on_touched-splits who (ok false) w v a h = inl (turned env w v _ a h refl)
    on_touched-splits who (ok true) w v a h = inr (refl, h)

    on_user-splits :
        (who : TokenClaims) (r : Result User) (w v : World env.redis.State) (a : Answer)
        → Middleware.on_user env next who r w ≡ (ok a, v)
        → TurnedAway env w a v
          ⊎ ((user : User) × (u : World env.redis.State) × (r ≡ ok user)
              × (user.active ≡ true)
              × (touch_session env who.session_id w ≡ (ok true, u))
              × (next who u ≡ (ok a, v)))
    unfolding Middleware.on_user
    on_user-splits who (err e) w v a h = inl (turned env w v _ a h refl)
    on_user-splits who (ok user) w v a h = elim (either_ran_on user.active _ _ w h) [
      | inr (_, k) ↦ inl (turned env w v _ a k refl)
      | inl (on, k) ↦
          let (r, u, e, l) = >>=-eq-ok _ _ w k in
          let touched = attempt-ok (touch_session env who.session_id) w e in
          elim (on_touched-splits who r u v a l) [
            | inl t ↦
                inl (later env w u v a (ran env _ w u r (touch-Aside env who.session_id) touched) t)
            | inr (yes_, l') ↦
                inr (user, u, refl, on, touched ∙ ap (λ (x : Result Bool). (x, u)) yes_, l')
          ]
    ]

    on_claims-splits :
        (r : Result TokenClaims) (w v : World env.redis.State) (a : Answer)
        → Middleware.on_claims env next r w ≡ (ok a, v)
        → TurnedAway env w a v
          ⊎ ((who : TokenClaims) × (u : World env.redis.State) × (r ≡ ok who)
              × Known env w.db who u.db
              × (next who u ≡ (ok a, v)))
    unfolding Middleware.on_claims
    on_claims-splits (err e) w v a h = inl (turned env w v _ a h refl)
    on_claims-splits (ok who) w v a h =
        let (r, x, e, k) = >>=-eq-ok _ _ w h in
        let found = attempt-ok (Users.find_by_id env who.user_id) w e in
        let kept = ran env _ w x r (find-Aside env who.user_id) found in
        elim (on_user-splits who r x v a k) [
          | inl t ↦ inl (later env w x v a kept t)
          | inr (user, u, is, on, touched, l) ↦
              let (listed, named, here) =
                user_by_id-ok env who.user_id w x user
                  (found ∙ ap (λ (y : Result User). (y, x)) is) in
              let (s, s_listed, s_named, s_open) = touched-ok env who.session_id x u touched in
              inr (
                who,
                u,
                refl,
                record {
                  user = user;
                  user_listed = listed;
                  user_named = named;
                  user_active = on;
                  session = s;
                  session_listed = subst (λ (t : Tables). Memᴰ s t.sessions) here s_listed;
                  session_named = s_named;
                  session_open = s_open;
                  untouched =
                      Aside-trans w.db x.db u.db kept
                        (ran env _ x u (ok true) (touch-Aside env who.session_id) touched);
                },
                l,
              )
        ]

    pub auth-splits :
        (req : Request) (w v : World env.redis.State) (a : Answer)
        → Middleware.auth env next req w ≡ (ok a, v)
        → TurnedAway env w a v
          ⊎ ((who : TokenClaims) × (u : World env.redis.State) × SignedIn env req w who u
              × (next who u ≡ (ok a, v)))
    unfolding Middleware.auth
    auth-splits req w v a h =
        elim (either_ran_on (has_prefix req.authorization (bytes "Bearer ")) _ _ w h) [
          | inr (_, k) ↦ inl (turned env w v _ a k refl)
          | inl (_, k) ↦
              let (r, x, e, l) = >>=-eq-ok _ _ w k in
              let read = attempt-ok (validate_access_token env (bearer req)) w e in
              let here = unmoved env _ w x r (validate-same env (bearer req)) read in
              elim (on_claims-splits r x v a l) [
                | inl t ↦ inl (later env w x v a (Aside-refl w.db x.db here) t)
                | inr (who, u, is, known, l') ↦ inr (
                  who,
                  u,
                  record {
                    read = x;
                    valid = read ∙ ap (λ (y : Result TokenClaims). (y, x)) is;
                    known = subst (λ (t : Tables). Known env t who u.db) here known;
                  },
                  l',
                )
              ]
        ]
