-- ===== src/Http/Gate/Grants.antt =====
-- What RequirePermission and RequireAnyPermission let through: backend/middleware/permission.go.
use mathlib.Core.List.{Memᴰ}
use secure_auth_platform.Prelude.{
  ◌≡◌, refl, ap, ◌∙◌, Bool, true, false, List, [], ◌∷◌, Text, ◌⊎◌, inl, inr, ◌==◌,
}
use secure_auth_platform.Exec.{Result, ok, err, >>=-eq-ok, either_ran_on, attempt-ok}
use secure_auth_platform.Env.{Env}
use secure_auth_platform.World.{World, App}
use secure_auth_platform.Service.Tokens.{TokenClaims}
use secure_auth_platform.Service.PermissionService.{has_permission}
use secure_auth_platform.Service.PermissionService.Reads.{has_permission-same}
use secure_auth_platform.Http.{Answer}
use secure_auth_platform.Http.Middleware
use secure_auth_platform.Http.Gate.{Aside-refl, TurnedAway, turned, later, unmoved}

module _ (env : Env) where
  on_allowed-splits :
      (code : Text) (next : App env Answer) (r : Result Bool) (w v : World env.redis.State)
      (a : Answer)
      → Middleware.on_allowed env code next r w ≡ (ok a, v)
      → TurnedAway env w a v ⊎ ((r ≡ ok true) × (next w ≡ (ok a, v)))
  unfolding Middleware.on_allowed
  on_allowed-splits code next (err e) w v a h = inl (turned env w v _ a h refl)
  on_allowed-splits code next (ok false) w v a h = inl (turned env w v _ a h refl)
  on_allowed-splits code next (ok true) w v a h = inr (refl, h)

  -- A permission check that the user passed, and the database left alone by it.
  pub record Passed (who : TokenClaims) (code : Text) (w u : World env.redis.State) : Type 0 where
    pub start : World env.redis.State
    pub start_same : start.db ≡ w.db
    pub end_same : u.db ≡ w.db
    pub granted : has_permission env who.user_id code start ≡ (ok true, u)

  pub require-splits :
      (code : Text) (next : TokenClaims → App env Answer) (who : TokenClaims)
      (w v : World env.redis.State) (a : Answer)
      → Middleware.require_permission env code next who w ≡ (ok a, v)
      → TurnedAway env w a v
        ⊎ ((u : World env.redis.State) × Passed who code w u × (next who u ≡ (ok a, v)))
  unfolding Middleware.require_permission
  require-splits code next who w v a h = elim (either_ran_on (who.user_id == 0) _ _ w h) [
    | inl (_, k) ↦ inl (turned env w v _ a k refl)
    | inr (_, k) ↦
        let (r, x, e, l) = >>=-eq-ok _ _ w k in
        let asked = attempt-ok (has_permission env who.user_id code) w e in
        let here = unmoved env _ w x r (has_permission-same env who.user_id code) asked in
        elim (on_allowed-splits code (next who) r x v a l) [
          | inl t ↦ inl (later env w x v a (Aside-refl w.db x.db here) t)
          | inr (is, l') ↦ inr (
            x,
            record {
              start = w;
              start_same = refl;
              end_same = here;
              granted = asked ∙ ap (λ (y : Result Bool). (y, x)) is;
            },
            l',
          )
        ]
  ]

  on_any-splits :
      (next rest : App env Answer) (r : Result Bool) (w v : World env.redis.State) (a : Answer)
      → Middleware.on_any env next rest r w ≡ (ok a, v)
      → TurnedAway env w a v ⊎ ((r ≡ ok true) × (next w ≡ (ok a, v))) ⊎ (rest w ≡ (ok a, v))
  unfolding Middleware.on_any
  on_any-splits next rest (err e) w v a h = inl (turned env w v _ a h refl)
  on_any-splits next rest (ok false) w v a h = inr (inr h)
  on_any-splits next rest (ok true) w v a h = inr (inl (refl, h))

  any_of-splits :
      (who : TokenClaims) (next : App env Answer) (codes : List Text) (w v : World env.redis.State)
      (a : Answer)
      → Middleware.any_of env who.user_id next codes w ≡ (ok a, v)
      → TurnedAway env w a v
        ⊎ ((code : Text) × (u : World env.redis.State) × Memᴰ code codes
            × Passed who code w u
            × (next u ≡ (ok a, v)))
  unfolding Middleware.any_of
  any_of-splits who next [] w v a h = inl (turned env w v _ a h refl)
  any_of-splits who next (code ∷ codes) w v a h =
      let (r, x, e, k) = >>=-eq-ok _ _ w h in
      let asked = attempt-ok (has_permission env who.user_id code) w e in
      let here = unmoved env _ w x r (has_permission-same env who.user_id code) asked in
      elim (on_any-splits next (Middleware.any_of env who.user_id next codes) r x v a k) [
        | inl t ↦ inl (later env w x v a (Aside-refl w.db x.db here) t)
        | inr (inl (is, l)) ↦ inr (
          code,
          x,
          Memᴰ.head refl,
          record {
            start = w;
            start_same = refl;
            end_same = here;
            granted = asked ∙ ap (λ (y : Result Bool). (y, x)) is;
          },
          l,
        )
        | inr (inr l) ↦ elim (any_of-splits who next codes x v a l) [
          | inl t ↦ inl (later env w x v a (Aside-refl w.db x.db here) t)
          | inr (c, u, m, p, l') ↦ inr (
            c,
            u,
            Memᴰ.tail m,
            record {
              start = p.start;
              start_same = p.start_same ∙ here;
              end_same = p.end_same ∙ here;
              granted = p.granted;
            },
            l',
          )
        ]
      ]

  pub require_any-splits :
      (codes : List Text) (next : TokenClaims → App env Answer) (who : TokenClaims)
      (w v : World env.redis.State) (a : Answer)
      → Middleware.require_any_permission env codes next who w ≡ (ok a, v)
      → TurnedAway env w a v
        ⊎ ((code : Text) × (u : World env.redis.State) × Memᴰ code codes
            × Passed who code w u
            × (next who u ≡ (ok a, v)))
  unfolding Middleware.require_any_permission
  require_any-splits codes next who w v a h = elim (either_ran_on (who.user_id == 0) _ _ w h) [
    | inl (_, k) ↦ inl (turned env w v _ a k refl)
    | inr (_, k) ↦ any_of-splits who (next who) codes w v a k
  ]
