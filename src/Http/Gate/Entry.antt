-- ===== src/Http/Gate/Entry.antt =====
-- Who reaches a handler: backend/middleware/auth.go, permission.go, backend/routes/routes.go.
use mathlib.Core.List.{Memᴰ}
use secure_auth_platform.Prelude.{◌≡◌, refl, false, Text, ◌⊎◌, inl, inr}
use secure_auth_platform.Exec.{ok}
use secure_auth_platform.Env.{Env}
use secure_auth_platform.World.{World, App}
use secure_auth_platform.Service.Tokens.{TokenClaims}
use secure_auth_platform.Http.{Request, Answer}
use secure_auth_platform.Http.Routes.{Route, Guard, guard_of, guarded, handler_of, serve_route}
use secure_auth_platform.Http.Gate.{TurnedAway, SignedIn, is_public, later}
use secure_auth_platform.Http.Gate.SignIn.{auth-splits}
use secure_auth_platform.Http.Gate.Grants.{Passed, require-splits, require_any-splits}

module _ (env : Env) where
  -- The permission that a row asks for, checked between two states.
  abbrev pub Allowed : Guard → TokenClaims → (w u : World env.redis.State) → Type 0
  Allowed Guard.public who w u = Unit
  Allowed Guard.signed_in who w u = w ≡ u
  Allowed (Guard.one_code code) who w u = Passed env who code w u
  Allowed (Guard.any_code codes) who w u = (code : Text) × Memᴰ code codes × Passed env who code w u

  pub record LetIn (g : Guard) (req : Request) (w : World env.redis.State) (who : TokenClaims)
      (u : World env.redis.State) : Type 0 where
    pub between : World env.redis.State
    pub signed : SignedIn env req w who between
    pub allowed : Allowed g who between u

  guarded-splits :
      (g : Guard) (next : TokenClaims → App env Answer) (req : Request)
      (w v : World env.redis.State) (a : Answer)
      → is_public g ≡ false
      → guarded env g next req w ≡ (ok a, v)
      → TurnedAway env w a v
        ⊎ ((who : TokenClaims) × (u : World env.redis.State) × LetIn g req w who u
            × (next who u ≡ (ok a, v)))
  unfolding guarded
  guarded-splits Guard.public next req w v a p h = cc
  guarded-splits Guard.signed_in next req w v a p h = elim (auth-splits env next req w v a h) [
    | inl t ↦ inl t
    | inr (who, u, s, k) ↦ inr (who, u, record { between = u; signed = s; allowed = refl }, k)
  ]
  guarded-splits (Guard.one_code code) next req w v a p h = elim (auth-splits env _ req w v a h) [
    | inl t ↦ inl t
    | inr (who, x, s, k) ↦ elim (require-splits env code next who x v a k) [
      | inl t ↦ inl (later env w x v a s.known.untouched t)
      | inr (u, g, l) ↦ inr (who, u, record { between = x; signed = s; allowed = g }, l)
    ]
  ]
  guarded-splits (Guard.any_code codes) next req w v a p h = elim (auth-splits env _ req w v a h) [
    | inl t ↦ inl t
    | inr (who, x, s, k) ↦ elim (require_any-splits env codes next who x v a k) [
      | inl t ↦ inl (later env w x v a s.known.untouched t)
      | inr (code, u, m, g, l) ↦
          inr (who, u, record { between = x; signed = s; allowed = (code, m, g) }, l)
    ]
  ]

  -- A request of a row that is not public is turned away, with 401, 403 or 500, and then every
  -- table is as it was but for the last activity of sessions, while nothing is said of Redis; or
  -- its handler runs, for an active user and an unrevoked session that a valid bearer token names,
  -- after the user was granted the permission of the row, or one of them if the row has several.
  pub serve_route_gated :
      (route : Route) (req : Request) (w v : World env.redis.State) (a : Answer)
      → is_public (guard_of route) ≡ false
      → serve_route env route req w ≡ (ok a, v)
      → TurnedAway env w a v
        ⊎ ((who : TokenClaims) × (u : World env.redis.State) × LetIn (guard_of route) req w who u
            × (handler_of env route req who u ≡ (ok a, v)))
  unfolding serve_route
  serve_route_gated route req w v a p h =
      guarded-splits (guard_of route) (handler_of env route req) req w v a p h
