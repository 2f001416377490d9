-- ===== src/Startup/Flushing.antt =====
-- New with the call of FlushAll: backend/internal/app/app.go.
use secure_auth_platform.Prelude.{
  ℕ, ◌<◌, ◌≡◌, ap, sym, subst, ◌∙◌, true, false, ◌++◌, bytes, ◌⊎◌, inl, inr,
}
use secure_auth_platform.Exec.{ok, pure, ignore, outcome-eq, ◌>>=◌, ◌>>◌}
use secure_auth_platform.Env.{Env}
use secure_auth_platform.World.{World, App, on_redis}
use secure_auth_platform.Cache.PermissionCache.{cache_key, flush_all}
use secure_auth_platform.Cache.PermissionCache.Scan.{is_plain, Scans}
use secure_auth_platform.Cache.PermissionCache.Flush.{flush_all_empties}
use secure_auth_platform.Startup.{Outside}
use secure_auth_platform.Startup.App.{StartError, AppConfig, Settings, new}

module _ (env : Env) (out : Outside) where
  -- Once every step has passed, the cache of permissions is flushed, and an error of that is only
  -- logged. The fuel is a bound on the pages of the scan.
  unfoldable pub flushed_start : ℕ → StartError ⊎ Settings out → App env (StartError ⊎ Settings out)
  flushed_start fuel (inl e) = pure (inl e)
  flushed_start fuel (inr s) = do ignore (on_redis env (flush_all env fuel)); pure (inr s)

  -- `env` is the environment that the configuration makes.
  unfoldable pub new_app : ℕ → AppConfig out → App env (StartError ⊎ Settings out)
  new_app fuel cfg = flushed_start fuel (new out cfg)

  module _ (laws : Scans env) where
    -- The state that a start has left.
    pub record IsFresh (w v : World env.redis.State) : Type 0 where
      pub db_same : v.db ≡ w.db
      pub uncached : (user : ℕ) → laws.holds (cache_key env user) v.redis ≡ false

    flushed-IsFresh :
        (fuel : ℕ) (r : StartError ⊎ Settings out) (s : Settings out) (w v : World env.redis.State)
        → is_plain (env.config.key_prefix ++ bytes "permissions:user:") ≡ true
        → laws.bound w.redis < fuel
        → flushed_start fuel r w ≡ (ok (inr s), v)
        → (r ≡ inr s) × IsFresh w v
    unfolding flushed_start ignore on_redis ◌>>◌ ◌>>=◌
    flushed-IsFresh fuel (inl e) s w v plain lt h = cc
    flushed-IsFresh fuel (inr s') s w v plain lt h =
        let (x, e, _, none_, _) = flush_all_empties env laws fuel w.redis plain lt in
        let (same, here) = outcome-eq h in
        (
          same,
          record {
            db_same = ap (λ (y : World env.redis.State). y.db) here;
            uncached = λ user.
                subst (λ r. laws.holds (cache_key env user) r ≡ false)
                  (sym (ap (λ y. y.1) e) ∙ sym (ap (λ (y : World env.redis.State). y.redis) here))
                  (none_ user);
          },
        )

    pub new_app_empties :
        (fuel : ℕ) (cfg : AppConfig out) (s : Settings out) (w v : World env.redis.State)
        → is_plain (env.config.key_prefix ++ bytes "permissions:user:") ≡ true
        → laws.bound w.redis < fuel
        → new_app fuel cfg w ≡ (ok (inr s), v)
        → (new out cfg ≡ inr s) × IsFresh w v
    unfolding new_app
    new_app_empties fuel cfg s w v plain lt h = flushed-IsFresh fuel (new out cfg) s w v plain lt h
