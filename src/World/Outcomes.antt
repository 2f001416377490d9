-- ===== src/World/Outcomes.antt =====
-- What an outside call that succeeded did.
use secure_auth_platform.Prelude.{ℕ, ◌≡◌, refl, ap, sym, Bool, true, false, if◌then◌else◌}
use secure_auth_platform.Exec.{Exec, Result, ok, err, fault}
use secure_auth_platform.Models.{Tables}
use secure_auth_platform.Env.{Env}
use secure_auth_platform.World.{World, ticked, commit, sql, on_redis, time_now}

module _ (env : Env) {A : Type 0} where
  pub sql-ok :
      (f : ℕ → Tables → Result A × Tables) (w v : World env.redis.State) (a : A)
      → sql env f w ≡ (ok a, v)
      → f (env.clock w.tick) w.db ≡ (ok a, v.db)
  unfolding sql
  sql-ok f w v a e = split (env.sql_fails w.tick) (f (env.clock w.tick) w.db) refl e
    where
      split :
          (b : Bool) (x : Result A × Tables)
          → f (env.clock w.tick) w.db ≡ x
          → (if b then (err fault, ticked w) else commit w x) ≡ (ok a, v)
          → f (env.clock w.tick) w.db ≡ (ok a, v.db)
      split true x h k = cc
      split false (r, t) h k = cc

module _ (env : Env) {A : Type 0} where
  pub on_redis-same :
      (m : Exec env.redis.State A) (w v : World env.redis.State) (r : Result A)
      → on_redis env m w ≡ (r, v)
      → v.db ≡ w.db
  unfolding on_redis
  on_redis-same m w v r e = ap (λ x. x.1.db) (sym e)

  pub on_redis-result :
      (m : Exec env.redis.State A) (w v : World env.redis.State) (r : Result A)
      → on_redis env m w ≡ (r, v)
      → (s : env.redis.State) × (m w.redis ≡ (r, s))
  unfolding on_redis
  on_redis-result m w v r e = ((m w.redis).1, ap (λ x. (x.0, (m w.redis).1)) e)

module _ (env : Env) where
  pub time_now-ok :
      (w v : World env.redis.State) (now : ℕ)
      → time_now env w ≡ (ok now, v)
      → (now ≡ env.clock w.tick) × (v.db ≡ w.db)
  unfolding time_now
  time_now-ok w v now e = (cc, cc)
