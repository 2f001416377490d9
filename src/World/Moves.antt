-- ===== src/World/Moves.antt =====
-- How an action may change the tables, whether it returns or fails: a reflexive and transitive
-- relation between the tables before and after, with a rule for each way to build actions.
use secure_auth_platform.Prelude.{
  ℕ, Bool, true, false, Option, none, some, inl, inr, Bool-cases, if◌then◌else◌,
}
use secure_auth_platform.Exec.{
  Exec, Error, Result, ok, err, pure, fail, continue, ◌>>=◌, ◌>>◌, attempt, ignore, from_result,
}
use secure_auth_platform.Models.{Tables}
use secure_auth_platform.Env.{Env}
use secure_auth_platform.World.{World, App, ticked, sql, time_now, read_random, on_redis, or_fault}

pub record Preorder : Type 1 where
  pub rel : Tables → Tables → Type 0
  pub refl_at : (t : Tables) → rel t t
  pub trans_at : (t u v : Tables) → rel t u → rel u v → rel t v

pub record Moves (env : Env) (r : Preorder) {A : Type 0} (m : App env A) : Type 0 where
  pub at : (w : World env.redis.State) → r.rel w.db (m w).1.db

module _ (env : Env) (r : Preorder) {A : Type 0} where
  pub Moves-pure : (a : A) → Moves env r (pure a)
  Moves-pure a = record { at = λ w. r.refl_at w.db }

  pub Moves-fail : (e : Error) → Moves env r (fail {A = A} e)
  Moves-fail e = record { at = λ w. r.refl_at w.db }

  pub Moves-from_result : (x : Result A) → Moves env r (from_result x)
  Moves-from_result x = record { at = λ w. r.refl_at w.db }

  pub Moves-attempt : (m : App env A) → Moves env r m → Moves env r (attempt m)
  unfolding attempt
  Moves-attempt m k = record { at = k.at }

  pub Moves-ignore : (m : App env A) → Moves env r m → Moves env r (ignore m)
  unfolding ignore
  Moves-ignore m k = record { at = k.at }

  pub Moves-if :
      (b : Bool) (m n : App env A)
      → Moves env r m
      → Moves env r n
      → Moves env r (if b then m else n)
  Moves-if true m n km kn = km
  Moves-if false m n km kn = kn

  sql-rel :
      (f : ℕ → Tables → Result A × Tables) (w : World env.redis.State)
      → ((now : ℕ) (t : Tables) → r.rel t (f now t).1)
      → r.rel w.db (sql env f w).1.db
  unfolding sql
  sql-rel f w k = elim (Bool-cases (env.sql_fails w.tick)) [
    | inl down ↦ rw (down, sql) (r.refl_at w.db)
    | inr up ↦ rw (up, sql) (k (env.clock w.tick) w.db)
  ]

  pub Moves-sql :
      (f : ℕ → Tables → Result A × Tables)
      → ((now : ℕ) (t : Tables) → r.rel t (f now t).1)
      → Moves env r (sql env f)
  Moves-sql f k = record { at = λ w. sql-rel f w k }

  pub Moves-on_redis : (m : Exec env.redis.State A) → Moves env r (on_redis env m)
  unfolding on_redis
  Moves-on_redis m = record { at = λ w. r.refl_at w.db }

  pub Moves-or_fault : (o : Option A) → Moves env r (or_fault env o)
  unfolding or_fault
  Moves-or_fault none = record { at = λ w. r.refl_at w.db }
  Moves-or_fault (some a) = record { at = λ w. r.refl_at w.db }

module _ (env : Env) (r : Preorder) where
  pub Moves-time_now : Moves env r (time_now env)
  unfolding time_now
  Moves-time_now = record { at = λ w. r.refl_at w.db }

  pub Moves-read_random : (k : ℕ) → Moves env r (read_random env k)
  unfolding read_random
  Moves-read_random k = record {
    at = λ w. (Moves-or_fault env r (env.random w.tick k)).at (ticked w);
  }

module _ (env : Env) (r : Preorder) {A B : Type 0} where
  Moves-continue :
      (f : A → App env B) (w : World env.redis.State) (x : Result A × World env.redis.State)
      → r.rel w.db x.1.db
      → ((a : A) → Moves env r (f a))
      → r.rel w.db (continue f x).1.db
  Moves-continue f w (ok a, v) h k = r.trans_at w.db v.db (f a v).1.db h ((k a).at v)
  Moves-continue f w (err e, v) h k = h

  pub Moves-bind :
      (m : App env A) (f : A → App env B)
      → Moves env r m
      → ((a : A) → Moves env r (f a))
      → Moves env r (m >>= f)
  unfolding ◌>>=◌
  Moves-bind m f km kf = record { at = λ w. Moves-continue f w (m w) (km.at w) kf }

module _ (env : Env) (r : Preorder) {B : Type 0} where
  pub Moves-then :
      (m : App env (Unit {0})) (k : App env B)
      → Moves env r m
      → Moves env r k
      → Moves env r (m >> k)
  unfolding ◌>>◌
  Moves-then m k km kk = Moves-bind env r m (λ _. k) km (λ _. kk)

pub ruleset moves_rules = (
  Moves-pure, Moves-fail, Moves-from_result, Moves-attempt, Moves-ignore, Moves-if, Moves-bind,
  Moves-then, Moves-time_now, Moves-read_random, Moves-on_redis, Moves-or_fault,
)
