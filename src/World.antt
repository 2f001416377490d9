-- ===== src/World.antt =====
-- The state that requests share: the database, Redis, and how many outside calls were made.
pub mod Moves
pub mod Outcomes
use secure_auth_platform.Prelude.{ℕ, suc, Bool, Option, none, some, Text, if◌then◌else◌}
use secure_auth_platform.Exec.{Exec, Result, ok, err, fault}
use secure_auth_platform.Models.{Tables}
use secure_auth_platform.Env.{Env}

pub record World (R : Type 0) : Type 0 where
  pub db : Tables
  pub redis : R
  pub tick : ℕ

abbrev pub App : Env → Type 0 → Type 0
App env A = Exec (World env.redis.State) A

abbrev pub ticked : {R : Type 0} → World R → World R
ticked w = record w { tick = suc w.tick }

abbrev pub commit : {R A : Type 0} → World R → Result A × Tables → Result A × World R
commit w (r, t) = (r, record w { db = t; tick = suc w.tick })

module _ (env : Env) where
  -- One SQL statement, given the server's time. It fails and changes nothing, or has its effect.
  unfoldable pub sql : {A : Type 0} → (ℕ → Tables → Result A × Tables) → App env A
  sql f w =
      if env.sql_fails w.tick then (err fault, ticked w) else commit w (f (env.clock w.tick) w.db)

  -- time.Now()
  unfoldable pub time_now : App env ℕ
  time_now w = (ok (env.clock w.tick), ticked w)

  -- One or more Redis commands.
  unfoldable pub on_redis : {A : Type 0} → Exec env.redis.State A → App env A
  on_redis m w = let (r, s) = m w.redis in (r, record w { redis = s; tick = suc w.tick })

  -- A library call that may fail.
  unfoldable pub or_fault : {A : Type 0} → Option A → App env A
  or_fault none w = (err fault, w)
  or_fault (some a) w = (ok a, w)

  -- crypto/rand.Read
  unfoldable pub read_random : ℕ → App env Text
  unfolding or_fault
  read_random k w = or_fault (env.random w.tick k) (ticked w)
