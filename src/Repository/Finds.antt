-- ===== src/Repository/Finds.antt =====
-- What a query that found a row says of it.
use mathlib.Core.List.{Memᴰ}
use secure_auth_platform.Prelude.{
  ℕ, sym, ap, find-Mem, ◌==◌, ==_iff, ◌≡◌, true, Option, none, some, Text, arith, ◌=t=◌,
}
use secure_auth_platform.Exec.{ok}
use secure_auth_platform.Models.{User}
use secure_auth_platform.Env.{Env}
use secure_auth_platform.World.{World}
use secure_auth_platform.World.Outcomes.{sql-ok}
use secure_auth_platform.Repository.Users
use secure_auth_platform.Repository.Sessions.{or_not_found}

pub test_eq : (s t : Text) → (s =t= t) ≡ true → s ≡ t
test_eq s t e = ground arith

pub or_not_found-ok : {A : Type 0} (o : Option A) (a : A) → or_not_found o ≡ ok a → o ≡ some a
or_not_found-ok none a e = cc
or_not_found-ok (some x) a e = cc

module _ (env : Env) where
  pub user_by_id-ok :
      (id : ℕ) (w v : World env.redis.State) (u : User)
      → Users.find_by_id env id w ≡ (ok u, v)
      → Memᴰ u w.db.users × (u.id ≡ id) × (v.db ≡ w.db)
  unfolding Users.find_by_id
  user_by_id-ok id w v u h =
      let read = sql-ok env _ w v u h in
      let (m, q) =
        find-Mem (λ u. u.id == id) w.db.users (or_not_found-ok _ u (ap (λ x. x.0) read)) in
      (m, (==_iff u.id id).0 q, ap (λ x. x.1) (sym read))
