-- ===== src/Service/Refresh/Totality.antt =====
-- A rotation where nothing outside fails: Refresh of backend/internal/service/auth.go.
use secure_auth_platform.Prelude.{
  ℕ, suc, ◌≡◌, refl, sym, ap, subst, ◌∙◌, Bool, true, false, List, [], ◌∷◌, Option, some, Text,
  arith, ◌==◌, any, find, if◌then◌else◌,
}
use secure_auth_platform.Exec.{Error, Result, ok, pure, fail, ignore, attempt, ◌>>=◌, ◌>>◌, >>=-ok}
use secure_auth_platform.Models.{User, Session, Tables, Data}
use secure_auth_platform.Env.{Env}
use secure_auth_platform.World.{World, App, sql, time_now, on_redis, or_fault, read_random, ticked}
use secure_auth_platform.Repository.Sessions
use secure_auth_platform.Repository.Sessions.{
  insert_session, revoke_rows, revoke_where, revoke_with_timestamp, or_not_found,
}
use secure_auth_platform.Repository.Users
use secure_auth_platform.Repository.Audit
use secure_auth_platform.Service.Audit.{log}
use secure_auth_platform.Service.PermissionService.{invalidate_user_cache}
use secure_auth_platform.Service.Tokens.{
  generate_refresh_token, generate_access_token, new_session, create_session,
}
use secure_auth_platform.Service.Refresh.{rotate, reissue, active_user}

-- Nothing outside fails: statements, which takes in that every value fits its column, the random
-- source and the signing of tokens.
pub record IsUp (env : Env) : Type 0 where
  pub sql_up : (n : ℕ) → env.sql_fails n ≡ false
  pub random_up : (n k : ℕ) → (t : Text) × (env.random n k ≡ some t)
  pub sign_up :
      (sub sid : ℕ) (email : Text) (iat exp : ℕ)
      → (t : Text) × (env.libs.jwt_sign sub sid email iat exp ≡ some t)

-- The query for the user of the session finds this row.
abbrev pub Finds : ℕ → User → Tables → Type 0
Finds id user t = find (λ u. u.id == id) t.users ≡ some user

-- An action that returns where the query finds the row, and keeps it so.
pub record Succeeds (env : Env) (id : ℕ) (user : User) {A : Type 0} (m : App env A) : Type 0 where
  pub at :
      (w : World env.redis.State)
      → Finds id user w.db
      → (a : A) × (v : World env.redis.State) × (m w ≡ (ok a, v)) × Finds id user v.db

module _ (env : Env) (up : IsUp env) (id : ℕ) (user : User) where
  Succeeds-pure : {A : Type 0} (a : A) → Succeeds env id user (pure a)
  Succeeds-pure a = record { at = λ w f. (a, w, refl, f) }

  Succeeds-bind :
      {A B : Type 0} (m : App env A) (k : A → App env B)
      → Succeeds env id user m
      → ((a : A) → Succeeds env id user (k a))
      → Succeeds env id user (m >>= k)
  Succeeds-bind m k s r = record {
    at = λ w f.
        let (a, u, e, g) = s.at w f in
        let (b, v, e', h) = (r a).at u g in (b, v, >>=-ok m k e ∙ e', h);
  }

  Succeeds-then :
      {B : Type 0} (m : App env (Unit {0})) (k : App env B)
      → Succeeds env id user m
      → Succeeds env id user k
      → Succeeds env id user (m >> k)
  unfolding ◌>>◌
  Succeeds-then m k s r = Succeeds-bind m (λ _. k) s (λ _. r)

  Succeeds-time_now : Succeeds env id user (time_now env)
  unfolding time_now
  Succeeds-time_now = record { at = λ w f. (env.clock w.tick, ticked w, refl, f) }

  Succeeds-sql :
      {A : Type 0} (q : ℕ → Tables → Result A × Tables)
      → ((now : ℕ) (t : Tables)
          → Finds id user t
          → (a : A) × ((q now t).0 ≡ ok a) × Finds id user (q now t).1)
      → Succeeds env id user (sql env q)
  unfolding sql
  Succeeds-sql q k = record {
    at = λ w f.
        let (a, e, g) = k (env.clock w.tick) w.db f in
        (
          a,
          record w { db = (q (env.clock w.tick) w.db).1; tick = suc w.tick },
          rw (up.sql_up w.tick, sql)
              (ap (λ r. (r, record w { db = (q (env.clock w.tick) w.db).1; tick = suc w.tick })) e),
          g,
        );
  }

  Succeeds-invalidate : (u : ℕ) → Succeeds env id user (invalidate_user_cache env u)
  unfolding invalidate_user_cache ignore on_redis
  Succeeds-invalidate u = record { at = λ w f. (tt, _, refl, f) }

  sql-Finds :
      {A : Type 0} (q : ℕ → Tables → Result A × Tables) (w : World env.redis.State)
      → ((now : ℕ) (t : Tables) → (q now t).1.users ≡ t.users)
      → Finds id user w.db
      → Finds id user (sql env q w).1.db
  unfolding sql
  sql-Finds q w k f =
      rw (up.sql_up w.tick, sql)
        (subst (λ (us : List User). find (λ u. u.id == id) us ≡ some user)
          (sym (k (env.clock w.tick) w.db)) f)

  Succeeds-log :
      (u : Option ℕ) (action entity : Text) (i : Option ℕ) (old now : Option Data)
      → Succeeds env id user (log env u action entity i old now)
  unfolding log ignore Audit.insert
  Succeeds-log u action entity i old now = record {
    at = λ w f. (tt, _, refl, sql-Finds _ w (λ n t. Audit.insert_log-users _ n t) f);
  }

  Succeeds-random : (k : ℕ) → Succeeds env id user (read_random env k)
  unfolding read_random or_fault
  Succeeds-random k = record {
    at = λ w f. let (t, e) = up.random_up w.tick k in (t, ticked w, rw (e, or_fault) refl, f);
  }

  Succeeds-sign :
      (sub sid : ℕ) (email : Text) (iat exp : ℕ)
      → Succeeds env id user (or_fault env (env.libs.jwt_sign sub sid email iat exp))
  unfolding or_fault
  Succeeds-sign sub sid email iat exp = record {
    at = λ w f. let (t, e) = up.sign_up sub sid email iat exp in (t, w, rw (e, or_fault) refl, f);
  }

  any-find :
      (us : List User) → find (λ u. u.id == id) us ≡ some user → any (λ u. u.id == id) us ≡ true
  unfolding find any
  any-find [] h = cc
  any-find (u ∷ us) h = ground (arith, h, any-find us)

  inserted :
      (s : Session) (now : ℕ) (t : Tables)
      → s.user_id ≡ id
      → Finds id user t
      → (a : Session) × ((insert_session s now t).0 ≡ ok a)
        × Finds id user (insert_session s now t).1
  unfolding insert_session
  inserted s now t i f =
      let there = subst (λ n. any (λ x. x.id == n) t.users ≡ true) (sym i) (any-find t.users f) in
      (
        record s { id = t.next_session; created_at = now },
        rw (there, insert_session) refl,
        rw (there, insert_session) f,
      )

  Succeeds-create : (s : Session) → s.user_id ≡ id → Succeeds env id user (Sessions.create env s)
  unfolding Sessions.create
  Succeeds-create s i = Succeeds-sql _ (λ now t f. inserted s now t i f)

  Succeeds-revoke : (i : ℕ) → Succeeds env id user (revoke_with_timestamp env i)
  unfolding revoke_with_timestamp revoke_where revoke_rows
  Succeeds-revoke i =
      Succeeds-bind _ _ Succeeds-time_now (λ now. Succeeds-sql _ (λ _ t f. (tt, refl, f)))

  Succeeds-reissue :
      (session : Session) (ip ua : Text)
      → user.id ≡ id
      → Succeeds env id user (reissue env session user ip ua)
  unfolding reissue create_session generate_refresh_token generate_access_token new_session
  Succeeds-reissue session ip ua i =
      search
        (
          Succeeds-pure, Succeeds-bind, Succeeds-then, Succeeds-time_now, Succeeds-log,
          Succeeds-invalidate, Succeeds-random, Succeeds-sign, Succeeds-create, i,
        )
        depth 14

  find_by_id-here :
      (n : ℕ) (w : World env.redis.State)
      → n ≡ id
      → Finds id user w.db
      → Users.find_by_id env n w ≡ (ok user, record w { tick = suc w.tick })
  unfolding Users.find_by_id sql
  find_by_id-here n w e f = rw (e, up.sql_up w.tick, f) refl

  -- The lookup of the user.
  Succeeds-found :
      {A : Type 0} (n : ℕ) (k : Result User → App env A)
      → n ≡ id
      → Succeeds env id user (k (ok user))
      → Succeeds env id user (attempt (Users.find_by_id env n) >>= k)
  unfolding attempt
  Succeeds-found n k e s = record {
    at = λ w f.
        let (a, v, h, g) = s.at (record w { tick = suc w.tick }) f in
        let found = find_by_id-here n w e f in
        (a, v, >>=-ok (attempt (Users.find_by_id env n)) k (ap (λ x. (ok x.0, x.1)) found) ∙ h, g);
  }

  -- The user is active.
  Succeeds-active :
      {A : Type 0} (b : Bool) (e : Error) (k : User → App env A)
      → b ≡ true
      → Succeeds env id user (k user)
      → Succeeds env id user ((if b then pure user else fail e) >>= k)
  unfolding ◌>>=◌
  Succeeds-active true e k h s = record { at = s.at }
  Succeeds-active false e k h s = cc

  pub Succeeds-rotate :
      (session : Session) (ip ua : Text)
      → session.user_id ≡ id
      → user.id ≡ id
      → user.active ≡ true
      → Succeeds env id user (rotate env session ip ua)
  unfolding rotate active_user
  Succeeds-rotate session ip ua s i on = Succeeds-found session.user_id _ s (
      Succeeds-active user.active _ _ on
        (Succeeds-then _ _ (Succeeds-revoke session.id) (Succeeds-reissue session ip ua i)))
