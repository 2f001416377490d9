-- ===== src/Service/Login/Soundness.antt =====
-- Whom a login that succeeded let in.
use mathlib.Core.List.{Memᴰ}
use secure_auth_platform.Prelude.{◌≡◌, ap, subst, ◌∙◌, Bool, true, Text, inl, inr, find-Mem, ◌=t=◌}
use secure_auth_platform.Exec.{
  Error, Result, ok, err, >>=-eq-ok, >>-eq-ok, either_ran, either_ran_on, attempt-ok,
}
use secure_auth_platform.Models.{User, Tables}
use secure_auth_platform.Env.{Env}
use secure_auth_platform.World.{World, on_redis}
use secure_auth_platform.World.Outcomes.{sql-ok, on_redis-same}
use secure_auth_platform.Cache.RateLimit.{Verdict, check, login_ip_key, login_email_key}
use secure_auth_platform.Repository.Finds.{or_not_found-ok, test_eq}
use secure_auth_platform.Repository.Users
use secure_auth_platform.Password.{verify}
use secure_auth_platform.Service.Tokens.{TokenPair}
use secure_auth_platform.Service.Login.{
  login, check_login_rate_limit, on_verdict, authenticate, found_user, checked_password, refuse,
}

-- An active user of the table with this email, whose stored hash accepts the password.
pub record Authentic (env : Env) (t : Tables) (email password : Text) (u : User) : Type 0 where
  pub listed : Memᴰ u t.users
  pub named : u.email ≡ email
  pub active : u.active ≡ true
  pub accepted : (b : Bool) × (verify env u.password_hash password ≡ ok b)

module _ (env : Env) where
  verdict_same :
      (email ip : Text) (r : Result Verdict) (w v : World env.redis.State)
      → on_verdict env email ip r w ≡ (ok tt, v)
      → v ≡ w
  unfolding on_verdict
  verdict_same email ip (err e) w v h = cc
  verdict_same email ip (ok x) w v h = elim (either_ran x.blocked _ _ w h) [
    | inl k ↦ let (u, _, l) = >>-eq-ok _ _ w k in cc
    | inr k ↦ cc
  ]

  -- A limiter that lets the attempt pass leaves the tables alone.
  check_same :
      (key email ip : Text) (w v : World env.redis.State)
      → check_login_rate_limit env key email ip w ≡ (ok tt, v)
      → v.db ≡ w.db
  unfolding check_login_rate_limit
  check_same key email ip w v h =
      let (r, u, e, k) = >>=-eq-ok _ _ w h in
      ap (λ (x : World env.redis.State). x.db) (verdict_same email ip r u v k)
      ∙ on_redis-same env (check env key) w u r (attempt-ok (on_redis env (check env key)) w e)

  refuse-err :
      (email ip reason : Text) {A : Type 0} (a : A) (w v : World env.redis.State)
      → refuse env email ip reason w ≡ (ok a, v)
      → ⊥
  unfolding refuse
  refuse-err email ip reason a w v h = let (u, _, k) = >>-eq-ok _ _ w h in cc

  found-ok :
      (email ip : Text) (r : Result User) (w v : World env.redis.State) (u : User)
      → found_user env email ip r w ≡ (ok u, v)
      → (r ≡ ok u) × (u.active ≡ true) × (v ≡ w)
  unfolding found_user
  found-ok email ip (ok x) w v u h = elim (either_ran_on x.active _ _ w h) [
    | inl (a, k) ↦ (cc, cc, cc)
    | inr (_, k) ↦ absurd (refuse-err email ip _ u w v k)
  ]
  found-ok email ip (err Error.not_found) w v u h = absurd (refuse-err email ip _ u w v h)
  found-ok email ip (err _) w v u h = cc

  checked-ok :
      (email ip : Text) (r : Result Bool) (w v : World env.redis.State) (b : Bool)
      → checked_password env email ip r w ≡ (ok b, v)
      → r ≡ ok b
  unfolding checked_password
  checked-ok email ip (ok x) w v b h = cc
  checked-ok email ip (err e) w v b h = absurd (refuse-err email ip _ b w v h)

  by_email-ok :
      (email : Text) (w v : World env.redis.State) (u : User)
      → Users.find_by_email env email w ≡ (ok u, v)
      → Memᴰ u w.db.users × (u.email ≡ email)
  unfolding Users.find_by_email
  by_email-ok email w v u h =
      let read = sql-ok env _ w v u h in
      let (m, q) =
        find-Mem (λ u. u.email =t= email) w.db.users (or_not_found-ok _ u (ap (λ x. x.0) read)) in
      (m, test_eq u.email email q)

  authenticate-Authentic :
      (email password ip : Text) (w v : World env.redis.State) (u : User) (b : Bool)
      → authenticate env email password ip w ≡ (ok (u, b), v)
      → Authentic env w.db email password u
  unfolding authenticate
  authenticate-Authentic email password ip w v u b h =
      let (r, u₁, e₁, k₁) = >>=-eq-ok _ _ w h in
      let (x, u₂, e₂, k₂) = >>=-eq-ok _ _ u₁ k₁ in
      let (c, u₃, e₃, k₃) = >>=-eq-ok _ _ u₂ k₂ in
      let (seen, on, _) = found-ok email ip r u₁ u₂ x e₂ in
      let (m, n) =
        by_email-ok email w u₁ x
          (attempt-ok (Users.find_by_email env email) w e₁ ∙ ap (λ r. (r, u₁)) seen) in
      let good = checked-ok email ip (verify env x.password_hash password) u₂ u₃ c e₃ in
      let same : x ≡ u = cc in
      subst (Authentic env w.db email password) same
        (record { listed = m; named = n; active = on; accepted = (c, good) })

  -- A login that succeeds is authentic: some active user in the table has that email, and the
  -- stored hash of that user accepts the password.
  pub login_sound :
      (email password ip user_agent : Text) (w v : World env.redis.State) (p : TokenPair)
      → login env email password ip user_agent w ≡ (ok p, v)
      → (u : User) × Authentic env w.db email password u
  unfolding login
  login_sound email password ip user_agent w v p h =
      let (u₁, e₁, k₁) = >>-eq-ok _ _ w h in
      let (u₂, e₂, k₂) = >>-eq-ok _ _ u₁ k₁ in
      let ((user, b), u₃, e₃, k₃) = >>=-eq-ok _ _ u₂ k₂ in
      let same =
        check_same (login_email_key email) email ip u₁ u₂ e₂
        ∙ check_same (login_ip_key ip) email ip w u₁ e₁ in
      (
        user,
        subst (λ t. Authentic env t email password user) same
            (authenticate-Authentic email password ip u₂ u₃ user b e₃),
      )
