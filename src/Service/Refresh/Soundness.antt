-- ===== src/Service/Refresh/Soundness.antt =====
-- Whom a refresh that succeeded served.
use mathlib.Core.List.{Memᴰ}
use secure_auth_platform.Prelude.{◌≡◌, ap, subst, ◌∙◌, true, Text, arith}
use secure_auth_platform.Exec.{Result, ok, err, >>=-eq-ok, attempt-ok}
use secure_auth_platform.Models.{Session, Tables, User}
use secure_auth_platform.Env.{Env}
use secure_auth_platform.World.{World}
use secure_auth_platform.Repository.Sessions.{find_active_by_token_hash}
use secure_auth_platform.Repository.Users
use secure_auth_platform.Repository.Finds.{user_by_id-ok}
use secure_auth_platform.Service.Tokens.{TokenPair, hash_token}
use secure_auth_platform.Service.Refresh.{refresh, rotate, active_user}
use secure_auth_platform.Service.Refresh.Rotation.{Found, find_active-Found, on_session-Spent}

module _ (env : Env) where
  active_user-ok :
      (r : Result User) (w v : World env.redis.State) (u : User)
      → active_user env r w ≡ (ok u, v)
      → (r ≡ ok u) × (u.active ≡ true)
  unfolding active_user
  active_user-ok (ok x) w v u h = (ground (arith, h), ground (arith, h))
  active_user-ok (err e) w v u h = cc

  rotate-owner :
      (s : Session) (ip ua : Text) (w v : World env.redis.State) (p : TokenPair)
      → rotate env s ip ua w ≡ (ok p, v)
      → (u : User) × Memᴰ u w.db.users × (u.id ≡ s.user_id) × (u.active ≡ true)
  unfolding rotate
  rotate-owner s ip ua w v p h =
      let (found, w₁, e₁, k₁) = >>=-eq-ok _ _ w h in
      let (u, w₂, e₂, k₂) = >>=-eq-ok _ _ w₁ k₁ in
      let (seen, on) = active_user-ok found w₁ w₂ u e₂ in
      let (m, i, _) =
        user_by_id-ok env s.user_id w w₁ u
          (attempt-ok (Users.find_by_id env s.user_id) w e₁ ∙ ap (λ r. (r, w₁)) seen) in
      (u, m, i, on)

  -- A refresh that succeeds serves an unrevoked session in the table with the hash of the token,
  -- whose owner is in the table and active.
  pub refresh_sound :
      (token ip ua : Text) (w v : World env.redis.State) (p : TokenPair)
      → refresh env token ip ua w ≡ (ok p, v)
      → (s : Session) × Found w.db (hash_token env token) s
        × (u : User) × Memᴰ u w.db.users
        × (u.id ≡ s.user_id)
        × (u.active ≡ true)
  unfolding refresh
  refresh_sound token ip ua w v p h =
      let (r, w₁, e₁, k₁) = >>=-eq-ok _ _ w h in
      let (s, seen, k) = on_session-Spent env (hash_token env token) ip ua r w₁ v p k₁ in
      let (found, here) = find_active-Found env (hash_token env token) w w₁ s (
        attempt-ok (find_active_by_token_hash env (hash_token env token)) w e₁
        ∙ ap (λ x. (x, w₁)) seen) in
      let (u, m, i, on) = rotate-owner s ip ua w₁ v p k in
      (s, found, u, subst (λ t. Memᴰ u t) (ap (λ (t : Tables). t.users) here) m, i, on)
