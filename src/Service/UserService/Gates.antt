-- ===== src/Service/UserService/Gates.antt =====
-- What an update that turns a user off must pass: Update of backend/internal/service/user.go.
use mathlib.Core.List.{Memᴰ}
use secure_auth_platform.Prelude.{
  ℕ, ◌<◌, ◌≡◌, sym, ap, subst, ◌∙◌, Bool, true, false, ◌&&◌, Text, bytes, arith, inl, inr, leb,
  ◌==◌, ◌=t=◌, any, count, Bool-cases, ◌⊎◌,
}
use secure_auth_platform.Exec.{
  ok, last_admin, cannot_deactivate_self, >>=-eq-ok, >>-eq-ok, either_ran_on, bar-ok, outcome-eq,
}
use secure_auth_platform.Models.{User, Tables}
use secure_auth_platform.Env.{Env}
use secure_auth_platform.World.{World}
use secure_auth_platform.World.Moves.{Moves, moves_rules}
use secure_auth_platform.World.Outcomes.{sql-ok}
use secure_auth_platform.Repository.Permissions
use secure_auth_platform.Repository.Permissions.{codes_of, holds}
use secure_auth_platform.Repository.Finds.{user_by_id-ok}
use secure_auth_platform.Service.PermissionService.Reads.{same, has_permission-same}
use secure_auth_platform.Service.PermissionService.{
  list_codes_by_user, count_active_users_with_star,
}
use secure_auth_platform.Service.UserService.{
  UpdateUserInput, turns_off, require_permission, require_if, require_for_update,
  user_has_permission_code, refuse_if_last, protect_last_admin, update,
}

-- How many active users hold `*`.
abbrev pub star_holders : Tables → ℕ
star_holders t =
    count
      (λ u.
        u.active
        && any (λ p. p.code =t= bytes "*" && holds t.user_permissions u.id p.id) t.permissions)
      t.users

-- Does the user hold `*`?
abbrev pub holds_star : Tables → ℕ → Bool
holds_star t user = any (λ c. c =t= bytes "*") (codes_of t user)

module _ (env : Env) where
  require_if-same :
      (b : Bool) (actor : ℕ) (code : Text) → Moves env same (require_if env b actor code)
  unfolding require_if require_permission
  require_if-same b actor code = search (moves_rules, has_permission-same)

  require_for_update-same :
      (actor : ℕ) (input : UpdateUserInput) → Moves env same (require_for_update env actor input)
  unfolding require_for_update
  require_for_update-same actor input = search (moves_rules, require_if-same)

  has_star-ok :
      (user : ℕ) (w v : World env.redis.State) (b : Bool)
      → user_has_permission_code env user (bytes "*") w ≡ (ok b, v)
      → (holds_star w.db user ≡ b) × (v.db ≡ w.db)
  unfolding user_has_permission_code list_codes_by_user Permissions.list_codes_by_user_id
  has_star-ok user w v b h =
      let (codes, u, e, k) = >>=-eq-ok _ _ w h in
      let read = sql-ok env _ w u codes e in
      let (seen, here) = outcome-eq read in
      let (answer, there) = outcome-eq k in
      (
        ap (any (λ c. c =t= bytes "*")) seen ∙ answer,
        ap (λ (x : World env.redis.State). x.db) there ∙ here,
      )

  refuse_if_last-ok :
      (w v : World env.redis.State) → refuse_if_last env true w ≡ (ok tt, v) → 1 < star_holders w.db
  unfolding refuse_if_last count_active_users_with_star Permissions.count_active_users_with_code
  refuse_if_last-ok w v h =
      let (n, u, e, k) = >>=-eq-ok _ _ w h in
      let read = sql-ok env _ w u n e in
      let (seen, here) = outcome-eq read in
      let (more, there) = bar-ok (leb n 1) last_admin u k in ground (arith, seen, more)

  protect-ok :
      (user_id : ℕ) (input : UpdateUserInput) (user : User) (w v : World env.redis.State)
      → protect_last_admin env user_id input user w ≡ (ok tt, v)
      → turns_off input.active ≡ true
      → user.active ≡ true
      → holds_star w.db user_id ≡ true
      → 1 < star_holders w.db
  unfolding protect_last_admin
  protect-ok user_id input user w v h off on star =
      elim (either_ran_on (turns_off input.active && user.active) _ _ w h) [
        | inl (_, l) ↦
            let (b, u, e, k) = >>=-eq-ok _ _ w l in
            let (found, here) = has_star-ok user_id w u b e in
            let yes_ : b ≡ true = sym found ∙ star in
            subst (λ t. 1 < star_holders t) here
              (refuse_if_last-ok u v (subst (λ c. refuse_if_last env c u ≡ (ok tt, v)) yes_ k))
        | inr (f, _) ↦ absurd (ground (arith, f, off, on))
      ]

  protected :
      (user_id : ℕ) (input : UpdateUserInput) (user : User) (w v : World env.redis.State)
      → protect_last_admin env user_id input user w ≡ (ok tt, v)
      → turns_off input.active ≡ true
      → ((user.active && holds_star w.db user_id) ≡ false) ⊎ (1 < star_holders w.db)
  protected user_id input user w v h off =
      elim (Bool-cases (user.active && holds_star w.db user_id)) [
        | inl both ↦
            inr (
              protect-ok user_id input user w v h off (ground (arith, both)) (ground (arith, both)))
        | inr free ↦ inl free
      ]

  pub require-same :
      (actor : ℕ) (input : UpdateUserInput) (w v : World env.redis.State)
      → require_for_update env actor input w ≡ (ok tt, v)
      → v.db ≡ w.db
  unfolding same
  require-same actor input w v h =
      ap (λ x. x.1.db) (sym h) ∙ (require_for_update-same actor input).at w

  -- An update that succeeds and turns a user off is not of the actor's own account; and the user
  -- is not the last active holder of `*`: they were inactive or did not hold it, or more than
  -- one active user held it before.
  pub update_keeps_admin :
      (actor user_id : ℕ) (input : UpdateUserInput) (w v : World env.redis.State) (x : User)
      → update env actor user_id input w ≡ (ok x, v)
      → turns_off input.active ≡ true
      → ((actor == user_id) ≡ false)
        × (u : User) × Memᴰ u w.db.users
        × (u.id ≡ user_id)
        × (((u.active && holds_star w.db user_id) ≡ false) ⊎ (1 < star_holders w.db))
  unfolding update
  update_keeps_admin actor user_id input w v x h off =
      let (w₁, e₁, k₁) = >>-eq-ok _ _ w h in
      let (w₂, e₂, k₂) = >>-eq-ok _ _ w₁ k₁ in
      let (u, w₃, e₃, k₃) = >>=-eq-ok _ _ w₂ k₂ in
      let (w₄, e₄, k₄) = >>-eq-ok _ _ w₃ k₃ in
      let (other, s₁) =
        bar-ok (turns_off input.active && actor == user_id) cannot_deactivate_self w e₁ in
      let s₂ : w₂.db ≡ w.db =
        require-same actor input w₁ w₂ e₂ ∙ ap (λ (x : World env.redis.State). x.db) s₁ in
      let (m, i, s₃) = user_by_id-ok env user_id w₂ w₃ u e₃ in
      (
        ground (arith, other, off),
        u,
        subst (λ (t : Tables). Memᴰ u t.users) s₂ m,
        i,
        subst (λ t. ((u.active && holds_star t user_id) ≡ false) ⊎ (1 < star_holders t)) (s₃ ∙ s₂)
            (protected user_id input u w₃ w₄ e₄ off),
      )
