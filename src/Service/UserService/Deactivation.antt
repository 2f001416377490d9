-- ===== src/Service/UserService/Deactivation.antt =====
-- What an update that turns a user off does to the sessions: Update of
-- backend/internal/service/user.go.
use mathlib.Core.List.{Memᴰ}
use secure_auth_platform.Prelude.{
  ℕ, suc, ◌≡◌, refl, ap, subst, ◌∙◌, Bool, true, false, not, ◌&&◌, Option, Text, arith, ◌⊎◌, inl,
  inr, ◌==◌, if◌then◌else◌, Bool-cases, Mem-change,
}
use secure_auth_platform.Exec.{
  Result, ok, ignore, ◌>>=◌, >>=-eq-ok, >>-eq-ok, outcome-eq, bar-ok, cannot_deactivate_self,
}
use secure_auth_platform.Models.{User, Session, Tables, Data}
use secure_auth_platform.Env.{Env}
use secure_auth_platform.World.{World, App, sql, time_now}
use secure_auth_platform.World.Moves.{Preorder, Moves, Moves-sql, moves_rules}
use secure_auth_platform.Repository.Sessions.{
  revoke_rows, revoke_row, revoke_where, revoke_all_by_user,
}
use secure_auth_platform.Repository.Audit as Table
use secure_auth_platform.Repository.Audit.{insert_log}
use secure_auth_platform.Repository.Finds.{user_by_id-ok}
use secure_auth_platform.Service.Audit.{log}
use secure_auth_platform.Service.PermissionService.{invalidate_user_cache}
use secure_auth_platform.Service.UserService.{
  UpdateUserInput, turns_off, after_deactivation, log_update, apply_update, update,
}
use secure_auth_platform.Service.UserService.Gates.{require-same}

-- Every session of the user is revoked.
abbrev pub AreClosed : Tables → ℕ → Type 0
AreClosed t user = (s : Session) → Memᴰ s t.sessions → s.user_id ≡ user → s.revoked ≡ true

sessions_same : Preorder
sessions_same = record {
  rel = λ t u. u.sessions ≡ t.sessions;
  refl_at = λ t. refl;
  trans_at = λ t u v p q. q ∙ p;
}

revoked_row :
    (now user : ℕ) (y s : Session)
    → s ≡ (if y.user_id == user && not y.revoked then revoke_row now y else y)
    → s.user_id ≡ user
    → s.revoked ≡ true
unfolding revoke_row
revoked_row now user y s e u = ground (arith, e, u)

revoke-AreClosed :
    (now user : ℕ) (t : Tables) → AreClosed (revoke_rows (λ s. s.user_id == user) now t) user
unfolding revoke_rows
revoke-AreClosed now user t s m u =
    let (y, _, e) = Mem-change _ (revoke_row now) t.sessions m in revoked_row now user y s e u

module _ (env : Env) where
  log-same :
      (user : Option ℕ) (action entity : Text) (id : Option ℕ) (old now : Option Data)
      → Moves env sessions_same (log env user action entity id old now)
  unfolding log Table.insert sessions_same
  log-same user action entity id old now =
      search (moves_rules, Moves-sql, Table.insert_log-sessions)

  invalidate-same : (user : ℕ) → Moves env sessions_same (invalidate_user_cache env user)
  unfolding invalidate_user_cache
  invalidate-same user = search moves_rules

  log_update-same :
      (actor user : ℕ) (old now : User) (b : Bool)
      → Moves env sessions_same (log_update env actor user old now b)
  unfolding log_update
  log_update-same actor user old now b = search (moves_rules, log-same)

  unmoved :
      {A : Type 0} (m : App env A) (w v : World env.redis.State) (r : Result A)
      → Moves env sessions_same m
      → m w ≡ (r, v)
      → v.db.sessions ≡ w.db.sessions
  unfolding sessions_same
  unmoved m w v r k h =
      subst (λ (x : World env.redis.State). x.db.sessions ≡ w.db.sessions) (ap (λ x. x.1) h)
        (k.at w)

  -- If no statement fails, the sessions are revoked.
  all_revoked :
      ((n : ℕ) → env.sql_fails n ≡ false)
      → (user : ℕ) (w : World env.redis.State) → AreClosed (revoke_all_by_user env user w).1.db user
  unfolding revoke_all_by_user revoke_where ◌>>=◌ time_now sql
  all_revoked up user w = rw (up (suc w.tick)) (revoke-AreClosed (env.clock w.tick) user w.db)

  closed :
      ((n : ℕ) → env.sql_fails n ≡ false)
      → (user : ℕ) (w v : World env.redis.State) → after_deactivation env user true w ≡ (ok tt, v)
      → AreClosed v.db user
  unfolding after_deactivation ignore
  closed up user w v h =
      let (u, e, k) = >>-eq-ok _ _ w h in
      let kept = unmoved (invalidate_user_cache env user) u v (ok tt) (invalidate-same user) k in
      let here =
        subst (λ (x : World env.redis.State). AreClosed x.db user) (ap (λ x. x.1) e)
          (all_revoked up user w) in
      λ s m. here s (subst (Memᴰ s) kept m)

  applied-closed :
      ((n : ℕ) → env.sql_fails n ≡ false)
      → (actor user_id : ℕ) (input : UpdateUserInput) (user x : User) (w v : World env.redis.State)
      → apply_update env actor user_id input user w ≡ (ok x, v)
      → user.active ≡ true
      → turns_off input.active ≡ true
      → AreClosed v.db user_id
  unfolding apply_update
  applied-closed up actor user_id input user x w v h on off =
      let (w₁, _, k₁) = >>-eq-ok _ _ w h in
      let (hash, w₂, _, k₂) = >>=-eq-ok _ _ w₁ k₁ in
      let (updated, w₃, _, k₃) = >>=-eq-ok _ _ w₂ k₂ in
      let (w₄, e₄, k₄) = >>-eq-ok _ _ w₃ k₃ in
      let (w₅, e₅, k₅) = >>-eq-ok _ _ w₄ k₄ in
      let (_, end) = outcome-eq k₅ in
      let both : (user.active && turns_off input.active) ≡ true = ground (arith, on, off) in
      let shut =
        closed up user_id w₃ w₄
          (subst (λ b. after_deactivation env user_id b w₃ ≡ (ok tt, w₄)) both e₄) in
      let kept =
        ap (λ (y : World env.redis.State). y.db.sessions) end
        ∙ unmoved _ w₄ w₅ (ok tt) (log_update-same actor user_id user updated _) e₅ in
      λ s m. shut s (subst (Memᴰ s) kept m)

  -- If no statement fails, then after an update that succeeds and turns a user off, every session of
  -- the user is revoked, or the user was inactive before.
  pub update_closes_sessions :
      ((n : ℕ) → env.sql_fails n ≡ false)
      → (actor user_id : ℕ) (input : UpdateUserInput) (w v : World env.redis.State) (x : User)
      → update env actor user_id input w ≡ (ok x, v)
      → turns_off input.active ≡ true
      → AreClosed v.db user_id
        ⊎ ((u : User) × Memᴰ u w.db.users × (u.id ≡ user_id) × (u.active ≡ false))
  unfolding update
  update_closes_sessions up actor user_id input w v x h off =
      let (w₁, e₁, k₁) = >>-eq-ok _ _ w h in
      let (w₂, e₂, k₂) = >>-eq-ok _ _ w₁ k₁ in
      let (u, w₃, e₃, k₃) = >>=-eq-ok _ _ w₂ k₂ in
      let (w₄, e₄, k₄) = >>-eq-ok _ _ w₃ k₃ in
      let (_, s₁) =
        bar-ok (turns_off input.active && actor == user_id) cannot_deactivate_self w e₁ in
      let s₂ : w₂.db ≡ w.db =
        require-same env actor input w₁ w₂ e₂ ∙ ap (λ (y : World env.redis.State). y.db) s₁ in
      let (m, i, _) = user_by_id-ok env user_id w₂ w₃ u e₃ in
      elim (Bool-cases u.active) [
        | inl on ↦ inl (applied-closed up actor user_id input u x w₄ v k₄ on off)
        | inr off_ ↦ inr (u, subst (λ (t : Tables). Memᴰ u t.users) s₂ m, i, off_)
      ]
