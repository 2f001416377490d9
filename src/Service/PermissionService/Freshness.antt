-- ===== src/Service/PermissionService/Freshness.antt =====
-- What a check reads after a revocation: Revoke and HasPermission of
-- backend/internal/service/permission.go.
use secure_auth_platform.Prelude.{
  ℕ, ◌≡◌, refl, sym, ap, ◌∙◌, Bool, false, not, ◌&&◌, List, [], ◌∷◌, Option, Text, arith, inl, inr,
  any, select, ◌==◌, Bool-cases,
}
use secure_auth_platform.Exec.{Result, ok, ignore, >>=-eq-ok, >>-eq-ok, outcome-eq}
use secure_auth_platform.Models.{UserPermission, Tables, Data}
use secure_auth_platform.Env.{Env}
use secure_auth_platform.World.{World, sql, on_redis}
use secure_auth_platform.World.Outcomes.{sql-ok}
use secure_auth_platform.Cache.PermissionCache
use secure_auth_platform.Cache.PermissionCache.{cache_key, is_empty}
use secure_auth_platform.Repository.Audit
use secure_auth_platform.Repository.Permissions
use secure_auth_platform.Repository.Permissions.{codes_of, holds, remove_grant}
use secure_auth_platform.Service.Audit.{log}
use secure_auth_platform.PermissionMatch.{match_permission}
use secure_auth_platform.Service.PermissionService.{has_permission, invalidate_user_cache, revoke}
use secure_auth_platform.Service.PermissionService.Decision.{has_permission_decides}

-- DEL works: what SMEMBERS then answers for the key is the empty set, if it answers.
pub record Forgets (env : Env) : Type 0 where
  pub forgotten :
      (k : Text) (s t : env.redis.State) (codes : List Text)
      → env.redis.smembers k (env.redis.del (k ∷ []) s).1 ≡ (ok codes, t)
      → codes ≡ []

none_held :
    (user permission : ℕ) (rows : List UserPermission)
    → holds
        (select (λ r. not (r.user_id == user && r.permission_id == permission)) rows)
        user
        permission
      ≡ false
unfolding holds any select
none_held user permission [] = refl
none_held user permission (r ∷ rows) = ground (arith, none_held user permission rows)

module _ (env : Env) where
  sql-redis :
      {A : Type 0} (f : ℕ → Tables → Result A × Tables) (w : World env.redis.State)
      → (sql env f w).1.redis ≡ w.redis
  unfolding sql
  sql-redis f w = elim (Bool-cases (env.sql_fails w.tick)) [
    | inl down ↦ rw (down, sql) refl
    | inr up ↦ rw (up, sql) refl
  ]

  sql-grants :
      {A : Type 0} (f : ℕ → Tables → Result A × Tables) (w : World env.redis.State)
      → ((now : ℕ) (t : Tables) → (f now t).1.user_permissions ≡ t.user_permissions)
      → (sql env f w).1.db.user_permissions ≡ w.db.user_permissions
  unfolding sql
  sql-grants f w k = elim (Bool-cases (env.sql_fails w.tick)) [
    | inl down ↦ rw (down, sql) refl
    | inr up ↦ rw (up, sql) (k (env.clock w.tick) w.db)
  ]

  log-redis :
      (user : Option ℕ) (action entity : Text) (id : Option ℕ) (old now : Option Data)
      (w v : World env.redis.State)
      → log env user action entity id old now w ≡ (ok tt, v)
      → (v.redis ≡ w.redis) × (v.db.user_permissions ≡ w.db.user_permissions)
  unfolding log ignore Audit.insert
  log-redis user action entity id old now w v h = (
    ap (λ x. x.1.redis) (sym h) ∙ sql-redis _ w,
    ap (λ x. x.1.db.user_permissions) (sym h)
        ∙ sql-grants _ w (λ now t. Audit.insert_log-user_permissions _ now t),
  )

  -- With DEL done, the check cannot answer by the cache.
  nothing_cached :
      Forgets env
      → (user : ℕ) (s r t : env.redis.State) (codes : List Text)
      → r ≡ (env.redis.del (cache_key env user ∷ []) s).1
      → env.redis.smembers (cache_key env user) r ≡ (ok codes, t)
      → is_empty codes ≡ false
      → ⊥
  nothing_cached laws user s r t codes e h full =
      let none_ =
        laws.forgotten (cache_key env user) s t codes
          (ap (env.redis.smembers (cache_key env user)) (sym e) ∙ h) in
      cc (ap is_empty (sym none_) ∙ full)

  invalidated :
      (user : ℕ) (w v : World env.redis.State)
      → invalidate_user_cache env user w ≡ (ok tt, v)
      → (v.redis ≡ (env.redis.del (cache_key env user ∷ []) w.redis).1) × (v.db ≡ w.db)
  unfolding invalidate_user_cache ignore on_redis PermissionCache.invalidate
  invalidated user w v h = (ap (λ x. x.1.redis) (sym h), ap (λ x. x.1.db) (sym h))

  -- Once a permission was revoked from a user, the user does not hold it, and the next check
  -- is decided by the codes that the database has then: nothing of the cache remains, if DEL works.
  pub revoke_takes_effect :
      Forgets env
      → (actor user permission : ℕ) (code : Text) (w v u : World env.redis.State) (b : Bool)
      → revoke env actor user permission w ≡ (ok tt, v)
      → has_permission env user code v ≡ (ok b, u)
      → (holds v.db.user_permissions user permission ≡ false)
        × (match_permission (codes_of v.db user) code ≡ b)
  unfolding revoke Permissions.revoke remove_grant
  revoke_takes_effect laws actor user permission code w v u b h k =
      let (_, w₁, _, k₁) = >>=-eq-ok _ _ w h in
      let (_, w₂, _, k₂) = >>=-eq-ok _ _ w₁ k₁ in
      let (w₃, e₃, k₃) = >>-eq-ok _ _ w₂ k₂ in
      let (w₄, e₄, k₄) = >>-eq-ok _ _ w₃ k₃ in
      let (_, removed) = outcome-eq (sql-ok env _ w₂ w₃ tt e₃) in
      let (cleared, kept) = invalidated user w₃ w₄ e₄ in
      let (same, held) = log-redis _ _ _ _ _ _ w₄ v k₄ in
      (
        ap (λ x. holds x user permission)
              (held ∙ ap (λ (t : Tables). t.user_permissions) (kept ∙ removed))
            ∙ none_held user permission w₂.db.user_permissions,
        elim (has_permission_decides env user code v u b k) [
          | inl d ↦ d
          | inr (codes, s, members, full, _) ↦
              absurd
                (nothing_cached laws user w₃.redis v.redis s codes (same ∙ cleared) members full)
        ],
      )
