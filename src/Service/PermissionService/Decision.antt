-- ===== src/Service/PermissionService/Decision.antt =====
-- By which codes a permission is decided: HasPermission of
-- backend/internal/service/permission.go.
use secure_auth_platform.Prelude.{
  ℕ, ◌≡◌, refl, sym, ap, subst, ◌∙◌, Bool, true, false, List, Text, arith, ◌⊎◌, inl, inr,
  if◌then◌else◌,
}
use secure_auth_platform.Exec.{
  Result, ok, err, >>=-eq-ok, >>-eq-ok, either_ran_on, attempt-ok, outcome-eq,
}
use secure_auth_platform.Env.{Env}
use secure_auth_platform.World.{World, on_redis}
use secure_auth_platform.World.Outcomes.{sql-ok, on_redis-same, on_redis-result}
use secure_auth_platform.Cache.PermissionCache
use secure_auth_platform.Cache.PermissionCache.{Cached, cache_key, is_empty}
use secure_auth_platform.Repository.Permissions
use secure_auth_platform.Repository.Permissions.{codes_of}
use secure_auth_platform.PermissionMatch.{match_permission}
use secure_auth_platform.Service.PermissionService.{
  check_in_database, check_and_fill, decide, has_permission,
}

not_empty : (b : Bool) → (if b then false else true) ≡ true → b ≡ false
not_empty b h = ground arith

module _ (env : Env) where
  codes-ok :
      (user : ℕ) (w v : World env.redis.State) (codes : List Text)
      → Permissions.list_codes_by_user_id env user w ≡ (ok codes, v)
      → codes_of w.db user ≡ codes
  unfolding Permissions.list_codes_by_user_id
  codes-ok user w v codes h = (outcome-eq (sql-ok env _ w v codes h)).0

  in_database-ok :
      (user : ℕ) (code : Text) (w v : World env.redis.State) (b : Bool)
      → check_in_database env user code w ≡ (ok b, v)
      → match_permission (codes_of w.db user) code ≡ b
  unfolding check_in_database
  in_database-ok user code w v b h =
      let (codes, u, e, k) = >>=-eq-ok _ _ w h in
      ap (λ c. match_permission c code) (codes-ok user w u codes e) ∙ (outcome-eq k).0

  and_fill-ok :
      (user : ℕ) (code : Text) (w v : World env.redis.State) (b : Bool)
      → check_and_fill env user code w ≡ (ok b, v)
      → match_permission (codes_of w.db user) code ≡ b
  unfolding check_and_fill
  and_fill-ok user code w v b h =
      let (codes, u, e, k) = >>=-eq-ok _ _ w h in
      let (u', e', k') = >>-eq-ok _ _ u k in
      ap (λ c. match_permission c code) (codes-ok user w u codes e) ∙ (outcome-eq k').0

  decide-ok :
      (user : ℕ) (code : Text) (r : Result Cached) (w v : World env.redis.State) (b : Bool)
      → decide env user code r w ≡ (ok b, v)
      → (match_permission (codes_of w.db user) code ≡ b)
        ⊎ ((c : Cached) × (r ≡ ok c) × (c.found ≡ true) × (match_permission c.codes code ≡ b))
  unfolding decide
  decide-ok user code (err e) w v b h = inl (in_database-ok user code w v b h)
  decide-ok user code (ok c) w v b h = elim (either_ran_on c.found _ _ w h) [
    | inl (f, k) ↦ inr (c, refl, f, (outcome-eq k).0)
    | inr (_, k) ↦ inl (and_fill-ok user code w v b k)
  ]

  -- What the cache holds for a user, if it has any code.
  get-ok :
      (user : ℕ) (s s' : env.redis.State) (c : Cached)
      → PermissionCache.get env user s ≡ (ok c, s')
      → c.found ≡ true
      → (u : env.redis.State) × (env.redis.smembers (cache_key env user) s ≡ (ok c.codes, u))
        × (is_empty c.codes ≡ false)
  unfolding PermissionCache.get
  get-ok user s s' c h f =
      let (codes, u, e, k) = >>=-eq-ok _ _ s h in
      let (made, _) = outcome-eq k in
      let same = ap (λ (x : Cached). x.codes) made in
      let full = not_empty (is_empty codes) (ap (λ (x : Cached). x.found) made ∙ f) in
      (u, e ∙ ap (λ (x : List Text). (ok x, u)) same, ap is_empty (sym same) ∙ full)

  -- A permission is decided by the codes that the database has for the user, or by a set of codes
  -- that Redis holds under the key of the user and that is not empty.
  pub has_permission_decides :
      (user : ℕ) (code : Text) (w v : World env.redis.State) (b : Bool)
      → has_permission env user code w ≡ (ok b, v)
      → (match_permission (codes_of w.db user) code ≡ b)
        ⊎ ((codes : List Text) × (s : env.redis.State) × (env.redis.smembers
                (cache_key env user)
                w.redis
              ≡ (ok codes, s))
            × (is_empty codes ≡ false)
            × (match_permission codes code ≡ b))
  unfolding has_permission
  has_permission_decides user code w v b h =
      let (r, u, e, k) = >>=-eq-ok _ _ w h in
      let read = attempt-ok (on_redis env (PermissionCache.get env user)) w e in
      let here = on_redis-same env (PermissionCache.get env user) w u r read in
      let (s, got) = on_redis-result env (PermissionCache.get env user) w u r read in
      elim (decide-ok user code r u v b k) [
        | inl d ↦ inl (subst (λ t. match_permission (codes_of t user) code ≡ b) here d)
        | inr (c, is, f, d) ↦
            let (s', m, some_) = get-ok user w.redis s c (got ∙ ap (λ x. (x, s)) is) f in
            inr (c.codes, s', m, some_, d)
      ]
