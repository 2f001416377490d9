-- ===== src/Service/PermissionService/Authority.antt =====
-- What the services demand of the one who grants and of a code that is created: Grant and Create of
-- backend/internal/service/permission.go and permission_catalog.go.
use mathlib.Core.List.{Memᴰ}
use secure_auth_platform.Prelude.{
  ℕ, ◌≡◌, refl, sym, ap, subst, ◌∙◌, Bool, true, false, [], ◌∷◌, ◌++◌, Text, bytes, arith, find-Mem,
  ◌==◌, ==_iff,
}
use secure_auth_platform.Exec.{ok, forbidden, guard-ok, outcome-eq, >>=-eq-ok, >>-eq-ok}
use secure_auth_platform.Models.{User, Permission, Tables}
use secure_auth_platform.Env.{Env}
use secure_auth_platform.World.{World}
use secure_auth_platform.World.Outcomes.{sql-ok}
use secure_auth_platform.Repository.Permissions
use secure_auth_platform.Repository.Permissions.{codes_of}
use secure_auth_platform.Repository.Users
use secure_auth_platform.Repository.Finds.{or_not_found-ok}
use secure_auth_platform.PermissionMatch.{match_permission}
use secure_auth_platform.PermissionMatch.Laws.{
  Covers, everything, itself, below, match_permission_iff,
}
use secure_auth_platform.Service.PermissionService.{
  grant, actor_can_grant, validate_permission_code, matches_code_pattern, in_word, is_lower_letter,
  is_code_char,
}

-- No code that matches the pattern ends in a wildcard.
no_wildcard_in_word : (dots : Bool) (q : Text) → in_word dots (q ++ 46 ∷ 42 ∷ []) ≡ false
unfolding in_word is_code_char is_lower_letter
no_wildcard_in_word dots [] = refl
no_wildcard_in_word dots (a ∷ []) = ground arith
no_wildcard_in_word dots (a ∷ b ∷ q) =
    ground (arith, no_wildcard_in_word dots (b ∷ q), no_wildcard_in_word true q)

no_wildcard : (q : Text) → matches_code_pattern (q ++ bytes ".*") ≡ false
unfolding matches_code_pattern bytes is_lower_letter
no_wildcard [] = refl
no_wildcard (a ∷ q) = ground (arith, no_wildcard_in_word false q)

valid-pattern : (c : Text) → validate_permission_code c ≡ ok tt → matches_code_pattern c ≡ true
unfolding validate_permission_code
valid-pattern c h = ground (arith, h)

valid-not_star : (c : Text) → validate_permission_code c ≡ ok tt → c ≡ bytes "*" → ⊥
unfolding validate_permission_code
valid-not_star c h e = ground (arith, h, e)

covered : (c g r : Text) → validate_permission_code c ≡ ok tt → g ≡ c → Covers g r → r ≡ c
covered c g r h e (everything k) = absurd (valid-not_star c h (sym e ∙ k))
covered c g r h e (itself k) = sym k ∙ e
covered c g r h e (below q rest k l) =
    let bad = no_wildcard q in
    let good = valid-pattern c h in let same = ap matches_code_pattern (sym e ∙ k) in cc

only : {A : Type 0} (x y : A) → Memᴰ x (y ∷ []) → x ≡ y
only x y (Memᴰ.head e) = e
only x y (Memᴰ.tail m) = elim m [ ]

-- A code that passes the validation of new codes covers only itself: creating a permission
-- makes no new wildcard.
pub created_code_covers :
    (c r : Text) → validate_permission_code c ≡ ok tt → match_permission (c ∷ []) r ≡ true → r ≡ c
created_code_covers c r h k =
    let (g, m, cov) = (match_permission_iff (c ∷ []) r).0 k in covered c g r h (only g c m) cov

module _ (env : Env) where
  user-same :
      (id : ℕ) (w v : World env.redis.State) (u : User)
      → Users.find_by_id env id w ≡ (ok u, v)
      → v.db ≡ w.db
  unfolding Users.find_by_id
  user-same id w v u h = ap (λ x. x.1) (sym (sql-ok env _ w v u h))

  permission-ok :
      (id : ℕ) (w v : World env.redis.State) (p : Permission)
      → Permissions.find_by_id env id w ≡ (ok p, v)
      → Memᴰ p w.db.permissions × (p.id ≡ id) × (v.db ≡ w.db)
  unfolding Permissions.find_by_id
  permission-ok id w v p h =
      let read = sql-ok env _ w v p h in
      let (m, q) =
        find-Mem (λ p. p.id == id) w.db.permissions (or_not_found-ok _ p (ap (λ x. x.0) read)) in
      (m, (==_iff p.id id).0 q, ap (λ x. x.1) (sym read))

  can_grant-ok :
      (actor : ℕ) (code : Text) (w v : World env.redis.State) (b : Bool)
      → actor_can_grant env actor code w ≡ (ok b, v)
      → match_permission (codes_of w.db actor) code ≡ b
  unfolding actor_can_grant Permissions.list_codes_by_user_id
  can_grant-ok actor code w v b h =
      let (codes, u, e, k) = >>=-eq-ok _ _ w h in
      let read = sql-ok env _ w u codes e in
      ap (λ c. match_permission c code) (outcome-eq read).0 ∙ (outcome-eq k).0

  -- Nobody grants more than they hold: if a grant succeeds, the permission is in the table, and
  -- the codes that the database has for the one who grants cover its code.
  pub grant_sound :
      (actor user permission : ℕ) (w v : World env.redis.State)
      → grant env actor user permission w ≡ (ok tt, v)
      → (p : Permission) × Memᴰ p w.db.permissions
        × (p.id ≡ permission)
        × (match_permission (codes_of w.db actor) p.code ≡ true)
  unfolding grant
  grant_sound actor user permission w v h =
      let (target, u₁, e₁, k₁) = >>=-eq-ok _ _ w h in
      let (p, u₂, e₂, k₂) = >>=-eq-ok _ _ u₁ k₁ in
      let (allowed, u₃, e₃, k₃) = >>=-eq-ok _ _ u₂ k₂ in
      let (u₄, e₄, k₄) = >>-eq-ok _ _ u₃ k₃ in
      let (m, i, same) = permission-ok permission u₁ u₂ p e₂ in
      let first = user-same user w u₁ target e₁ in
      let can = can_grant-ok actor p.code u₂ u₃ allowed e₃ in
      let yes_ : allowed ≡ true = (guard-ok allowed forbidden u₃ e₄).0 in
      (
        p,
        subst (λ (t : Tables). Memᴰ p t.permissions) first m,
        i,
        subst (λ t. match_permission (codes_of t actor) p.code ≡ true) (same ∙ first) (can ∙ yes_),
      )
