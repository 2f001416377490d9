-- ===== src/Service/PermissionService.antt =====
-- backend/internal/service/permission.go, permission_catalog.go, permission_validation.go, role.go
pub mod Runs
pub mod Authority
pub mod Decision
pub mod Reads
pub mod Freshness
use secure_auth_platform.Prelude.{
  ℕ, Bool, true, false, not, ◌&&◌, ◌||◌, List, [], ◌∷◌, none, some, Text, bytes, ltb, leb, ◌=t=◌,
  has_suffix, if◌then◌else◌,
}
use secure_auth_platform.Exec.{
  Result, ok, err, not_found, forbidden, permission_code_taken, invalid_permission_code,
  protected_permission, permission_in_use, pure, fail, from_result, attempt, ignore, ◌>>=◌, ◌>>◌,
}
use secure_auth_platform.Models.{Permission, Role, text, number}
use secure_auth_platform.Env.{Env}
use secure_auth_platform.World.{App, on_redis}
use secure_auth_platform.Cache.PermissionCache
use secure_auth_platform.Cache.PermissionCache.{Cached}
use secure_auth_platform.Repository.Permissions
use secure_auth_platform.Repository.Users
use secure_auth_platform.PermissionMatch.{match_permission}
use secure_auth_platform.Service.Audit.{log}

is_lower_letter : ℕ → Bool
is_lower_letter c = leb b'a' c && leb c b'z'

is_code_char : ℕ → Bool
unfolding is_lower_letter
is_code_char c = is_lower_letter c || leb b'0' c && leb c b'9' || (leb b'_' c && leb c b'_')

-- Inside a word of `permissionCodePattern`; `dots` says whether a dot was met.
in_word : Bool → Text → Bool
unfolding is_code_char
in_word dots [] = dots
in_word dots (c ∷ []) = is_code_char c && dots
in_word dots (c ∷ d ∷ s) =
    let more = in_word dots (d ∷ s) in
    let next = in_word true s in
    if is_code_char c
    then more
    else if leb b'.' c && leb c b'.'
    then is_lower_letter d && next
    else false

-- ^[a-z][a-z0-9_]*(\.[a-z][a-z0-9_]*)+$
unfoldable pub matches_code_pattern : Text → Bool
unfolding in_word
matches_code_pattern [] = false
matches_code_pattern (c ∷ s) = is_lower_letter c && in_word false s

unfoldable pub validate_permission_code : Text → Result (Unit {0})
validate_permission_code code =
    if code =t= bytes "*" || code =t= bytes "users.*"
    then err invalid_permission_code
    else if has_suffix code (bytes ".manage")
    then err invalid_permission_code
    else if not (matches_code_pattern code)
    then err invalid_permission_code
    else ok tt

unfoldable pub is_protected_permission_code : Text → Bool
is_protected_permission_code code =
    code =t= bytes "*" || code =t= bytes "users.*" || code =t= bytes "audit_logs.read"

module _ (env : Env) where
  -- Without the cache: the codes of the database decide.
  unfoldable pub check_in_database : ℕ → Text → App env Bool
  check_in_database user code = do
    codes ← Permissions.list_codes_by_user_id env user
    pure (match_permission codes code)

  -- A miss: read the codes, fill the cache if that works, and decide.
  unfoldable pub check_and_fill : ℕ → Text → App env Bool
  check_and_fill user code = do
    codes ← Permissions.list_codes_by_user_id env user
    ignore (on_redis env (PermissionCache.set env user codes))
    pure (match_permission codes code)

  unfoldable pub decide : ℕ → Text → Result Cached → App env Bool
  decide user code (err e) = check_in_database user code
  decide user code (ok c) =
      if c.found then pure (match_permission c.codes code) else check_and_fill user code

  unfoldable pub has_permission : ℕ → Text → App env Bool
  has_permission user code = do
    cached ← attempt (on_redis env (PermissionCache.get env user))
    decide user code cached

  unfoldable pub list_all : App env (List Permission)
  list_all = Permissions.list_all env

  unfoldable pub list_roles : App env (List Role)
  list_roles = Users.roles env

  unfoldable pub list_codes_by_user : ℕ → App env (List Text)
  list_codes_by_user user = Permissions.list_codes_by_user_id env user

  unfoldable pub count_active_users_with_star : App env ℕ
  count_active_users_with_star = Permissions.count_active_users_with_code env (bytes "*")

  -- `invalidateCache`: a failure is logged and dropped.
  unfoldable pub invalidate_user_cache : ℕ → App env (Unit {0})
  invalidate_user_cache user = ignore (on_redis env (PermissionCache.invalidate env user))

  unfoldable pub actor_can_grant : ℕ → Text → App env Bool
  actor_can_grant actor code = do
    codes ← Permissions.list_codes_by_user_id env actor
    pure (match_permission codes code)

  unfoldable pub grant : (actor user permission : ℕ) → App env (Unit {0})
  grant actor user permission = do
    target ← Users.find_by_id env user
    perm ← Permissions.find_by_id env permission
    allowed ← actor_can_grant actor perm.code
    if allowed then pure tt else fail forbidden
    Permissions.grant env user permission
    invalidate_user_cache user
    log env (some actor) (bytes "permission.granted") (bytes "user_permissions") (some user) none (
        some (
          (bytes "userId", number user)
          ∷ (bytes "permissionId", number permission)
          ∷ (bytes "permissionCode", text perm.code)
          ∷ []))

  unfoldable pub revoke : (actor user permission : ℕ) → App env (Unit {0})
  revoke actor user permission = do
    target ← Users.find_by_id env user
    perm ← Permissions.find_by_id env permission
    Permissions.revoke env user permission
    invalidate_user_cache user
    log env (some actor) (bytes "permission.revoked") (bytes "user_permissions") (some user)
        (some (
          (bytes "userId", number user)
          ∷ (bytes "permissionId", number permission)
          ∷ (bytes "permissionCode", text perm.code)
          ∷ []))
        none

  -- `FindByCode` must miss: a hit is an error of its own, another error is passed on.
  code_is_free : Result Permission → App env (Unit {0})
  code_is_free (ok p) = fail permission_code_taken
  code_is_free (err not_found) = pure tt
  code_is_free (err e) = fail e

  -- `Create`: the caller hands in the raw code and description.
  unfoldable pub create : (actor : ℕ) (raw_code raw_description : Text) → App env Permission
  unfolding code_is_free
  create actor raw_code raw_description = do
    let code = env.libs.trim_space raw_code
    from_result (validate_permission_code code)
    existing ← attempt (Permissions.find_by_code env code)
    code_is_free existing
    perm ← Permissions.create env (record {
      id = 0;
      code = code;
      description = env.libs.trim_space raw_description;
      created_at = 0;
    })
    log env (some actor) (bytes "permission.created") (bytes "permission") (some perm.id) none
        (some ((bytes "code", text perm.code) ∷ (bytes "description", text perm.description) ∷ []))
    pure perm

  unfoldable pub update_description : (actor id : ℕ) → Text → App env Permission
  update_description actor id raw = do
    found ← Permissions.find_by_id env id
    let perm : Permission = record found { description = env.libs.trim_space raw }
    Permissions.update_description env id perm.description
    log env (some actor) (bytes "permission.updated") (bytes "permission") (some id)
        (some ((bytes "description", text found.description) ∷ []))
        (some ((bytes "code", text perm.code) ∷ (bytes "description", text perm.description) ∷ []))
    pure perm

  unfoldable pub delete : (actor id : ℕ) → App env (Unit {0})
  delete actor id = do
    perm ← Permissions.find_by_id env id
    if is_protected_permission_code perm.code then fail protected_permission else pure tt
    count ← Permissions.count_assignments env id
    if ltb 0 count then fail permission_in_use else pure tt
    Permissions.delete env id
    log env (some actor) (bytes "permission.deleted") (bytes "permission") (some id)
        (some ((bytes "code", text perm.code) ∷ (bytes "description", text perm.description) ∷ []))
        none
