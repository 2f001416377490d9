-- ===== src/PermissionMatch.antt =====
-- backend/internal/service/permission_match.go
pub mod Laws
use secure_auth_platform.Prelude.{
  Bool, true, false, ◌||◌, List, [], ◌∷◌, ◌++◌, Text, bytes, ◌=t=◌, has_prefix, has_suffix,
  trim_suffix, if◌then◌else◌,
}

-- Does one granted code cover the required one?
unfoldable pub covers : Text → Text → Bool
covers g required =
    if g =t= bytes "*" || g =t= required
    then true
    else if has_suffix g (bytes ".*")
    then has_prefix required (trim_suffix g (bytes ".*") ++ bytes ".")
    else false

-- `matchPermission`: the loop over the granted codes.
unfoldable pub match_permission : List Text → Text → Bool
match_permission [] required = false
match_permission (g ∷ granted) required = covers g required || match_permission granted required
