-- ===== src/Http/Params.antt =====
-- backend/internal/httputil/params.go, and what a handler does with a part of a request that is there or not.
use secure_auth_platform.Prelude.{
  ℕ, zero, suc, ◌++◌, pos, negsuc, Option, none, some, Text, bytes, parse_int64,
}
use secure_auth_platform.Exec.{pure}
use secure_auth_platform.Env.{Env}
use secure_auth_platform.World.{App}
use secure_auth_platform.Http.{refused, Answer, answer}

-- A positive number is an identifier.
unfoldable pub parse_positive_int64 : Text → Option ℕ
parse_positive_int64 raw = elim (parse_int64 raw) [
  | none ↦ none
  | some (pos zero) ↦ none
  | some (pos (suc n)) ↦ some (suc n)
  | some (negsuc n) ↦ none
]

-- The error of `ParsePositiveInt64`.
abbrev pub invalid_param : Text → Answer
invalid_param label = answer (refused 400 (bytes "invalid " ++ label))

-- An early return if the part is missing.
unfoldable pub for_some :
    (env : Env) {A : Type 0} → Option A → Answer → (A → App env Answer) → App env Answer
for_some env none refusal next = pure refusal
for_some env (some a) refusal next = next a

-- The identifier in a parameter of the path.
unfoldable pub for_id : (env : Env) (raw label : Text) → (ℕ → App env Answer) → App env Answer
for_id env raw label = for_some env (parse_positive_int64 raw) (invalid_param label)
