-- ===== src/Cache/LastLoginStore.antt =====
-- backend/cache/last_login.go
use secure_auth_platform.Prelude.{ℕ, Option, none, some, ◌++◌, Text, bytes}
use secure_auth_platform.Exec.{Exec, pure, fail, fault, ◌>>=◌}
use secure_auth_platform.Env.{Env, LastLogin}

module _ (env : Env) where
  unfoldable pub last_login_key : ℕ → Text
  last_login_key user = env.config.key_prefix ++ (bytes "last_login:" ++ env.libs.decimal user)

  -- The stored value, decoded. A missing key is no error.
  decoded : Option Text → Exec env.redis.State (Option LastLogin)
  decoded none = pure none
  decoded (some raw) = elim (env.libs.login_of_json raw) [
    | none ↦ fail fault
    | some info ↦ pure (some info)
  ]

  unfoldable pub get : ℕ → Exec env.redis.State (Option LastLogin)
  unfolding decoded
  get user = do raw ← env.redis.get_bytes (last_login_key user); decoded raw

  unfoldable pub set : ℕ → LastLogin → Exec env.redis.State (Unit {0})
  set user info = elim (env.libs.login_to_json info) [
    | none ↦ fail fault
    | some raw ↦ env.redis.set_bytes (last_login_key user) raw env.config.last_login_ttl
  ]
