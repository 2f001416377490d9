-- ===== src/Cache/PermissionCache.antt =====
-- backend/cache/permissions.go
pub mod Scan
pub mod Flush
use secure_auth_platform.Prelude.{
  ℕ, zero, suc, ◌==◌, Bool, true, false, List, [], ◌∷◌, ◌++◌, Text, bytes, if◌then◌else◌,
}
use secure_auth_platform.Exec.{Exec, Result, ok, err, pure, from_result, ◌>>=◌, ◌>>◌, attempt}
use secure_auth_platform.Env.{Env}

abbrev pub is_empty : List Text → Bool
is_empty [] = true
is_empty (c ∷ cs) = false

-- A pipeline answers with the first error of its commands.
abbrev pub both : Result (Unit {0}) → Result (Unit {0}) → Result (Unit {0})
both (ok _) r = r
both (err e) r = err e

-- What `Get` returns: the codes, and whether there are any.
pub record Cached : Type 0 where
  pub codes : List Text
  pub found : Bool

module _ (env : Env) where
  unfoldable pub cache_key : ℕ → Text
  cache_key user = env.config.key_prefix ++ (bytes "permissions:user:" ++ env.libs.decimal user)

  -- The empty set counts as a miss.
  unfoldable pub get : ℕ → Exec env.redis.State Cached
  get user = do
    codes ← env.redis.smembers (cache_key user)
    pure (record { codes = codes; found = if is_empty codes then false else true })

  unfoldable pub set : ℕ → List Text → Exec env.redis.State (Unit {0})
  set user codes = do
    let key = cache_key user
    a ← attempt (env.redis.del (key ∷ []))
    b ← attempt (if is_empty codes then pure tt else env.redis.sadd key codes)
    c ← attempt (env.redis.expire key env.config.permission_ttl)
    from_result (both a (both b c))

  unfoldable pub invalidate : ℕ → Exec env.redis.State (Unit {0})
  invalidate user = env.redis.del (cache_key user ∷ [])

  -- One turn of the loop of `FlushAll`: the keys of a page are deleted. It gives the next cursor.
  unfoldable pub flush_page : ℕ → Exec env.redis.State ℕ
  flush_page cursor = do
    page ← env.redis.scan cursor (env.config.key_prefix ++ bytes "permissions:user:*") 100
    if is_empty page.0 then pure tt else env.redis.del page.0
    pure page.1

  -- The loop, from a cursor on. It gives whether it ended before the fuel did.
  unfoldable pub flush_from : (fuel cursor : ℕ) → Exec env.redis.State Bool
  flush_from zero cursor = pure false
  flush_from (suc fuel) cursor =
      flush_page cursor >>= λ next. if next == 0 then pure true else flush_from fuel next

  unfoldable pub flush_all : ℕ → Exec env.redis.State Bool
  flush_all fuel = flush_from fuel 0
