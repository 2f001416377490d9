-- ===== src/Cache/PermissionCache/Scan.antt =====
-- What Redis documents of SCAN and DEL, for the loop of FlushAll: backend/cache/permissions.go.
use mathlib.Core.List.{Memᴰ}
use secure_auth_platform.Prelude.{
  ℕ, ◌≤◌, ◌≡◌, ◌≢◌, Bool, true, false, ◌==◌, length, List, [], ◌∷◌, ◌++◌, Text, bytes, not, ◌&&◌,
  ◌||◌,
}
use secure_auth_platform.Exec.{ok}
use secure_auth_platform.Env.{Env}

-- Turns of SCAN with one pattern, each from the cursor that the one before gave, up to a last
-- cursor; in between, keys may disappear and none is added.
pub data Turns (env : Env) (holds : Text → env.redis.State → Bool) (pattern : Text)
    : (cursor : ℕ)
      → env.redis.State
      → List (List Text)
      → (last : ℕ) → env.redis.State
      → Type 0 where
  turn :
      {c next : ℕ} {s t u : env.redis.State} (page : List Text)
      → env.redis.scan c pattern 100 s ≡ (ok (page, next), t)
      → ((k : Text) → holds k u ≡ true → holds k s ≡ true)
      → Turns env holds pattern c s (page ∷ []) next u
  turns :
      {c next last : ℕ} {s t u v : env.redis.State} {pages : List (List Text)} (page : List Text)
      → env.redis.scan c pattern 100 s ≡ (ok (page, next), t)
      → ((k : Text) → holds k u ≡ true → holds k s ≡ true)
      → next ≢ 0
      → Turns env holds pattern next u pages last v
      → Turns env holds pattern c s (page ∷ pages) last v

-- A text without the characters that a pattern gives a meaning: * ? [ \
abbrev pub is_plain : Text → Bool
is_plain [] = true
is_plain (b ∷ t) = not (b == 42 || b == 63 || b == 91 || b == 92) && is_plain t

-- SCAN and DEL as Redis documents them: no command fails; SCAN changes no key; DEL removes its keys
-- and adds none; a star fits whatever follows a plain text; a whole iteration, from cursor 0 back
-- to cursor 0, gives every key that fits the pattern and is there throughout; and an iteration of
-- keys that only shrink ends.
pub record Scans (env : Env) : Type 0 where
  pub holds : Text → env.redis.State → Bool
  pub fits : (pattern key : Text) → Bool
  pub bound : env.redis.State → ℕ
  pub fits_star : (p rest : Text) → is_plain p ≡ true → fits (p ++ bytes "*") (p ++ rest) ≡ true
  pub scan_answers :
      (c : ℕ) (pattern : Text) (s : env.redis.State)
      → (page : List Text) × (next : ℕ) × (t : env.redis.State) × (env.redis.scan c pattern 100 s
          ≡ (ok (page, next), t))
        × ((k : Text) → holds k t ≡ holds k s)
  pub del_answers :
      (ks : List Text) (s : env.redis.State)
      → (t : env.redis.State) × (env.redis.del ks s ≡ (ok tt, t))
        × ((k : Text) → Memᴰ k ks → holds k t ≡ false)
        × ((k : Text) → holds k t ≡ true → holds k s ≡ true)
  pub scan_complete :
      (pattern : Text) (s v : env.redis.State) (pages : List (List Text))
      → Turns env holds pattern 0 s pages 0 v
      → (k : Text) → fits pattern k ≡ true
      → holds k v ≡ true
      → (page : List Text) × Memᴰ page pages × Memᴰ k page
  pub scan_ends :
      (pattern : Text) (s v : env.redis.State) (pages : List (List Text)) (last : ℕ)
      → Turns env holds pattern 0 s pages last v
      → length pages ≤ bound s
