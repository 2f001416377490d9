-- ===== src/Tests/Limits.antt =====
-- The rate limiter with two tiers, and a row of the keyboard.
use mathlib.Core.List.{Memᴰ}
use secure_auth_platform.Prelude.{◌≡◌, ◌<◌, refl, [], bytes, arith, ◌⊎◌}
use secure_auth_platform.Exec.{ok, ◌>>=◌, ◌>>◌, attempt, ignore}
use secure_auth_platform.Env.{RateTier}
use secure_auth_platform.Cache.RateLimit.{Verdict, check, full_key, block_key, block_duration}
use secure_auth_platform.Cache.RateLimit.Bounds.{
  block_duration_longest, block_duration_mono, check_admits,
}
use secure_auth_platform.Prelude.{false, ◌≤◌}
use secure_auth_platform.Example.{env, Memory}
use secure_auth_platform.Prelude.{◌∷◌, Text}
use secure_auth_platform.PasswordPolicy.Patterns.{window_in_row}
use secure_auth_platform.PasswordPolicy.Patterns.Rows.{bottom_row_never_found}

block_duration_longest_example :
    ((t : RateTier)
      → Memᴰ t env.config.tiers
      → t.threshold ≤ 7
      → t.block ≤ block_duration env.config.tiers 7)
    × ((block_duration env.config.tiers 7 ≡ 0)
        ⊎ ((t : RateTier) × Memᴰ t env.config.tiers
            × (t.threshold ≤ 7)
            × (block_duration env.config.tiers 7 ≡ t.block)))
block_duration_longest_example = block_duration_longest env.config.tiers 7

block_duration_mono_example : block_duration env.config.tiers 7 ≤ block_duration env.config.tiers 12
block_duration_mono_example = block_duration_mono env.config.tiers 7 12 (omega arith)

abbrev passed : Verdict
passed = record { blocked = false; retry_after = 0; count = 1 }

abbrev counted_memory : Memory
counted_memory = (check env (bytes "login:ip:x") []).1

checked_ok : check env (bytes "login:ip:x") [] ≡ (ok passed, counted_memory)
unfolding check full_key block_key block_duration attempt ignore ◌>>=◌ ◌>>◌ bytes
checked_ok = refl

check_admits_example : 1 < 5
check_admits_example =
    check_admits env (bytes "login:ip:x") [] counted_memory passed
      (record { threshold = 5; block = 60 }) checked_ok refl (Memᴰ.head refl) (omega arith)

abbrev typed : Text
typed = 122 ∷ 120 ∷ 99 ∷ 118 ∷ 98 ∷ 110 ∷ 109 ∷ 44 ∷ []

bottom_row_never_found_example : window_in_row (bytes "zxcvbnm") typed ≡ false
bottom_row_never_found_example = bottom_row_never_found typed (omega arith)
