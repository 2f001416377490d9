-- ===== src/Prelude/Int.antt =====
-- Signed integers over the native numbers, and strconv.ParseInt in base 10.
use Prim.Native.Nat.{ℕ, zero, suc, ◌+◌, ◌-◌, ◌*◌, ◌^◌, ◌<◌}
use mathlib.Core.Path.{◌≡◌}
use native.Mathlib.Omega.{arith}
use mathlib.Core.Bool.{Bool, true, false, ◌&&◌}
use mathlib.Core.Option.{Option, none, some}
use mathlib.Core.List.{[], ◌∷◌}
use secure_auth_platform.Prelude.Tests.{ltb, leb, ◌==◌, if◌then◌else◌}
use secure_auth_platform.Prelude.Bytes.{Text}

pub data ℤ : Type 0 where
  pos : ℕ → ℤ
  negsuc : ℕ → ℤ

abbrev pub is_digit : ℕ → Bool
is_digit c = leb b'0' c && leb c b'9'

-- The value of the digits, after a prefix that has the value `n`.
unfoldable pub digits_from : ℕ → Text → Option ℕ
digits_from n [] = some n
digits_from n (c ∷ s) =
    let rest = digits_from (n * 10 + (c - b'0')) s in if is_digit c then rest else none

-- At least one digit.
unfoldable pub digits : Text → Option ℕ
digits [] = none
digits (c ∷ s) = digits_from 0 (c ∷ s)

abbrev below : ℕ → Option ℕ → Option ℕ
below n none = none
below n (some m) = if ltb m n then some m else none

abbrev negated : Option ℕ → Option ℤ
negated none = none
negated (some zero) = some (pos 0)
negated (some (suc n)) = some (negsuc n)

abbrev positive : Option ℕ → Option ℤ
positive none = none
positive (some n) = some (pos n)

-- strconv.ParseInt(s, 10, 64), where `none` is any error
unfoldable pub parse_int64 : Text → Option ℤ
parse_int64 [] = none
parse_int64 (c ∷ s) =
    if c == b'-'
    then negated (below (2 ^ 63 + 1) (digits s))
    else positive (below (2 ^ 63) (digits (if c == b'+' then s else c ∷ s)))

-- strconv.ParseUint(s, 10, 32)
unfoldable pub parse_uint32 : Text → Option ℕ
parse_uint32 s = below (2 ^ 32) (digits s)

below-some : (n : ℕ) (o : Option ℕ) (m : ℕ) → below n o ≡ some m → m < n
below-some n none m h = cc
below-some n (some x) m h = ground arith

positive-pos : (o : Option ℕ) (m : ℕ) → positive o ≡ some (pos m) → o ≡ some m
positive-pos none m h = cc
positive-pos (some x) m h = cc

negated-pos : (o : Option ℕ) (m : ℕ) → negated o ≡ some (pos m) → m ≡ 0
negated-pos none m h = cc
negated-pos (some zero) m h = cc
negated-pos (some (suc n)) m h = cc

parsed-pos :
    (minus : Bool) (n o : Option ℕ) (m : ℕ)
    → (if minus then negated (below (2 ^ 63 + 1) n) else positive (below (2 ^ 63) o)) ≡ some (pos m)
    → m < 2 ^ 63
parsed-pos true n o m h = omega (arith, negated-pos (below (2 ^ 63 + 1) n) m h)
parsed-pos false n o m h = below-some (2 ^ 63) o m (positive-pos (below (2 ^ 63) o) m h)

-- A number that parses and is not negative fits in an int64.
pub parse_int64_below : (s : Text) (m : ℕ) → parse_int64 s ≡ some (pos m) → m < 2 ^ 63
unfolding parse_int64
parse_int64_below [] m h = cc
parse_int64_below (c ∷ s) m h =
    parsed-pos (c == b'-') (digits s) (digits (if c == b'+' then s else c ∷ s)) m h
