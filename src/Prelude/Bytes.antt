-- ===== src/Prelude/Bytes.antt =====
-- Go strings: lists of bytes. A literal is written as its UTF-8 encoding.
use Prim.Native.Nat.{ℕ, ◌+◌, ◌/◌, ◌%◌}
use Prim.Native.Char.{code}
use Prim.Native.String.{String}
use mathlib.Core.Path.{◌≡◌, refl, ap, sym, ◌∙◌}
use mathlib.Core.Logic.{ite, dite, ◌↔◌}
use mathlib.Core.Bool.{Bool, true, false, ◌&&◌, Bool-discrete}
use mathlib.Core.Option.{Option, none, some}
use mathlib.Core.List.{List, [], ◌∷◌, ◌++◌, reverse, reverse-append, reverse-reverse}
use native.Mathlib.Omega.{arith}
use secure_auth_platform.Prelude.Tests.{ltb, ◌==◌ as nat_eq, if◌then◌else◌}

abbrev pub Text : Type 0
Text = List ℕ

-- The bytes of a code point.
utf8 : ℕ → Text
utf8 c =
    if ltb c 0x80
    then c ∷ []
    else if ltb c 0x800
    then (0xC0 + c / 0x40) ∷ (0x80 + c % 0x40) ∷ []
    else if ltb c 0x10000
    then (0xE0 + c / 0x1000) ∷ (0x80 + c / 0x40 % 0x40) ∷ (0x80 + c % 0x40) ∷ []
    else (0xF0 + c / 0x40000)
      ∷ (0x80 + c / 0x1000 % 0x40)
      ∷ (0x80 + c / 0x40 % 0x40)
      ∷ (0x80 + c % 0x40)
      ∷ []

-- A literal of the source.
unfoldable pub bytes : String → Text
unfolding utf8
bytes String.[] = []
bytes (String.◌∷◌ c s) = utf8 (code c) ++ bytes s

pub same : Text → Text → Bool
same [] [] = true
same (a ∷ s) (b ∷ t) = nat_eq a b && same s t
same _ _ = false

pub same_iff : (s t : Text) → (same s t ≡ true) ↔ (s ≡ t)
unfolding same
same_iff [] [] = (λ _. refl, λ _. refl)
same_iff [] (b ∷ t) = (λ h. cc, λ h. cc)
same_iff (a ∷ s) [] = (λ h. cc, λ h. cc)
same_iff (a ∷ s) (b ∷ t) = ground (arith, same_iff s t)

-- Shut in proofs, where a split on it yields an equation or its negation.
unfoldable pub Text-discrete : Discrete Text
unfolding same same_iff
Text-discrete s t =
    dite (Bool-discrete (same s t) true) (λ h. yes ((same_iff s t).0 h))
      (λ h. no (λ p. h ((same_iff s t).1 p)))

-- Go's `==` on strings.
infix 50 ◌=t=◌
abbrev pub ◌=t=◌ : Text → Text → Bool
s =t= t = ite (Text-discrete s t) true false

-- strings.HasPrefix
unfoldable pub has_prefix : Text → Text → Bool
has_prefix s [] = true
has_prefix [] (b ∷ p) = false
has_prefix (a ∷ s) (b ∷ p) = nat_eq a b && has_prefix s p

-- What follows a prefix, if it is one.
unfoldable pub cut_prefix : Text → Text → Option Text
cut_prefix s [] = some s
cut_prefix [] (b ∷ p) = none
cut_prefix (a ∷ s) (b ∷ p) = if nat_eq a b then cut_prefix s p else none

-- strings.HasSuffix
unfoldable pub has_suffix : Text → Text → Bool
unfolding has_prefix
has_suffix s p = has_prefix (reverse s) (reverse p)

-- strings.TrimSuffix
unfoldable pub trim_suffix : Text → Text → Text
unfolding cut_prefix
trim_suffix s p = elim (cut_prefix (reverse s) (reverse p)) [ none ↦ s | some r ↦ reverse r ]

-- strings.TrimPrefix
unfoldable pub trim_prefix : Text → Text → Text
unfolding cut_prefix
trim_prefix s p = elim (cut_prefix s p) [ none ↦ s | some r ↦ r ]

pub has_prefix-append : (p r : Text) → has_prefix (p ++ r) p ≡ true
unfolding has_prefix
has_prefix-append [] r = refl
has_prefix-append (b ∷ p) r = ground (arith, has_prefix-append p r)

pub append_of_has_prefix : (s p : Text) → has_prefix s p ≡ true → (r : Text) × (s ≡ p ++ r)
unfolding has_prefix
append_of_has_prefix s [] h = (s, refl)
append_of_has_prefix [] (b ∷ p) h = cc
append_of_has_prefix (a ∷ s) (b ∷ p) h =
    let (r, e) = append_of_has_prefix s p (ground arith) in (r, ground arith)

cut_prefix-append : (p r : Text) → cut_prefix (p ++ r) p ≡ some r
unfolding cut_prefix
cut_prefix-append [] r = refl
cut_prefix-append (b ∷ p) r = ground (arith, cut_prefix-append p r)

pub has_suffix-append : (r p : Text) → has_suffix (r ++ p) p ≡ true
unfolding has_suffix
has_suffix-append r p = rw (reverse-append r p) (has_prefix-append (reverse p) (reverse r))

pub append_of_has_suffix : (s p : Text) → has_suffix s p ≡ true → (r : Text) × (s ≡ r ++ p)
unfolding has_suffix
append_of_has_suffix s p h =
    let (r, e) = append_of_has_prefix (reverse s) (reverse p) h in
    (
      reverse r,
      sym (reverse-reverse s)
          ∙ ap reverse e
          ∙ reverse-append (reverse p) r
          ∙ ap (λ t. reverse r ++ t) (reverse-reverse p),
    )

-- Trimming a suffix that is there.
pub trim_suffix-append : (r p : Text) → trim_suffix (r ++ p) p ≡ r
unfolding trim_suffix
trim_suffix-append r p =
    rw (reverse-append r p, trim_suffix)
      (rw (cut_prefix-append (reverse p) (reverse r), trim_suffix) (reverse-reverse r))
