-- ===== src/PasswordPolicy/Patterns/Rows.antt =====
-- A keyboard row that is shorter than the windows searched in it.
use secure_auth_platform.Prelude.{
  ℕ, suc, zero, ◌≤◌, ◌<◌, ◌≡◌, refl, false, [], ◌∷◌, Text, bytes, arith, length, take, has_prefix,
}
use secure_auth_platform.PasswordPolicy.Patterns.{contains, window_in_row, reverse_string}

no_prefix : (s p : Text) → length s < length p → has_prefix s p ≡ false
unfolding has_prefix
no_prefix s [] h = absurd (omega (arith, h))
no_prefix [] (b ∷ p) h = refl
no_prefix (a ∷ s) (b ∷ p) h = ground (arith, no_prefix s p, h)

contains-short : (s p : Text) → length s < length p → contains s p ≡ false
unfolding contains
contains-short [] p h = no_prefix [] p h
contains-short (c ∷ s) p h =
    ground (arith, no_prefix (c ∷ s) p h, contains-short s p (omega (arith, h)))

length-take : (n : ℕ) (s : Text) → n ≤ length s → length (take n s) ≡ n
length-take zero s h = refl
length-take (suc n) [] h = absurd (omega (arith, h))
length-take (suc n) (c ∷ s) h = omega (arith, length-take n s (omega (arith, h)))

short_row : length (bytes "zxcvbnm") ≡ 7
unfolding bytes
short_row = refl

short_row_back : length (reverse_string (bytes "zxcvbnm")) ≡ 7
unfolding reverse_string bytes
short_row_back = refl

-- The row zxcvbnm is never found: no window of a text with eight bytes or more stands in it,
-- forwards or backwards.
pub bottom_row_never_found : (s : Text) → 8 ≤ length s → window_in_row (bytes "zxcvbnm") s ≡ false
unfolding window_in_row
bottom_row_never_found s h =
    let size = length-take 8 s h in
    ground (
      arith,
      contains-short (bytes "zxcvbnm") (take 8 s) (omega (arith, short_row, size)),
      contains-short (reverse_string (bytes "zxcvbnm")) (take 8 s)
          (omega (arith, short_row_back, size)),
    )
