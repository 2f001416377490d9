-- ===== src/PasswordPolicy/Patterns.antt =====
-- backend/internal/service/user_validation.go: hasSequence, hasRepetitivePatterns. A loop over the
-- positions of a text is a recursion on what follows each position.
pub mod Rows
use mathlib.Core.List.{reverse}
use secure_auth_platform.Prelude.{
  ℕ, zero, suc, ◌+◌, ◌*◌, ◌%◌, Bool, true, false, ◌&&◌, ◌||◌, List, [], ◌∷◌, Text, bytes, ltb, leb,
  ◌==◌, length, take, drop, any, has_prefix, if◌then◌else◌,
}

-- strings.Contains
unfoldable pub contains : Text → Text → Bool
contains [] sub = has_prefix [] sub
contains (c ∷ s) sub = has_prefix (c ∷ s) sub || contains s sub

-- The next `k` bytes go up by one; bytes wrap.
unfoldable pub ascending : ℕ → Text → Bool
ascending (suc k) (c ∷ d ∷ s) = d == (c + 1) % 256 && ascending k (d ∷ s)
ascending (suc k) _ = false
ascending zero s = true

unfoldable pub descending : ℕ → Text → Bool
descending (suc k) (c ∷ d ∷ s) = d == (c + 255) % 256 && descending k (d ∷ s)
descending (suc k) _ = false
descending zero s = true

-- Does the test hold at some position that leaves `size` bytes?
unfoldable pub at_some_position : ℕ → (Text → Bool) → Text → Bool
at_some_position size test [] = false
at_some_position size test (c ∷ s) =
    leb size (length (c ∷ s)) && test (c ∷ s) || at_some_position size test s

-- `reverseString`, which is called on ASCII texts.
unfoldable pub reverse_string : Text → Text
reverse_string = reverse

unfoldable pub rows : List Text
rows = bytes "qwertyuiop" ∷ bytes "asdfghjkl" ∷ bytes "zxcvbnm" ∷ []

unfoldable pub window_in_row : Text → Text → Bool
window_in_row row s = contains row (take 8 s) || contains (reverse_string row) (take 8 s)

-- `hasSequence`, on the lowered text
unfoldable pub has_sequence_in : Text → Bool
has_sequence_in s =
    if ltb (length s) 8
    then false
    else at_some_position 8 (λ w. ascending 7 w || descending 7 w) s
      || any (λ row. at_some_position 8 (window_in_row row) s) rows

-- How often a pattern of `k` bytes stands at the head of a text, again and again. The number of
-- bytes is enough fuel.
unfoldable pub repeats : ℕ → ℕ → Text → Text → ℕ
repeats zero k pattern s = 0
repeats (suc fuel) k pattern s =
    let more = repeats fuel k pattern (drop k s) in if has_prefix s pattern then suc more else 0

-- The first `k` bytes and their repetitions fill ten bytes.
unfoldable pub repeats_enough : ℕ → Text → Bool
repeats_enough k s = leb 10 ((1 + repeats (length s) k (take k s) (drop k s)) * k)

unfoldable pub has_repetitive_patterns : Text → Bool
has_repetitive_patterns s =
    any (λ k. at_some_position (k * 3) (repeats_enough k) s) (1 ∷ 2 ∷ 3 ∷ [])
