-- ===== src/Password/Parts.antt =====
-- Splitting at the dollar signs: strings.Split in decodeArgon2id of
-- backend/internal/password/password.go.
use mathlib.Core.List.{append_assoc, append-nil}
use secure_auth_platform.Prelude.{
  ◌≡◌, refl, sym, ap, Bool, true, false, [], ◌∷◌, ◌++◌, Text, bytes, arith, any, ◌==◌, ◌=t=◌,
  Text-discrete,
}
use secure_auth_platform.Password.{split_from}

abbrev pub has_dollar : Text → Bool
has_dollar = any (λ c. c == 36)

-- A part that ends at a separator, and the last part.
pub split_from-part :
    (part t r : Text)
    → has_dollar t ≡ false
    → split_from 36 part (t ++ 36 ∷ r) ≡ (part ++ t) ∷ split_from 36 [] r
unfolding split_from any
split_from-part part [] r h = ap (λ x. x ∷ split_from 36 [] r) (sym (append-nil part))
split_from-part part (c ∷ t) r h =
    ground (arith, split_from-part (part ++ c ∷ []) t r, append_assoc part (c ∷ []) t)

pub split_from-last :
    (part t : Text) → has_dollar t ≡ false → split_from 36 part t ≡ (part ++ t) ∷ []
unfolding split_from any
split_from-last part [] h = ap (λ x. x ∷ []) (sym (append-nil part))
split_from-last part (c ∷ t) h =
    ground (arith, split_from-last (part ++ c ∷ []) t, append_assoc part (c ∷ []) t)

pub has_dollar-append :
    (s t : Text) → has_dollar s ≡ false → has_dollar t ≡ false → has_dollar (s ++ t) ≡ false
unfolding any
has_dollar-append [] t h k = k
has_dollar-append (c ∷ s) t h k = ground (arith, has_dollar-append s t, h, k)

pub name_plain : has_dollar (bytes "argon2id") ≡ false
unfolding bytes any
name_plain = refl

pub version_plain : (t : Text) → has_dollar t ≡ false → has_dollar (bytes "v=" ++ t) ≡ false
unfolding bytes any
version_plain t h = h

pub same_name : (bytes "argon2id" =t= bytes "argon2id") ≡ true
unfolding Text-discrete bytes
same_name = refl
