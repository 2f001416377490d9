-- ===== src/PermissionMatch/Laws.antt =====
-- What a set of granted codes covers.
use mathlib.Core.List.{append_assoc, Memᴰ}
use secure_auth_platform.Prelude.{
  ◌≡◌, refl, sym, ◌∙◌, ap, subst, true, List, [], ◌∷◌, ◌++◌, arith, Text, bytes, ◌⊎◌, inl, inr, ◌↔◌,
  has_prefix, has_suffix, trim_suffix, has_prefix-append, append_of_has_prefix, has_suffix-append,
  append_of_has_suffix, trim_suffix-append, Bool-cases, Text-discrete,
}
use secure_auth_platform.PermissionMatch.{covers, match_permission}

-- A code covers another if it is `*`, the same code, or `q.*` where the other begins with `q.`.
pub data Covers (g r : Text) : Type 0 where
  everything : g ≡ bytes "*" → Covers g r
  itself : g ≡ r → Covers g r
  below : (q rest : Text) → g ≡ q ++ bytes ".*" → r ≡ q ++ bytes "." ++ rest → Covers g r

Covers-of_wildcard :
    (g r : Text)
    → has_suffix g (bytes ".*") ≡ true
    → has_prefix r (trim_suffix g (bytes ".*") ++ bytes ".") ≡ true
    → Covers g r
Covers-of_wildcard g r h k =
    let (q, e) = append_of_has_suffix g (bytes ".*") h in
    let (rest, p) = append_of_has_prefix r (trim_suffix g (bytes ".*") ++ bytes ".") k in
    let trimmed : trim_suffix g (bytes ".*") ≡ q =
      ap (λ t. trim_suffix t (bytes ".*")) e ∙ trim_suffix-append q (bytes ".*") in
    below q rest e (p ∙ ap (λ t. (t ++ bytes ".") ++ rest) trimmed)

Covers-of_covers : (g r : Text) → covers g r ≡ true → Covers g r
unfolding covers
Covers-of_covers g r h = elim (Text-discrete g (bytes "*")) [
  | yes e ↦ everything e
  | no n ↦ elim (Text-discrete g r) [
    | yes e ↦ itself e
    | no m ↦ Covers-of_wildcard g r (ground arith) (ground arith)
  ]
]

covers_wildcard : (q rest : Text) → covers (q ++ bytes ".*") (q ++ bytes "." ++ rest) ≡ true
unfolding covers
covers_wildcard q rest = ground (
  arith,
  has_suffix-append q (bytes ".*"),
  trim_suffix-append q (bytes ".*"),
  has_prefix-append (q ++ bytes ".") rest,
)

covers_of_Covers : (g r : Text) → Covers g r → covers g r ≡ true
unfolding covers
covers_of_Covers g r (everything e) = ground arith
covers_of_Covers g r (itself e) = ground arith
covers_of_Covers g r (below q rest e p) = rw (e, p) (covers_wildcard q rest)

dot : bytes "." ≡ 46 ∷ []
unfolding bytes
dot = refl

dot_star : bytes ".*" ≡ 46 ∷ 42 ∷ []
unfolding bytes
dot_star = refl

star : bytes "*" ≡ 42 ∷ []
unfolding bytes
star = refl

-- Two prefixes of one text, the second followed by `.*`.
dotted_prefix :
    (q rest p : Text)
    → (q ++ 46 ∷ []) ++ rest ≡ p ++ 46 ∷ 42 ∷ []
    → (more : Text) × (p ++ 46 ∷ [] ≡ (q ++ 46 ∷ []) ++ more)
dotted_prefix [] rest [] e = ([], refl)
dotted_prefix [] rest (x ∷ p) e = (p ++ 46 ∷ [], ground arith)
dotted_prefix (y ∷ []) rest [] e = absurd (ground arith)
dotted_prefix (y ∷ z ∷ []) rest [] e = absurd (ground arith)
dotted_prefix (y ∷ z ∷ w ∷ q) rest [] e = absurd (ground arith)
dotted_prefix (y ∷ q) rest (x ∷ p) e =
    let (more, k) = dotted_prefix q rest p (ground arith) in (more, ground arith)

not_a_star : (q rest : Text) → (q ++ 46 ∷ []) ++ rest ≡ 42 ∷ [] → ⊥
not_a_star [] rest e = ground arith
not_a_star (x ∷ []) rest e = ground arith
not_a_star (x ∷ y ∷ q) rest e = ground arith

Covers-trans : (g c r : Text) → Covers g c → Covers c r → Covers g r
Covers-trans g c r (everything e) k = everything e
Covers-trans g c r (itself e) k = subst (λ t. Covers t r) (sym e) k
Covers-trans g c r (below q rest e p) (everything s) =
    absurd (not_a_star q rest (subst (λ d. (q ++ d) ++ rest ≡ 42 ∷ []) dot (sym p ∙ s ∙ star)))
Covers-trans g c r (below q rest e p) (itself s) = below q rest e (sym s ∙ p)
Covers-trans g c r (below q rest e p) (below q' rest' s p') =
    let (more, k) = dotted_prefix q rest q' (
      subst (λ d. (q ++ d) ++ rest ≡ q' ++ 46 ∷ 42 ∷ []) dot
        (sym p ∙ s ∙ ap (λ t. q' ++ t) dot_star)) in
    below q (more ++ rest') e (
      p'
      ∙ subst (λ d. (q' ++ d) ++ rest' ≡ (q ++ d) ++ (more ++ rest')) (sym dot)
          (ap (λ t. t ++ rest') k ∙ append_assoc (q ++ 46 ∷ []) more rest'))

covers_trans : (g c r : Text) → covers g c ≡ true → covers c r ≡ true → covers g r ≡ true
covers_trans g c r h k =
    covers_of_Covers g r (Covers-trans g c r (Covers-of_covers g c h) (Covers-of_covers c r k))

Match_of_match :
    (granted : List Text) (r : Text)
    → match_permission granted r ≡ true
    → (g : Text) × Memᴰ g granted × Covers g r
unfolding match_permission
Match_of_match [] r h = cc
Match_of_match (g ∷ granted) r h = elim (Bool-cases (covers g r)) [
  | inl hit ↦ (g, Memᴰ.head refl, Covers-of_covers g r hit)
  | inr miss ↦ let (g', m, c) = Match_of_match granted r (ground arith) in (g', Memᴰ.tail m, c)
]

match_of_Mem :
    (granted : List Text) (g r : Text)
    → Memᴰ g granted
    → Covers g r
    → match_permission granted r ≡ true
unfolding match_permission
match_of_Mem [] g r m c = elim m [ ]
match_of_Mem (x ∷ granted) g r (Memᴰ.head e) c =
    ground (arith, covers_of_Covers x r (subst (λ t. Covers t r) e c))
match_of_Mem (x ∷ granted) g r (Memᴰ.tail m) c = ground (arith, match_of_Mem granted g r m c)

-- The loop answers true exactly when some granted code is `*`, is the required code, or is `q.*`
-- for a `q` such that the required code begins with `q.`.
pub match_permission_iff :
    (granted : List Text) (r : Text)
    → (match_permission granted r ≡ true) ↔ ((g : Text) × Memᴰ g granted × Covers g r)
match_permission_iff granted r =
    (Match_of_match granted r, λ (g, m, c). match_of_Mem granted g r m c)

-- Whoever covers a code covers all that this code covers.
pub match_permission_trans :
    (granted : List Text) (c r : Text)
    → match_permission granted c ≡ true
    → match_permission (c ∷ []) r ≡ true
    → match_permission granted r ≡ true
unfolding match_permission
match_permission_trans [] c r h k = cc
match_permission_trans (g ∷ granted) c r h k =
    ground (arith, covers_trans g c r, match_permission_trans granted c r)

-- Adding a code that the giver covers gives the receiver nothing that the giver does not cover.
pub match_permission-cons :
    (giver receiver : List Text) (c r : Text)
    → match_permission giver c ≡ true
    → match_permission (c ∷ receiver) r ≡ true
    → (match_permission receiver r ≡ true) ⊎ (match_permission giver r ≡ true)
unfolding match_permission
match_permission-cons giver receiver c r h k = elim (Bool-cases (match_permission receiver r)) [
  | inl old ↦ inl old
  | inr new ↦ inr (match_permission_trans giver c r h (ground arith))
]
