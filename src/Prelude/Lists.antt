-- ===== src/Prelude/Lists.antt =====
-- Lists measured by native numbers, and searches through them.
use Prim.Native.Nat.{ℕ, zero, suc, ◌+◌, ◌<◌}
use mathlib.Core.Path.{◌≡◌, refl, ap, ◌∙◌}
use mathlib.Core.Bool.{Bool, true, false, ◌||◌}
use mathlib.Core.List.{List, [], ◌∷◌, ◌++◌, Memᴰ}
use mathlib.Core.Option.{Option, none, some}
use native.Mathlib.Omega.{arith}
use secure_auth_platform.Prelude.Tests.{if◌then◌else◌}

module _ {ℓ} {A : Type ℓ} where
  abbrev pub length : List A → ℕ
  length [] = 0
  length (x ∷ xs) = suc (length xs)

  abbrev pub take : ℕ → List A → List A
  take zero xs = []
  take (suc n) [] = []
  take (suc n) (x ∷ xs) = x ∷ take n xs

  abbrev pub drop : ℕ → List A → List A
  drop zero xs = xs
  drop (suc n) [] = []
  drop (suc n) (x ∷ xs) = drop n xs

  pub length-append : (xs ys : List A) → length (xs ++ ys) ≡ length xs + length ys
  length-append [] ys = omega arith
  length-append (x ∷ xs) ys = omega (arith, length-append xs ys)

  -- A predicate by recursion computes to tuples, which the tactics read and build.
  abbrev pub All {κ} : (A → Type κ) → List A → Type κ
  All P [] = Unit
  All P (x ∷ xs) = P x × All P xs

  -- Some element passes the test.
  unfoldable pub any : (A → Bool) → List A → Bool
  any p [] = false
  any p (x ∷ xs) = p x || any p xs

  -- The elements that pass the test, in order.
  unfoldable pub select : (A → Bool) → List A → List A
  select p [] = []
  select p (x ∷ xs) = let rest = select p xs in if p x then x ∷ rest else rest

  -- The first element that passes the test.
  unfoldable pub find : (A → Bool) → List A → Option A
  find p [] = none
  find p (x ∷ xs) = if p x then some x else find p xs

  -- How many elements pass the test.
  unfoldable pub count : (A → Bool) → List A → ℕ
  count p [] = 0
  count p (x ∷ xs) = if p x then suc (count p xs) else count p xs

  -- Change the elements that pass the test.
  unfoldable pub change : (A → Bool) → (A → A) → List A → List A
  change p f [] = []
  change p f (x ∷ xs) = (if p x then f x else x) ∷ change p f xs

  place : (A → A → Bool) → A → List A → List A
  place first x [] = x ∷ []
  place first x (y ∷ ys) = let rest = place first x ys in if first x y then x ∷ y ∷ ys else y ∷ rest

  -- ORDER BY: `first x y` if `x` may stand before `y`.
  unfoldable pub order_by : (A → A → Bool) → List A → List A
  unfolding place
  order_by first [] = []
  order_by first (x ∷ xs) = place first x (order_by first xs)

  pub Mem-change :
      (p : A → Bool) (f : A → A) (xs : List A) {x : A}
      → Memᴰ x (change p f xs)
      → (y : A) × Memᴰ y xs × (x ≡ (if p y then f y else y))
  unfolding change
  Mem-change p f [] m = elim m [ ]
  Mem-change p f (y ∷ ys) (Memᴰ.head e) = (y, Memᴰ.head refl, e)
  Mem-change p f (y ∷ ys) (Memᴰ.tail m) = let (z, k, e) = Mem-change p f ys m in (z, Memᴰ.tail k, e)

  -- The first element kept or not, then the rest.
  kept :
      (p : A → Bool) (b : Bool) (y : A) (ys : List A) {x : A}
      → p y ≡ b
      → ((z : A) → Memᴰ z (select p ys) → Memᴰ z ys × (p z ≡ true))
      → Memᴰ x (if b then y ∷ select p ys else select p ys)
      → Memᴰ x (y ∷ ys) × (p x ≡ true)
  kept p true y ys e ih (Memᴰ.head h) = (Memᴰ.head h, ap p h ∙ e)
  kept p true y ys e ih (Memᴰ.tail m) = let (k, q) = ih _ m in (Memᴰ.tail k, q)
  kept p false y ys e ih m = let (k, q) = ih _ m in (Memᴰ.tail k, q)

  pub Mem-select :
      (p : A → Bool) (xs : List A) (x : A) → Memᴰ x (select p xs) → Memᴰ x xs × (p x ≡ true)
  unfolding select
  Mem-select p [] x m = elim m [ ]
  Mem-select p (y ∷ ys) x m = kept p (p y) y ys refl (Mem-select p ys) m

  found :
      (p : A → Bool) (b : Bool) (y : A) (ys : List A) {x : A}
      → p y ≡ b
      → (find p ys ≡ some x → Memᴰ x ys × (p x ≡ true))
      → (if b then some y else find p ys) ≡ some x
      → Memᴰ x (y ∷ ys) × (p x ≡ true)
  found p true y ys h ih k = (Memᴰ.head cc, cc)
  found p false y ys h ih k = let (m, q) = ih k in (Memᴰ.tail m, q)

  pub find-Mem :
      (p : A → Bool) (xs : List A) {x : A} → find p xs ≡ some x → Memᴰ x xs × (p x ≡ true)
  unfolding find
  find-Mem p [] e = cc
  find-Mem p (y ∷ ys) e = found p (p y) y ys refl (find-Mem p ys) e

  counted :
      (p : A → Bool) (b : Bool) (y : A) (ys : List A)
      → p y ≡ b
      → (0 < count p ys → (x : A) × Memᴰ x ys × (p x ≡ true))
      → 0 < (if b then suc (count p ys) else count p ys)
      → (x : A) × Memᴰ x (y ∷ ys) × (p x ≡ true)
  counted p true y ys e ih h = (y, Memᴰ.head refl, e)
  counted p false y ys e ih h = let (x, m, q) = ih h in (x, Memᴰ.tail m, q)

  pub count-Mem : (p : A → Bool) (xs : List A) → 0 < count p xs → (x : A) × Memᴰ x xs × (p x ≡ true)
  unfolding count
  count-Mem p [] h = absurd (omega (arith, h))
  count-Mem p (y ∷ ys) h = counted p (p y) y ys refl (count-Mem p ys) h
