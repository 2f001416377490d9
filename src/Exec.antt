-- ===== src/Exec.antt =====
-- Go functions that return `(value, error)` and change state: actions that thread a state and end
-- in a value or an error. State changes made before an error stay, as they do in Go.
use secure_auth_platform.Prelude.{◌≡◌, refl, Bool, true, false, ◌⊎◌, inl, inr, if◌then◌else◌}

-- The sentinel errors of the program. `fault` is any error that the program does not name:
-- one of the database, of Redis, of the random source, of the JWT or the hashing libraries.
pub data Error : Type 0 where
  fault not_found : Error
  invalid_credentials rate_limited rate_limit_down invalid_session token_reuse : Error
  not_session_owner : Error
  email_taken cannot_deactivate_self invalid_email : Error
  password_too_short password_too_long password_complexity password_weak password_pwned : Error
  unknown_hash_format password_mismatch invalid_token : Error
  forbidden permission_code_taken invalid_permission_code : Error
  protected_permission permission_in_use last_admin : Error
  admin_password_required : Error

pub data Result {ℓ} (A : Type ℓ) : Type ℓ where
  ok : A → Result A
  err : Error → Result A

abbrev pub Exec : Type 0 → Type 0 → Type 0
Exec S A = S → Result A × S

abbrev pub pure : {S A : Type 0} → A → Exec S A
pure a s = (ok a, s)

abbrev pub fail : {S A : Type 0} → Error → Exec S A
fail e s = (err e, s)

-- What a result leads to in the state that the action left.
abbrev pub continue : {S A B : Type 0} → (A → Exec S B) → Result A × S → Result B × S
continue f (ok a, s) = f a s
continue f (err e, s) = (err e, s)

infixl 5 ◌>>=◌ ◌>>◌
unfoldable pub ◌>>=◌ : {S A B : Type 0} → Exec S A → (A → Exec S B) → Exec S B
◌>>=◌ m f s = continue f (m s)

unfoldable pub ◌>>◌ : {S B : Type 0} → Exec S (Unit {0}) → Exec S B → Exec S B
unfolding ◌>>=◌
m >> k = m >>= λ _. k

-- `x, err := m()` where the code goes on to look at `err` itself.
unfoldable pub attempt : {S A : Type 0} → Exec S A → Exec S (Result A)
attempt m s = let (r, s') = m s in (ok r, s')

-- `if err := m(); err != nil { log }`: the error is logged and dropped.
unfoldable pub ignore : {S A : Type 0} → Exec S A → Exec S (Unit {0})
ignore m s = let (_, s') = m s in (ok tt, s')

abbrev pub from_result : {S A : Type 0} → Result A → Exec S A
from_result r s = (r, s)

-- Inversion of a sequence that succeeded.
pub >>=-eq-ok :
    {S A B : Type 0} (m : Exec S A) (f : A → Exec S B) (s : S) {b : B} {t : S}
    → (m >>= f) s ≡ (ok b, t)
    → (a : A) × (u : S) × (m s ≡ (ok a, u)) × (f a u ≡ (ok b, t))
unfolding ◌>>=◌
>>=-eq-ok {S} {A} {B} m f s {b} {t} h = go (m s) refl h
  where
    go :
        (r : Result A × S)
        → m s ≡ r
        → continue f r ≡ (ok b, t)
        → (a : A) × (u : S) × (m s ≡ (ok a, u)) × (f a u ≡ (ok b, t))
    go (ok a, u) e k = (a, u, e, k)
    go (err x, u) e k = cc

pub attempt-ok :
    {S A : Type 0} (m : Exec S A) (s : S) {r : Result A} {t : S}
    → attempt m s ≡ (ok r, t)
    → m s ≡ (r, t)
unfolding attempt
attempt-ok m s {r} {t} h = cc

-- The branch that ran.
pub either_ran :
    {S A : Type 0} (c : Bool) (m k : Exec S A) (s : S) {r : Result A × S}
    → (if c then m else k) s ≡ r
    → (m s ≡ r) ⊎ (k s ≡ r)
either_ran true m k s h = inl h
either_ran false m k s h = inr h

pub either_ran_on :
    {S A : Type 0} (c : Bool) (m k : Exec S A) (s : S) {r : Result A × S}
    → (if c then m else k) s ≡ r
    → ((c ≡ true) × (m s ≡ r)) ⊎ ((c ≡ false) × (k s ≡ r))
either_ran_on true m k s h = inl (refl, h)
either_ran_on false m k s h = inr (refl, h)

-- A guard that let the action pass.
pub guard-ok :
    {S : Type 0} (c : Bool) (e : Error) (s : S) {t : S}
    → (if c then pure tt else fail e) s ≡ (ok tt, t)
    → (c ≡ true) × (t ≡ s)
guard-ok true e s h = (refl, cc)
guard-ok false e s h = cc

pub bar-ok :
    {S : Type 0} (c : Bool) (e : Error) (s : S) {t : S}
    → (if c then fail e else pure tt) s ≡ (ok tt, t)
    → (c ≡ false) × (t ≡ s)
bar-ok true e s h = cc
bar-ok false e s h = (refl, cc)

-- Two outcomes that are equal have equal values and states.
pub outcome-eq :
    {A S : Type 0} {a b : A} {s t : S}
    → ◌≡◌ {A = Result A × S} (ok a, s) (ok b, t)
    → (a ≡ b) × (t ≡ s)
outcome-eq h = (cc, cc)

pub >>-eq-ok :
    {S B : Type 0} (m : Exec S (Unit {0})) (k : Exec S B) (s : S) {b : B} {t : S}
    → (m >> k) s ≡ (ok b, t)
    → (u : S) × (m s ≡ (ok tt, u)) × (k u ≡ (ok b, t))
unfolding ◌>>◌
>>-eq-ok m k s h = let (_, u, e, r) = >>=-eq-ok m (λ _. k) s h in (u, e, r)

-- One step of a sequence, once its result is known.
pub >>=-ok :
    {S A B : Type 0} (m : Exec S A) (f : A → Exec S B) {s : S} {a : A} {u : S}
    → m s ≡ (ok a, u)
    → (m >>= f) s ≡ f a u
unfolding ◌>>=◌
>>=-ok m f h = rw h

pub >>=-err :
    {S A B : Type 0} (m : Exec S A) (f : A → Exec S B) {s : S} {e : Error} {u : S}
    → m s ≡ (err e, u)
    → (m >>= f) s ≡ (err e, u)
unfolding ◌>>=◌
>>=-err m f h = rw h
