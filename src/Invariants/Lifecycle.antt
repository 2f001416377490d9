-- ===== src/Invariants/Lifecycle.antt =====
-- The life of one session, as a machine of its own: backend/internal/repository/session.go and its
-- callers.
use secure_auth_platform.Prelude.{
  ℕ, suc, ◌≤◌, ◌≡◌, refl, sym, subst, Bool, true, false, List, [], ◌∷◌, Option, none, some, Text,
  arith, leb, ◌==◌, if◌then◌else◌, change, select, find,
}
use secure_auth_platform.Models.{Session, Tables}
use secure_auth_platform.Env.{Env}
use secure_auth_platform.World.{World}
use secure_auth_platform.World.Moves.{Preorder}
use secure_auth_platform.Server.{Operation, serve}
use secure_auth_platform.Server.Runs.{serve-rel}
use secure_auth_platform.Invariants.SessionTable.{
  Kept, SessionStep, adds, alters, removes, spares, Step-SessionStep, Below, Below-select,
  IsNumbered, SessionStep-IsNumbered,
}

-- What a session is, for those who do not see the table: not created yet, good for a user, a token and
-- a time, revoked, or deleted.
pub data Life : Type 0 where
  unborn : Life
  live : (user : ℕ) (hash : Text) (expires_at : ℕ) → Life
  dead gone : Life

-- The machine.
pub data LifeStep : Life → Life → Type 0 where
  born : (user : ℕ) (hash : Text) (expires_at : ℕ) → LifeStep unborn (live user hash expires_at)
  ends : (user : ℕ) (hash : Text) (expires_at : ℕ) → LifeStep (live user hash expires_at) dead
  expires : (user : ℕ) (hash : Text) (expires_at : ℕ) → LifeStep (live user hash expires_at) gone
  leaves : LifeStep dead gone

pub data Lives (a : Life) : Life → Type 0 where
  here : Lives a a
  next : {b c : Life} → Lives a b → LifeStep b c → Lives a c

Lives-trans : (a b c : Life) → Lives a b → Lives b c → Lives a c
Lives-trans a b c p here = p
Lives-trans a b c p (next {b = x} q s) = next (Lives-trans a b x p q) s

abbrev life_if : Bool → ℕ → Text → ℕ → Life
life_if true user hash expires_at = dead
life_if false user hash expires_at = live user hash expires_at

abbrev life_of_row : Option Session → Life
life_of_row none = gone
life_of_row (some s) = life_if s.revoked s.user_id s.refresh_token_hash s.expires_at

-- The life of the session with this identifier.
unfoldable pub life : Tables → ℕ → Life
life t id =
    if leb t.next_session id then unborn else life_of_row (find (λ s. s.id == id) t.sessions)

unborn-Lives : (a : Life) → Lives unborn a
unborn-Lives unborn = here
unborn-Lives (live u h e) = next here (born u h e)
unborn-Lives dead = next (next here (born 0 [] 0)) (ends 0 [] 0)
unborn-Lives gone = next (next here (born 0 [] 0)) (expires 0 [] 0)

row-gone : (s : Session) → Lives (life_of_row (some s)) gone
row-gone s = go s.revoked
  where
    go : (b : Bool) → Lives (life_if b s.user_id s.refresh_token_hash s.expires_at) gone
    go true = next here leaves
    go false = next here (expires _ _ _)

Kept-Lives : (s s' : Session) → Kept s s' → Lives (life_of_row (some s)) (life_of_row (some s'))
Kept-Lives s s' k =
    rw (k.same_user, k.same_hash, k.same_expiry) (go s.revoked s'.revoked k.still_revoked)
  where
    go :
        (b c : Bool)
        → (c ≡ false → b ≡ false)
        → Lives
            (life_if b s.user_id s.refresh_token_hash s.expires_at)
            (life_if c s.user_id s.refresh_token_hash s.expires_at)
    go true true h = here
    go true false h = absurd (cc (h refl))
    go false true h = next here (ends _ _ _)
    go false false h = here

Kept-if :
    (b : Bool) (f : Session → Session) (s : Session) → Kept s (f s) → Kept s (if b then f s else s)
Kept-if true f s k = k
Kept-if false f s k = record {
  same_id = refl;
  same_user = refl;
  same_hash = refl;
  same_expiry = refl;
  still_revoked = λ h. h;
}

-- The first row or one of the others, before and after.
choice-Lives :
    (b : Bool) (s s' : Session) (o o' : Option Session)
    → Lives (life_of_row (some s)) (life_of_row (some s'))
    → Lives (life_of_row o) (life_of_row o')
    → Lives (life_of_row (if b then some s else o)) (life_of_row (if b then some s' else o'))
choice-Lives true s s' o o' h k = h
choice-Lives false s s' o o' h k = k

altered :
    (p : Session → Bool) (f : Session → Session) (id : ℕ) (ss : List Session)
    → ((s : Session) → Kept s (f s))
    → Lives
        (life_of_row (find (λ s. s.id == id) ss))
        (life_of_row (find (λ s. s.id == id) (change p f ss)))
unfolding change find
altered p f id [] k = here
altered p f id (y ∷ ys) k =
    let kept = Kept-if (p y) f y (k y) in
    rw kept.same_id (choice-Lives (y.id == id) y _ _ _ (Kept-Lives y _ kept) (altered p f id ys k))

none-Below : (n id : ℕ) (ss : List Session) → Below n ss → n ≤ id → find (λ s. s.id == id) ss ≡ none
unfolding find
none-Below n id [] b h = refl
none-Below n id (s ∷ ss) b h =
    let rest = none-Below s.id id ss b.1 (omega (arith, b.0)) in ground (arith, b.0, h, rest)

-- The first row is removed.
removed_first :
    (p : Session → Bool) (id : ℕ) (y : Session) (ys : List Session)
    → Below y.id ys
    → (c : Bool) → (y.id == id) ≡ c
    → Lives
        (life_of_row (find (λ s. s.id == id) ys))
        (life_of_row (find (λ s. s.id == id) (select p ys)))
    → Lives
        (life_of_row (if c then some y else find (λ s. s.id == id) ys))
        (life_of_row (find (λ s. s.id == id) (select p ys)))
removed_first p id y ys b true e rest =
    subst (λ (o : Option Session). Lives (life_of_row (some y)) (life_of_row o))
      (sym (none-Below y.id id (select p ys) (Below-select p y.id ys b) (ground (arith, e))))
      (row-gone y)
removed_first p id y ys b false e rest = rest

removed_head :
    (p : Session → Bool) (id : ℕ) (y : Session) (ys : List Session) (c : Bool)
    → Lives
        (life_of_row (if y.id == id then some y else find (λ s. s.id == id) ys))
        (life_of_row (find (λ s. s.id == id) (select p ys)))
    → Lives
        (life_of_row (find (λ s. s.id == id) ys))
        (life_of_row (find (λ s. s.id == id) (select p ys)))
    → Lives
        (life_of_row (if y.id == id then some y else find (λ s. s.id == id) ys))
        (life_of_row (find (λ s. s.id == id) (if c then y ∷ select p ys else select p ys)))
unfolding find
removed_head p id y ys true h rest = choice-Lives (y.id == id) y y _ _ here rest
removed_head p id y ys false h rest = h

removed :
    (p : Session → Bool) (id n : ℕ) (ss : List Session)
    → Below n ss
    → Lives
        (life_of_row (find (λ s. s.id == id) ss))
        (life_of_row (find (λ s. s.id == id) (select p ss)))
unfolding select find
removed p id n [] b = here
removed p id n (y ∷ ys) b =
    let rest = removed p id y.id ys b.1 in
    removed_head p id y ys (p y) (removed_first p id y ys b.1 (y.id == id) refl rest) rest

guarded-Lives :
    (b : Bool) (x y : Life) → Lives x y → Lives (if b then unborn else x) (if b then unborn else y)
guarded-Lives true x y h = here
guarded-Lives false x y h = h

added_if :
    (b c d : Bool) (s : Session) (o : Option Session)
    → (b ≡ false → (c ≡ false) × (d ≡ false))
    → Lives
        (if b then unborn else life_of_row o)
        (if c then unborn else life_of_row (if d then some s else o))
added_if true c d s o h = unborn-Lives _
added_if false true d s o h = absurd (cc (h refl).0)
added_if false false true s o h = absurd (cc (h refl).1)
added_if false false false s o h = here

added :
    (s : Session) (n id : ℕ) (ss : List Session)
    → s.id ≡ n
    → Lives
        (if leb n id then unborn else life_of_row (find (λ x. x.id == id) ss))
        (if leb (suc n) id then unborn else life_of_row (find (λ x. x.id == id) (s ∷ ss)))
unfolding find
added s n id ss i =
    added_if (leb n id) (leb (suc n) id) (s.id == id) s _
      (λ e. (ground (arith, e), ground (arith, e, i)))

SessionStep-Lives :
    (t u : Tables) (id : ℕ) → IsNumbered t → SessionStep t u → Lives (life t id) (life u id)
unfolding life
SessionStep-Lives t u id b (adds s i e n) = rw (e, n) (added s t.next_session id t.sessions i)
SessionStep-Lives t u id b (alters p f k e n) =
    rw (e, n) (guarded-Lives (leb t.next_session id) _ _ (altered p f id t.sessions k))
SessionStep-Lives t u id b (removes p e n) =
    rw (e, n) (guarded-Lives (leb t.next_session id) _ _ (removed p id t.next_session t.sessions b))
SessionStep-Lives t u id b (spares e n) = rw (e, n) here

-- The identifiers stay distinct, and each session lives by the machine.
refined : Preorder
refined = record {
  rel = λ t u. IsNumbered t → IsNumbered u × ((id : ℕ) → Lives (life t id) (life u id));
  refl_at = λ t b. (b, λ id. here);
  trans_at = λ t u v f g b.
      let (c, p) = f b in let (d, q) = g c in (d, λ id. Lives-trans _ _ _ (p id) (q id));
}

-- Seen from outside, each session goes through the machine in every history of operations, requests
-- among them: it is created once, is good for one user, one token and one time, is
-- revoked at most once and for good, and does not come back after it was deleted.
pub serve_refines :
    (env : Env) (os : List Operation) (w : World env.redis.State) (id : ℕ)
    → IsNumbered w.db
    → Lives (life w.db id) (life (serve env os w).db id)
unfolding refined
serve_refines env os w id b =
    (serve-rel env refined
        (λ t u s b. (
          SessionStep-IsNumbered t u (Step-SessionStep t u s) b,
          λ id. SessionStep-Lives t u id b (Step-SessionStep t u s),
        ))
        os w b).1
      id
