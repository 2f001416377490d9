-- ===== src/Cache/RateLimit/Progress.antt =====
-- Checks of one key in a row: Check of backend/cache/tiered_ratelimit.go.
use mathlib.Core.List.{Memᴰ}
use secure_auth_platform.Prelude.{
  ℕ, zero, suc, ◌+◌, ◌<◌, ◌≡◌, refl, sym, ap, ◌∙◌, Bool, true, false, List, [], ◌∷◌, Text, arith,
  ◌⊎◌, inl, inr, ltb, ◌==◌, any, Bool-cases, if◌then◌else◌,
}
use secure_auth_platform.Exec.{
  Exec, Result, ok, pure, ignore, attempt, ◌>>=◌, ◌>>◌, >>=-ok, >>=-eq-ok, >>-eq-ok, either_ran,
  either_ran_on, outcome-eq,
}
use secure_auth_platform.Env.{Env, RateTier}
use secure_auth_platform.Cache.RateLimit.{
  Verdict, full_key, block_duration, check, refused, blocked_now, counted, decided,
}
use secure_auth_platform.Cache.RateLimit.Bounds.{
  check_admits, decided-admits, refused-blocks, blocked_now-blocks,
}

-- An action that returns in every state.
record Returns {S A : Type 0} (m : Exec S A) : Type 0 where
  at : (s : S) → (a : A) × (s' : S) × (m s ≡ (ok a, s'))

module _ {S : Type 0} where
  Returns-pure : {A : Type 0} (a : A) → Returns {S = S} (pure a)
  Returns-pure a = record { at = λ s. (a, s, refl) }

  Returns-bind :
      {A B : Type 0} (m : Exec S A) (f : A → Exec S B)
      → Returns m
      → ((a : A) → Returns (f a))
      → Returns (m >>= f)
  Returns-bind m f k l = record {
    at = λ s. let (a, u, e) = k.at s in let (b, v, e') = (l a).at u in (b, v, >>=-ok m f e ∙ e');
  }

  Returns-then :
      {B : Type 0} (m : Exec S (Unit {0})) (k : Exec S B) → Returns m → Returns k → Returns (m >> k)
  unfolding ◌>>◌
  Returns-then m k l j = Returns-bind m (λ _. k) l (λ _. j)

  Returns-attempt : {A : Type 0} (m : Exec S A) → Returns (attempt m)
  unfolding attempt
  Returns-attempt m = record { at = λ s. ((m s).0, (m s).1, refl) }

  Returns-ignore : {A : Type 0} (m : Exec S A) → Returns (ignore m)
  unfolding ignore
  Returns-ignore m = record { at = λ s. (tt, (m s).1, refl) }

  Returns-if :
      {A : Type 0} (b : Bool) (m n : Exec S A)
      → Returns m
      → Returns n
      → Returns (if b then m else n)
  Returns-if true m n k l = k
  Returns-if false m n k l = l

ruleset returns_rules =
    (Returns-pure, Returns-bind, Returns-then, Returns-attempt, Returns-ignore, Returns-if)

-- A counter in Redis: TTL and EXPIRE do not change it, and INCR adds one and answers with it. It is
-- the Redis of a time in which no counter runs out and no command fails.
pub record Counter (env : Env) : Type 0 where
  pub count : Text → env.redis.State → ℕ
  pub ttl_keeps :
      (j k : Text) (s s' : env.redis.State) (r : Result ℕ)
      → env.redis.ttl j s ≡ (r, s')
      → count k s' ≡ count k s
  pub expire_keeps :
      (j k : Text) (d : ℕ) (s : env.redis.State) → count k (env.redis.expire j d s).1 ≡ count k s
  pub incr_adds :
      (k : Text) (s s' : env.redis.State) (n : ℕ)
      → env.redis.incr k s ≡ (ok n, s')
      → (n ≡ suc (count k s)) × (count k s' ≡ n)
  pub ttl_answers :
      (k : Text) (s : env.redis.State)
      → (n : ℕ) × (s' : env.redis.State) × (env.redis.ttl k s ≡ (ok n, s'))
  pub incr_answers :
      (k : Text) (s : env.redis.State)
      → (n : ℕ) × (s' : env.redis.State) × (env.redis.incr k s ≡ (ok n, s'))
  pub flag_answers :
      (k v : Text) (d : ℕ) (s : env.redis.State)
      → (u : Unit {0}) × (s' : env.redis.State) × (env.redis.set_flag k v d s ≡ (ok u, s'))

module _ (env : Env) (c : Counter env) where
  -- `n` checks of one key, one after another.
  unfoldable pub attempts : Text → ℕ → Exec env.redis.State (List Verdict)
  attempts key zero = pure []
  attempts key (suc n) = check env key >>= λ v. attempts key n >>= λ vs. pure (v ∷ vs)

  first_expiry-keeps :
      (b : Bool) (key : Text) (s s' : env.redis.State) (k : Text)
      → (if b then ignore (env.redis.expire key env.config.counter_ttl) else pure tt) s
        ≡ (ok tt, s')
      → c.count k s' ≡ c.count k s
  unfolding ignore
  first_expiry-keeps true key s s' k h =
      ap (λ x. c.count k x.1) (sym h) ∙ c.expire_keeps key k env.config.counter_ttl s
  first_expiry-keeps false key s s' k h = ap (λ x. c.count k x.1) (sym h)

  decided-state :
      (key : Text) (n : ℕ) (s s' : env.redis.State) (v : Verdict)
      → decided env key n s ≡ (ok v, s')
      → v.blocked ≡ false
      → s' ≡ s
  unfolding decided
  decided-state key n s s' v h f =
      elim (either_ran_on (ltb 0 (block_duration env.config.tiers n)) _ _ s h) [
        | inl (_, k) ↦ absurd (blocked_now-blocks env key n _ s s' v k f)
        | inr (_, k) ↦ (outcome-eq k).1
      ]

  counted-counts :
      (key : Text) (s s' : env.redis.State) (v : Verdict)
      → counted env key s ≡ (ok v, s')
      → v.blocked ≡ false
      → (v.count ≡ suc (c.count (full_key env key) s)) × (c.count (full_key env key) s' ≡ v.count)
  unfolding counted
  counted-counts key s s' v h f =
      let (n, t, e, k) = >>=-eq-ok _ _ s h in
      let (u, e', k') = >>-eq-ok _ _ t k in
      let (same, _) = decided-admits env key n u s' v k' f in
      let (one, two) = c.incr_adds (full_key env key) s t n e in
      let kept = first_expiry-keeps (n == 1) (full_key env key) t u (full_key env key) e' in
      let end = ap (c.count (full_key env key)) (decided-state key n u s' v k' f) in
      (same ∙ one, end ∙ kept ∙ two ∙ sym same)

  check-counts :
      (key : Text) (s s' : env.redis.State) (v : Verdict)
      → check env key s ≡ (ok v, s')
      → v.blocked ≡ false
      → (v.count ≡ suc (c.count (full_key env key) s)) × (c.count (full_key env key) s' ≡ v.count)
  unfolding check
  check-counts key s s' v h f =
      let (left, u, e, k) = >>=-eq-ok _ _ s h in
      let kept = c.ttl_keeps _ (full_key env key) s u (ok left) e in
      elim (either_ran (ltb 0 left) _ _ u k) [
        | inl l ↦ absurd (refused-blocks env key left u s' v l f)
        | inr l ↦ let (one, two) = counted-counts key u s' v l f in (one ∙ ap suc kept, two)
      ]

  none_blocked :
      (v : Verdict) (vs : List Verdict)
      → any (λ v. v.blocked) (v ∷ vs) ≡ false
      → (v.blocked ≡ false) × (any (λ v. v.blocked) vs ≡ false)
  unfolding any
  none_blocked v vs h = ground (arith, h)

  zero_or_more : (n : ℕ) → (n ≡ 0) ⊎ (0 < n)
  zero_or_more zero = inl refl
  zero_or_more (suc n) = inr (omega arith)

  -- Where no attempt was blocked, each was counted, and none reached a tier that blocks.
  unblocked :
      (key : Text) (t : RateTier) (n : ℕ) (s s' : env.redis.State) (vs : List Verdict)
      → Memᴰ t env.config.tiers
      → 0 < t.block
      → attempts key n s ≡ (ok vs, s')
      → any (λ v. v.blocked) vs ≡ false
      → 0 < n
      → n + c.count (full_key env key) s < t.threshold
  unfolding attempts any
  unblocked key t zero s s' vs m b h f lt = absurd (omega (arith, lt))
  unblocked key t (suc n) s s' vs m b h f lt =
      let (v, u, e, k) = >>=-eq-ok _ _ s h in
      let (rest, u', e', k') = >>=-eq-ok _ _ u k in
      let (made, _) = outcome-eq k' in
      let (first, others) = none_blocked v rest (ap (any (λ (x : Verdict). x.blocked)) made ∙ f) in
      let (one, two) = check-counts key s u v e first in
      let below = check_admits env key s u v t e first m b in
      elim (zero_or_more n) [
        | inl z ↦ omega (arith, z, one, below)
        | inr more ↦ omega (arith, one, two, unblocked key t n u u' rest m b e' others more)
      ]

  ttl-Returns : (k : Text) → Returns (env.redis.ttl k)
  ttl-Returns k = record { at = c.ttl_answers k }

  incr-Returns : (k : Text) → Returns (env.redis.incr k)
  incr-Returns k = record { at = c.incr_answers k }

  flag-Returns : (k v : Text) (d : ℕ) → Returns (env.redis.set_flag k v d)
  flag-Returns k v d = record { at = c.flag_answers k v d }

  check-Returns : (key : Text) → Returns (check env key)
  unfolding check refused counted decided blocked_now
  check-Returns key = search (returns_rules, ttl-Returns, incr-Returns, flag-Returns) depth 12

  attempts-Returns : (key : Text) (n : ℕ) → Returns (attempts key n)
  unfolding attempts
  attempts-Returns key zero = Returns-pure []
  attempts-Returns key (suc n) =
      let rest = attempts-Returns key n in
      Returns-bind _ _ (check-Returns key)
        (λ v. Returns-bind _ _ rest (λ vs. Returns-pure (v ∷ vs)))

  some_blocked :
      (key : Text) (t : RateTier) (s s' : env.redis.State) (vs : List Verdict)
      → Memᴰ t env.config.tiers
      → 0 < t.block
      → 0 < t.threshold
      → attempts key t.threshold s ≡ (ok vs, s')
      → any (λ v. v.blocked) vs ≡ true
  some_blocked key t s s' vs m b lt h = elim (Bool-cases (any (λ v. v.blocked) vs)) [
    | inl some_ ↦ some_
    | inr none_ ↦ absurd (omega (arith, unblocked key t t.threshold s s' vs m b h none_ lt))
  ]

  -- If a tier blocks, then as many checks of a key in a row as its threshold says all return, and at
  -- least one of them is blocked, whatever was counted before. It is assumed that no command fails
  -- and that the counter does not run out meanwhile.
  pub attempts_block :
      (key : Text) (t : RateTier) (s : env.redis.State)
      → Memᴰ t env.config.tiers
      → 0 < t.block
      → 0 < t.threshold
      → (vs : List Verdict) × (s' : env.redis.State) × (attempts key t.threshold s ≡ (ok vs, s'))
        × (any (λ v. v.blocked) vs ≡ true)
  attempts_block key t s m b lt =
      let (vs, s', h) = (attempts-Returns key t.threshold).at s in
      (vs, s', h, some_blocked key t s s' vs m b lt h)
