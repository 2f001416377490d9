-- ===== src/Cache/RateLimit/Bounds.antt =====
-- How long the limiter blocks, and whom it lets pass.
use mathlib.Core.List.{Memᴰ}
use secure_auth_platform.Prelude.{
  ℕ, ◌≤◌, ◌<◌, ◌≡◌, refl, ap, ◌∙◌, Bool, true, false, ◌&&◌, List, [], ◌∷◌, Text, arith, ◌⊎◌, inl,
  inr, ltb, leb, if◌then◌else◌,
}
use secure_auth_platform.Exec.{ok, >>=-eq-ok, >>-eq-ok, either_ran, either_ran_on}
use secure_auth_platform.Env.{Env, RateTier}
use secure_auth_platform.Cache.RateLimit.{
  block_from, block_duration, check, counted, decided, refused, blocked_now, Verdict,
}

block_from-lower : (count b : ℕ) (tiers : List RateTier) → b ≤ block_from count b tiers
unfolding block_from
block_from-lower count b [] = omega arith
block_from-lower count b (t ∷ tiers) =
    ground (arith, block_from-lower count t.block tiers, block_from-lower count b tiers)

block_from-tier :
    (count b : ℕ) (tiers : List RateTier) (t : RateTier)
    → Memᴰ t tiers
    → t.threshold ≤ count
    → t.block ≤ block_from count b tiers
unfolding block_from
block_from-tier count b [] t m h = elim m [ ]
block_from-tier count b (x ∷ tiers) t (Memᴰ.head e) h = ground (
  arith,
  block_from-lower count x.block tiers,
  block_from-lower count b tiers,
  ap (λ (r : RateTier). r.block) e,
  ap (λ (r : RateTier). r.threshold) e,
)
block_from-tier count b (x ∷ tiers) t (Memᴰ.tail m) h =
    block_from-tier count (if leb x.threshold count && ltb b x.block then x.block else b) tiers t m
      h

-- The block is the one given, or that of a tier that was reached.
abbrev Attained : ℕ → ℕ → ℕ → List RateTier → Type 0
Attained count b block tiers =
    (block ≡ b) ⊎ ((t : RateTier) × Memᴰ t tiers × (t.threshold ≤ count) × (block ≡ t.block))

Attained-step :
    (count b : ℕ) (x : RateTier) (tiers : List RateTier) (c : Bool)
    → (c ≡ true → x.threshold ≤ count)
    → Attained count x.block (block_from count x.block tiers) tiers
    → Attained count b (block_from count b tiers) tiers
    → Attained count b (block_from count (if c then x.block else b) tiers) (x ∷ tiers)
Attained-step count b x tiers true h (inl e) k = inr (x, Memᴰ.head refl, h refl, e)
Attained-step count b x tiers true h (inr (t, m, r, e)) k = inr (t, Memᴰ.tail m, r, e)
Attained-step count b x tiers false h j (inl e) = inl e
Attained-step count b x tiers false h j (inr (t, m, r, e)) = inr (t, Memᴰ.tail m, r, e)

block_from-Attained :
    (count b : ℕ) (tiers : List RateTier) → Attained count b (block_from count b tiers) tiers
unfolding block_from
block_from-Attained count b [] = inl refl
block_from-Attained count b (x ∷ tiers) =
    Attained-step count b x tiers (leb x.threshold count && ltb b x.block) (λ h. ground arith)
      (block_from-Attained count x.block tiers) (block_from-Attained count b tiers)

-- The block for a number of attempts is the longest among the tiers that it reaches: it is at
-- least the block of each of them, and it is zero or the block of one of them.
pub block_duration_longest :
    (tiers : List RateTier) (count : ℕ)
    → ((t : RateTier) → Memᴰ t tiers → t.threshold ≤ count → t.block ≤ block_duration tiers count)
      × ((block_duration tiers count ≡ 0)
          ⊎ ((t : RateTier) × Memᴰ t tiers
              × (t.threshold ≤ count)
              × (block_duration tiers count ≡ t.block)))
unfolding block_duration
block_duration_longest tiers count =
    (λ t m h. block_from-tier count 0 tiers t m h, block_from-Attained count 0 tiers)

-- More attempts never shorten the block.
pub block_duration_mono :
    (tiers : List RateTier) (m n : ℕ) → m ≤ n → block_duration tiers m ≤ block_duration tiers n
block_duration_mono tiers m n h = elim (block_duration_longest tiers m).1 [
  | inl none_ ↦ omega arith
  | inr (t, k, reached, e) ↦ omega (arith, (block_duration_longest tiers n).0 t k (omega arith))
]

module _ (env : Env) where
  pub blocked_now-blocks :
      (key : Text) (n block : ℕ) (s s' : env.redis.State) (v : Verdict)
      → blocked_now env key n block s ≡ (ok v, s')
      → v.blocked ≡ false
      → ⊥
  unfolding blocked_now
  blocked_now-blocks key n block s s' v h f = let (u, _, k) = >>-eq-ok _ _ s h in cc

  pub refused-blocks :
      (key : Text) (left : ℕ) (s s' : env.redis.State) (v : Verdict)
      → refused env key left s ≡ (ok v, s')
      → v.blocked ≡ false
      → ⊥
  unfolding refused
  refused-blocks key left s s' v h f = let (_, u, _, k) = >>=-eq-ok _ _ s h in cc

  pub decided-admits :
      (key : Text) (n : ℕ) (s s' : env.redis.State) (v : Verdict)
      → decided env key n s ≡ (ok v, s')
      → v.blocked ≡ false
      → (v.count ≡ n) × (block_duration env.config.tiers n ≡ 0)
  unfolding decided
  decided-admits key n s s' v h f =
      elim (either_ran_on (ltb 0 (block_duration env.config.tiers n)) _ _ s h) [
        | inl (_, k) ↦ absurd (blocked_now-blocks key n _ s s' v k f)
        | inr (z, k) ↦ (cc, ground arith)
      ]

  counted-admits :
      (key : Text) (s s' : env.redis.State) (v : Verdict)
      → counted env key s ≡ (ok v, s')
      → v.blocked ≡ false
      → block_duration env.config.tiers v.count ≡ 0
  unfolding counted
  counted-admits key s s' v h f =
      let (n, t, e, k) = >>=-eq-ok _ _ s h in
      let (u, e', k') = >>-eq-ok _ _ t k in
      let (same, zero_) = decided-admits key n u s' v k' f in
      ap (block_duration env.config.tiers) same ∙ zero_

  -- An attempt that the limiter lets pass is counted below the threshold of every tier that
  -- blocks.
  pub check_admits :
      (key : Text) (s s' : env.redis.State) (v : Verdict) (t : RateTier)
      → check env key s ≡ (ok v, s')
      → v.blocked ≡ false
      → Memᴰ t env.config.tiers
      → 0 < t.block
      → v.count < t.threshold
  unfolding check
  check_admits key s s' v t h f m pos =
      let (left, u, _, k) = >>=-eq-ok _ _ s h in
      elim (either_ran (ltb 0 left) _ _ u k) [
        | inl l ↦ absurd (refused-blocks key left u s' v l f)
        | inr l ↦
            let zero_ = counted-admits key u s' v l f in
            let longest = (block_duration_longest env.config.tiers v.count).0 t m in
            ground (arith, zero_, longest)
      ]
