-- ===== src/Cache/PermissionCache/Flush.antt =====
-- What FlushAll leaves behind: backend/cache/permissions.go.
use mathlib.Core.List.{Memᴰ, append_assoc}
use secure_auth_platform.Prelude.{
  ℕ, zero, suc, ◌<◌, ◌≡◌, ◌≢◌, refl, ap, sym, subst, ◌∙◌, true, false, arith, ◌==◌, ==_iff, inl,
  inr, Bool-cases, length, List, [], ◌∷◌, ◌++◌, Text, bytes,
}
use secure_auth_platform.Exec.{ok, ◌>>=◌, ◌>>◌, >>=-ok}
use secure_auth_platform.Env.{Env}
use secure_auth_platform.Cache.PermissionCache.Scan.{Turns, turn, turns, is_plain, Scans}
use secure_auth_platform.Cache.PermissionCache.{cache_key, flush_page, flush_from, flush_all}

module _ (env : Env) (laws : Scans env) where
  abbrev pub pattern : Text
  pattern = env.config.key_prefix ++ bytes "permissions:user:*"

  abbrev Iteration : ℕ → env.redis.State → List (List Text) → ℕ → env.redis.State → Type 0
  Iteration = Turns env laws.holds pattern

  -- No key of these pages is there.
  abbrev AreGone : List (List Text) → env.redis.State → Type 0
  AreGone pages v =
      (page : List Text) (k : Text) → Memᴰ page pages → Memᴰ k page → laws.holds k v ≡ false

  abbrev Shrinks : (s u : env.redis.State) → Type 0
  Shrinks s u = (k : Text) → laws.holds k u ≡ true → laws.holds k s ≡ true

  -- One turn of the loop.
  record Flushed (c : ℕ) (s : env.redis.State) : Type 0 where
    page : List Text
    next : ℕ
    scanned : env.redis.State
    left : env.redis.State
    given : env.redis.scan c pattern 100 s ≡ (ok (page, next), scanned)
    done : flush_page env c s ≡ (ok next, left)
    shrunk : Shrinks s left
    gone : (k : Text) → Memᴰ k page → laws.holds k left ≡ false

  page-Flushed :
      (c : ℕ) (s t : env.redis.State) (page : List Text) (next : ℕ)
      → env.redis.scan c pattern 100 s ≡ (ok (page, next), t)
      → ((k : Text) → laws.holds k t ≡ laws.holds k s)
      → Flushed c s
  unfolding flush_page ◌>>=◌ ◌>>◌
  page-Flushed c s t [] next e same = record {
    page = [];
    next = next;
    scanned = t;
    left = t;
    given = e;
    done = rw e refl;
    shrunk = λ k h. sym (same k) ∙ h;
    gone = λ k m. elim m [ ];
  }
  page-Flushed c s t (j ∷ js) next e same =
      let (u, d, off, fewer) = laws.del_answers (j ∷ js) t in
      record {
        page = j ∷ js;
        next = next;
        scanned = t;
        left = u;
        given = e;
        done = rw (e, d) refl;
        shrunk = λ k h. sym (same k) ∙ fewer k h;
        gone = off;
      }

  flushed : (c : ℕ) (s : env.redis.State) → Flushed c s
  flushed c s =
      let (page, next, t, e, same) = laws.scan_answers c pattern s in
      page-Flushed c s t page next e same

  Iteration-Shrinks :
      {c last : ℕ} {s v : env.redis.State} {pages : List (List Text)}
      → Iteration c s pages last v
      → Shrinks s v
  Iteration-Shrinks (turn page e f) = f
  Iteration-Shrinks (turns page e f n more) = λ k h. f k (Iteration-Shrinks more k h)

  -- What the loop did with its fuel.
  data Ran (fuel c : ℕ) (s : env.redis.State) : Type 0 where
    emptied :
        (pages : List (List Text)) (v : env.redis.State)
        → Iteration c s pages 0 v
        → AreGone pages v
        → flush_from env (suc fuel) c s ≡ (ok true, v)
        → Ran fuel c s
    cut :
        (pages : List (List Text)) (last : ℕ) (v : env.redis.State)
        → Iteration c s pages last v
        → length pages ≡ suc fuel
        → Ran fuel c s

  last_turn :
      (fuel c : ℕ) (s : env.redis.State) (f : Flushed c s)
      → f.next ≡ 0
      → flush_from env (suc fuel) c s ≡ (ok true, f.left)
  unfolding flush_from
  last_turn fuel c s f z = >>=-ok _ _ f.done ∙ rw z refl

  next_turn :
      (fuel c : ℕ) (s : env.redis.State) (f : Flushed c s)
      → (f.next == 0) ≡ false
      → flush_from env (suc fuel) c s ≡ flush_from env fuel f.next f.left
  unfolding flush_from
  next_turn fuel c s f z = >>=-ok _ _ f.done ∙ rw z refl

  first-AreGone : (c : ℕ) (s : env.redis.State) (f : Flushed c s) → AreGone (f.page ∷ []) f.left
  first-AreGone c s f page k (Memᴰ.head e) m = f.gone k (subst (λ (p : List Text). Memᴰ k p) e m)
  first-AreGone c s f page k (Memᴰ.tail n) m = elim n [ ]

  more-AreGone :
      (c : ℕ) (s v : env.redis.State) (f : Flushed c s) (pages : List (List Text))
      → Shrinks f.left v
      → AreGone pages v
      → AreGone (f.page ∷ pages) v
  more-AreGone c s v f pages less g page k (Memᴰ.tail n) m = g page k n m
  more-AreGone c s v f pages less g page k (Memᴰ.head e) m =
      let off = f.gone k (subst (λ (p : List Text). Memᴰ k p) e m) in
      elim (Bool-cases (laws.holds k v)) [ inl on ↦ cc (off, less k on) | inr out ↦ out ]

  not_zero : (n : ℕ) → (n == 0) ≡ false → n ≢ 0
  not_zero n h = λ e. ground (arith, e, h)

  ran : (fuel c : ℕ) (s : env.redis.State) → Ran fuel c s
  ran zero c s =
      let f = flushed c s in
      elim (Bool-cases (f.next == 0)) [
        | inl z ↦
            let here = (==_iff f.next 0).0 z in
            emptied (f.page ∷ []) f.left
              (subst (λ n. Iteration c s (f.page ∷ []) n f.left) here
                (turn f.page f.given f.shrunk))
              (first-AreGone c s f) (last_turn zero c s f here)
        | inr n ↦ cut (f.page ∷ []) f.next f.left (turn f.page f.given f.shrunk) refl
      ]
  ran (suc fuel) c s =
      let f = flushed c s in
      let rest = ran fuel f.next f.left in
      elim (Bool-cases (f.next == 0)) [
        | inl z ↦
            let here = (==_iff f.next 0).0 z in
            emptied (f.page ∷ []) f.left
              (subst (λ n. Iteration c s (f.page ∷ []) n f.left) here
                (turn f.page f.given f.shrunk))
              (first-AreGone c s f) (last_turn (suc fuel) c s f here)
        | inr n ↦ elim rest [
          | emptied pages v i g e ↦
              emptied (f.page ∷ pages) v (turns f.page f.given f.shrunk (not_zero f.next n) i)
                (more-AreGone c s v f pages (Iteration-Shrinks i) g)
                (next_turn (suc fuel) c s f n ∙ e)
          | cut pages last v i e ↦
              cut (f.page ∷ pages) last v (turns f.page f.given f.shrunk (not_zero f.next n) i)
                (ap (λ k. suc k) e)
        ]
      ]

  key-fits :
      (user : ℕ)
      → is_plain (env.config.key_prefix ++ bytes "permissions:user:") ≡ true
      → laws.fits pattern (cache_key env user) ≡ true
  unfolding cache_key bytes
  key-fits user h =
      subst (λ (p : Text). laws.fits p (cache_key env user) ≡ true)
        (append_assoc env.config.key_prefix (bytes "permissions:user:") (bytes "*"))
        (subst
          (λ (k : Text).
            laws.fits ((env.config.key_prefix ++ bytes "permissions:user:") ++ bytes "*") k ≡ true)
          (append_assoc env.config.key_prefix (bytes "permissions:user:") (env.libs.decimal user))
          (laws.fits_star _ (env.libs.decimal user) h))

  -- With SCAN and DEL as Redis documents them and a plain prefix of the keys, FlushAll with more
  -- turns than an iteration of the keys takes ends without an error, and then no key that fits its
  -- pattern is left, so that no user has cached permissions, while no key was added.
  pub flush_all_empties :
      (fuel : ℕ) (s : env.redis.State)
      → is_plain (env.config.key_prefix ++ bytes "permissions:user:") ≡ true
      → laws.bound s < fuel
      → (v : env.redis.State) × (flush_all env fuel s ≡ (ok true, v))
        × ((k : Text) → laws.fits pattern k ≡ true → laws.holds k v ≡ false)
        × ((user : ℕ) → laws.holds (cache_key env user) v ≡ false)
        × Shrinks s v
  unfolding flush_all
  flush_all_empties zero s plain h = absurd (omega (arith, h))
  flush_all_empties (suc fuel) s plain h = elim (ran fuel 0 s) [
    | emptied pages v i g e ↦
        let none_fits : (k : Text) → laws.fits pattern k ≡ true → laws.holds k v ≡ false = λ k fit.
          elim (Bool-cases (laws.holds k v)) [
            | inl on ↦
                let (page, m, n) = laws.scan_complete pattern s v pages i k fit on in g page k m n
            | inr out ↦ out
          ] in
        (
          v,
          e,
          none_fits,
          λ user. none_fits (cache_key env user) (key-fits user plain),
          Iteration-Shrinks i,
        )
    | cut pages last v i e ↦ absurd (omega (arith, e, h, laws.scan_ends pattern s v pages last i))
  ]
