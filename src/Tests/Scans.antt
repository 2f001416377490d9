-- ===== src/Tests/Scans.antt =====
-- The small platform's Redis scans and deletes as Redis documents it.
use mathlib.Core.List.{Memᴰ}
use secure_auth_platform.Prelude.{
  ℕ, ◌≤◌, ◌≡◌, refl, ap, sym, subst, ◌∙◌, Bool, true, false, not, arith, ◌==◌, ◌=t=◌, any, select,
  length, List, [], ◌∷◌, ◌++◌, Text, bytes, inl, inr, Bool-cases, has_suffix, trim_suffix-append,
  has_prefix-append, if◌then◌else◌,
}
use secure_auth_platform.Exec.{ok, outcome-eq}
use secure_auth_platform.Repository.Finds.{test_eq}
use secure_auth_platform.Cache.PermissionCache.Scan.{Turns, turn, turns, Scans}
use secure_auth_platform.Example.{env, Memory, forget, star_fits, keys_where, on_page}

abbrev pub holds : Text → Memory → Bool
holds k m = any (λ p. p.0 =t= k) m

select-holds :
    (j k : Text) (m : Memory) → holds k (select (λ p. not (p.0 =t= j)) m) ≡ true → holds k m ≡ true
unfolding any select
select-holds j k [] h = cc
select-holds j k ((i, n) ∷ m) h = ground (arith, h, select-holds j k m)

select-off : (j : Text) (m : Memory) → holds j (select (λ p. not (p.0 =t= j)) m) ≡ false
unfolding any select
select-off j [] = refl
select-off j ((i, n) ∷ m) = ground (arith, select-off j m)

pub forget-holds :
    (ks : List Text) (k : Text) (m : Memory) → holds k (forget ks m) ≡ true → holds k m ≡ true
forget-holds [] k m h = h
forget-holds (j ∷ ks) k m h = select-holds j k m (forget-holds ks k _ h)

pub forget-off :
    (ks : List Text) (k : Text) (m : Memory) → Memᴰ k ks → holds k (forget ks m) ≡ false
forget-off [] k m n = elim n [ ]
forget-off (j ∷ ks) k m (Memᴰ.tail n) = forget-off ks k _ n
forget-off (j ∷ ks) k m (Memᴰ.head e) =
    let rest = select (λ p. not (p.0 =t= j)) m in
    elim (Bool-cases (holds k (forget ks rest))) [
      | inl on ↦
          let here = forget-holds ks k rest on in
          let off = subst (λ (x : Text). holds x rest ≡ false) (sym e) (select-off j m) in
          cc (here, off)
      | inr out ↦ out
    ]

keys_where-Mem :
    (q : Text → Bool) (k : Text) (m : Memory)
    → holds k m ≡ true
    → q k ≡ true
    → Memᴰ k (keys_where q m)
unfolding any
keys_where-Mem q k [] h p = cc
keys_where-Mem q k ((i, n) ∷ m) h p = elim (Bool-cases (i =t= k)) [
  | inl same ↦
      let is = test_eq i k same in
      let chosen : q i ≡ true = ap q is ∙ p in rw chosen (Memᴰ.head (sym is))
  | inr other ↦
      let later = keys_where-Mem q k m (ground (arith, h, other)) p in
      elim (Bool-cases (q i)) [ inl in_ ↦ rw in_ (Memᴰ.tail later) | inr out ↦ rw out later ]
]

-- The second page is the last.
no_third :
    (pattern : Text) (s u : Memory) (next next' : ℕ) {page page' : List Text} {t t' : Memory}
    → env.redis.scan 0 pattern 100 s ≡ (ok (page, next), t)
    → env.redis.scan next pattern 100 u ≡ (ok (page', next'), t')
    → next' ≡ 0
no_third pattern s u next next' e e' =
    ground (arith, ap (λ x. x.1) (outcome-eq e).0, ap (λ x. x.1) (outcome-eq e').0)

pub complete :
    (pattern : Text) (s v : Memory) (pages : List (List Text))
    → Turns env holds pattern 0 s pages 0 v
    → (k : Text) → star_fits pattern k ≡ true
    → holds k v ≡ true
    → (page : List Text) × Memᴰ page pages × Memᴰ k page
complete pattern s v pages (turn page e f) k fit on =
    absurd (omega (arith, ap (λ x. x.1) (outcome-eq e).0))
complete pattern s v pages
      (turns {next = next} page e f n (turns {next = next'} page' e' f' n' more)) k fit on =
    absurd (n' (no_third pattern s _ next next' e e'))
complete pattern s v pages (turns {next = next} {u = u} page e f n (turn page' e' f')) k fit on =
    elim (Bool-cases (has_suffix k (bytes "1"))) [
      | inl one ↦ (
        page,
        Memᴰ.head refl,
        subst (λ (p : List Text). Memᴰ k p) (ap (λ x. x.0) (outcome-eq e).0)
            (keys_where-Mem (on_page 0 pattern) k s (f k (f' k on)) (ground (arith, fit, one))),
      )
      | inr other ↦ (
        page',
        Memᴰ.tail (Memᴰ.head refl),
        subst (λ (p : List Text). Memᴰ k p) (ap (λ x. x.0) (outcome-eq e').0)
            (keys_where-Mem (on_page next pattern) k u (f' k on)
              (ground (arith, fit, other, ap (λ x. x.1) (outcome-eq e).0))),
      )
    ]

pub ends :
    (pattern : Text) (s v : Memory) (pages : List (List Text)) (last : ℕ)
    → Turns env holds pattern 0 s pages last v
    → length pages ≤ 2
ends pattern s v pages last (turn page e f) = omega arith
ends pattern s v pages last (turns page e f n (turn page' e' f')) = omega arith
ends pattern s v pages last
      (turns {next = next} page e f n (turns {next = next'} page' e' f' n' more)) =
    absurd (n' (no_third pattern s _ next next' e e'))

pub star-fits : (p rest : Text) → star_fits (p ++ bytes "*") (p ++ rest) ≡ true
star-fits p rest = rw (trim_suffix-append p (bytes "*")) (has_prefix-append p rest)

abbrev pub scans : Scans env
scans = record {
  holds = holds;
  fits = star_fits;
  bound = λ s. 2;
  fits_star = λ p rest plain. star-fits p rest;
  scan_answers = λ c pattern s.
      (keys_where (on_page c pattern) s, if c == 0 then 1 else 0, s, refl, λ k. refl);
  del_answers = λ ks s. (forget ks s, refl, λ k. forget-off ks k s, λ k. forget-holds ks k s);
  scan_complete = complete;
  scan_ends = ends;
}
