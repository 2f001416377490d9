-- ===== src/Invariants/Revocation.antt =====
-- Revocation is for good: backend/internal/repository/session.go and its callers.
use mathlib.Core.List.{Memᴰ}
use secure_auth_platform.Prelude.{
  ℕ, ◌≤◌, ◌<◌, ◌≡◌, refl, sym, subst, ap, ◌∙◌, Bool, true, false, List, [], ◌∷◌, arith, inl, inr,
  if◌then◌else◌, Bool-cases, Mem-change, Mem-select,
}
use secure_auth_platform.Models.{Session, Tables}
use secure_auth_platform.Env.{Env}
use secure_auth_platform.World.{World}
use secure_auth_platform.World.Moves.{Preorder}
use secure_auth_platform.Repository.Steps.{Run, Run-rel}
use secure_auth_platform.Server.{Operation, serve}
use secure_auth_platform.Server.Runs.{serve-rel}
use secure_auth_platform.Invariants.SessionTable.{
  Kept, SessionStep, adds, alters, removes, spares, Step-SessionStep, IsNumbered, Below,
}

-- An unrevoked session of these tables, of which the given one is a later form.
pub record Origin (t : Tables) (s : Session) : Type 0 where
  pub source : Session
  pub listed : Memᴰ source t.sessions
  pub open_before : source.revoked ≡ false
  pub same_id : s.id ≡ source.id
  pub same_user : s.user_id ≡ source.user_id
  pub same_hash : s.refresh_token_hash ≡ source.refresh_token_hash
  pub same_expiry : s.expires_at ≡ source.expires_at

-- Every unrevoked session of the later tables is new, or was unrevoked in the earlier ones, with
-- the same owner, token and expiry.
pub record Descends (t u : Tables) : Type 0 where
  pub later : t.next_session ≤ u.next_session
  pub origin :
      (s : Session) → Memᴰ s u.sessions → s.revoked ≡ false → s.id < t.next_session → Origin t s

Origin-here : (t : Tables) (s : Session) → Memᴰ s t.sessions → s.revoked ≡ false → Origin t s
Origin-here t s m r = record {
  source = s;
  listed = m;
  open_before = r;
  same_id = refl;
  same_user = refl;
  same_hash = refl;
  same_expiry = refl;
}

Origin-trans :
    (t u : Tables) (s : Session) → Descends t u → s.id < t.next_session → Origin u s → Origin t s
Origin-trans t u s d lt o =
    let back =
      d.origin o.source o.listed o.open_before (subst (λ n. n < t.next_session) o.same_id lt) in
    record {
      source = back.source;
      listed = back.listed;
      open_before = back.open_before;
      same_id = o.same_id ∙ back.same_id;
      same_user = o.same_user ∙ back.same_user;
      same_hash = o.same_hash ∙ back.same_hash;
      same_expiry = o.same_expiry ∙ back.same_expiry;
    }

pub Descends-trans : (t u v : Tables) → Descends t u → Descends u v → Descends t v
Descends-trans t u v d e = record {
  later = omega (arith, d.later, e.later);
  origin = λ s m r lt. Origin-trans t u s d lt (e.origin s m r (omega (arith, d.later)));
}

Descends-refl : (t : Tables) → Descends t t
Descends-refl t = record { later = omega arith; origin = λ s m r lt. Origin-here t s m r }

descends : Preorder
descends = record { rel = Descends; refl_at = Descends-refl; trans_at = Descends-trans }

-- The row that an altered row was.
Origin-altered :
    (t : Tables) (f : Session → Session) (b : Bool) (s y : Session)
    → Kept y (f y)
    → Memᴰ y t.sessions
    → s ≡ (if b then f y else y)
    → s.revoked ≡ false
    → Origin t s
Origin-altered t f true s y k m e r = record {
  source = y;
  listed = m;
  open_before = k.still_revoked (ap (λ (x : Session). x.revoked) (sym e) ∙ r);
  same_id = ap (λ (x : Session). x.id) e ∙ k.same_id;
  same_user = ap (λ (x : Session). x.user_id) e ∙ k.same_user;
  same_hash = ap (λ (x : Session). x.refresh_token_hash) e ∙ k.same_hash;
  same_expiry = ap (λ (x : Session). x.expires_at) e ∙ k.same_expiry;
}
Origin-altered t f false s y k m e r =
    subst (Origin t) (sym e) (Origin-here t y m (ap (λ (x : Session). x.revoked) (sym e) ∙ r))

Origin-added :
    (t : Tables) (new s : Session)
    → new.id ≡ t.next_session
    → Memᴰ s (new ∷ t.sessions)
    → s.revoked ≡ false
    → s.id < t.next_session
    → Origin t s
Origin-added t new s i (Memᴰ.head e) r lt = absurd (omega (arith, i, ap (λ (x : Session). x.id) e))
Origin-added t new s i (Memᴰ.tail m) r lt = Origin-here t s m r

SessionStep-Descends : (t u : Tables) → SessionStep t u → Descends t u
SessionStep-Descends t u (adds new i e n) = record {
  later = omega arith;
  origin = λ s m r lt. Origin-added t new s i (subst (Memᴰ s) e m) r lt;
}
SessionStep-Descends t u (alters p f k e n) = record {
  later = omega arith;
  origin = λ s m r lt.
      let (y, my, ey) = Mem-change p f t.sessions (subst (Memᴰ s) e m) in
      Origin-altered t f (p y) s y (k y) my ey r;
}
SessionStep-Descends t u (removes p e n) = record {
  later = omega arith;
  origin = λ s m r lt. Origin-here t s (Mem-select p t.sessions s (subst (Memᴰ s) e m)).0 r;
}
SessionStep-Descends t u (spares e n) = record {
  later = omega arith;
  origin = λ s m r lt. Origin-here t s (subst (Memᴰ s) e m) r;
}

pub Run-Descends : (t u : Tables) → Run t u → Descends t u
unfolding descends
Run-Descends t u r =
    Run-rel descends (λ t u s. SessionStep-Descends t u (Step-SessionStep t u s)) t u r

-- Whatever operations run, every session that is unrevoked afterwards and is not new was
-- unrevoked before, with the same owner, the same token hash and the same expiry.
pub serve-Descends :
    (env : Env) (os : List Operation) (w : World env.redis.State)
    → Descends w.db (serve env os w).db
unfolding descends
serve-Descends env os w =
    serve-rel env descends (λ t u s. SessionStep-Descends t u (Step-SessionStep t u s)) os w

Below-head : (n : ℕ) (ss : List Session) (s : Session) → Below n ss → Memᴰ s ss → s.id < n
Below-head n [] s b m = elim m [ ]
Below-head n (x ∷ xs) s b (Memᴰ.head e) = omega (arith, ap (λ (y : Session). y.id) e)
Below-head n (x ∷ xs) s b (Memᴰ.tail m) = omega (arith, Below-head x.id xs s b.1 m)

-- Two rows with one identifier are one row.
same_row :
    (n : ℕ) (ss : List Session) (s s' : Session)
    → Below n ss
    → Memᴰ s ss
    → Memᴰ s' ss
    → s.id ≡ s'.id
    → s ≡ s'
same_row n [] s s' b m m' e = elim m [ ]
same_row n (x ∷ xs) s s' b (Memᴰ.head h) (Memᴰ.head h') e = h ∙ sym h'
same_row n (x ∷ xs) s s' b (Memᴰ.head h) (Memᴰ.tail m') e =
    absurd (omega (arith, Below-head x.id xs s' b.1 m', ap (λ (y : Session). y.id) h))
same_row n (x ∷ xs) s s' b (Memᴰ.tail m) (Memᴰ.head h') e =
    absurd (omega (arith, Below-head x.id xs s b.1 m, ap (λ (y : Session). y.id) h'))
same_row n (x ∷ xs) s s' b (Memᴰ.tail m) (Memᴰ.tail m') e = same_row x.id xs s s' b.1 m m' e

-- A revoked session stays revoked: after any operations, the session with its identifier is
-- revoked, if it is still there. The identifiers of the sessions are distinct at the start.
pub revoked_stays :
    (env : Env) (os : List Operation) (w : World env.redis.State) (s s' : Session)
    → IsNumbered w.db
    → Memᴰ s w.db.sessions
    → s.revoked ≡ true
    → Memᴰ s' (serve env os w).db.sessions
    → s'.id ≡ s.id
    → s'.revoked ≡ true
revoked_stays env os w s s' b m r m' e = elim (Bool-cases s'.revoked) [
  | inl done ↦ done
  | inr open_ ↦
      let lt = Below-head w.db.next_session w.db.sessions s b m in
      let o = (serve-Descends env os w).origin s' m' open_ (omega arith) in
      let row =
        same_row w.db.next_session w.db.sessions s o.source b m o.listed (sym e ∙ o.same_id) in
      absurd (ground (arith, o.open_before, ap (λ (y : Session). y.revoked) row))
]
