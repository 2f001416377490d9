-- ===== src/Invariants/DeadToken.antt =====
-- A refresh token that was used up or logged out: Refresh and Logout of
-- backend/internal/service/auth.go.
use mathlib.Core.List.{Memᴰ}
use secure_auth_platform.Prelude.{
  ℕ, ◌<◌, ◌≡◌, sym, ◌∙◌, false, not, ◌&&◌, List, Text, arith, ◌==◌, if◌then◌else◌, Mem-change,
}
use secure_auth_platform.Exec.{ok}
use secure_auth_platform.Models.{Session, Tables}
use secure_auth_platform.Env.{Env}
use secure_auth_platform.World.{World}
use secure_auth_platform.Repository.Sessions.{find_active_by_token_hash, revoke_rows, revoke_row}
use secure_auth_platform.Repository.Finds.{test_eq}
use secure_auth_platform.Server.{Operation, serve}
use secure_auth_platform.Service.Refresh.{refresh, logout}
use secure_auth_platform.Service.Refresh.Rotation.{refresh-Spent, logout-Spent, find_active-Found}
use secure_auth_platform.Service.Tokens.{hash_token, TokenPair}
use secure_auth_platform.Invariants.Revocation.{
  Descends, Descends-trans, Run-Descends, serve-Descends,
}

-- All sessions with this token hash have one identifier.
abbrev pub HasOneHolder : Tables → Text → Type 0
HasOneHolder t hash =
    (x y : Session)
    → Memᴰ x t.sessions
    → Memᴰ y t.sessions
    → x.refresh_token_hash ≡ hash
    → y.refresh_token_hash ≡ hash
    → x.id ≡ y.id

-- Every session with this token hash was created before the next identifier was this one.
abbrev pub IsOld : Tables → ℕ → Text → Type 0
IsOld t next hash = (x : Session) → Memᴰ x t.sessions → x.refresh_token_hash ≡ hash → x.id < next

hash_kept :
    (now id : ℕ) (y z : Session)
    → z ≡ (if y.id == id && not y.revoked then revoke_row now y else y)
    → (z.refresh_token_hash ≡ y.refresh_token_hash) × (z.id ≡ y.id)
unfolding revoke_row
hash_kept now id y z e = (ground (arith, e), ground (arith, e))

spent :
    (now id : ℕ) (y z : Session)
    → z ≡ (if y.id == id && not y.revoked then revoke_row now y else y)
    → y.id ≡ id
    → z.revoked ≡ false
    → ⊥
unfolding revoke_row
spent now id y z e i r = ground (arith, e, i, r)

-- Once a session is revoked, no unrevoked session of its token remains in what follows.
none_left :
    (now : ℕ) (hash : Text) (t u : Tables) (s s' : Session)
    → HasOneHolder t hash
    → Memᴰ s t.sessions
    → s.refresh_token_hash ≡ hash
    → Descends (revoke_rows (λ x. x.id == s.id) now t) u
    → IsOld u t.next_session hash
    → Memᴰ s' u.sessions
    → s'.refresh_token_hash ≡ hash
    → s'.revoked ≡ false
    → ⊥
unfolding revoke_rows
none_left now hash t u s s' one m h d old m' h' r' =
    let o = d.origin s' m' r' (old s' m' h') in
    let (y, my, e) = Mem-change _ (revoke_row now) t.sessions o.listed in
    let (k, i) = hash_kept now s.id y o.source e in
    spent now s.id y o.source e (one y s my m (sym k ∙ sym o.same_hash ∙ h') h) o.open_before

-- A refresh token works once: after a refresh that succeeded, and whatever operations run then,
-- no refresh with the same token succeeds. It is assumed that all sessions with the hash of
-- the token have one identifier before the refresh, and that no session created since has that
-- hash.
pub refresh_once :
    (env : Env) (os : List Operation) (token ip ua ip' ua' : Text) (w v u : World env.redis.State)
    (p q : TokenPair)
    → HasOneHolder w.db (hash_token env token)
    → refresh env token ip ua w ≡ (ok p, v)
    → IsOld (serve env os v).db w.db.next_session (hash_token env token)
    → ¬ (refresh env token ip' ua' (serve env os v) ≡ (ok q, u))
refresh_once env os token ip ua ip' ua' w v u p q one e old e' =
    let (s, now, seen, run) = refresh-Spent env token ip ua w v p e in
    let (s', now', seen', run') = refresh-Spent env token ip' ua' (serve env os v) u q e' in
    let first = Run-Descends (revoke_rows (λ x. x.id == s.id) now w.db) v.db run in
    let d = Descends-trans _ _ _ first (serve-Descends env os v) in
    none_left now (hash_token env token) w.db (serve env os v).db s s' one seen.listed
      (test_eq _ _ seen.hashed) d old seen'.listed (test_eq _ _ seen'.hashed) seen'.unrevoked

-- A logout ends its token: after a logout that succeeded with a token of an active session, and
-- whatever operations run then, no refresh with that token succeeds. It is assumed that all
-- sessions with the hash of the token have one identifier before the logout, and that no session
-- created since has that hash.
pub logout_ends :
    (env : Env) (os : List Operation) (token ip ua : Text) (w v u u' : World env.redis.State)
    (s : Session) (q : TokenPair)
    → HasOneHolder w.db (hash_token env token)
    → find_active_by_token_hash env (hash_token env token) w ≡ (ok s, u')
    → logout env token w ≡ (ok tt, v)
    → IsOld (serve env os v).db w.db.next_session (hash_token env token)
    → ¬ (refresh env token ip ua (serve env os v) ≡ (ok q, u))
logout_ends env os token ip ua w v u u' s q one f e old e' =
    let (seen, _) = find_active-Found env (hash_token env token) w u' s f in
    let (now, run) = logout-Spent env token w v u' s f e in
    let (s', now', seen', run') = refresh-Spent env token ip ua (serve env os v) u q e' in
    let first = Run-Descends (revoke_rows (λ x. x.id == s.id) now w.db) v.db run in
    let d = Descends-trans _ _ _ first (serve-Descends env os v) in
    none_left now (hash_token env token) w.db (serve env os v).db s s' one seen.listed
      (test_eq _ _ seen.hashed) d old seen'.listed (test_eq _ _ seen'.hashed) seen'.unrevoked
