-- ===== src/Service/Refresh/Rotation.antt =====
-- What a refresh or a logout that succeeded did to the session of its token.
use mathlib.Core.List.{Memᴰ}
use secure_auth_platform.Prelude.{
  ℕ, ◌≡◌, refl, ap, subst, sym, ◌∙◌, Bool, true, false, not, ◌&&◌, Text, arith, find-Mem, ◌=t=◌,
  ◌==◌, inl, inr, ltb,
}
use secure_auth_platform.Exec.{
  Error, Result, ok, err, attempt, >>=-eq-ok, >>-eq-ok, either_ran, attempt-ok,
}
use secure_auth_platform.Models.{Session, User, Tables}
use secure_auth_platform.Env.{Env}
use secure_auth_platform.World.{World, App, sql}
use secure_auth_platform.World.Outcomes.{sql-ok, time_now-ok}
use secure_auth_platform.World.Moves.{Moves}
use secure_auth_platform.Service.Audit.Runs.{log-Runs}
use secure_auth_platform.Repository.Sessions.{
  find_active_by_token_hash, is_active, revoke_rows, revoke_where, revoke_with_timestamp,
}
use secure_auth_platform.Repository.Users
use secure_auth_platform.Repository.Finds.{or_not_found-ok}
use secure_auth_platform.Repository.Steps.{Run, Run-of_runs, Run-trans, runs}
use secure_auth_platform.Service.Tokens.{TokenPair, hash_token}
use secure_auth_platform.Service.Refresh.Runs.{reissue-Runs}
use secure_auth_platform.Service.Refresh.{
  logout, logout_session, end_session, refresh, on_session, reissue, rotate, active_user,
  handle_refresh_miss, known_session, reuse,
}

-- An active session found by the hash of its token.
pub record Found (t : Tables) (hash : Text) (s : Session) : Type 0 where
  pub listed : Memᴰ s t.sessions
  pub hashed : (s.refresh_token_hash =t= hash) ≡ true
  pub unrevoked : s.revoked ≡ false

active_parts : (a b c : Bool) → (a && (not b && c)) ≡ true → (a ≡ true) × (b ≡ false)
active_parts a b c e = (ground arith, ground arith)

module _ (env : Env) where
  pub find_active-Found :
      (hash : Text) (w v : World env.redis.State) (s : Session)
      → find_active_by_token_hash env hash w ≡ (ok s, v)
      → Found w.db hash s × (v.db ≡ w.db)
  unfolding find_active_by_token_hash is_active
  find_active-Found hash w v s e =
      let (now, u, e₁, e₂) = >>=-eq-ok _ _ w e in
      let (_, same) = time_now-ok env w u now e₁ in
      let read = sql-ok env _ u v s e₂ in
      let (m, q) =
        find-Mem (λ s. s.refresh_token_hash =t= hash && is_active now s) u.db.sessions
          (or_not_found-ok _ s (ap (λ x. x.0) read)) in
      (
        record {
          listed = subst (λ (t : Tables). Memᴰ s t.sessions) same m;
          hashed =
              (active_parts (s.refresh_token_hash =t= hash) s.revoked (ltb now s.expires_at) q).0;
          unrevoked =
              (active_parts (s.refresh_token_hash =t= hash) s.revoked (ltb now s.expires_at) q).1;
        },
        ap (λ x. x.1) (sym read) ∙ same,
      )

  pub revoke_with_timestamp-ok :
      (id : ℕ) (w v : World env.redis.State)
      → revoke_with_timestamp env id w ≡ (ok tt, v)
      → (now : ℕ) × (v.db ≡ revoke_rows (λ s. s.id == id) now w.db)
  unfolding revoke_with_timestamp revoke_where
  revoke_with_timestamp-ok id w v e =
      let (now, u, e₁, e₂) = >>=-eq-ok _ _ w e in
      let (_, same) = time_now-ok env w u now e₁ in
      let read = sql-ok env _ u v tt e₂ in
      (now, ap (λ x. x.1) (sym read) ∙ ap (revoke_rows (λ s. s.id == id) now) same)

  same_user :
      (r : Result User) (w v : World env.redis.State) (u : User)
      → active_user env r w ≡ (ok u, v)
      → v ≡ w
  unfolding active_user
  same_user (ok x) w v u e = ground (arith, e)
  same_user (err x) w v u e = cc

  attempt_same :
      (id : ℕ) (w v : World env.redis.State) (r : Result User)
      → attempt (Users.find_by_id env id) w ≡ (ok r, v)
      → v.db ≡ w.db
  unfolding attempt Users.find_by_id sql
  attempt_same id w v r e = ground (arith, e)

  reuse-err :
      (s : Session) (ip : Text) (w v : World env.redis.State) (p : TokenPair)
      → reuse env s ip w ≡ (ok p, v)
      → ⊥
  unfolding reuse
  reuse-err s ip w v p e =
      let (u₁, _, k₁) = >>-eq-ok _ _ w e in
      let (u₂, _, k₂) = >>-eq-ok _ _ u₁ k₁ in let (u₃, _, k₃) = >>-eq-ok _ _ u₂ k₂ in cc

  known_session-err :
      (ip : Text) (r : Result Session) (w v : World env.redis.State) (p : TokenPair)
      → known_session env ip r w ≡ (ok p, v)
      → ⊥
  unfolding known_session
  known_session-err ip (ok s) w v p e = elim (either_ran s.revoked _ _ w e) [
    | inl k ↦ reuse-err s ip w v p k
    | inr k ↦
        let (now, u, _, h) = >>=-eq-ok _ _ w k in
        elim (either_ran (ltb s.expires_at now) _ _ u h) [
          | inl l ↦ reuse-err s ip u v p l
          | inr l ↦ cc
        ]
  ]
  known_session-err ip (err Error.not_found) w v p e = cc
  known_session-err ip (err _) w v p e = cc

  miss-err :
      (hash ip : Text) (w v : World env.redis.State) (p : TokenPair)
      → handle_refresh_miss env hash ip w ≡ (ok p, v)
      → ⊥
  unfolding handle_refresh_miss
  miss-err hash ip w v p e = let (r, u, _, k) = >>=-eq-ok _ _ w e in known_session-err ip r u v p k

  -- What the rotation of a session leaves: it is revoked, then other steps follow.
  pub rotate-Spent :
      (s : Session) (ip ua : Text) (w v : World env.redis.State) (p : TokenPair)
      → rotate env s ip ua w ≡ (ok p, v)
      → (now : ℕ) × Run (revoke_rows (λ x. x.id == s.id) now w.db) v.db
  unfolding rotate
  rotate-Spent s ip ua w v p e =
      let (found, u₁, e₁, k₁) = >>=-eq-ok _ _ w e in
      let (user, u₂, e₂, k₂) = >>=-eq-ok _ _ u₁ k₁ in
      let (u₃, e₃, k₃) = >>-eq-ok _ _ u₂ k₂ in
      let (now, done) = revoke_with_timestamp-ok s.id u₂ u₃ e₃ in
      let back = attempt_same s.user_id w u₁ found e₁ in
      let kept = ap (λ (x : World env.redis.State). x.db) (same_user found u₁ u₂ user e₂) in
      let rest =
        Run-of_runs u₃.db (reissue env s user ip ua u₃).1.db
          ((reissue-Runs env s user ip ua).at u₃) in
      (
        now,
        subst (λ t. Run t v.db) (done ∙ ap (revoke_rows (λ x. x.id == s.id) now) (kept ∙ back))
            (subst (λ (x : Result TokenPair × World env.redis.State). Run u₃.db x.1.db) k₃ rest),
      )

  pub on_session-Spent :
      (hash ip ua : Text) (r : Result Session) (w v : World env.redis.State) (p : TokenPair)
      → on_session env hash ip ua r w ≡ (ok p, v)
      → (s : Session) × (r ≡ ok s) × (rotate env s ip ua w ≡ (ok p, v))
  unfolding on_session
  on_session-Spent hash ip ua (ok s) w v p e = (s, refl, e)
  on_session-Spent hash ip ua (err Error.not_found) w v p e = absurd (miss-err hash ip w v p e)
  on_session-Spent hash ip ua (err _) w v p e = cc

  -- A refresh that succeeded found an active session of the token, revoked it, and went on.
  pub refresh-Spent :
      (token ip ua : Text) (w v : World env.redis.State) (p : TokenPair)
      → refresh env token ip ua w ≡ (ok p, v)
      → (s : Session) × (now : ℕ) × Found w.db (hash_token env token) s
        × Run (revoke_rows (λ x. x.id == s.id) now w.db) v.db
  unfolding refresh
  refresh-Spent token ip ua w v p e =
      let (r, u, e₁, k₁) = >>=-eq-ok _ _ w e in
      let (s, h, k) = on_session-Spent (hash_token env token) ip ua r u v p k₁ in
      let (seen, same) = find_active-Found (hash_token env token) w u s (
        attempt-ok (find_active_by_token_hash env (hash_token env token)) w e₁
        ∙ ap (λ x. (x, u)) h) in
      let (now, run) = rotate-Spent s ip ua u v p k in
      (s, now, seen, subst (λ t. Run (revoke_rows (λ x. x.id == s.id) now t) v.db) same run)

  moved :
      (m : App env (Unit {0})) (w v : World env.redis.State)
      → m w ≡ (ok tt, v)
      → Moves env runs m
      → runs.rel w.db v.db
  moved m w v e k =
      subst (λ (x : Result (Unit {0}) × World env.redis.State). runs.rel w.db x.1.db) e (k.at w)

  end_session-Spent :
      (s : Session) (w v : World env.redis.State)
      → end_session env s w ≡ (ok tt, v)
      → (now : ℕ) × Run (revoke_rows (λ x. x.id == s.id) now w.db) v.db
  unfolding end_session
  end_session-Spent s w v e =
      let (u, e₁, k₁) = >>-eq-ok _ _ w e in
      let (now, done) = revoke_with_timestamp-ok s.id w u e₁ in
      let (u₂, e₂, k₂) = >>-eq-ok _ _ u k₁ in
      let first = Run-of_runs u.db u₂.db (moved _ u u₂ e₂ (log-Runs env _ _ _ _ _ _)) in
      let second = Run-of_runs u₂.db v.db (moved _ u₂ v k₂ (log-Runs env _ _ _ _ _ _)) in
      (now, subst (λ t. Run t v.db) done (Run-trans u.db u₂.db v.db first second))

  on_ended :
      (s : Session) (r : Result Session) (u u' v : World env.redis.State)
      → r ≡ ok s
      → u' ≡ u
      → logout_session env r u' ≡ (ok tt, v)
      → end_session env s u ≡ (ok tt, v)
  unfolding logout_session
  on_ended s r u u' v h k e =
      subst (λ x. logout_session env x u ≡ (ok tt, v)) h
        (subst (λ x. logout_session env r x ≡ (ok tt, v)) k e)

  -- A logout that succeeded, with a token of an active session, revoked that session.
  pub logout-Spent :
      (token : Text) (w v u : World env.redis.State) (s : Session)
      → find_active_by_token_hash env (hash_token env token) w ≡ (ok s, u)
      → logout env token w ≡ (ok tt, v)
      → (now : ℕ) × Run (revoke_rows (λ x. x.id == s.id) now w.db) v.db
  unfolding logout
  logout-Spent token w v u s f e =
      let (r, u₁, e₁, k₁) = >>=-eq-ok _ _ w e in
      let read = attempt-ok (find_active_by_token_hash env (hash_token env token)) w e₁ in
      let (seen, same) = find_active-Found (hash_token env token) w u s f in
      let here : r ≡ ok s = ap (λ x. x.0) (sym read ∙ f) in
      let there : u₁ ≡ u = ap (λ x. x.1) (sym read ∙ f) in
      let (now, run) = end_session-Spent s u v (on_ended s r u u₁ v here there k₁) in
      (now, subst (λ t. Run (revoke_rows (λ x. x.id == s.id) now t) v.db) same run)
