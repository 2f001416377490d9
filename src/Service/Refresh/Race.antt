-- ===== src/Service/Refresh/Race.antt =====
-- Two refreshes of one token that interleave: Refresh of backend/internal/service/auth.go.
use secure_auth_platform.Prelude.{
  ◌≡◌, refl, sym, ap, subst, ◌∙◌, true, some, Text, ◌==◌, ==_iff, find, find-Mem,
}
use secure_auth_platform.Exec.{ok, pure, attempt, ◌>>=◌, >>=-ok}
use secure_auth_platform.Models.{User, Session}
use secure_auth_platform.Env.{Env}
use secure_auth_platform.World.{World, App}
use secure_auth_platform.Repository.Sessions
use secure_auth_platform.Repository.Sessions.{
  insert_session, revoke_rows, revoke_where, revoke_with_timestamp, or_not_found,
}
use secure_auth_platform.Service.Tokens.{TokenPair, hash_token}
use secure_auth_platform.Service.Refresh.{on_session, refresh}
use secure_auth_platform.Service.Refresh.Rotation.{find_active-Found}
use secure_auth_platform.Service.Refresh.Totality.{IsUp, Finds, Succeeds-rotate}

-- Two requests with one token: both look the session up before either revokes it.
unfoldable pub interleaved : (env : Env) (token ip ua : Text) → App env (TokenPair × TokenPair)
interleaved env token ip ua = do
  let hash = hash_token env token
  first ← attempt (Sessions.find_active_by_token_hash env hash)
  second ← attempt (Sessions.find_active_by_token_hash env hash)
  p ← on_session env hash ip ua first
  q ← on_session env hash ip ua second
  pure (p, q)

-- Where nothing outside fails, two refreshes with one token that both find the session of the token
-- before either revokes it both succeed, if the owner of the session is active.
pub interleaved_succeed :
    (env : Env)
    → IsUp env
    → (token ip ua : Text) (s : Session) (user : User) (w w₁ w₂ : World env.redis.State)
    → Sessions.find_active_by_token_hash env (hash_token env token) w ≡ (ok s, w₁)
    → Sessions.find_active_by_token_hash env (hash_token env token) w₁ ≡ (ok s, w₂)
    → find (λ u. u.id == s.user_id) w.db.users ≡ some user
    → user.active ≡ true
    → (p : TokenPair) × (q : TokenPair) × (v : World env.redis.State) × (interleaved env token ip ua
          w
        ≡ (ok (p, q), v))
unfolding interleaved on_session attempt
interleaved_succeed env up token ip ua s user w w₁ w₂ one two f on =
    let hash = hash_token env token in
    let (_, same₁) = find_active-Found env hash w w₁ s one in
    let (_, same₂) = find_active-Found env hash w₁ w₂ s two in
    let here : Finds s.user_id user w₂.db = subst (Finds s.user_id user) (sym (same₂ ∙ same₁)) f in
    let i = (==_iff user.id s.user_id).0 (find-Mem (λ u. u.id == s.user_id) w.db.users f).1 in
    let turn = Succeeds-rotate env up s.user_id user s ip ua refl i on in
    let (p, w₃, e₃, g) = turn.at w₂ here in
    let (q, w₄, e₄, _) = turn.at w₃ g in
    (
      p,
      q,
      w₄,
      >>=-ok _ _ (ap (λ x. (ok x.0, x.1)) one)
          ∙ >>=-ok _ _ (ap (λ x. (ok x.0, x.1)) two)
          ∙ >>=-ok _ _ e₃
          ∙ >>=-ok _ _ e₄,
    )

-- Where nothing outside fails, a refresh succeeds if its token is that of an active session whose
-- owner is active.
pub refresh_succeeds :
    (env : Env)
    → IsUp env
    → (token ip ua : Text) (s : Session) (user : User) (w w₁ : World env.redis.State)
    → Sessions.find_active_by_token_hash env (hash_token env token) w ≡ (ok s, w₁)
    → find (λ u. u.id == s.user_id) w.db.users ≡ some user
    → user.active ≡ true
    → (p : TokenPair) × (v : World env.redis.State) × (refresh env token ip ua w ≡ (ok p, v))
unfolding refresh on_session attempt
refresh_succeeds env up token ip ua s user w w₁ one f on =
    let (_, same) = find_active-Found env (hash_token env token) w w₁ s one in
    let here : Finds s.user_id user w₁.db = subst (Finds s.user_id user) (sym same) f in
    let i = (==_iff user.id s.user_id).0 (find-Mem (λ u. u.id == s.user_id) w.db.users f).1 in
    let (p, v, e, _) = (Succeeds-rotate env up s.user_id user s ip ua refl i on).at w₁ here in
    (p, v, >>=-ok _ _ (ap (λ x. (ok x.0, x.1)) one) ∙ e)
