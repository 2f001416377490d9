-- ===== src/Http/Gate.antt =====
-- What a request that is let in has shown: backend/middleware/auth.go.
pub mod SignIn
pub mod Grants
pub mod Entry
use mathlib.Core.List.{Memᴰ}
use secure_auth_platform.Prelude.{
  ℕ, ◌<◌, ◌≡◌, refl, sym, ap, subst, ◌∙◌, Bool, true, false, not, ◌&&◌, ◌||◌, List, [], ◌∷◌, Text,
  bytes, arith, ◌⊎◌, inl, inr, Option, none, some, ltb, ◌==◌, ==_iff, has_prefix, trim_prefix,
  count, count-Mem, map, change, Bool-cases,
}
use secure_auth_platform.Exec.{
  Result, ok, err, pure, >>=-eq-ok, either_ran_on, attempt-ok, outcome-eq,
}
use secure_auth_platform.Models.{User, Session, Tables}
use secure_auth_platform.Env.{Env, Claims}
use secure_auth_platform.World.{World, App}
use secure_auth_platform.World.Moves.{Preorder, Moves, Moves-sql, moves_rules}
use secure_auth_platform.World.Outcomes.{sql-ok, time_now-ok}
use secure_auth_platform.Repository.Sessions
use secure_auth_platform.Repository.Sessions.{touch_rows}
use secure_auth_platform.Repository.Users
use secure_auth_platform.Repository.Finds.{user_by_id-ok}
use secure_auth_platform.Service.Tokens.{
  TokenClaims, claims_of, verified_claims, parsed_claims, validate_access_token,
}
use secure_auth_platform.Service.Refresh.{touch_session}
use secure_auth_platform.Service.PermissionService.{has_permission}
use secure_auth_platform.Service.PermissionService.Reads.{same, has_permission-same}
use secure_auth_platform.Http.{Request, Outcome, replied, refused, failed, Answer, answer}
use secure_auth_platform.Http.Middleware
use secure_auth_platform.Http.Routes.{
  Route, Guard, public, signed_in, one_code, any_code, guard_of, guarded, handler_of, serve_route,
}

-- A session without the time of its last activity.
abbrev pub untimed : Session → Session
untimed s = record s { last_activity_at = none }

-- Tables that differ in nothing but the last activity of sessions.
pub record Aside (t u : Tables) : Type 0 where
  pub roles : u.roles ≡ t.roles
  pub users : u.users ≡ t.users
  pub permissions : u.permissions ≡ t.permissions
  pub user_permissions : u.user_permissions ≡ t.user_permissions
  pub sessions : map untimed u.sessions ≡ map untimed t.sessions
  pub audit_logs : u.audit_logs ≡ t.audit_logs
  pub next_user : u.next_user ≡ t.next_user
  pub next_permission : u.next_permission ≡ t.next_permission
  pub next_session : u.next_session ≡ t.next_session
  pub next_audit : u.next_audit ≡ t.next_audit

pub Aside-refl : (t u : Tables) → u ≡ t → Aside t u
Aside-refl t u e = record {
  roles = ap (λ (x : Tables). x.roles) e;
  users = ap (λ (x : Tables). x.users) e;
  permissions = ap (λ (x : Tables). x.permissions) e;
  user_permissions = ap (λ (x : Tables). x.user_permissions) e;
  sessions = ap (λ (x : Tables). map untimed x.sessions) e;
  audit_logs = ap (λ (x : Tables). x.audit_logs) e;
  next_user = ap (λ (x : Tables). x.next_user) e;
  next_permission = ap (λ (x : Tables). x.next_permission) e;
  next_session = ap (λ (x : Tables). x.next_session) e;
  next_audit = ap (λ (x : Tables). x.next_audit) e;
}

pub Aside-trans : (t u v : Tables) → Aside t u → Aside u v → Aside t v
Aside-trans t u v a b = record {
  roles = b.roles ∙ a.roles;
  users = b.users ∙ a.users;
  permissions = b.permissions ∙ a.permissions;
  user_permissions = b.user_permissions ∙ a.user_permissions;
  sessions = b.sessions ∙ a.sessions;
  audit_logs = b.audit_logs ∙ a.audit_logs;
  next_user = b.next_user ∙ a.next_user;
  next_permission = b.next_permission ∙ a.next_permission;
  next_session = b.next_session ∙ a.next_session;
  next_audit = b.next_audit ∙ a.next_audit;
}

pub aside : Preorder
aside = record { rel = Aside; refl_at = λ t. Aside-refl t t refl; trans_at = Aside-trans }

untimed-change :
    (p : Session → Bool) (now : ℕ) (ss : List Session)
    → map untimed (change p (λ s. record s { last_activity_at = some now }) ss) ≡ map untimed ss
unfolding change
untimed-change p now [] = refl
untimed-change p now (s ∷ ss) =
    let rest = ap (λ (x : List Session). untimed s ∷ x) (untimed-change p now ss) in
    elim (Bool-cases (p s)) [ inl hit ↦ rw hit rest | inr miss ↦ rw miss rest ]

Aside-touch : (id now : ℕ) (t : Tables) → Aside t (touch_rows id now t)
unfolding touch_rows
Aside-touch id now t = record {
  roles = refl;
  users = refl;
  permissions = refl;
  user_permissions = refl;
  sessions = untimed-change _ now t.sessions;
  audit_logs = refl;
  next_user = refl;
  next_permission = refl;
  next_session = refl;
  next_audit = refl;
}

-- The answers of the handlers in front.
abbrev pub is_refusal : Outcome → Bool
is_refusal (refused s m) = s == 401 || s == 403 || s == 500
is_refusal (replied s c) = false
is_refusal (failed e) = false

abbrev pub is_public : Guard → Bool
is_public Guard.public = true
is_public Guard.signed_in = false
is_public (Guard.one_code code) = false
is_public (Guard.any_code codes) = false

-- The token of the header.
abbrev pub bearer : Request → Text
bearer req = trim_prefix req.authorization (bytes "Bearer ")

module _ (env : Env) where
  -- Turned away, with the tables as they were but for the last activity of sessions. What Redis holds
  -- may have changed: a permission check that misses fills the cache.
  pub record TurnedAway (w : World env.redis.State) (a : Answer) (v : World env.redis.State)
      : Type 0 where
    pub refusal : is_refusal a.outcome ≡ true
    pub untouched : Aside w.db v.db

  -- An active user and a session that is not revoked, of the given identifiers; the tables after it
  -- differ in nothing but the last activity of sessions.
  pub record Known (w : Tables) (who : TokenClaims) (v : Tables) : Type 0 where
    pub user : User
    pub user_listed : Memᴰ user w.users
    pub user_named : user.id ≡ who.user_id
    pub user_active : user.active ≡ true
    pub session : Session
    pub session_listed : Memᴰ session w.sessions
    pub session_named : session.id ≡ who.session_id
    pub session_open : session.revoked ≡ false
    pub untouched : Aside w v

  -- A valid token, and what it names.
  pub record SignedIn (req : Request) (w : World env.redis.State) (who : TokenClaims)
      (v : World env.redis.State) : Type 0 where
    pub read : World env.redis.State
    pub valid : validate_access_token env (bearer req) w ≡ (ok who, read)
    pub known : Known w.db who v.db

  pub turned :
      (w v : World env.redis.State) (a b : Answer)
      → pure a w ≡ (ok b, v)
      → is_refusal a.outcome ≡ true
      → TurnedAway w b v
  turned w v a b h r =
      let (e, s) = outcome-eq h in
      record {
        refusal = subst (λ (x : Answer). is_refusal x.outcome ≡ true) e r;
        untouched = Aside-refl w.db v.db (ap (λ (x : World env.redis.State). x.db) s);
      }

  pub later :
      (w x v : World env.redis.State) (a : Answer)
      → Aside w.db x.db
      → TurnedAway x a v
      → TurnedAway w a v
  later w x v a s t = record {
    refusal = t.refusal;
    untouched = Aside-trans w.db x.db v.db s t.untouched;
  }

  claims-same : (sub sid : Option ℕ) → Moves env same (claims_of env sub sid)
  unfolding claims_of
  claims-same (some sub) (some sid) = search moves_rules
  claims-same none sid = search moves_rules
  claims-same (some sub) none = search moves_rules

  verified-same : (c : Option Claims) → Moves env same (verified_claims env c)
  unfolding verified_claims
  verified-same none = search moves_rules
  verified-same (some c) = claims-same c.sub c.sid

  parsed-same :
      (now : ℕ) (token : Text) (alg : Option Text)
      → Moves env same (parsed_claims env now token alg)
  unfolding parsed_claims
  parsed-same now token none = search moves_rules
  parsed-same now token (some alg) = search (moves_rules, verified-same)

  pub validate-same : (token : Text) → Moves env same (validate_access_token env token)
  unfolding validate_access_token
  validate-same token = search (moves_rules, parsed-same)

  pub find-Aside : (id : ℕ) → Moves env aside (Users.find_by_id env id)
  unfolding Users.find_by_id aside
  find-Aside id = Moves-sql env aside _ (λ now t. Aside-refl t t refl)

  pub touch-Aside : (id : ℕ) → Moves env aside (touch_session env id)
  unfolding touch_session Sessions.touch_activity aside
  touch-Aside id = search (moves_rules, Moves-sql, Aside-touch)

  pub touched-ok :
      (id : ℕ) (w v : World env.redis.State)
      → touch_session env id w ≡ (ok true, v)
      → (s : Session) × Memᴰ s w.db.sessions × (s.id ≡ id) × (s.revoked ≡ false)
  unfolding touch_session Sessions.touch_activity
  touched-ok id w v h =
      let (rows, u, e, k) = >>=-eq-ok _ _ w h in
      let (now, x, e₁, k₁) = >>=-eq-ok _ _ w e in
      let (_, here) = time_now-ok env w x now e₁ in
      let (counted, _) = outcome-eq (sql-ok env _ x u rows k₁) in
      let (some_, _) = outcome-eq k in
      let (s, m, p) =
        count-Mem (λ s. s.id == id && not s.revoked) x.db.sessions
          (ground (arith, counted, some_)) in
      (
        s,
        subst (λ (t : Tables). Memᴰ s t.sessions) here m,
        (==_iff s.id id).0 (ground (arith, p)),
        ground (arith, p),
      )

  -- The relation of an action whose outcome is known.
  pub ran :
      {A : Type 0} (m : App env A) (w v : World env.redis.State) (r : Result A)
      → Moves env aside m
      → m w ≡ (r, v)
      → Aside w.db v.db
  unfolding aside
  ran m w v r k h =
      subst (λ (x : World env.redis.State). Aside w.db x.db) (ap (λ x. x.1) h) (k.at w)

  pub unmoved :
      {A : Type 0} (m : App env A) (w v : World env.redis.State) (r : Result A)
      → Moves env same m
      → m w ≡ (r, v)
      → v.db ≡ w.db
  unfolding same
  unmoved m w v r k h =
      subst (λ (x : World env.redis.State). x.db ≡ w.db) (ap (λ x. x.1) h) (k.at w)
