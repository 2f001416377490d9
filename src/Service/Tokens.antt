-- ===== src/Service/Tokens.antt =====
-- backend/internal/service/auth.go: tokens, and the creation of a session
pub mod Runs
use secure_auth_platform.Prelude.{
  ℕ, ◌+◌, ◌-◌, ◌/◌, ◌%◌, Bool, ◌||◌, [], ◌∷◌, Option, none, some, Text, bytes, ltb, ◌=t=◌,
  if◌then◌else◌, false,
}
use secure_auth_platform.Exec.{invalid_token, pure, fail, ◌>>=◌, ◌>>◌}
use secure_auth_platform.Models.{User, Session, text, number}
use secure_auth_platform.Env.{Env, Claims}
use secure_auth_platform.World.{App, time_now, read_random, or_fault}
use secure_auth_platform.Repository.Sessions
use secure_auth_platform.Service.Audit.{log}

-- A time is a number of nanoseconds; `Unix` gives whole seconds.
abbrev pub second : ℕ
second = 1000000000

unix : ℕ → ℕ
unix t = t / second

hex_digit : ℕ → ℕ
hex_digit d = if ltb d 10 then b'0' + d else b'a' + (d - 10)

-- encoding/hex
unfoldable pub hex_encode : Text → Text
unfolding hex_digit
hex_encode [] = []
hex_encode (b ∷ t) = hex_digit (b / 16) ∷ hex_digit (b % 16) ∷ hex_encode t

pub record TokenPair : Type 0 where
  pub access_token : Text
  pub refresh_token : Text
  pub refresh_expires_at : ℕ
  pub session_id : ℕ

pub record TokenClaims : Type 0 where
  pub user_id : ℕ
  pub session_id : ℕ

-- The algorithms of `*jwt.SigningMethodRSA`.
unfoldable pub is_rsa : Text → Bool
is_rsa alg = alg =t= bytes "RS256" || alg =t= bytes "RS384" || alg =t= bytes "RS512"

-- `if s != "" { p = &s }`
unfoldable pub non_empty : Text → Option Text
non_empty [] = none
non_empty (c ∷ s) = some (c ∷ s)

module _ (env : Env) where
  unfoldable pub hash_token : Text → Text
  hash_token token = hex_encode (env.libs.sha256 token)

  unfoldable pub generate_refresh_token : App env Text
  generate_refresh_token = do raw ← read_random env 32; pure (env.libs.base64_url raw)

  unfoldable pub generate_access_token : User → ℕ → App env Text
  unfolding unix
  generate_access_token user session_id = do
    now ← time_now env
    or_fault env (
        env.libs.jwt_sign user.id session_id user.email (unix now)
          (unix (now + env.config.access_ttl)))

  -- The row that is inserted, but for the columns that the database fills.
  unfoldable pub new_session :
      User → (hash : Text) → (expires_at now : ℕ) → (ip user_agent : Text) → Session
  new_session user hash expires_at now ip user_agent = record {
    id = 0;
    user_id = user.id;
    refresh_token_hash = hash;
    expires_at = expires_at;
    revoked = false;
    revoked_at = none;
    ip_address = non_empty ip;
    user_agent = non_empty user_agent;
    last_activity_at = some now;
    created_at = 0;
  }

  unfoldable pub create_session : User → (ip user_agent : Text) → App env TokenPair
  create_session user ip user_agent = do
    refresh_token ← generate_refresh_token
    start ← time_now env
    let expires_at = start + env.config.refresh_ttl
    now ← time_now env
    session ←
        Sessions.create env
          (new_session user (hash_token refresh_token) expires_at now ip user_agent)
    access_token ← generate_access_token user session.id
    log env (some user.id) (bytes "session.created") (bytes "session") (some session.id) none
        (some ((bytes "sessionId", number session.id) ∷ (bytes "ip", text ip) ∷ []))
    pure (record {
      access_token = access_token;
      refresh_token = refresh_token;
      refresh_expires_at = expires_at;
      session_id = session.id;
    })

  -- The claims of a verified token; a claim that is not a number is an error.
  unfoldable pub claims_of : (sub sid : Option ℕ) → App env TokenClaims
  claims_of (some sub) (some sid) = pure (record { user_id = sub; session_id = sid })
  claims_of none sid = fail invalid_token
  claims_of (some sub) none = fail invalid_token

  unfoldable pub verified_claims : Option Claims → App env TokenClaims
  verified_claims none = fail invalid_token
  verified_claims (some c) = claims_of c.sub c.sid

  -- The key is handed out only for an RSA algorithm.
  unfoldable pub parsed_claims : ℕ → Text → Option Text → App env TokenClaims
  parsed_claims now token none = fail invalid_token
  parsed_claims now token (some alg) =
      if is_rsa alg then verified_claims (env.libs.jwt_parse now token) else fail invalid_token

  unfoldable pub validate_access_token : Text → App env TokenClaims
  validate_access_token token = do
    now ← time_now env
    parsed_claims now token (env.libs.jwt_alg token)
