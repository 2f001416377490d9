-- ===== src/Http/Answers/Reasons.antt =====
-- The statuses of the handlers, traced to what they call: backend/internal.
pub mod Sessions
pub mod Users
pub mod Permissions
use secure_auth_platform.Prelude.{
  ℕ, ◌≡◌, refl, Bool, true, false, Text, Option, none, some, if◌then◌else◌, parse_int64,
}
use secure_auth_platform.Exec.{Result, ok, err, pure}
use secure_auth_platform.Env.{Env}
use secure_auth_platform.World.{World, App}
use secure_auth_platform.Service.Tokens.{TokenClaims}
use secure_auth_platform.Http.{Request, Answer, answer, refused, status_of}
use secure_auth_platform.Http.Params.{for_some, for_id, parse_positive_int64}
use secure_auth_platform.Http.Routes.{Route}
use secure_auth_platform.Http.Answers.Calls.{Explained, early}
use secure_auth_platform.Http.Answers.Statuses.{early_status}

-- The status of what a handler returned.
abbrev pub status_at : {S : Type 0} → Result Answer × S → ℕ
status_at (ok a, s) = status_of a.outcome
status_at (err e, s) = 0

module _ (env : Env) (req : Request) (who : TokenClaims) (w : World env.redis.State)
    (route : Route) where
  -- The status of a handler that is run here has its reason.
  abbrev pub Reason : App env Answer → Type 1
  Reason m = Explained env req who w route (status_at (m w))

  pub for_some-Reason :
      {A : Type 0} (o : Option A) (refusal : Answer) (k : A → App env Answer)
      → (o ≡ none → Explained env req who w route (status_of refusal.outcome))
      → ((a : A) → o ≡ some a → Reason (k a))
      → Reason (for_some env o refusal k)
  unfolding for_some
  for_some-Reason none refusal k f g = f refl
  for_some-Reason (some a) refusal k f g = g a refl

  pub for_id-Reason :
      (raw label : Text) (k : ℕ → App env Answer)
      → (parse_positive_int64 raw ≡ none → Explained env req who w route 400)
      → ((id : ℕ) → parse_positive_int64 raw ≡ some id → Reason (k id))
      → Reason (for_id env raw label k)
  unfolding for_id
  for_id-Reason raw label k f g = for_some-Reason (parse_positive_int64 raw) _ k f g

  pub refuse-Reason :
      (c : Bool) (s : ℕ) (message : Text) (n : App env Answer)
      → (c ≡ true → early_status env route req who ≡ some s)
      → (c ≡ false → Reason n)
      → Reason (if c then pure (answer (refused s message)) else n)
  refuse-Reason true s message n f g = early (f refl)
  refuse-Reason false s message n f g = g refl
