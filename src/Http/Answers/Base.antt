-- ===== src/Http/Answers/Base.antt =====
-- Handlers that answer: what is shown of each of them.
use secure_auth_platform.Prelude.{
  ℕ, ℤ, pos, negsuc, ◌≡◌, refl, sym, ap, ◌∙◌, Bool, true, false, ◌||◌, List, [], ◌∷◌, Option, none,
  some, Text, bytes, ◌==◌, inl, inr, arith, if◌then◌else◌,
}
use secure_auth_platform.Exec.{Result, ok, pure, attempt, ◌>>=◌}
use secure_auth_platform.Env.{Env}
use secure_auth_platform.World.{World, App, time_now, ticked}
use secure_auth_platform.Http.{Answer, status_of}
use secure_auth_platform.Http.Params.{for_some, for_id}

-- The status codes of the API.
abbrev pub is_listed : ℕ → Bool
is_listed s =
    s == 200
    || s == 201
    || s == 204
    || s == 400
    || s == 401
    || s == 403
    || s == 404
    || s == 409
    || s == 429
    || s == 500
    || s == 503

-- A handler that answers, in every state, with a status of the API.
pub record Answers (env : Env) (m : App env Answer) : Type 0 where
  pub at :
      (w : World env.redis.State)
      → (a : Answer) × (v : World env.redis.State) × (m w ≡ (ok a, v))
        × (is_listed (status_of a.outcome) ≡ true)

module _ (env : Env) where
  pub Answers-pure : (a : Answer) → is_listed (status_of a.outcome) ≡ true → Answers env (pure a)
  Answers-pure a h = record { at = λ w. (a, w, refl, h) }

  pub Answers-attempt :
      {A : Type 0} (m : App env A) (k : Result A → App env Answer)
      → ((r : Result A) → Answers env (k r))
      → Answers env (attempt m >>= k)
  unfolding attempt ◌>>=◌
  Answers-attempt m k h = record { at = λ w. (h (m w).0).at (m w).1 }

  pub Answers-time_now :
      (k : ℕ → App env Answer) → ((n : ℕ) → Answers env (k n)) → Answers env (time_now env >>= k)
  unfolding time_now ◌>>=◌
  Answers-time_now k h = record { at = λ w. (h (env.clock w.tick)).at (ticked w) }

  pub Answers-if :
      (b : Bool) (m n : App env Answer)
      → Answers env m
      → Answers env n
      → Answers env (if b then m else n)
  Answers-if true m n h k = h
  Answers-if false m n h k = k

  pub Answers-for_some :
      {A : Type 0} (o : Option A) (a : Answer) (k : A → App env Answer)
      → is_listed (status_of a.outcome) ≡ true
      → ((x : A) → Answers env (k x))
      → Answers env (for_some env o a k)
  unfolding for_some
  Answers-for_some none a k r h = Answers-pure a r
  Answers-for_some (some x) a k r h = h x

  pub Answers-for_id :
      (raw label : Text) (k : ℕ → App env Answer)
      → ((x : ℕ) → Answers env (k x))
      → Answers env (for_id env raw label k)
  unfolding for_id
  Answers-for_id raw label k h = Answers-for_some _ _ k refl h

pub ruleset answer_rules = (
  Answers-pure, Answers-attempt, Answers-time_now, Answers-if, Answers-for_some, Answers-for_id,
  refl,
)
