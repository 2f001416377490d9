-- ===== src/Http/Answers/Users.antt =====
-- The handlers of backend/internal/users/handler.go answer.
use secure_auth_platform.Prelude.{ℕ, ◌≡◌, refl, true, List, Text, arith}
use secure_auth_platform.Exec.{Error, Result, ok, err}
use secure_auth_platform.Models.{User}
use secure_auth_platform.Env.{Env}
use secure_auth_platform.Service.Tokens.{TokenClaims}
use secure_auth_platform.Http.{CreateRequest, UpdateRequest, Request, status_of}
use secure_auth_platform.Http.UserHandler
use secure_auth_platform.Http.Answers.Base.{is_listed, Answers, answer_rules}

validation_answer-listed :
    (r : Error) → is_listed (status_of (UserHandler.validation_answer r)) ≡ true
unfolding UserHandler.validation_answer
validation_answer-listed Error.email_taken = refl
validation_answer-listed Error.invalid_email = refl
validation_answer-listed Error.password_too_short = refl
validation_answer-listed Error.password_too_long = refl
validation_answer-listed Error.password_complexity = refl
validation_answer-listed Error.password_weak = refl
validation_answer-listed Error.password_pwned = refl
validation_answer-listed _ = refl

create_answer-listed :
    (r : Result User) → is_listed (status_of (UserHandler.create_answer r).outcome) ≡ true
unfolding UserHandler.create_answer
create_answer-listed (ok x) = refl
create_answer-listed (err e) = validation_answer-listed e

update_answer-listed :
    (r : Result User) → is_listed (status_of (UserHandler.update_answer r).outcome) ≡ true
unfolding UserHandler.update_answer
update_answer-listed (ok x) = refl
update_answer-listed (err Error.not_found) = refl
update_answer-listed (err Error.cannot_deactivate_self) = refl
update_answer-listed (err Error.last_admin) = refl
update_answer-listed (err Error.forbidden) = refl
update_answer-listed (err e) = ground (arith, validation_answer-listed e)

shown-listed : (r : Result User) → is_listed (status_of (UserHandler.shown r).outcome) ≡ true
shown-listed (ok x) = refl
shown-listed (err Error.not_found) = refl
shown-listed (err _) = refl

listed-listed :
    (r : Result (List User)) → is_listed (status_of (UserHandler.listed r).outcome) ≡ true
listed-listed (ok x) = refl
listed-listed (err e) = refl

module _ (env : Env) where
  pub list-Answers : Answers env (UserHandler.list env)
  unfolding UserHandler.list
  list-Answers = search (answer_rules, listed-listed) depth 8

  pub get-Answers : (req : Request) → Answers env (UserHandler.get env req)
  unfolding UserHandler.get
  get-Answers req = search (answer_rules, shown-listed) depth 8

  pub account_answer-Answers :
      (u : User) (r : Result (List Text)) → Answers env (UserHandler.account_answer env u r)
  unfolding UserHandler.account_answer
  account_answer-Answers u (ok c) = search answer_rules
  account_answer-Answers u (err e) = search answer_rules

  pub found_me-Answers : (id : ℕ) (r : Result User) → Answers env (UserHandler.found_me env id r)
  unfolding UserHandler.found_me
  found_me-Answers id (ok u) = search (answer_rules, account_answer-Answers) depth 8
  found_me-Answers id (err Error.not_found) = search answer_rules
  found_me-Answers id (err _) = search answer_rules

  pub me-Answers : (who : TokenClaims) → Answers env (UserHandler.me env who)
  unfolding UserHandler.me
  me-Answers who = search (answer_rules, found_me-Answers) depth 8

  pub create_with-Answers :
      (who : TokenClaims) (body : CreateRequest)
      → Answers env (UserHandler.create_with env who body)
  unfolding UserHandler.create_with
  create_with-Answers who body = search (answer_rules, create_answer-listed) depth 8

  pub create-Answers :
      (req : Request) (who : TokenClaims) → Answers env (UserHandler.create env req who)
  unfolding UserHandler.create
  create-Answers req who = search (answer_rules, create_with-Answers) depth 8

  pub update_with-Answers :
      (who : TokenClaims) (id : ℕ) (body : UpdateRequest)
      → Answers env (UserHandler.update_with env who id body)
  unfolding UserHandler.update_with
  update_with-Answers who id body = search (answer_rules, update_answer-listed) depth 8

  pub update-Answers :
      (req : Request) (who : TokenClaims) → Answers env (UserHandler.update env req who)
  unfolding UserHandler.update
  update-Answers req who = search (answer_rules, update_with-Answers) depth 8
