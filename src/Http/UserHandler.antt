-- ===== src/Http/UserHandler.antt =====
-- backend/internal/users/handler.go
use secure_auth_platform.Prelude.{
  ℕ, Bool, false, not, ◌||◌, List, [], Option, none, some, Text, bytes, ◌=t=◌, if◌then◌else◌,
}
use secure_auth_platform.Exec.{
  Error, Result, ok, err, not_found, cannot_deactivate_self, last_admin, email_taken, forbidden,
  invalid_email, password_too_short, password_too_long, password_complexity, password_weak,
  password_pwned, pure, attempt, ◌>>=◌,
}
use secure_auth_platform.Models.{User}
use secure_auth_platform.Env.{Env}
use secure_auth_platform.World.{App}
use secure_auth_platform.Service.Tokens.{TokenClaims}
use secure_auth_platform.Service.UserService
use secure_auth_platform.Service.UserService.{CreateUserInput, UpdateUserInput}
use secure_auth_platform.Service.PermissionService.{list_codes_by_user}
use secure_auth_platform.Http.{
  CreateRequest, UpdateRequest, Request, one_user, many_users, account, Outcome, replied, refused,
  failed, Answer, answer,
}
use secure_auth_platform.Http.Params.{for_some, for_id}

abbrev pub listed : Result (List User) → Answer
listed (ok us) = answer (replied 200 (many_users us))
listed (err e) = answer (failed e)

-- The user of a query, where a miss is not found.
abbrev pub shown : Result User → Answer
shown (ok u) = answer (replied 200 (one_user u))
shown (err not_found) = answer (refused 404 (bytes "user not found"))
shown (err e) = answer (failed e)

abbrev expired_session : Answer
expired_session = answer (refused 401 (bytes "invalid or expired session"))

-- What `Create` and `Update` answer to the errors that both name: `e` is any error.
unfoldable pub validation_answer : Error → Outcome
validation_answer email_taken = refused 409 (bytes "email already in use")
validation_answer invalid_email = refused 400 (bytes "invalid email format")
validation_answer password_too_short =
    refused 400 (bytes "A senha deve possuir pelo menos 12 caracteres.")
validation_answer password_too_long =
    refused 400 (bytes "A senha deve possuir no máximo 128 caracteres.")
validation_answer password_complexity =
    refused 400
      (bytes "A senha deve conter ao menos uma letra maiúscula, uma minúscula e um número.")
validation_answer password_weak =
    refused 400 (bytes "A senha é considerada fraca. Escolha uma senha mais forte.")
validation_answer password_pwned =
    refused 400 (bytes "Esta senha já apareceu em vazamentos públicos e não pode ser utilizada.")
validation_answer e = failed e

unfoldable pub create_answer : Result User → Answer
create_answer (ok u) = answer (replied 201 (one_user u))
create_answer (err e) = answer (validation_answer e)

unfoldable pub update_answer : Result User → Answer
update_answer (ok u) = answer (replied 200 (one_user u))
update_answer (err not_found) = answer (refused 404 (bytes "user not found"))
update_answer (err cannot_deactivate_self) =
    answer (refused 409 (bytes "cannot deactivate your own account"))
update_answer (err last_admin) = answer (refused 409 (bytes "cannot deactivate the last admin"))
update_answer (err forbidden) = answer (refused 403 (bytes "missing permission for this update"))
update_answer (err e) = answer (validation_answer e)

abbrev pub is_blank : Option Text → Bool
is_blank none = false
is_blank (some t) = t =t= []

module _ (env : Env) where
  unfoldable pub list : App env Answer
  list = do r ← attempt (UserService.list env); pure (listed r)

  unfoldable pub get : Request → App env Answer
  get req =
      for_id env req.id_param (bytes "id")
        λ id. do r ← attempt (UserService.find_by_id env id); pure (shown r)

  unfoldable pub account_answer : User → Result (List Text) → App env Answer
  account_answer u (ok codes) = pure (answer (replied 200 (account u codes)))
  account_answer u (err e) = pure (answer (failed e))

  unfoldable pub found_me : ℕ → Result User → App env Answer
  found_me user (err not_found) = pure expired_session
  found_me user (err e) = pure (answer (failed e))
  found_me user (ok u) =
      if u.active
      then (do codes ← attempt (list_codes_by_user env user); account_answer u codes)
      else pure expired_session

  unfoldable pub me : TokenClaims → App env Answer
  me who = do r ← attempt (UserService.find_by_id env who.user_id); found_me who.user_id r

  -- `mail.ParseAddress` gives the address back.
  unfoldable pub valid_email : Text → Bool
  valid_email email = elim (env.libs.parse_address email) [
    | none ↦ false
    | some address ↦ address =t= email
  ]

  unfoldable pub create_with : TokenClaims → CreateRequest → App env Answer
  create_with who body =
      if body.name =t= [] || body.email =t= [] || body.password =t= []
      then pure (answer (refused 400 (bytes "name, email and password are required")))
      else if not (valid_email body.email)
      then pure (answer (refused 400 (bytes "invalid email format")))
      else (do
        r ← attempt (
            UserService.create env who.user_id (record {
              name = body.name;
              email = body.email;
              password = body.password;
              role_id = body.role_id;
            }))
        pure (create_answer r))

  unfoldable pub create : Request → TokenClaims → App env Answer
  create req who =
      for_some env req.create_body (answer (refused 400 (bytes "invalid body"))) (create_with who)

  unfoldable pub is_bad_email : Option Text → Bool
  is_bad_email none = false
  is_bad_email (some email) = not (valid_email email)

  unfoldable pub update_with : TokenClaims → ℕ → UpdateRequest → App env Answer
  update_with who id body =
      if is_blank body.password
      then pure (answer (refused 400 (bytes "password cannot be empty")))
      else if is_bad_email body.email
      then pure (answer (refused 400 (bytes "invalid email format")))
      else (do
        r ← attempt (
            UserService.update env who.user_id id (record {
              name = body.name;
              email = body.email;
              password = body.password;
              role_id = body.role_id;
              active = body.active;
            }))
        pure (update_answer r))

  unfoldable pub update : Request → TokenClaims → App env Answer
  update req who = for_id env req.id_param (bytes "id") λ id.
      for_some env req.update_body (answer (refused 400 (bytes "invalid body")))
        (update_with who id)
