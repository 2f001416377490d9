-- ===== src/Http/Answers/Reasons/Users.antt =====
-- Why the handlers of backend/internal/users/handler.go answer as they do.
use secure_auth_platform.Prelude.{
  ℕ, ◌≡◌, refl, ap, not, ◌||◌, List, [], some, Text, ◌=t=◌, inl, inr, Bool-cases,
}
use secure_auth_platform.Exec.{Error, Result, ok, err, attempt, ◌>>=◌}
use secure_auth_platform.Models.{User}
use secure_auth_platform.Env.{Env}
use secure_auth_platform.World.{World}
use secure_auth_platform.Service.Tokens.{TokenClaims}
use secure_auth_platform.Service.UserService
use secure_auth_platform.Http.{CreateRequest, UpdateRequest, Request, status_of}
use secure_auth_platform.Http.UserHandler
use secure_auth_platform.Http.UserHandler.{is_blank, is_bad_email, valid_email}
use secure_auth_platform.Http.Params.{parse_positive_int64}
use secure_auth_platform.Http.Routes.{Route}
use secure_auth_platform.Http.Answers.Statuses.{
  early_status, needs, result_status, success_status, error_status, account_status, codes_status,
}
use secure_auth_platform.Http.Answers.Calls.{
  Explained, early, called, list_users, create_user, show_user, update_user, me_missed, me_inactive,
  me_active,
}
use secure_auth_platform.Http.Answers.Reasons.{
  Reason, status_at, for_some-Reason, for_id-Reason, refuse-Reason,
}

listed-status :
    (r : Result (List User))
    → status_of (UserHandler.listed r).outcome ≡ result_status Route.get_users r
unfolding result_status success_status error_status
listed-status (ok us) = refl
listed-status (err _) = refl

shown-status :
    (r : Result User) → status_of (UserHandler.shown r).outcome ≡ result_status Route.get_user r
unfolding result_status success_status error_status
shown-status (ok u) = refl
shown-status (err Error.not_found) = refl
shown-status (err _) = refl

validation-status : (e : Error) → status_of (UserHandler.validation_answer e) ≡ account_status e
unfolding UserHandler.validation_answer account_status
validation-status Error.email_taken = refl
validation-status Error.invalid_email = refl
validation-status Error.password_too_short = refl
validation-status Error.password_too_long = refl
validation-status Error.password_complexity = refl
validation-status Error.password_weak = refl
validation-status Error.password_pwned = refl
validation-status _ = refl

create_answer-status :
    (r : Result User)
    → status_of (UserHandler.create_answer r).outcome ≡ result_status Route.post_users r
unfolding UserHandler.create_answer result_status success_status error_status
create_answer-status (ok u) = refl
create_answer-status (err e) = validation-status e

update_answer-status :
    (r : Result User)
    → status_of (UserHandler.update_answer r).outcome ≡ result_status Route.patch_user r
unfolding UserHandler.update_answer result_status success_status error_status
update_answer-status (ok u) = refl
update_answer-status (err Error.not_found) = refl
update_answer-status (err Error.cannot_deactivate_self) = refl
update_answer-status (err Error.last_admin) = refl
update_answer-status (err Error.forbidden) = refl
update_answer-status (err e) = validation-status e

module _ (env : Env) where
  account_answer-status :
      (u : User) (r : Result (List Text)) (w : World env.redis.State)
      → status_at (UserHandler.account_answer env u r w) ≡ codes_status r
  unfolding UserHandler.account_answer
  account_answer-status u (ok codes) w = refl
  account_answer-status u (err e) w = refl

  module _ (req : Request) (who : TokenClaims) (w : World env.redis.State) where
    pub list-Reason : Reason env req who w Route.get_users (UserHandler.list env)
    unfolding UserHandler.list early_status attempt ◌>>=◌
    list-Reason = called _ _ list_users refl (listed-status _)

    pub get-Reason : Reason env req who w Route.get_user (UserHandler.get env req)
    unfolding UserHandler.get early_status needs attempt ◌>>=◌
    get-Reason =
        for_id-Reason env req who w Route.get_user req.id_param _ _ (λ e. early (rw e refl))
          λ id e. called _ _ (show_user id e) (rw e refl) (shown-status _)

    create_with-Reason :
        (b : CreateRequest)
        → req.create_body ≡ some b
        → Reason env req who w Route.post_users (UserHandler.create_with env who b)
    unfolding UserHandler.create_with early_status needs attempt ◌>>=◌
    create_with-Reason b e =
        refuse-Reason env req who w Route.post_users
          (b.name =t= [] || b.email =t= [] || b.password =t= []) 400 _ _ (λ bad. rw (e, bad) refl)
          λ full.
            refuse-Reason env req who w Route.post_users (not (valid_email env b.email)) 400 _ _
              (λ bad. rw (e, full, bad) refl)
              λ good.
                called _ _ (create_user b e) (rw (e, full, good) refl) (create_answer-status _)

    pub create-Reason : Reason env req who w Route.post_users (UserHandler.create env req who)
    unfolding UserHandler.create early_status needs
    create-Reason =
        for_some-Reason env req who w Route.post_users req.create_body _ _ (λ e. early (rw e refl))
          create_with-Reason

    update_with-Reason :
        (id : ℕ) (b : UpdateRequest)
        → parse_positive_int64 req.id_param ≡ some id
        → req.update_body ≡ some b
        → Reason env req who w Route.patch_user (UserHandler.update_with env who id b)
    unfolding UserHandler.update_with early_status needs attempt ◌>>=◌
    update_with-Reason id b e f =
        refuse-Reason env req who w Route.patch_user (is_blank b.password) 400 _ _
          (λ bad. rw (e, f, bad) refl)
          λ full.
            refuse-Reason env req who w Route.patch_user (is_bad_email env b.email) 400 _ _
              (λ bad. rw (e, f, full, bad) refl)
              λ good.
                called _ _ (update_user id b e f) (rw (e, f, full, good) refl)
                  (update_answer-status _)

    pub update-Reason : Reason env req who w Route.patch_user (UserHandler.update env req who)
    unfolding UserHandler.update early_status needs
    update-Reason =
        for_id-Reason env req who w Route.patch_user req.id_param _ _ (λ e. early (rw e refl))
          λ id e.
            for_some-Reason env req who w Route.patch_user req.update_body _ _
              (λ f. early (rw (e, f) refl)) λ b f. update_with-Reason id b e f

    found_me-Reason :
        (r : Result User) (v : World env.redis.State)
        → UserService.find_by_id env who.user_id w ≡ (r, v)
        → Explained env req who w Route.get_me
            (status_at (UserHandler.found_me env who.user_id r v))
    unfolding UserHandler.found_me error_status attempt ◌>>=◌
    found_me-Reason (err Error.not_found) v h = me_missed Error.not_found (ap (λ x. x.0) h) refl
    found_me-Reason (err e) v h = me_missed e (ap (λ x. x.0) h) refl
    found_me-Reason (ok u) v h = elim (Bool-cases u.active) [
      | inl here ↦ rw here (me_active u v h here (account_answer-status _ _ _))
      | inr off ↦ rw off (me_inactive u v h off)
    ]

    pub me-Reason : Reason env req who w Route.get_me (UserHandler.me env who)
    unfolding UserHandler.me attempt ◌>>=◌
    me-Reason = found_me-Reason _ _ refl
