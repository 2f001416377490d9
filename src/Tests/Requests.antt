-- ===== src/Tests/Requests.antt =====
-- Requests to a small platform.
use mathlib.Core.List.{Memᴰ}
use secure_auth_platform.Prelude.{
  ◌≤◌, ◌≡◌, refl, sym, ap, ◌∙◌, [], ◌∷◌, none, some, bytes, ◌⊎◌, pos, length, arith, has_prefix,
  trim_prefix, Text-discrete, find, count, change, select, order_by,
}
use secure_auth_platform.Exec.{ok, ◌>>=◌, attempt}
use secure_auth_platform.Models.{User, AuditLog}
use secure_auth_platform.World.{World, time_now, sql}
use secure_auth_platform.Service.Tokens.{
  TokenClaims, validate_access_token, parsed_claims, is_rsa, verified_claims, claims_of,
}
use secure_auth_platform.Repository.Users
use secure_auth_platform.Repository.Sessions
use secure_auth_platform.Repository.Permissions
use secure_auth_platform.Service.Refresh.{touch_session}
use secure_auth_platform.Service.PermissionService.{list_codes_by_user}
use secure_auth_platform.Service.UserService
use secure_auth_platform.Http.Middleware
use secure_auth_platform.Http.UserHandler
use secure_auth_platform.Http.{
  LoginRequest, Request, account, logs, Cookie, replied, Answer, answer,
}
use secure_auth_platform.Http.Routes.{Route, guarded, guard_of, handler_of, serve_route}
use secure_auth_platform.Http.Gate.{TurnedAway}
use secure_auth_platform.Http.Gate.Entry.{LetIn, serve_route_gated}
use secure_auth_platform.Http.Answers.Requests.{Accounted, serve_route_answers}
use secure_auth_platform.Http.Pages.{audit_page_bounded}
use secure_auth_platform.Http.AuthHandler
use secure_auth_platform.Http.AuditHandler
use secure_auth_platform.Http.Params.{for_some}
use secure_auth_platform.Http.Cookies.{login_cookie_sound, refresh_cookie_sound, CookieOf}
use secure_auth_platform.Service.Login.Soundness.{Authentic}
use secure_auth_platform.Service.Audit
use secure_auth_platform.Repository.Audit as AuditTable
use secure_auth_platform.Server.{serve}
use secure_auth_platform.Invariants.Lifecycle.{Lives, life, serve_refines}
use secure_auth_platform.Invariants.AccountTable.{AreAccounts}
use secure_auth_platform.Invariants.AccountTable.Kept.{serve-AreAccounts}
use secure_auth_platform.Tests.Credentials.{member_world, entered, login_pair, login_ok}
use secure_auth_platform.Tests.Histories.{pair, refreshed, refreshed_ok, history}
use secure_auth_platform.Example.{env, world, tables, user, Memory}

abbrev req : Request
req = record {
  ip = 3 ∷ [];
  user_agent = [];
  authorization = bytes "Bearer x";
  refresh_cookie = 99 ∷ [];
  id_param = bytes "17";
  permission_id_param = [];
  limit_query = pos 500;
  offset_query = pos 0;
  login_body = none;
  create_body = none;
  update_body = none;
  permission_body = none;
  description_body = none;
  grant_body = none;
}

abbrev me_world : World Memory
me_world = (serve_route env Route.get_me req world).1

me_ok :
    serve_route env Route.get_me req world ≡ (ok (answer (replied 200 (account user []))), me_world)
unfolding serve_route guarded guard_of Middleware.auth has_prefix trim_prefix bytes ◌>>=◌ attempt
    Middleware.on_claims validate_access_token time_now parsed_claims is_rsa Text-discrete
    verified_claims claims_of Middleware.on_user Users.find_by_id sql find Middleware.on_touched
    touch_session Sessions.touch_activity Sessions.touch_rows count change handler_of UserHandler.me
    UserHandler.found_me UserHandler.account_answer UserService.find_by_id list_codes_by_user
    Permissions.list_codes_by_user_id Permissions.codes_of select
me_ok = refl

serve_route_gated_example :
    TurnedAway env world (answer (replied 200 (account user []))) me_world
    ⊎ ((who : TokenClaims) × (u : World Memory) × LetIn env (guard_of Route.get_me) req world who u
        × (handler_of env Route.get_me req who u
            ≡ (ok (answer (replied 200 (account user []))), me_world)))
unfolding guard_of
serve_route_gated_example =
    serve_route_gated env Route.get_me req world me_world (answer (replied 200 (account user [])))
      refl me_ok

serve_route_answers_example :
    (a : Answer) × (v : World Memory) × (serve_route env Route.delete_user_permission req world
      ≡ (ok a, v))
    × Accounted env Route.delete_user_permission req world a v
serve_route_answers_example = serve_route_answers env Route.delete_user_permission req world

abbrev login_body : LoginRequest
login_body = record { email = 7 ∷ []; password = 9 ∷ [] }

abbrev login_req : Request
login_req = record req { login_body = some login_body }

abbrev login_cookie : Cookie
login_cookie = record { value = 3 ∷ []; expires = 1004 }

logged_in :
    AuthHandler.login env login_req member_world
    ≡ (ok (AuthHandler.with_tokens login_pair), entered)
unfolding AuthHandler.login AuthHandler.login_with for_some attempt ◌>>=◌ AuthHandler.login_answer
    Text-discrete
logged_in = rw login_ok refl

login_cookie_sound_example :
    (body : LoginRequest) × (some login_body ≡ some body)
    × (u : User) × Authentic env member_world.db body.email body.password u
login_cookie_sound_example =
    login_cookie_sound env login_req member_world entered (AuthHandler.with_tokens login_pair)
      login_cookie logged_in refl

abbrev refresh_req : Request
refresh_req = record req { ip = [] }

abbrev refresh_cookie : Cookie
refresh_cookie = record { value = 5 ∷ []; expires = 1006 }

request_refreshed :
    AuthHandler.refresh env refresh_req world ≡ (ok (AuthHandler.with_tokens pair), refreshed)
unfolding AuthHandler.refresh attempt ◌>>=◌ AuthHandler.refresh_answer Text-discrete
request_refreshed = rw refreshed_ok refl

refresh_cookie_sound_example :
    CookieOf env refresh_req world (AuthHandler.with_tokens pair) refresh_cookie
refresh_cookie_sound_example =
    refresh_cookie_sound env refresh_req world refreshed (AuthHandler.with_tokens pair)
      refresh_cookie request_refreshed refl

abbrev entry : AuditLog
entry = record {
  id = 1;
  user_id = none;
  action = [];
  entity = [];
  entity_id = none;
  old_data = none;
  new_data = none;
  created_at = 0;
}

abbrev logged_world : World Memory
logged_world = record world { db = record tables { audit_logs = entry ∷ [] } }

abbrev page : Answer
page = answer (replied 200 (logs (entry ∷ [])))

abbrev paged_world : World Memory
paged_world = (AuditHandler.list env req logged_world).1

page_ok : AuditHandler.list env req logged_world ≡ (ok page, paged_world)
unfolding AuditHandler.list Audit.list AuditTable.list attempt ◌>>=◌ sql AuditHandler.page_limit
    AuditHandler.page_offset order_by
page_ok = refl

audit_page_bounded_example : length (entry ∷ []) ≤ 200
audit_page_bounded_example =
    audit_page_bounded env req logged_world paged_world page (entry ∷ []) page_ok refl

serve_refines_example : Lives (life world.db 1) (life (serve env history world).db 1)
serve_refines_example = serve_refines env history world 1 (omega arith, tt)

accounts_here : AreAccounts world.db
accounts_here = record {
  bounded = λ x m. elim m [
    | Memᴰ.head e ↦ omega (arith, ap (λ (u : User). u.id) e)
    | Memᴰ.tail k ↦ elim k [ ]
  ];
  one_row = λ x y m k e. only x m ∙ sym (only y k);
  one_address = λ x y m k e. ap (λ (u : User). u.id) (only x m ∙ sym (only y k));
}
  where
    only : (x : User) → Memᴰ x (user ∷ []) → x ≡ user
    only x (Memᴰ.head e) = e
    only x (Memᴰ.tail k) = elim k [ ]

serve-AreAccounts_example : AreAccounts (serve env history world).db
serve-AreAccounts_example = serve-AreAccounts env history world accounts_here
