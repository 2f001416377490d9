-- ===== src/Http.antt =====
-- What the handlers of the API take and give. Fiber parses requests and writes responses: a
-- request is what Fiber hands to a handler.
pub mod Params
pub mod AuthHandler
pub mod UserHandler
pub mod PermissionHandler
pub mod AuditHandler
pub mod Middleware
pub mod Routes
pub mod Health
pub mod Runs
pub mod Answers
pub mod Gate
pub mod Pages
pub mod Cookies
use secure_auth_platform.Prelude.{ℕ, ℤ, Bool, List, Option, none, some, Text, bytes}
use secure_auth_platform.Exec.{Error}
use secure_auth_platform.Models.{User, Role, Permission, Session, AuditLog}

-- loginRequest
pub record LoginRequest : Type 0 where
  pub email : Text
  pub password : Text

-- createRequest
pub record CreateRequest : Type 0 where
  pub name : Text
  pub email : Text
  pub password : Text
  pub role_id : Option ℕ

-- updateRequest
pub record UpdateRequest : Type 0 where
  pub name : Option Text
  pub email : Option Text
  pub password : Option Text
  pub role_id : Option ℕ
  pub active : Option Bool

-- createPermissionRequest
pub record CreatePermissionRequest : Type 0 where
  pub code : Text
  pub description : Text

-- A body is what `BodyParser` makes of it for the type of the handler, and `none` if that fails. A
-- number in a body that is negative is handed over as 0, which is no identifier.
pub record Request : Type 0 where
  pub ip : Text
  pub user_agent : Text
  pub authorization : Text
  pub refresh_cookie : Text
  pub id_param : Text
  pub permission_id_param : Text
  pub limit_query : ℤ
  pub offset_query : ℤ
  pub login_body : Option LoginRequest
  pub create_body : Option CreateRequest
  pub update_body : Option UpdateRequest
  pub permission_body : Option CreatePermissionRequest
  pub description_body : Option Text
  pub grant_body : Option ℕ

-- What a handler writes into the body of a response.
pub data Content : Type 0 where
  nothing : Content
  message : Text → Content
  access_token : Text → Content
  one_user : User → Content
  many_users : List User → Content
  account : User → List Text → Content
  sessions : List (Session × Bool) → Content
  one_permission : Permission → Content
  many_permissions : List Permission → Content
  many_roles : List Role → Content
  logs : List AuditLog → Content
  health_ok : Content

-- The refresh cookie, if the handler sets it: its value and its end.
pub record Cookie : Type 0 where
  pub value : Text
  pub expires : ℕ

-- `refused` is a `*fiber.Error`, `failed` any other error that a handler returns.
pub data Outcome : Type 0 where
  replied : (status : ℕ) → Content → Outcome
  refused : (status : ℕ) → Text → Outcome
  failed : Error → Outcome

-- The headers that are set stay set when the handler returns an error.
pub record Answer : Type 0 where
  pub cookie : Option Cookie
  pub retry_after : Option ℕ
  pub outcome : Outcome

abbrev pub answer : Outcome → Answer
answer o = record { cookie = none; retry_after = none; outcome = o }

pub record Response : Type 0 where
  pub cookie : Option Cookie
  pub retry_after : Option ℕ
  pub status : ℕ
  pub content : Content

abbrev pub status_of : Outcome → ℕ
status_of (replied status c) = status
status_of (refused status m) = status
status_of (failed e) = 500

abbrev pub content_of : Outcome → Content
content_of (replied status c) = c
content_of (refused status m) = message m
content_of (failed e) = message (bytes "internal server error")

-- `errorHandler`, for the answers that are errors
unfoldable pub respond : Answer → Response
respond a = record {
  cookie = a.cookie;
  retry_after = a.retry_after;
  status = status_of a.outcome;
  content = content_of a.outcome;
}
