-- ===== src/Lib.antt =====
-- secure-auth-platform: the backend, a session, user and permission service in Go.
--
-- The program. The environment is read and the parts are put together (backend/cmd/api/main.go,
-- backend/internal/app/app.go). Fiber finds the row of the table of routes
-- (backend/routes/routes.go) for a request; middleware (backend/middleware) stands in front of the
-- handlers (backend/internal/auth, users, permissions, audit). Handlers call services
-- (backend/internal/service); services call repositories (backend/internal/repository), which run
-- one SQL statement each on PostgreSQL, and the caches (backend/cache), which send commands to Redis.
-- A job deletes dead sessions every hour, and the first start creates an administrator.
--
-- The files.
--   Prelude: Boolean tests, lists, signed integers, and Go strings as lists of bytes.
--   Exec: Go functions that return a value or an error and change state.
--   Models: backend/internal/models/models.go; the database is the list of the rows of each table,
--     newest first, with the next value of each identity column.
--   Env: what the program calls and does not implement: the Redis client, the hashing, JWT, JSON
--     and unicode libraries, the random source, the clock and the configuration. All are parameters.
--   World: the state that requests share, one statement, one call of Redis; World.Moves: how an
--     action may change the tables; World.Outcomes: what a call that succeeded did.
--   Cache: tiered_ratelimit.go, permissions.go and last_login.go of backend/cache.
--   Repository: backend/internal/repository. Repository.Steps is the step relation of the tables:
--     one constructor for each statement that writes; Repository.Runs says that each statement is
--     a run of such steps, and the modules named Runs say it of each operation.
--   Password, PasswordPolicy: backend/internal/password/password.go and user_validation.go.
--   PermissionMatch: permission_match.go.
--   Service: auth.go (Tokens, Login, Refresh), permission.go, permission_catalog.go,
--     permission_validation.go, role.go (PermissionService), user.go, user_authz.go (UserService) and
--     audit.go (Audit) of backend/internal/service.
--   Http: what Fiber hands to a handler and what the handler answers, with errorHandler of app.go;
--     Params, AuthHandler, UserHandler, PermissionHandler, AuditHandler: the handlers; Middleware:
--     auth.go and permission.go of backend/middleware; Routes: the table, and `serve_route`, a
--     request from the first handler to the last; Health: the check of app.go. Http.Runs is about the
--     steps of the tables, Http.Answers about status codes, with a table of them in Http.Answers.Statuses
--     and the service call of each row in Http.Answers.Calls, Http.Gate about what stands in front,
--     Http.Cookies and Http.Pages about what the answers hold.
--   Server: the jobs of app.go; requests, jobs and the operations of the services that may change
--     the tables or a cache as a type, and a history of operations, each of which starts where the
--     one before it ended.
--   Invariants: the tables in histories; Invariants.Lifecycle: the life of a session as a machine
--     of its own.
--   Startup: EnvVars and Main: backend/cmd/api/main.go; App: New of app.go, with
--     backend/database/database.go and backend/cache/redis.go; Flushing: New with its call of
--     FlushAll, for the environment that the configuration makes; Keys: jwt_keys.go; GeoIp:
--     backend/internal/geoip.
--   Example, Tests: a concrete platform, and the theorems at concrete inputs.
--
-- How the code is read. Function names are those of the Go code in snake case. Numbers, identifiers
-- and times are natural numbers; a duration is in nanoseconds. Any statement may fail, and then
-- changes nothing; a change that was made before an error stays, as in the Go code. Each outside
-- call has a number, and the environment says what the clock, the random source and the database
-- do at that number. A context, a timeout and a log line are left out. The elapsed time of an
-- impossible-travel alert is zero if the clock went back. Recursion on fuel is
-- used twice: for the count of repeated patterns of a password, where the fuel is the number of
-- bytes, and for the loop of FlushAll, where it is a bound on the pages of the scan. An identifier
-- in a body that is negative is handed over as 0; a negative duration of the environment is a
-- signed number in Startup and does not occur in Env.
--
-- A row that breaks a uniqueness or a foreign key of the migrations is refused; the lengths of
-- VARCHAR columns are left out, and a statement that breaks one counts as one that fails by the
-- environment.
--
-- Not modelled: the parsing of requests and the JSON of responses, which are Fiber's; the constant
-- attributes of the cookie; the pool of connections, the listener, signals and the shutdown; two
-- operations that interleave inside one another, but for two refreshes (Service.Refresh.Race).
pub mod Cache
pub mod Env
pub mod Example
pub mod Exec
pub mod Http
pub mod Invariants
pub mod Models
pub mod Password
pub mod PasswordPolicy
pub mod PermissionMatch
pub mod Prelude
pub mod Repository
pub mod Server
pub mod Service
pub mod Startup
pub mod Tests
pub mod World
