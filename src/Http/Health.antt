-- ===== src/Http/Health.antt =====
-- The check of the platform itself: the handler of /health in backend/internal/app/app.go, given
-- whether the database and Redis answer.
use secure_auth_platform.Prelude.{Bool, bytes, not, if◌then◌else◌}
use secure_auth_platform.Http.{health_ok, replied, refused, Answer, answer}

unfoldable pub health : (postgres_up redis_up : Bool) → Answer
health postgres_up redis_up =
    if not postgres_up
    then answer (refused 503 (bytes "postgres unavailable"))
    else if not redis_up
    then answer (refused 503 (bytes "redis unavailable"))
    else answer (replied 200 health_ok)
