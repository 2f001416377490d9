-- ===== src/Http/AuditHandler.antt =====
-- backend/internal/audit/handler.go
use secure_auth_platform.Prelude.{ℕ, ◌==◌, ◌||◌, ltb, ℤ, pos, negsuc, List, if◌then◌else◌}
use secure_auth_platform.Exec.{Result, ok, err, pure, attempt, ◌>>=◌}
use secure_auth_platform.Models.{AuditLog}
use secure_auth_platform.Env.{Env}
use secure_auth_platform.World.{App}
use secure_auth_platform.Service.Audit
use secure_auth_platform.Http.{Request, logs, replied, failed, Answer, answer}

-- limit <= 0 || limit > 200
unfoldable pub page_limit : ℤ → ℕ
page_limit (pos n) = if n == 0 || ltb 200 n then 50 else n
page_limit (negsuc n) = 50

unfoldable pub page_offset : ℤ → ℕ
page_offset (pos n) = n
page_offset (negsuc n) = 0

abbrev pub listed : Result (List AuditLog) → Answer
listed (ok ls) = answer (replied 200 (logs ls))
listed (err e) = answer (failed e)

module _ (env : Env) where
  unfoldable pub list : Request → App env Answer
  list req = do
    r ← attempt (Audit.list env (page_limit req.limit_query) (page_offset req.offset_query))
    pure (listed r)
