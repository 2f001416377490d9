-- ===== src/Http/Pages.antt =====
-- How much a page of the audit log holds: backend/internal/audit/handler.go.
use secure_auth_platform.Prelude.{
  ℕ, zero, suc, ◌≤◌, ◌<◌, ◌≡◌, ap, ◌∙◌, List, [], ◌∷◌, ℤ, pos, negsuc, arith, length, take,
}
use secure_auth_platform.Exec.{Result, ok, err, >>=-eq-ok, attempt-ok, outcome-eq}
use secure_auth_platform.Models.{AuditLog}
use secure_auth_platform.Env.{Env}
use secure_auth_platform.World.{World}
use secure_auth_platform.World.Outcomes.{sql-ok}
use secure_auth_platform.Repository.Audit as Table
use secure_auth_platform.Service.Audit
use secure_auth_platform.Http.{Request, logs, replied, Answer}
use secure_auth_platform.Http.AuditHandler.{page_limit, listed, list}

length-take : {A : Type 0} (n : ℕ) (xs : List A) → length (take n xs) ≤ n
length-take zero xs = omega arith
length-take (suc n) [] = omega arith
length-take (suc n) (x ∷ xs) = omega (arith, length-take n xs)

page_limit_bounds : (q : ℤ) → (0 < page_limit q) × (page_limit q ≤ 200)
unfolding page_limit
page_limit_bounds (pos n) = ground arith
page_limit_bounds (negsuc n) = ground arith

module _ (env : Env) where
  page_length :
      (limit offset : ℕ) (w v : World env.redis.State) (ls : List AuditLog)
      → Audit.list env limit offset w ≡ (ok ls, v)
      → length ls ≤ limit
  unfolding Audit.list Table.list
  page_length limit offset w v ls h =
      let (seen, _) = outcome-eq (sql-ok env _ w v ls h) in
      omega (arith, ap (λ (x : List AuditLog). length x) seen, length-take limit _)

  listed-logs :
      (r : Result (List AuditLog)) (ls : List AuditLog)
      → (listed r).outcome ≡ replied 200 (logs ls)
      → r ≡ ok ls
  listed-logs (ok xs) ls h = cc
  listed-logs (err e) ls h = cc

  -- A page of the audit log has at most 200 entries, whatever the request asks for.
  pub audit_page_bounded :
      (req : Request) (w v : World env.redis.State) (a : Answer) (ls : List AuditLog)
      → list env req w ≡ (ok a, v)
      → a.outcome ≡ replied 200 (logs ls)
      → length ls ≤ 200
  unfolding list
  audit_page_bounded req w v a ls h k =
      let (r, u, e, l) = >>=-eq-ok _ _ w h in
      let (made, _) = outcome-eq l in
      let got = listed-logs r ls (ap (λ (x : Answer). x.outcome) made ∙ k) in
      let page =
        page_length (page_limit req.limit_query) _ w u ls
          (attempt-ok _ w e ∙ ap (λ (x : Result (List AuditLog)). (x, u)) got) in
      omega (arith, page, page_limit_bounds req.limit_query)
