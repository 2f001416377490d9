-- ===== src/Repository/Sessions.antt =====
-- backend/internal/repository/session.go
use secure_auth_platform.Prelude.{
  ℕ, suc, ◌+◌, Bool, true, false, not, ◌&&◌, ◌||◌, List, ◌∷◌, Option, none, some, Text, ltb, leb,
  ◌==◌, ◌=t=◌, if◌then◌else◌, any, select, order_by, find, count, change,
}
use secure_auth_platform.Exec.{Result, ok, err, fault, not_found, pure, ◌>>=◌}
use secure_auth_platform.Models.{Session, Tables}
use secure_auth_platform.Env.{Env}
use secure_auth_platform.World.{App, sql, time_now}

-- `sql.ErrNoRows` becomes `ErrNotFound`.
abbrev pub or_not_found : {A : Type 0} → Option A → Result A
or_not_found none = err not_found
or_not_found (some a) = ok a

-- revoked = false AND expires_at > now
unfoldable pub is_active : ℕ → Session → Bool
is_active now s = not s.revoked && ltb now s.expires_at

-- SET revoked = true, revoked_at = now
unfoldable pub revoke_row : ℕ → Session → Session
revoke_row now s = record s { revoked = true; revoked_at = some now }

-- COALESCE(revoked_at, created_at)
abbrev pub revocation_time : Session → ℕ
revocation_time s = elim s.revoked_at [ none ↦ s.created_at | some at ↦ at ]

-- `now - retention` is the cutoff, so the retention is added to the other side.
unfoldable pub is_expired : (now retention : ℕ) → Session → Bool
is_expired now retention s =
    ltb (s.expires_at + retention) now || s.revoked && ltb (revocation_time s + retention) now

-- Postgres puts NULL first in a descending order.
later_opt : Option ℕ → Option ℕ → Bool
later_opt none (some b) = true
later_opt (some a) (some b) = ltb b a
later_opt _ none = false

-- ORDER BY last_activity_at DESC, created_at DESC: must the first row stand before the second?
unfoldable pub before : Session → Session → Bool
unfolding later_opt
before s t =
    later_opt s.last_activity_at t.last_activity_at
    || not (later_opt t.last_activity_at s.last_activity_at) && leb t.created_at s.created_at

unfoldable pub insert_session : Session → ℕ → Tables → Result Session × Tables
insert_session s now t =
    if any (λ u. u.id == s.user_id) t.users
    then (let row : Session = record s { id = t.next_session; created_at = now } in
        (ok row, record t { sessions = row ∷ t.sessions; next_session = suc t.next_session }))
    else (err fault, t)

-- UPDATE sessions, on the unrevoked rows that pass the test.
unfoldable pub revoke_rows : (Session → Bool) → ℕ → Tables → Tables
revoke_rows p now t = record t {
  sessions = change (λ s. p s && not s.revoked) (revoke_row now) t.sessions;
}

unfoldable pub touch_rows : (id now : ℕ) → Tables → Tables
touch_rows id now t = record t {
  sessions =
      change (λ s. s.id == id && not s.revoked) (λ s. record s { last_activity_at = some now })
        t.sessions;
}

unfoldable pub purge : (now retention : ℕ) → Tables → Tables
purge now retention t = record t {
  sessions = select (λ s. not (is_expired now retention s)) t.sessions;
}

module _ (env : Env) where
  unfoldable pub create : Session → App env Session
  create s = sql env (insert_session s)

  unfoldable pub find_active_by_token_hash : Text → App env Session
  find_active_by_token_hash hash = do
    now ← time_now env
    sql env (λ _ t.
        (or_not_found (find (λ s. s.refresh_token_hash =t= hash && is_active now s) t.sessions), t))

  unfoldable pub find_by_token_hash : Text → App env Session
  find_by_token_hash hash =
      sql env (λ _ t. (or_not_found (find (λ s. s.refresh_token_hash =t= hash) t.sessions), t))

  unfoldable pub find_by_id : ℕ → App env Session
  find_by_id id = sql env (λ _ t. (or_not_found (find (λ s. s.id == id) t.sessions), t))

  unfoldable pub revoke_where : (Session → Bool) → App env (Unit {0})
  revoke_where p = do now ← time_now env; sql env (λ _ t. (ok tt, revoke_rows p now t))

  unfoldable pub revoke_with_timestamp : ℕ → App env (Unit {0})
  revoke_with_timestamp id = revoke_where (λ s. s.id == id)

  unfoldable pub revoke_all_by_user : ℕ → App env (Unit {0})
  revoke_all_by_user user = revoke_where (λ s. s.user_id == user)

  unfoldable pub revoke_all_by_user_except_current : (user current : ℕ) → App env (Unit {0})
  revoke_all_by_user_except_current user current =
      revoke_where (λ s. s.user_id == user && not (s.id == current))

  -- The number of rows that were touched.
  unfoldable pub touch_activity : ℕ → App env ℕ
  touch_activity id = do
    now ← time_now env
    sql env (λ _ t. (ok (count (λ s. s.id == id && not s.revoked) t.sessions), touch_rows id now t))

  unfoldable pub count_by_user_id : ℕ → App env ℕ
  count_by_user_id user = sql env (λ _ t. (ok (count (λ s. s.user_id == user) t.sessions), t))

  unfoldable pub count_active_by_user_id : ℕ → App env ℕ
  count_active_by_user_id user = do
    now ← time_now env
    sql env (λ _ t. (ok (count (λ s. s.user_id == user && is_active now s) t.sessions), t))

  unfoldable pub find_active_by_user_id : ℕ → App env (List Session)
  find_active_by_user_id user = do
    now ← time_now env
    sql env (λ _ t.
        (ok (order_by before (select (λ s. s.user_id == user && is_active now s) t.sessions)), t))

  -- The rows to delete are first read, then deleted by the same condition.
  unfoldable pub delete_expired : ℕ → App env (ℕ × List Session)
  delete_expired retention = do
    now ← time_now env
    expired ← sql env (λ _ t. (ok (select (is_expired now retention) t.sessions), t))
    deleted ←
        sql env (λ _ t. (ok (count (is_expired now retention) t.sessions), purge now retention t))
    pure (deleted, expired)
