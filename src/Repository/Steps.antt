-- ===== src/Repository/Steps.antt =====
-- The changes that statements make to the tables, and sequences of such changes.
use secure_auth_platform.Prelude.{ℕ, ◌≡◌, refl, Bool, Text}
use secure_auth_platform.Models.{Session, User, Permission, AuditLog, Tables}
use secure_auth_platform.Env.{Env}
use secure_auth_platform.Exec.{Result}
use secure_auth_platform.World.{sql}
use secure_auth_platform.World.Moves.{Preorder, Moves, Moves-sql}
use secure_auth_platform.Repository.Sessions.{insert_session, revoke_rows, touch_rows, purge}
use secure_auth_platform.Repository.Users.{insert_user, write_user, rehash_user}
use secure_auth_platform.Repository.Permissions.{
  insert_permission, insert_grant, remove_grant, grant_everything, describe, delete_permission,
}
use secure_auth_platform.Repository.Audit.{insert_log}

-- One statement, successful or refused.
pub data Step (t u : Tables) : Type 0 where
  opened : (s : Session) (now : ℕ) → u ≡ (insert_session s now t).1 → Step t u
  revoked : (p : Session → Bool) (now : ℕ) → u ≡ revoke_rows p now t → Step t u
  touched : (id now : ℕ) → u ≡ touch_rows id now t → Step t u
  purged : (now retention : ℕ) → u ≡ purge now retention t → Step t u
  enrolled : (x : User) (now : ℕ) → u ≡ (insert_user x now t).1 → Step t u
  edited : (x : User) → u ≡ (write_user x t).1 → Step t u
  rehashed : (id : ℕ) (hash : Text) (now : ℕ) → u ≡ (rehash_user id hash now t).1 → Step t u
  coined : (p : Permission) (now : ℕ) → u ≡ (insert_permission p now t).1 → Step t u
  described : (id : ℕ) (d : Text) → u ≡ (describe id d t).1 → Step t u
  dropped : (id : ℕ) → u ≡ (delete_permission id t).1 → Step t u
  granted : (user permission : ℕ) → u ≡ (insert_grant user permission t).1 → Step t u
  ungranted : (user permission : ℕ) → u ≡ remove_grant user permission t → Step t u
  endowed : (user : ℕ) → u ≡ (grant_everything user t).1 → Step t u
  logged : (l : AuditLog) (now : ℕ) → u ≡ (insert_log l now t).1 → Step t u

pub data Run (t : Tables) : Tables → Type 0 where
  here : Run t t
  next : {u v : Tables} → Run t u → Step u v → Run t v

pub Run-trans : (t u v : Tables) → Run t u → Run u v → Run t v
Run-trans t u v r here = r
Run-trans t u v r (next {u = x} q s) = next (Run-trans t u x r q) s

pub runs : Preorder
runs = record { rel = Run; refl_at = λ t. here; trans_at = Run-trans }

-- What every step respects, every run respects.
pub Run-rel :
    (r : Preorder) → ((t u : Tables) → Step t u → r.rel t u) → (t u : Tables) → Run t u → r.rel t u
Run-rel r k t u here = r.refl_at t
Run-rel r k t u (next {u = x} q s) = r.trans_at t x u (Run-rel r k t x q) (k x u s)

pub Runs-sql :
    (env : Env) {A : Type 0} (f : ℕ → Tables → Result A × Tables)
    → ((now : ℕ) (t : Tables) → Run t (f now t).1)
    → Moves env runs (sql env f)
unfolding runs
Runs-sql env f k = Moves-sql env runs f k

-- One step as a run, for each statement.
module _ (t : Tables) where
  pub opened-Run : (s : Session) (now : ℕ) → Run t (insert_session s now t).1
  opened-Run s now = next here (opened s now refl)

  pub revoked-Run : (p : Session → Bool) (now : ℕ) → Run t (revoke_rows p now t)
  revoked-Run p now = next here (revoked p now refl)

  pub touched-Run : (id now : ℕ) → Run t (touch_rows id now t)
  touched-Run id now = next here (touched id now refl)

  pub purged-Run : (now retention : ℕ) → Run t (purge now retention t)
  purged-Run now retention = next here (purged now retention refl)

  pub enrolled-Run : (x : User) (now : ℕ) → Run t (insert_user x now t).1
  enrolled-Run x now = next here (enrolled x now refl)

  pub edited-Run : (x : User) → Run t (write_user x t).1
  edited-Run x = next here (edited x refl)

  pub rehashed-Run : (id : ℕ) (hash : Text) (now : ℕ) → Run t (rehash_user id hash now t).1
  rehashed-Run id hash now = next here (rehashed id hash now refl)

  pub coined-Run : (p : Permission) (now : ℕ) → Run t (insert_permission p now t).1
  coined-Run p now = next here (coined p now refl)

  pub described-Run : (id : ℕ) (d : Text) → Run t (describe id d t).1
  described-Run id d = next here (described id d refl)

  pub dropped-Run : (id : ℕ) → Run t (delete_permission id t).1
  dropped-Run id = next here (dropped id refl)

  pub granted-Run : (user permission : ℕ) → Run t (insert_grant user permission t).1
  granted-Run user permission = next here (granted user permission refl)

  pub ungranted-Run : (user permission : ℕ) → Run t (remove_grant user permission t)
  ungranted-Run user permission = next here (ungranted user permission refl)

  pub endowed-Run : (user : ℕ) → Run t (grant_everything user t).1
  endowed-Run user = next here (endowed user refl)

  pub logged-Run : (l : AuditLog) (now : ℕ) → Run t (insert_log l now t).1
  logged-Run l now = next here (logged l now refl)

pub ruleset step_rules = (
  Runs-sql, opened-Run, revoked-Run, touched-Run, purged-Run, enrolled-Run, edited-Run,
  rehashed-Run, coined-Run, described-Run, dropped-Run, granted-Run, ungranted-Run, endowed-Run,
  logged-Run,
)

pub runs-refl : (t : Tables) → runs.rel t t
unfolding runs
runs-refl t = here

pub Run-of_runs : (t u : Tables) → runs.rel t u → Run t u
unfolding runs
Run-of_runs t u r = r
