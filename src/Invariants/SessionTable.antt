-- ===== src/Invariants/SessionTable.antt =====
-- The table of sessions: backend/internal/repository/session.go and its callers.
use secure_auth_platform.Prelude.{
  ℕ, suc, ◌≤◌, ◌<◌, ◌≡◌, refl, ap, ◌∙◌, Bool, false, List, [], ◌∷◌, arith, inl, inr, change, select,
  Bool-cases, any, ◌==◌,
}
use secure_auth_platform.Models.{Session, Tables}
use secure_auth_platform.Repository.Sessions.{
  insert_session, revoke_rows, revoke_row, touch_rows, purge,
}
use secure_auth_platform.Repository.Users.{insert_user, write_user, rehash_user}
use secure_auth_platform.Repository.Permissions.{
  insert_permission, insert_grant, remove_grant, grant_everything, describe, delete_permission,
}
use secure_auth_platform.Repository.Audit.{insert_log}
use secure_auth_platform.Repository.Steps.{
  Step, opened, revoked, touched, purged, enrolled, edited, rehashed, coined, described, dropped,
  granted, ungranted, endowed, logged,
}

-- What an update of a row leaves alone. It never takes a revocation back.
pub record Kept (s s' : Session) : Type 0 where
  pub same_id : s'.id ≡ s.id
  pub same_user : s'.user_id ≡ s.user_id
  pub same_hash : s'.refresh_token_hash ≡ s.refresh_token_hash
  pub same_expiry : s'.expires_at ≡ s.expires_at
  pub still_revoked : s'.revoked ≡ false → s.revoked ≡ false

-- The four ways in which a statement bears on the table of sessions.
pub data SessionStep (t u : Tables) : Type 0 where
  adds :
      (s : Session)
      → s.id ≡ t.next_session
      → u.sessions ≡ s ∷ t.sessions
      → u.next_session ≡ suc t.next_session
      → SessionStep t u
  alters :
      (p : Session → Bool) (f : Session → Session)
      → ((s : Session) → Kept s (f s))
      → u.sessions ≡ change p f t.sessions
      → u.next_session ≡ t.next_session
      → SessionStep t u
  removes :
      (p : Session → Bool)
      → u.sessions ≡ select p t.sessions
      → u.next_session ≡ t.next_session
      → SessionStep t u
  spares : u.sessions ≡ t.sessions → u.next_session ≡ t.next_session → SessionStep t u

module _ (t u : Tables) where
  spared :
      (v : Tables)
      → u ≡ v
      → v.sessions ≡ t.sessions
      → v.next_session ≡ t.next_session
      → SessionStep t u
  spared v e k n =
      spares (ap (λ (x : Tables). x.sessions) e ∙ k) (ap (λ (x : Tables). x.next_session) e ∙ n)

  inserted : (s : Session) (now : ℕ) → u ≡ (insert_session s now t).1 → SessionStep t u
  unfolding insert_session
  inserted s now e = elim (Bool-cases (any (λ x. x.id == s.user_id) t.users)) [
    | inl found ↦
        adds (record s { id = t.next_session; created_at = now }) refl (ground arith) (ground arith)
    | inr missing ↦ spares (ground arith) (ground arith)
  ]

  pub Step-SessionStep : Step t u → SessionStep t u
  unfolding revoke_rows revoke_row touch_rows purge insert_user write_user rehash_user
      insert_permission insert_grant remove_grant grant_everything describe delete_permission
      insert_log
  Step-SessionStep (opened s now e) = inserted s now e
  Step-SessionStep (revoked p now e) =
      alters _ _
        (λ s. record {
          same_id = refl;
          same_user = refl;
          same_hash = refl;
          same_expiry = refl;
          still_revoked = λ h. cc;
        })
        (ap (λ (x : Tables). x.sessions) e) (ap (λ (x : Tables). x.next_session) e)
  Step-SessionStep (touched id now e) =
      alters _ _
        (λ s. record {
          same_id = refl;
          same_user = refl;
          same_hash = refl;
          same_expiry = refl;
          still_revoked = λ h. h;
        })
        (ap (λ (x : Tables). x.sessions) e) (ap (λ (x : Tables). x.next_session) e)
  Step-SessionStep (purged now retention e) =
      removes _ (ap (λ (x : Tables). x.sessions) e) (ap (λ (x : Tables). x.next_session) e)
  Step-SessionStep (enrolled x now e) = spared _ e (ground arith) (ground arith)
  Step-SessionStep (edited x e) = spared _ e (ground arith) (ground arith)
  Step-SessionStep (rehashed id hash now e) = spared _ e (ground arith) (ground arith)
  Step-SessionStep (coined p now e) = spared _ e (ground arith) (ground arith)
  Step-SessionStep (described id d e) = spared _ e (ground arith) (ground arith)
  Step-SessionStep (dropped id e) = spared _ e (ground arith) (ground arith)
  Step-SessionStep (granted user permission e) = spared _ e (ground arith) (ground arith)
  Step-SessionStep (ungranted user permission e) = spared _ e (ground arith) (ground arith)
  Step-SessionStep (endowed user e) = spared _ e (ground arith) (ground arith)
  Step-SessionStep (logged l now e) = spared _ e (ground arith) (ground arith)

-- Newest first, the identifiers fall, and all are below the next one: so they are distinct.
abbrev pub Below : ℕ → List Session → Type 0
Below n [] = Unit {0}
Below n (s ∷ ss) = (s.id < n) × Below s.id ss

abbrev pub IsNumbered : Tables → Type 0
IsNumbered t = Below t.next_session t.sessions

pub Below-mono : {m n : ℕ} (ss : List Session) → m ≤ n → Below m ss → Below n ss
Below-mono [] h b = tt
Below-mono (s ∷ ss) h b = (omega arith, b.1)

Below-change :
    (p : Session → Bool) (f : Session → Session) (n : ℕ) (ss : List Session)
    → ((s : Session) → Kept s (f s))
    → Below n ss
    → Below n (change p f ss)
unfolding change
Below-change p f n [] k b = tt
Below-change p f n (s ∷ ss) k b = ground (arith, (k s).same_id, Below-change p f s.id ss k b.1)

pub Below-select :
    (p : Session → Bool) (n : ℕ) (ss : List Session) → Below n ss → Below n (select p ss)
unfolding select
Below-select p n [] b = tt
Below-select p n (s ∷ ss) b =
    ground (arith, Below-select p s.id ss b.1, Below-mono {m = s.id} {n = n} (select p ss))

pub SessionStep-IsNumbered : (t u : Tables) → SessionStep t u → IsNumbered t → IsNumbered u
SessionStep-IsNumbered t u (adds s i e n) b = rw (e, n, i) (omega arith, b)
SessionStep-IsNumbered t u (alters p f k e n) b =
    rw (e, n) (Below-change p f t.next_session t.sessions k b)
SessionStep-IsNumbered t u (removes p e n) b =
    rw (e, n) (Below-select p t.next_session t.sessions b)
SessionStep-IsNumbered t u (spares e n) b = rw (e, n) b
