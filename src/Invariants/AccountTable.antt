-- ===== src/Invariants/AccountTable.antt =====
-- The table of users: backend/internal/repository/user.go and its callers.
pub mod Kept
use mathlib.Core.List.{Memᴰ}
use secure_auth_platform.Prelude.{
  ℕ, suc, ◌≤◌, ◌<◌, ◌≡◌, refl, sym, ap, subst, ◌∙◌, Bool, true, false, not, ◌&&◌, ◌||◌, List, [],
  ◌∷◌, Text, arith, inl, inr, ◌==◌, ◌=t=◌, if◌then◌else◌, change, any, Bool-cases, Mem-change,
}
use secure_auth_platform.Models.{User, Tables}
use secure_auth_platform.Env.{Env}
use secure_auth_platform.World.{World}
use secure_auth_platform.World.Moves.{Preorder}
use secure_auth_platform.Repository.Sessions.{insert_session, revoke_rows, touch_rows, purge}
use secure_auth_platform.Repository.Users.{
  insert_user, write_user, rehash_user, update_row, role_exists,
}
use secure_auth_platform.Repository.Permissions.{
  insert_permission, insert_grant, remove_grant, grant_everything, describe, delete_permission,
}
use secure_auth_platform.Repository.Audit.{insert_log}
use secure_auth_platform.Repository.Steps.{
  Step, opened, revoked, touched, purged, enrolled, edited, rehashed, coined, described, dropped,
  granted, ungranted, endowed, logged,
}
use secure_auth_platform.Server.{Operation, serve}
use secure_auth_platform.Server.Runs.{serve-rel}

-- The identifiers are below the next one, no two rows share one, and no two accounts share an
-- address.
pub record AreAccounts (t : Tables) : Type 0 where
  pub bounded : (x : User) → Memᴰ x t.users → x.id < t.next_user
  pub one_row : (x y : User) → Memᴰ x t.users → Memᴰ y t.users → x.id ≡ y.id → x ≡ y
  pub one_address : (x y : User) → Memᴰ x t.users → Memᴰ y t.users → x.email ≡ y.email → x.id ≡ y.id

-- The ways in which a statement bears on the table of users.
pub data UserStep (t u : Tables) : Type 0 where
  adds :
      (x : User)
      → x.id ≡ t.next_user
      → any (λ y. y.email =t= x.email) t.users ≡ false
      → u.users ≡ x ∷ t.users
      → u.next_user ≡ suc t.next_user
      → UserStep t u
  rewrites :
      (x : User)
      → any (λ y. y.email =t= x.email && not (y.id == x.id)) t.users ≡ false
      → u.users ≡ change (λ y. y.id == x.id) (update_row x) t.users
      → u.next_user ≡ t.next_user
      → UserStep t u
  retouches :
      (p : User → Bool) (f : User → User)
      → ((x : User) → ((f x).id ≡ x.id) × ((f x).email ≡ x.email))
      → u.users ≡ change p f t.users
      → u.next_user ≡ t.next_user
      → UserStep t u
  spares : u.users ≡ t.users → u.next_user ≡ t.next_user → UserStep t u

module _ (t u : Tables) where
  spared : (v : Tables) → u ≡ v → v.users ≡ t.users → v.next_user ≡ t.next_user → UserStep t u
  spared v e k n =
      spares (ap (λ (x : Tables). x.users) e ∙ k) (ap (λ (x : Tables). x.next_user) e ∙ n)

  enrolled-UserStep : (x : User) (now : ℕ) → u ≡ (insert_user x now t).1 → UserStep t u
  unfolding insert_user
  enrolled-UserStep x now e =
      elim (Bool-cases (any (λ y. y.email =t= x.email) t.users || not (role_exists x.role_id t))) [
        | inl bad ↦ spares (ground (arith, e, bad)) (ground (arith, e, bad))
        | inr good ↦
            adds (record x { id = t.next_user; created_at = now; updated_at = now }) refl
              (ground (arith, good)) (ground (arith, e, good)) (ground (arith, e, good))
      ]

  edited-UserStep : (x : User) → u ≡ (write_user x t).1 → UserStep t u
  unfolding write_user
  edited-UserStep x e = elim (Bool-cases (any (λ y. y.id == x.id) t.users)) [
    | inr missing ↦ spares (ground (arith, e, missing)) (ground (arith, e, missing))
    | inl found ↦
        elim (Bool-cases (
          any (λ y. y.email =t= x.email && not (y.id == x.id)) t.users
          || not (role_exists x.role_id t))) [
            | inl bad ↦ spares (ground (arith, e, found, bad)) (ground (arith, e, found, bad))
            | inr good ↦
                rewrites x (ground (arith, good)) (ground (arith, e, good, found))
                  (ground (arith, e, good, found))
          ]
  ]

  rehashed-UserStep :
      (id : ℕ) (hash : Text) (now : ℕ) → u ≡ (rehash_user id hash now t).1 → UserStep t u
  unfolding rehash_user
  rehashed-UserStep id hash now e = elim (Bool-cases (any (λ y. y.id == id) t.users)) [
    | inl found ↦
        retouches (λ y. y.id == id) (λ y. record y { password_hash = hash; updated_at = now })
          (λ x. (refl, refl)) (ground (arith, e, found)) (ground (arith, e, found))
    | inr missing ↦ spares (ground (arith, e, missing)) (ground (arith, e, missing))
  ]

  pub Step-UserStep : Step t u → UserStep t u
  unfolding insert_session revoke_rows touch_rows purge insert_permission insert_grant remove_grant
      grant_everything describe delete_permission insert_log
  Step-UserStep (opened s now e) = spared _ e (ground arith) (ground arith)
  Step-UserStep (revoked p now e) = spared _ e (ground arith) (ground arith)
  Step-UserStep (touched id now e) = spared _ e (ground arith) (ground arith)
  Step-UserStep (purged now retention e) = spared _ e (ground arith) (ground arith)
  Step-UserStep (enrolled x now e) = enrolled-UserStep x now e
  Step-UserStep (edited x e) = edited-UserStep x e
  Step-UserStep (rehashed id hash now e) = rehashed-UserStep id hash now e
  Step-UserStep (coined p now e) = spared _ e (ground arith) (ground arith)
  Step-UserStep (described id d e) = spared _ e (ground arith) (ground arith)
  Step-UserStep (dropped id e) = spared _ e (ground arith) (ground arith)
  Step-UserStep (granted user permission e) = spared _ e (ground arith) (ground arith)
  Step-UserStep (ungranted user permission e) = spared _ e (ground arith) (ground arith)
  Step-UserStep (endowed user e) = spared _ e (ground arith) (ground arith)
  Step-UserStep (logged l now e) = spared _ e (ground arith) (ground arith)
