-- ===== src/Invariants/AccountTable/Kept.antt =====
-- The table of users under each statement and in histories: backend/internal/repository/user.go.
use mathlib.Core.List.{Memᴰ}
use secure_auth_platform.Prelude.{
  suc, ◌<◌, ◌≡◌, refl, sym, ap, subst, ◌∙◌, Bool, true, false, not, ◌&&◌, List, [], ◌∷◌, arith,
  ◌==◌, ◌=t=◌, if◌then◌else◌, change, any, Mem-change,
}
use secure_auth_platform.Models.{User, Tables}
use secure_auth_platform.Env.{Env}
use secure_auth_platform.World.{World}
use secure_auth_platform.World.Moves.{Preorder}
use secure_auth_platform.Repository.Users.{update_row}
use secure_auth_platform.Server.{Operation, serve}
use secure_auth_platform.Server.Runs.{serve-rel}
use secure_auth_platform.Invariants.AccountTable.{
  AreAccounts, UserStep, adds, rewrites, retouches, spares, Step-UserStep,
}

any-none :
    (p : User → Bool) (xs : List User) (x : User) → any p xs ≡ false → Memᴰ x xs → p x ≡ false
unfolding any
any-none p [] x h m = elim m [ ]
any-none p (y ∷ ys) x h (Memᴰ.head e) = ap p e ∙ (ground (arith, h))
any-none p (y ∷ ys) x h (Memᴰ.tail m) = any-none p ys x (ground (arith, h)) m

added-AreAccounts :
    (t : Tables) (x : User) (u : Tables)
    → AreAccounts t
    → x.id ≡ t.next_user
    → any (λ y. y.email =t= x.email) t.users ≡ false
    → u.users ≡ x ∷ t.users
    → u.next_user ≡ suc t.next_user
    → AreAccounts u
added-AreAccounts t x u a i free e n = record {
  bounded = λ y m. below y (subst (Memᴰ y) e m);
  one_row = λ y z m k. row y z (subst (Memᴰ y) e m) (subst (Memᴰ z) e k);
  one_address = λ y z m k. address y z (subst (Memᴰ y) e m) (subst (Memᴰ z) e k);
}
  where
    other : (y : User) → Memᴰ y t.users → y.email ≡ x.email → ⊥
    other y m same =
        let miss = any-none (λ y. y.email =t= x.email) t.users y free m in
        ground (arith, miss, same)

    below : (y : User) → Memᴰ y (x ∷ t.users) → y.id < u.next_user
    below y (Memᴰ.head h) = omega (arith, ap (λ (z : User). z.id) h, i, n)
    below y (Memᴰ.tail m) = omega (arith, a.bounded y m, n)

    fresh : (y : User) → Memᴰ y t.users → x.id ≡ y.id → ⊥
    fresh y m h = omega (arith, a.bounded y m, i, h)

    row : (y z : User) → Memᴰ y (x ∷ t.users) → Memᴰ z (x ∷ t.users) → y.id ≡ z.id → y ≡ z
    row y z (Memᴰ.head h) (Memᴰ.head k) q = h ∙ sym k
    row y z (Memᴰ.head h) (Memᴰ.tail m) q = absurd (fresh z m (sym (ap (λ (w : User). w.id) h) ∙ q))
    row y z (Memᴰ.tail m) (Memᴰ.head k) q =
        absurd (fresh y m (sym (ap (λ (w : User). w.id) k) ∙ sym q))
    row y z (Memᴰ.tail m) (Memᴰ.tail k) q = a.one_row y z m k q

    address :
        (y z : User) → Memᴰ y (x ∷ t.users) → Memᴰ z (x ∷ t.users) → y.email ≡ z.email → y.id ≡ z.id
    address y z (Memᴰ.head h) (Memᴰ.head k) q = ap (λ (w : User). w.id) (h ∙ sym k)
    address y z (Memᴰ.head h) (Memᴰ.tail m) q =
        absurd (other z m (sym q ∙ ap (λ (w : User). w.email) h))
    address y z (Memᴰ.tail m) (Memᴰ.head k) q =
        absurd (other y m (q ∙ ap (λ (w : User). w.email) k))
    address y z (Memᴰ.tail m) (Memᴰ.tail k) q = a.one_address y z m k q

kept_id :
    (b : Bool) (f : User → User) (x : User) → (f x).id ≡ x.id → (if b then f x else x).id ≡ x.id
kept_id true f x h = h
kept_id false f x h = refl

kept_email :
    (b : Bool) (f : User → User) (x : User)
    → (f x).email ≡ x.email
    → (if b then f x else x).email ≡ x.email
kept_email true f x h = h
kept_email false f x h = refl

changed-AreAccounts :
    (t u : Tables) (p : User → Bool) (f : User → User)
    → AreAccounts t
    → ((x : User) → (f x).id ≡ x.id)
    → ((x y : User)
        → Memᴰ x t.users
        → Memᴰ y t.users
        → (if p x then f x else x).email ≡ (if p y then f y else y).email
        → x.id ≡ y.id)
    → u.users ≡ change p f t.users
    → u.next_user ≡ t.next_user
    → AreAccounts u
changed-AreAccounts t u p f a keeps address e n = record {
  bounded = λ y m.
      let (x, k, h) = Mem-change p f t.users (subst (Memᴰ y) e m) in
      omega (arith, a.bounded x k, n, ap (λ (z : User). z.id) h, kept_id (p x) f x (keeps x));
  one_row = λ y z m k q.
      let (x, mx, hx) = Mem-change p f t.users (subst (Memᴰ y) e m) in
      let (w, mw, hw) = Mem-change p f t.users (subst (Memᴰ z) e k) in
      let same = a.one_row x w mx mw (
        sym (kept_id (p x) f x (keeps x))
        ∙ sym (ap (λ (v : User). v.id) hx)
        ∙ q
        ∙ ap (λ (v : User). v.id) hw
        ∙ kept_id (p w) f w (keeps w)) in
      hx ∙ ap (λ v. if p v then f v else v) same ∙ sym hw;
  one_address = λ y z m k q.
      let (x, mx, hx) = Mem-change p f t.users (subst (Memᴰ y) e m) in
      let (w, mw, hw) = Mem-change p f t.users (subst (Memᴰ z) e k) in
      ap (λ (v : User). v.id) hx
      ∙ kept_id (p x) f x (keeps x)
      ∙ address x w mx mw (sym (ap (λ (v : User). v.email) hx) ∙ q ∙ ap (λ (v : User). v.email) hw)
      ∙ sym (kept_id (p w) f w (keeps w))
      ∙ sym (ap (λ (v : User). v.id) hw);
}

-- Rows that were rewritten with one address, where no other account had it.
rewritten_address :
    (b c : Bool) (row x y : User)
    → (x.id == row.id) ≡ b
    → (y.id == row.id) ≡ c
    → (x.email =t= row.email && not (x.id == row.id)) ≡ false
    → (y.email =t= row.email && not (y.id == row.id)) ≡ false
    → (x.email ≡ y.email → x.id ≡ y.id)
    → (if b then update_row row x else x).email ≡ (if c then update_row row y else y).email
    → x.id ≡ y.id
rewritten_address true true row x y i j g h one e = ground (arith, i, j)
rewritten_address true false row x y i j g h one e = absurd (ground (arith, j, h, e))
rewritten_address false true row x y i j g h one e = absurd (ground (arith, i, g, e))
rewritten_address false false row x y i j g h one e = one e

UserStep-AreAccounts : (t u : Tables) → UserStep t u → AreAccounts t → AreAccounts u
UserStep-AreAccounts t u (adds x i free e n) a = added-AreAccounts t x u a i free e n
UserStep-AreAccounts t u (rewrites row free e n) a =
    changed-AreAccounts t u _ _ a (λ x. refl)
      (λ x y m k q.
        rewritten_address (x.id == row.id) (y.id == row.id) row x y refl refl
          (any-none _ t.users x free m) (any-none _ t.users y free k) (a.one_address x y m k) q)
      e n
UserStep-AreAccounts t u (retouches p f keeps e n) a =
    changed-AreAccounts t u p f a (λ x. (keeps x).0)
      (λ x y m k q.
        a.one_address x y m k
          (sym (kept_email (p x) f x (keeps x).1) ∙ q ∙ kept_email (p y) f y (keeps y).1))
      e n
UserStep-AreAccounts t u (spares e n) a = record {
  bounded = λ x m. omega (arith, a.bounded x (subst (Memᴰ x) e m), n);
  one_row = λ x y m k. a.one_row x y (subst (Memᴰ x) e m) (subst (Memᴰ y) e k);
  one_address = λ x y m k. a.one_address x y (subst (Memᴰ x) e m) (subst (Memᴰ y) e k);
}

accounts : Preorder
accounts = record {
  rel = λ t u. AreAccounts t → AreAccounts u;
  refl_at = λ t a. a;
  trans_at = λ t u v f g a. g (f a);
}

-- Whatever operations run, identifiers of users stay distinct and below the next one, and no two
-- accounts come to share an address, if that is so at the start.
pub serve-AreAccounts :
    (env : Env) (os : List Operation) (w : World env.redis.State)
    → AreAccounts w.db
    → AreAccounts (serve env os w).db
unfolding accounts
serve-AreAccounts env os w a =
    serve-rel env accounts (λ t u s. UserStep-AreAccounts t u (Step-UserStep t u s)) os w a
