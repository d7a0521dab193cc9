-- ===== src/Users/Table.antt =====
-- The queries of users.rs on a table whose ids are distinct, as its UNIQUE constraint keeps them.
use hotchkiss_io.Base.{
  All, All-append, Bool-cases, List, [], arith, inl, inr, none, refl, some, sym, ℕ, ◌++◌, ◌+◌, ◌==◌,
  ◌∷◌, ◌≡◌, ◌≢◌,
}
use hotchkiss_io.Roles.{Role, admin, anonymous}
use hotchkiss_io.Users.{UserDao, Uuid, count_admins, delete_row, find_by_uuid, set_role}

-- 1 for an admin, 0 for anyone else.
abbrev pub weight : Role → ℕ
weight admin = 1
weight _ = 0

module _ {W : Type 0} where
  abbrev pub Fresh : Uuid → List (UserDao W) → Type 0
  Fresh uuid = All (λ u. u.id ≢ uuid)

  abbrev pub Distinct : List (UserDao W) → Type 0
  Distinct [] = Unit
  Distinct (u ∷ t) = Fresh u.id t × Distinct t

  pub count_admins-cons :
      (u : UserDao W) (t : List (UserDao W)) → count_admins (u ∷ t) ≡ weight u.role + count_admins t
  unfolding count_admins
  count_admins-cons u t = ground arith

  pub count_admins-append :
      (t s : List (UserDao W)) → count_admins (t ++ s) ≡ count_admins t + count_admins s
  count_admins-append [] s = unfold count_admins in omega arith
  count_admins-append (u ∷ t) s =
      omega (arith, count_admins-cons u t, count_admins-cons u (t ++ s), count_admins-append t s)

  Fresh-of_none : (t : List (UserDao W)) (uuid : Uuid) → find_by_uuid t uuid ≡ none → Fresh uuid t
  unfolding find_by_uuid
  Fresh-of_none [] uuid h = tt
  Fresh-of_none (u ∷ t) uuid h = (ground arith, Fresh-of_none t uuid (ground arith))

  pub Distinct-append :
      (t : List (UserDao W)) (u : UserDao W)
      → Distinct t
      → find_by_uuid t u.id ≡ none
      → Distinct (t ++ u ∷ [])
  Distinct-append [] u d h = (tt, tt)
  Distinct-append (v ∷ t) u d h =
      let fresh : Fresh u.id (v ∷ t) = Fresh-of_none (v ∷ t) u.id h in
      (
        All-append (λ w. w.id ≢ v.id) t (u ∷ []) d.0 (λ e. fresh.0 (sym e), tt),
        Distinct-append t u d.1 (unfold find_by_uuid in ground arith),
      )

  -- An update of an id that no row has changes nothing.
  pub set_role_of_Fresh :
      (t : List (UserDao W)) (uuid : Uuid) (r : Role) → Fresh uuid t → set_role t uuid r ≡ t
  unfolding set_role
  set_role_of_Fresh [] uuid r f = refl
  set_role_of_Fresh (u ∷ t) uuid r f = ground (arith, set_role_of_Fresh t uuid r f.1)

  pub delete_row_of_Fresh :
      (t : List (UserDao W)) (uuid : Uuid) → Fresh uuid t → delete_row t uuid ≡ t
  unfolding delete_row
  delete_row_of_Fresh [] uuid f = refl
  delete_row_of_Fresh (u ∷ t) uuid f = ground (arith, delete_row_of_Fresh t uuid f.1)

  -- The number of admins after a change of role, exactly.
  pub count_admins-set_role :
      (t : List (UserDao W)) (uuid : Uuid) (r : Role) {u : UserDao W}
      → Distinct t
      → find_by_uuid t uuid ≡ some u
      → count_admins (set_role t uuid r) + weight u.role ≡ count_admins t + weight r
  unfolding find_by_uuid set_role
  count_admins-set_role [] uuid r d h = cc
  count_admins-set_role (v ∷ t) uuid r {u} d h = elim (Bool-cases (v.id == uuid)) [
    | inl y ↦
        let e : uuid ≡ v.id = ground arith in
        let kept : set_role t uuid r ≡ t = set_role_of_Fresh t uuid r (rw e d.0) in
        ground (arith, kept, count_admins-cons v t, count_admins-cons (record v { role = r }) t)
    | inr n ↦ ground (
      arith,
      count_admins-set_role t uuid r {u = u} d.1,
      count_admins-cons v t,
      count_admins-cons v (set_role t uuid r),
    )
  ]

  pub count_admins-delete_row :
      (t : List (UserDao W)) (uuid : Uuid) {u : UserDao W}
      → Distinct t
      → find_by_uuid t uuid ≡ some u
      → count_admins (delete_row t uuid) + weight u.role ≡ count_admins t
  unfolding find_by_uuid delete_row
  count_admins-delete_row [] uuid d h = cc
  count_admins-delete_row (v ∷ t) uuid {u} d h = elim (Bool-cases (v.id == uuid)) [
    | inl y ↦
        let e : uuid ≡ v.id = ground arith in
        let kept : delete_row t uuid ≡ t = delete_row_of_Fresh t uuid (rw e d.0) in
        ground (arith, kept, count_admins-cons v t)
    | inr n ↦ ground (
      arith,
      count_admins-delete_row t uuid {u = u} d.1,
      count_admins-cons v t,
      count_admins-cons v (delete_row t uuid),
    )
  ]

  All-set_role :
      (P : UserDao W → Type 0) (uuid : Uuid) (r : Role)
      → ((u : UserDao W) → P u → P (record u { role = r }))
      → (t : List (UserDao W)) → All P t
      → All P (set_role t uuid r)
  unfolding set_role
  All-set_role P uuid r keep [] h = tt
  All-set_role P uuid r keep (u ∷ t) h = elim (Bool-cases (u.id == uuid)) [
    | inl y ↦ rw y (keep u h.0, All-set_role P uuid r keep t h.1)
    | inr n ↦ rw n (h.0, All-set_role P uuid r keep t h.1)
  ]

  pub Distinct-set_role :
      (t : List (UserDao W)) (uuid : Uuid) (r : Role) → Distinct t → Distinct (set_role t uuid r)
  unfolding set_role
  Distinct-set_role [] uuid r d = tt
  Distinct-set_role (u ∷ t) uuid r d =
      let fresh = All-set_role (λ v. v.id ≢ u.id) uuid r (λ v h. h) t d.0 in
      elim (Bool-cases (u.id == uuid)) [
        | inl y ↦ rw y (fresh, Distinct-set_role t uuid r d.1)
        | inr n ↦ rw n (fresh, Distinct-set_role t uuid r d.1)
      ]

  pub All-role-set_role :
      (uuid : Uuid) (r : Role)
      → r ≢ anonymous
      → (t : List (UserDao W)) → All (λ u. u.role ≢ anonymous) t
      → All (λ u. u.role ≢ anonymous) (set_role t uuid r)
  All-role-set_role uuid r h = All-set_role (λ u. u.role ≢ anonymous) uuid r (λ u k. h)

  pub All-delete_row :
      (P : UserDao W → Type 0) (t : List (UserDao W)) (uuid : Uuid)
      → All P t
      → All P (delete_row t uuid)
  unfolding delete_row
  All-delete_row P [] uuid h = tt
  All-delete_row P (u ∷ t) uuid h = elim (Bool-cases (u.id == uuid)) [
    | inl y ↦ rw y (All-delete_row P t uuid h.1)
    | inr n ↦ rw n (h.0, All-delete_row P t uuid h.1)
  ]

  pub Distinct-delete_row :
      (t : List (UserDao W)) (uuid : Uuid) → Distinct t → Distinct (delete_row t uuid)
  unfolding delete_row
  Distinct-delete_row [] uuid d = tt
  Distinct-delete_row (u ∷ t) uuid d = elim (Bool-cases (u.id == uuid)) [
    | inl y ↦ rw y (Distinct-delete_row t uuid d.1)
    | inr n ↦ rw n (All-delete_row (λ v. v.id ≢ u.id) t uuid d.0, Distinct-delete_row t uuid d.1)
  ]
