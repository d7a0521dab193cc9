-- ===== src/Users/LastAdmin.antt =====
-- No sequence of registrations and admin actions locks the site's owner out.
use hotchkiss_io.Base.{
  All, All-append, Bool-cases, List, Option, [], arith, if◌then◌else◌, inl, inr, leb, length, none,
  not, refl, some, ◌&&◌, ◌++◌, ◌==◌, ◌∷◌, ◌≡◌, ◌≢◌, ◌≤◌, ◌⊎◌,
}
use hotchkiss_io.Roles.{Role, admin, anonymous, family, registered, same_role}
use hotchkiss_io.Users.{
  UserDao, Uuid, change_role, count_admins, create, delete_row, delete_user, find_by_uuid,
  remove_found, set_role, set_user_role,
}
use hotchkiss_io.Users.Table.{
  All-delete_row, All-role-set_role, Distinct, Distinct-append, Distinct-delete_row,
  Distinct-set_role, count_admins-append, count_admins-delete_row, count_admins-set_role,
}

-- What changes the table: a registration, and the two admin handlers with any arguments.
pub data AccountEvent (W : Type 0) : Type 0 where
  register : UserDao W → AccountEvent W
  move_role : Uuid → Role → AccountEvent W
  remove : Uuid → AccountEvent W

module _ {W : Type 0} where
  -- A registration that the table refuses leaves it as it was.
  unfoldable pub apply_event : List (UserDao W) → AccountEvent W → List (UserDao W)
  apply_event t (register u) = elim (create t u) [ none ↦ t | some (t', u') ↦ t' ]
  apply_event t (move_role uuid r) = (set_user_role t uuid r).1
  apply_event t (remove uuid) = (delete_user t uuid).1

  unfoldable pub run_events : List (UserDao W) → List (AccountEvent W) → List (UserDao W)
  run_events t [] = t
  run_events t (e ∷ es) = run_events (apply_event t e) es

  pub record IsSafe (t : List (UserDao W)) : Type 0 where
    pub distinct : Distinct t
    pub roles : All (λ u. u.role ≢ anonymous) t
    pub has_admin : (t ≡ []) ⊎ (1 ≤ count_admins t)

  -- A table in which some user is found has an admin.
  count_admins_pos :
      (t : List (UserDao W)) (uuid : Uuid) {u : UserDao W}
      → IsSafe t
      → find_by_uuid t uuid ≡ some u
      → 1 ≤ count_admins t
  unfolding find_by_uuid
  count_admins_pos t uuid s e = elim s.has_admin [
    | inl nothing ↦ absurd (ground (arith, e, nothing))
    | inr pos ↦ pos
  ]

  -- The first user to register is the admin.
  first_admin :
      (t : List (UserDao W)) (u : UserDao W)
      → t ≡ []
      → 1
        ≤ count_admins (t ++ (record u { role = if length t == 0 then admin else registered } ∷ []))
  first_admin t u e = rw e (unfold count_admins in omega arith)

  create-IsSafe :
      (t : List (UserDao W)) (u u' : UserDao W) (t' : List (UserDao W))
      → IsSafe t
      → create t u ≡ some (t', u')
      → IsSafe t'
  unfolding create
  create-IsSafe t u u' t' s h =
      let added = record u { role = if length t == 0 then admin else registered } in
      let unused : find_by_uuid t added.id ≡ none = ground arith in
      let e : t' ≡ t ++ added ∷ [] = ground arith in
      rw e (record {
        distinct = Distinct-append t added s.distinct unused;
        roles = All-append (λ v. v.role ≢ anonymous) t (added ∷ []) s.roles (ground arith, tt);
        has_admin = inr (elim s.has_admin [
          | inl nothing ↦ first_admin t u nothing
          | inr pos ↦ omega (arith, count_admins-append t (added ∷ []))
        ]);
      })

  set_role-IsSafe :
      (t : List (UserDao W)) (uuid : Uuid) (r : Role)
      → IsSafe t
      → r ≢ anonymous
      → 1 ≤ count_admins (set_role t uuid r)
      → IsSafe (set_role t uuid r)
  set_role-IsSafe t uuid r s n pos = record {
    distinct = Distinct-set_role t uuid r s.distinct;
    roles = All-role-set_role uuid r n t s.roles;
    has_admin = inr pos;
  }

  delete_row-IsSafe :
      (t : List (UserDao W)) (uuid : Uuid)
      → IsSafe t
      → 1 ≤ count_admins (delete_row t uuid)
      → IsSafe (delete_row t uuid)
  delete_row-IsSafe t uuid s pos = record {
    distinct = Distinct-delete_row t uuid s.distinct;
    roles = All-delete_row (λ v. v.role ≢ anonymous) t uuid s.roles;
    has_admin = inr pos;
  }

  -- The guard of the handler keeps an admin.
  change_role-IsSafe :
      (t : List (UserDao W)) (uuid : Uuid) (r : Role) (found : Option (UserDao W))
      → IsSafe t
      → r ≢ anonymous
      → find_by_uuid t uuid ≡ found
      → IsSafe (change_role t uuid r found).1
  unfolding change_role
  change_role-IsSafe t uuid r none s n e = s
  change_role-IsSafe t uuid r (some u) s n e =
      let pos = count_admins_pos t uuid s e in
      let sum = count_admins-set_role t uuid r s.distinct e in
      elim (Bool-cases
        (same_role u.role admin && not (same_role r admin) && leb (count_admins t) 1)) [
          | inl refused ↦ rw refused s
          | inr done ↦ rw done (set_role-IsSafe t uuid r s n (ground arith))
        ]

  set_user_role-IsSafe :
      (t : List (UserDao W)) (uuid : Uuid) (r : Role) → IsSafe t → IsSafe (set_user_role t uuid r).1
  unfolding set_user_role
  set_user_role-IsSafe t uuid anonymous s = s
  set_user_role-IsSafe t uuid admin s = change_role-IsSafe t uuid admin _ s (λ e. cc) refl
  set_user_role-IsSafe t uuid family s = change_role-IsSafe t uuid family _ s (λ e. cc) refl
  set_user_role-IsSafe t uuid registered s = change_role-IsSafe t uuid registered _ s (λ e. cc) refl

  remove_found-IsSafe :
      (t : List (UserDao W)) (uuid : Uuid) (found : Option (UserDao W))
      → IsSafe t
      → find_by_uuid t uuid ≡ found
      → IsSafe (remove_found t uuid found).1
  unfolding remove_found
  remove_found-IsSafe t uuid none s e = s
  remove_found-IsSafe t uuid (some u) s e =
      let pos = count_admins_pos t uuid s e in
      let sum = count_admins-delete_row t uuid s.distinct e in
      elim (Bool-cases (same_role u.role admin && leb (count_admins t) 1)) [
        | inl refused ↦ rw refused s
        | inr done ↦ rw done (delete_row-IsSafe t uuid s (ground arith))
      ]

  apply_event-IsSafe :
      (t : List (UserDao W)) (e : AccountEvent W) → IsSafe t → IsSafe (apply_event t e)
  unfolding apply_event delete_user
  apply_event-IsSafe t (register u) s = registered_safe (create t u) refl
    where
      registered_safe :
          (o : Option (List (UserDao W) × UserDao W))
          → create t u ≡ o
          → IsSafe (elim o [ none ↦ t | some (t', u') ↦ t' ])
      registered_safe none e = s
      registered_safe (some (t', u')) e = create-IsSafe t u u' t' s e
  apply_event-IsSafe t (move_role uuid r) s = set_user_role-IsSafe t uuid r s
  apply_event-IsSafe t (remove uuid) s = remove_found-IsSafe t uuid _ s refl

  run_events-IsSafe :
      (t : List (UserDao W)) (es : List (AccountEvent W)) → IsSafe t → IsSafe (run_events t es)
  unfolding run_events
  run_events-IsSafe t [] s = s
  run_events-IsSafe t (e ∷ es) s = run_events-IsSafe (apply_event t e) es (apply_event-IsSafe t e s)

  -- From an empty table, after any sequence of registrations, role changes and deletions: the ids
  -- are distinct, nobody holds the role Anonymous, and there is an admin unless the table is empty.
  pub never_locked_out : (es : List (AccountEvent W)) → IsSafe (run_events [] es)
  never_locked_out es =
      run_events-IsSafe [] es (record { distinct = tt; roles = tt; has_admin = inl refl })
