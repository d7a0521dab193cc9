-- ===== src/Middleware/Identity.antt =====
-- Where the identity of a request comes from, once both identity layers have run.
use hotchkiss_io.Base.{
  Bool-cases, Option, Option-cases, arith, false, inl, inr, none, refl, some, true, ℕ, ◌+◌, ◌<◌,
  ◌>>=◌, ◌≡◌, ◌≤◌,
}
use hotchkiss_io.Text.{Text}
use hotchkiss_io.Fallible.{Fallible, done, failed}
use hotchkiss_io.Roles.{admin}
use hotchkiss_io.Users.{UserDao, Uuid}
use hotchkiss_io.Session.{
  AuthenticationState, Request, Session, SessionData, authenticated, from_request_parts, nobody,
  role_of,
}
use hotchkiss_io.Middleware.{
  Lookups, api_key_auth, bearer_token, refresh_found, refresh_session_role, resolve, touch,
}

module _ {W : Type 0} (db : Lookups W) where
  -- The identity that the authorization layers read; `failed` is a rejected request.
  unfoldable pub identity : ℕ → Request W → Fallible (SessionData W)
  identity now req = from_request_parts (refresh_session_role db now (api_key_auth db req))

  -- The ways to be an admin: a live API key of a user whose row says admin; a session whose user's
  -- row says admin; or a session that says so while its refresh failed, because the query for that
  -- user or the refresh layer's read of the session did.
  pub data AdminGrounds (req : Request W) : Type 0 where
    by_key :
        (token : Text) (key : Uuid × ℕ) (u : UserDao W)
        → bearer_token db req ≡ some token
        → db.authenticate_key token ≡ done (some key)
        → db.find_user key.0 ≡ done (some u)
        → u.role ≡ admin
        → AdminGrounds req
    by_session :
        (s : Session W) (d : SessionData W) (user fresh : UserDao W)
        → req.session ≡ some s
        → s.stored ≡ done (some d)
        → d.auth_state ≡ authenticated user
        → db.find_user user.id ≡ done (some fresh)
        → fresh.role ≡ admin
        → AdminGrounds req
    by_stale_session :
        (s : Session W) (d : SessionData W) (user : UserDao W)
        → req.session ≡ some s
        → s.stored ≡ done (some d)
        → d.auth_state ≡ authenticated user
        → db.find_user user.id ≡ failed
        → user.role ≡ admin
        → AdminGrounds req
    by_unread_session :
        (s : Session W) (d : SessionData W) (user : UserDao W)
        → req.session ≡ some s
        → s.first_read_fails ≡ true
        → s.stored ≡ done (some d)
        → d.auth_state ≡ authenticated user
        → user.role ≡ admin
        → AdminGrounds req

  -- What `resolve` found when it found something.
  resolve_inv :
      (token : Text) (d : SessionData W)
      → resolve db token ≡ some d
      → (key : Uuid × ℕ) × (u : UserDao W) × (db.authenticate_key token ≡ done (some key))
        × (db.find_user key.0 ≡ done (some u))
        × (d.auth_state ≡ authenticated u)
  unfolding resolve
  resolve_inv token d e = keyed (db.authenticate_key token) refl
    where
      held :
          (key : Uuid × ℕ) (f : Fallible (Option (UserDao W)))
          → db.authenticate_key token ≡ done (some key)
          → db.find_user key.0 ≡ f
          → (key : Uuid × ℕ) × (u : UserDao W) × (db.authenticate_key token ≡ done (some key))
            × (db.find_user key.0 ≡ done (some u))
            × (d.auth_state ≡ authenticated u)
      held key (done (some u)) ek eu = (key, u, ek, eu, ground (arith, e))
      held key (done none) ek eu = absurd (ground (arith, e))
      held key failed ek eu = absurd (ground (arith, e))

      keyed :
          (k : Fallible (Option (Uuid × ℕ)))
          → db.authenticate_key token ≡ k
          → (key : Uuid × ℕ) × (u : UserDao W) × (db.authenticate_key token ≡ done (some key))
            × (db.find_user key.0 ≡ done (some u))
            × (d.auth_state ≡ authenticated u)
      keyed (done (some key)) ek = held key (db.find_user key.0) ek refl
      keyed (done none) ek = absurd (ground (arith, e))
      keyed failed ek = absurd (ground (arith, e))

  -- A request that no API key identified.
  module _ (now : ℕ) (req : Request W) where
    refreshed_grounds :
        (s : Session W) (d : SessionData W) (user : UserDao W) (f : Fallible (Option (UserDao W)))
        (got : SessionData W)
        → req.extension ≡ none
        → req.session ≡ some s
        → s.stored ≡ done (some d)
        → d.auth_state ≡ authenticated user
        → db.find_user user.id ≡ f
        → from_request_parts (refresh_found db now req s f) ≡ done got
        → role_of got.auth_state ≡ admin
        → AdminGrounds req
    unfolding refresh_found from_request_parts role_of
    refreshed_grounds s d user (done (some fresh)) got x es ed ea ef h r =
        by_session s d user fresh es ed ea ef (ground arith)
    refreshed_grounds s d user (done none) got x es ed ea ef h r = absurd (ground arith)
    refreshed_grounds s d user failed got x es ed ea ef h r =
        by_stale_session s d user es ed ea ef (ground (arith, x, es))

    unkeyed_grounds :
        (got : SessionData W)
        → req.extension ≡ none
        → from_request_parts (refresh_session_role db now req) ≡ done got
        → role_of got.auth_state ≡ admin
        → AdminGrounds req
    unfolding refresh_session_role from_request_parts role_of
    unkeyed_grounds got x h r = elim (Option-cases req.session) [
      | inl gone ↦ absurd (ground arith)
      | inr (s, es) ↦ elim (Bool-cases s.first_read_fails) [
        | inl fr ↦ unread s es fr s.stored refl
        | inr fr ↦ with_session s es fr s.stored refl
      ]
    ]
      where
        with_user :
            (s : Session W) (d : SessionData W) (a : AuthenticationState W)
            → req.session ≡ some s
            → s.first_read_fails ≡ false
            → s.stored ≡ done (some d)
            → d.auth_state ≡ a
            → AdminGrounds req
        with_user s d (authenticated user) es fr ed ea =
            refreshed_grounds s d user (db.find_user user.id) got x es ed ea refl (ground arith) r
        with_user s d nobody es fr ed ea = absurd (ground arith)
        with_user s d _ es fr ed ea = absurd (ground arith)

        with_session :
            (s : Session W)
            → req.session ≡ some s
            → s.first_read_fails ≡ false
            → (f : Fallible (Option (SessionData W))) → s.stored ≡ f
            → AdminGrounds req
        with_session s es fr (done (some d)) ed = with_user s d d.auth_state es fr ed refl
        with_session s es fr (done none) ed = absurd (ground arith)
        with_session s es fr failed ed = absurd (ground arith)

        with_stored :
            (s : Session W) (d : SessionData W) (a : AuthenticationState W)
            → req.session ≡ some s
            → s.first_read_fails ≡ true
            → s.stored ≡ done (some d)
            → d.auth_state ≡ a
            → AdminGrounds req
        with_stored s d (authenticated user) es fr ed ea =
            by_unread_session s d user es fr ed ea (ground arith)
        with_stored s d nobody es fr ed ea = absurd (ground arith)
        with_stored s d _ es fr ed ea = absurd (ground arith)

        unread :
            (s : Session W)
            → req.session ≡ some s
            → s.first_read_fails ≡ true
            → (f : Fallible (Option (SessionData W))) → s.stored ≡ f
            → AdminGrounds req
        unread s es fr (done (some d)) ed = with_stored s d d.auth_state es fr ed refl
        unread s es fr (done none) ed = absurd (ground arith)
        unread s es fr failed ed = absurd (ground arith)

  -- A request that arrives with no injected identity is an admin's only on one of four grounds: a
  -- live API key whose user's row says admin, a session whose user's row says admin at this moment,
  -- or a session that says so while the query for its user fails or the first read of it failed.
  pub identity-AdminGrounds :
      (now : ℕ) (req : Request W) (got : SessionData W)
      → req.extension ≡ none
      → identity now req ≡ done got
      → role_of got.auth_state ≡ admin
      → AdminGrounds req
  unfolding identity api_key_auth
  identity-AdminGrounds now req got x h r =
      elim (Option-cases (bearer_token db req >>= resolve db)) [
        | inl anon ↦ unkeyed_grounds now req got x (ground (arith, anon)) r
        | inr (d, keyed) ↦ from_key d keyed (bearer_token db req) refl
      ]
    where
      from_key :
          (d : SessionData W)
          → (bearer_token db req >>= resolve db) ≡ some d
          → (t : Option Text) → bearer_token db req ≡ t
          → AdminGrounds req
      from_key d keyed none et = absurd (ground arith)
      from_key d keyed (some token) et =
          let (key, u, ek, eu, ea) = resolve_inv token d (ground arith) in
          by_key token key u et ek eu
            (unfold refresh_session_role from_request_parts role_of in ground (arith, keyed, ea))

  -- A request with no injected identity and no `Authorization` header, whose session is an
  -- authenticated user's and is read at the first try, is identified as the user's row says now, and as nobody if the row is
  -- gone.
  pub identity_follows_table :
      (now : ℕ) (req : Request W) (s : Session W) (d : SessionData W) (user : UserDao W)
      (row : Option (UserDao W))
      → req.extension ≡ none
      → req.authorization ≡ none
      → req.session ≡ some s
      → s.first_read_fails ≡ false
      → s.stored ≡ done (some d)
      → d.auth_state ≡ authenticated user
      → db.find_user user.id ≡ done row
      → identity now req
        ≡ done (record { auth_state = elim row [ none ↦ nobody | some u ↦ authenticated u ] })
  unfolding identity api_key_auth refresh_session_role from_request_parts bearer_token
  identity_follows_table now req s d user none x a es fr ed ea ef = ground arith
  identity_follows_table now req s d user (some u) x a es fr ed ea ef = ground arith

  -- An active session is touched at most once an hour: within an hour of a touch the stamp stays,
  -- and after that it moves to the present if the session can be written.
  pub touch_throttled :
      (now at : ℕ) (s : Session W)
      → s.touched_at ≡ some at
      → s.writable ≡ true
      → (now < at + 3600 → touch db now s ≡ s)
        × (at + 3600 ≤ now → (touch db now s).touched_at ≡ some now)
  unfolding touch
  touch_throttled now at s e w = (λ h. ground arith, λ h. ground arith)
