-- ===== src/Session.antt =====
-- src/web/authentication_state.rs and src/web/session.rs, with the parts of a request that the
-- middleware reads. `W` stands for the values of the webauthn-rs crate.
use hotchkiss_io.Base.{Bool, Option, false, if◌then◌else◌, none, some, true, ℕ}
use hotchkiss_io.Text.{Text}
use hotchkiss_io.Fallible.{Fallible, done, failed}
use hotchkiss_io.Roles.{Role, admin, anonymous, same_role}
use hotchkiss_io.Users.{UserDao}

pub data AuthenticationState (W : Type 0) : Type 0 where
  nobody : AuthenticationState W
  auth_options : W → AuthenticationState W
  registration_started : W → UserDao W → AuthenticationState W
  authenticated : UserDao W → AuthenticationState W

pub record SessionData (W : Type 0) : Type 0 where
  pub auth_state : AuthenticationState W

-- A session of the store: whether the read of the refresh layer fails, what a read of `session_data`
-- gives otherwise and in the extractor, the stamp `touched_at` if there is one, and whether a write
-- succeeds. A request that was read once keeps what it read, while after a failure it is read anew.
pub record Session (W : Type 0) : Type 0 where
  pub first_read_fails : Bool
  pub stored : Fallible (Option (SessionData W))
  pub touched_at : Option ℕ
  pub writable : Bool

pub data Method : Type 0 where
  get head options post put patch delete trace connect : Method
  other : Text → Method

pub record Request (W : Type 0) : Type 0 where
  pub method : Method
  pub path : Text
  pub path_and_query : Option Text
  pub peer : Text
  pub authorization : Option Text
  pub accept : Option Text
  pub hx_request : Option Text
  pub cookie : Option Text
  pub session : Option (Session W)
  pub extension : Option (SessionData W)

module _ {W : Type 0} where
  unfoldable pub role_of : AuthenticationState W → Role
  role_of (authenticated user) = user.role
  role_of nobody = anonymous
  role_of _ = anonymous

  unfoldable pub is_admin : AuthenticationState W → Bool
  unfolding role_of
  is_admin s = same_role (role_of s) admin

  unfoldable pub is_authenticated : AuthenticationState W → Bool
  is_authenticated (authenticated user) = true
  is_authenticated nobody = false
  is_authenticated _ = false

  unfoldable pub user_of : AuthenticationState W → Option (UserDao W)
  user_of (authenticated user) = some user
  user_of nobody = none
  user_of _ = none

  -- `SessionData::default()`
  abbrev pub anonymous_session : SessionData W
  anonymous_session = record { auth_state = nobody }

  -- What the read of the refresh layer, the first of a request, gives.
  abbrev pub first_read : Session W → Fallible (Option (SessionData W))
  first_read s = if s.first_read_fails then failed else s.stored

  -- `unwrap_or_default`, with a failed read taken for no identity.
  abbrev pub session_or_default : Fallible (Option (SessionData W)) → SessionData W
  session_or_default (done (some d)) = d
  session_or_default (done none) = anonymous_session
  session_or_default failed = anonymous_session

  -- The extractor: an injected identity first, then the cookie session; `failed` is the rejection
  -- of a request that has no session layer.
  unfoldable pub from_request_parts : Request W → Fallible (SessionData W)
  from_request_parts req = elim req.extension [
    | some injected ↦ done injected
    | none ↦ elim req.session [
      | none ↦ failed
      | some session ↦ done (session_or_default session.stored)
    ]
  ]

  -- `update_session`: the new session, and whether the write succeeded.
  unfoldable pub update_session : Session W → SessionData W → Session W
  update_session s d = if s.writable then record s { stored = done (some d) } else s
