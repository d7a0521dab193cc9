-- ===== src/Middleware.antt =====
-- src/web/middleware: API-key authentication, the refresh of a session's role, and the two
-- authorization layers. The tables are reached through `Lookups`.
pub mod Gate
pub mod Identity
pub mod Unchanged
use hotchkiss_io.Base.{
  Bool, List, Option, [], false, if◌then◌else◌, leb, none, some, true, ℕ, ◌&&◌, ◌+◌, ◌>>=◌, ◌||◌,
  ◌∷◌,
}
use hotchkiss_io.Text.{Text, codes, is_one_of, same, starts_with, strip_prefix}
use hotchkiss_io.Fallible.{Fallible, done, failed, found}
use hotchkiss_io.Roles.{Role, rank}
use hotchkiss_io.Users.{UserDao, Uuid, find_by_uuid}
use hotchkiss_io.ApiKeys.{ApiKeyRow, authenticate}
use hotchkiss_io.Session.{
  AuthenticationState, Method, Request, Session, SessionData, anonymous_session, authenticated,
  connect, delete, first_read, get, head, is_admin, is_authenticated, options, other, patch, post,
  put, role_of, trace, update_session, user_of,
}

-- The queries that the middleware makes; each may fail.
pub record Lookups (W : Type 0) : Type 0 where
  pub find_user : Uuid → Fallible (Option (UserDao W))
  pub authenticate_key : Text → Fallible (Option (Uuid × ℕ))

-- The tables behind them, when the database answers.
abbrev pub of_tables :
    {W : Type 0} → (Text → Option Text) → List (UserDao W) → List ApiKeyRow → Lookups W
of_tables hash_key users keys = record {
  find_user = λ uuid. done (find_by_uuid users uuid);
  authenticate_key = λ token. authenticate hash_key keys token;
}

-- What a request comes to in an authorization layer.
pub data Outcome : Type 0 where
  run unauthorized forbidden : Outcome

abbrev pub session_touch_interval_secs : ℕ
session_touch_interval_secs = 3600

-- `is_none_or(|t| now - t >= interval)`, with the subtraction moved over.
abbrev pub is_stale : ℕ → Option ℕ → Bool
is_stale now none = true
is_stale now (some t) = leb (t + session_touch_interval_secs) now

module _ {W : Type 0} (db : Lookups W) where
  -- The token behind "Bearer ", if it is one of the server's own keys.
  unfoldable pub bearer_token : Request W → Option Text
  bearer_token req = do
    header ← req.authorization
    token ← strip_prefix (codes "Bearer ") header
    if starts_with (codes "hio_") token then some token else none

  -- The stamp of the last use is best effort, and is not part of the answer.
  unfoldable pub resolve : Text → Option (SessionData W)
  resolve token = do
    key ← found (db.authenticate_key token)
    user ← found (db.find_user key.0)
    some (record { auth_state = authenticated user })

  unfoldable pub api_key_auth : Request W → Request W
  unfolding bearer_token resolve
  api_key_auth req = elim (bearer_token req >>= resolve) [
    | none ↦ req
    | some session_data ↦ record req { extension = some session_data }
  ]

  -- `session.insert(TOUCHED_AT_KEY, now)`, when the last touch is an hour old
  unfoldable pub touch : ℕ → Session W → Session W
  touch now s =
      if is_stale now s.touched_at && s.writable then record s { touched_at = some now } else s

  -- The three answers of the query for the session's user.
  refresh_found : ℕ → Request W → Session W → Fallible (Option (UserDao W)) → Request W
  unfolding touch update_session
  refresh_found now req s (done (some fresh)) =
      let refreshed : SessionData W = record { auth_state = authenticated fresh } in
      record req {
        session = some (touch now (update_session s refreshed));
        extension = some refreshed;
      }
  refresh_found now req s (done none) = record req { extension = some anonymous_session }
  refresh_found now req s failed = req

  -- Only a stored session of an authenticated user is refreshed.
  refresh_stored : ℕ → Request W → Session W → Fallible (Option (SessionData W)) → Request W
  unfolding refresh_found user_of
  refresh_stored now req s (done (some d)) = elim (user_of d.auth_state) [
    | none ↦ req
    | some user ↦ refresh_found now req s (db.find_user user.id)
  ]
  refresh_stored now req s (done none) = req
  refresh_stored now req s failed = req

  unfoldable pub refresh_session_role : ℕ → Request W → Request W
  unfolding refresh_stored
  refresh_session_role now req = elim req.extension [
    | some injected ↦ req
    | none ↦ elim req.session [ none ↦ req | some s ↦ refresh_stored now req s (first_read s) ]
  ]

-- `Method::GET | Method::HEAD | Method::OPTIONS`
abbrev pub is_safe_method : Method → Bool
is_safe_method get = true
is_safe_method head = true
is_safe_method options = true
is_safe_method _ = false

abbrev is_post : Method → Bool
is_post post = true
is_post _ = false

abbrev pub ceremony_paths : List Text
ceremony_paths =
    codes "/login/finish_authentication"
    ∷ codes "/login/finish_register"
    ∷ codes "/login/ceremony_error"
    ∷ []

-- `debug` is `cfg(debug_assertions)`, which adds the test login.
unfoldable pub is_anonymous_auth_endpoint : Bool → Method → Text → Bool
is_anonymous_auth_endpoint debug m path =
    is_post m && (is_one_of path ceremony_paths || (debug && same path (codes "/test/login")))

unfoldable pub same_method : Method → Method → Bool
same_method get get = true
same_method head head = true
same_method options options = true
same_method post post = true
same_method put put = true
same_method patch patch = true
same_method delete delete = true
same_method trace trace = true
same_method connect connect = true
same_method (other s) (other t) = same s t
same_method _ _ = false

-- The first entry for the method and the path decides, by rank.
unfoldable pub allowed_by_role_scope : List (Method × Text × Role) → Method → Text → Role → Bool
allowed_by_role_scope [] m path viewer = false
allowed_by_role_scope ((m', path', least) ∷ table) m path viewer =
    if same_method m' m && same path' path
    then leb (rank least) (rank viewer)
    else allowed_by_role_scope table m path viewer

-- `ROLE_SCOPED_MUTATIONS`, shipped empty
abbrev pub role_scoped_mutations : List (Method × Text × Role)
role_scoped_mutations = []

module _ {W : Type 0} where
  -- The refusal tells a missing identity from an insufficient one.
  admin_or_refuse : AuthenticationState W → Outcome
  admin_or_refuse s =
      if is_admin s then run else if is_authenticated s then forbidden else unauthorized

  unfoldable pub require_admin : AuthenticationState W → Outcome
  unfolding admin_or_refuse is_admin is_authenticated
  require_admin s = admin_or_refuse s

  unfoldable pub require_admin_for_mutations :
      Bool → List (Method × Text × Role) → AuthenticationState W → Request W → Outcome
  unfolding admin_or_refuse
  require_admin_for_mutations debug table s req =
      if is_safe_method req.method
      then run
      else if is_anonymous_auth_endpoint debug req.method req.path
      then run
      else if allowed_by_role_scope table req.method req.path (role_of s)
      then run
      else admin_or_refuse s
