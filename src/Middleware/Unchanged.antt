-- ===== src/Middleware/Unchanged.antt =====
-- What the identity layers leave of a request.
use hotchkiss_io.Base.{Option, none, refl, some, ℕ, ◌>>=◌, ◌∙◌, ◌≡◌}
use hotchkiss_io.Fallible.{Fallible, done, failed}
use hotchkiss_io.Session.{
  AuthenticationState, Request, Session, SessionData, auth_options, authenticated, first_read,
  nobody, registration_started, user_of,
}
use hotchkiss_io.Middleware.{
  Lookups, api_key_auth, bearer_token, refresh_found, refresh_session_role, refresh_stored, resolve,
}
use hotchkiss_io.Users.{UserDao}

-- The parts of a request that the identity layers leave alone.
pub record SameRequest {W : Type 0} (a b : Request W) : Type 0 where
  pub same_verb : a.method ≡ b.method
  pub same_place : a.path ≡ b.path
  pub same_peer : a.peer ≡ b.peer

module _ {W : Type 0} (db : Lookups W) where
  itself : (req : Request W) → SameRequest req req
  itself req = record { same_verb = refl; same_place = refl; same_peer = refl }

  pub api_key_auth-SameRequest : (req : Request W) → SameRequest (api_key_auth db req) req
  unfolding api_key_auth
  api_key_auth-SameRequest req = keyed (bearer_token db req >>= resolve db)
    where
      keyed :
          (o : Option (SessionData W))
          → SameRequest
              (elim o [
                | none ↦ req
                | some session_data ↦ record req { extension = some session_data }
              ])
              req
      keyed none = itself req
      keyed (some d) = record { same_verb = refl; same_place = refl; same_peer = refl }

  refresh_found-SameRequest :
      (now : ℕ) (req : Request W) (s : Session W) (f : Fallible (Option (UserDao W)))
      → SameRequest (refresh_found db now req s f) req
  unfolding refresh_found
  refresh_found-SameRequest now req s (done (some u)) = record {
    same_verb = refl;
    same_place = refl;
    same_peer = refl;
  }
  refresh_found-SameRequest now req s (done none) = record {
    same_verb = refl;
    same_place = refl;
    same_peer = refl;
  }
  refresh_found-SameRequest now req s failed = itself req

  refresh_stored-SameRequest :
      (now : ℕ) (req : Request W) (s : Session W) (f : Fallible (Option (SessionData W)))
      → SameRequest (refresh_stored db now req s f) req
  unfolding refresh_stored user_of
  refresh_stored-SameRequest now req s (done (some d)) = of_user d.auth_state
    where
      of_user :
          (a : AuthenticationState W)
          → SameRequest
              (elim (user_of a) [
                | none ↦ req
                | some user ↦ refresh_found db now req s (db.find_user user.id)
              ])
              req
      of_user nobody = itself req
      of_user (auth_options w) = itself req
      of_user (registration_started w u) = itself req
      of_user (authenticated u) = refresh_found-SameRequest now req s (db.find_user u.id)
  refresh_stored-SameRequest now req s (done none) = itself req
  refresh_stored-SameRequest now req s failed = itself req

  pub refresh_session_role-SameRequest :
      (now : ℕ) (req : Request W) → SameRequest (refresh_session_role db now req) req
  unfolding refresh_session_role
  refresh_session_role-SameRequest now req = injected req.extension
    where
      stored :
          (o : Option (Session W))
          → SameRequest
              (elim o [ none ↦ req | some s ↦ refresh_stored db now req s (first_read s) ])
              req
      stored none = itself req
      stored (some s) = refresh_stored-SameRequest now req s (first_read s)

      injected :
          (o : Option (SessionData W))
          → SameRequest
              (elim o [
                | some d ↦ req
                | none ↦ elim req.session [
                  | none ↦ req
                  | some s ↦ refresh_stored db now req s (first_read s)
                ]
              ])
              req
      injected none = stored req.session
      injected (some d) = itself req

  -- The two layers together leave the method, the path and the peer's address.
  pub identified-SameRequest :
      (now : ℕ) (req : Request W)
      → SameRequest (refresh_session_role db now (api_key_auth db req)) req
  identified-SameRequest now req =
      let a = refresh_session_role-SameRequest now (api_key_auth db req) in
      let b = api_key_auth-SameRequest req in
      record {
        same_verb = a.same_verb ∙ b.same_verb;
        same_place = a.same_place ∙ b.same_place;
        same_peer = a.same_peer ∙ b.same_peer;
      }
