-- ===== src/Server.antt =====
-- src/web/router.rs: the layers that a request passes before its handler, in their order: the API
-- key, the session's refresh, the toll, the authorization of mutations. The layers around them
-- (logging, panics, tracing, compression, the session's cookie) decide nothing.
pub mod Admission
use hotchkiss_io.Base.{Bool, List, ℕ}
use hotchkiss_io.Fallible.{Fallible, done, failed}
use hotchkiss_io.Session.{Request, SessionData, from_request_parts}
use hotchkiss_io.Middleware.{
  Lookups, Outcome, api_key_auth, refresh_session_role, require_admin_for_mutations,
  role_scoped_mutations, run,
}
use hotchkiss_io.Greylist.ActiveSet.{GreylistSet}
use hotchkiss_io.Greylist.Toll.{Toll, greylist_challenge, passes}

-- The handler with the identity it sees, a refusal of the authorization layer, the toll, or the
-- extractor's rejection.
pub data Served (W : Type 0) : Type 0 where
  handled : SessionData W → Request W → Served W
  refused : Outcome → Served W
  tolled : Toll → Served W
  rejected : Served W

module _ {W : Type 0} (db : Lookups W) (hmac : List ℕ → List ℕ → Fallible (List ℕ)) where
  gate : Bool → SessionData W → Request W → Outcome → Served W
  gate debug s req run = handled s req
  gate debug s req o = refused o

  past_toll : Bool → SessionData W → Request W → Toll → Served W
  unfolding gate
  past_toll debug s req passes =
      gate debug s req (require_admin_for_mutations debug role_scoped_mutations s.auth_state req)
  past_toll debug s req t = tolled t

  unfoldable pub serve : Bool → GreylistSet → List ℕ → ℕ → Request W → Served W
  unfolding past_toll
  serve debug greylist key now req =
      let identified = refresh_session_role db now (api_key_auth db req) in
      elim (from_request_parts identified) [
        | failed ↦ rejected
        | done s ↦
            past_toll debug s identified (greylist_challenge hmac greylist key now s identified)
      ]
