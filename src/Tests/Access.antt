-- ===== src/Tests/Access.antt =====
-- Accounts, keys, sessions and the layers of a request, on concrete inputs.
use hotchkiss_io.Base.{List, Option, [], false, none, refl, some, true, ℕ, ◌↔◌, ◌∷◌, ◌≡◌, ◌≢◌, ◌⊎◌}
use hotchkiss_io.Text.{Text, codes, is_one_of}
use hotchkiss_io.Fallible.{Fallible, done, failed}
use hotchkiss_io.Session.{
  Request, Session, SessionData, authenticated, delete, from_request_parts, is_admin,
  is_authenticated, role_of,
}
use hotchkiss_io.Users.LastAdmin.{
  AccountEvent, IsSafe, move_role, never_locked_out, register, remove, run_events,
}
use hotchkiss_io.Greylist.ActiveSet.{GreylistSet, is_allowlisted, is_greylisted}
use hotchkiss_io.Middleware.{
  Lookups, allowed_by_role_scope, api_key_auth, bearer_token, forbidden, is_anonymous_auth_endpoint,
  is_safe_method, of_tables, refresh_session_role, require_admin_for_mutations,
  role_scoped_mutations, run, unauthorized,
}
use hotchkiss_io.Server.{serve}
use hotchkiss_io.ApiKeys.{ApiKeyRow, authenticate, revoke}
use hotchkiss_io.Middleware.Identity.{AdminGrounds, identity, identity-AdminGrounds}
use hotchkiss_io.Users.{UserDao, find_by_uuid}
use hotchkiss_io.Roles.{admin, family, registered}
use hotchkiss_io.ApiKeys.Revocation.{authenticate-revoke}
use hotchkiss_io.Greylist.Toll.{greylist_challenge}
use hotchkiss_io.Middleware.Gate.{IsCeremony, mutations_need_admin}
use hotchkiss_io.Greylist.Toll.Order.{MayPass}
use hotchkiss_io.Server.Admission.{identified, serve_sound}

abbrev alice : UserDao ℕ
alice = record { display_name = codes "alice"; id = 1; keys = []; role = admin }

abbrev bob : UserDao ℕ
bob = record { display_name = codes "bob"; id = 2; keys = []; role = registered }

abbrev account_events : List (AccountEvent ℕ)
account_events =
    register alice ∷ register bob ∷ move_role 2 family ∷ remove 1 ∷ move_role 1 registered ∷ []

never_locked_out_example : IsSafe (run_events [] account_events)
never_locked_out_example = never_locked_out account_events

abbrev key_row : ApiKeyRow
key_row = record {
  id = 7;
  user_id = 1;
  key_hash = codes "h";
  label = codes "laptop";
  created_at = 10;
  last_used_at = none;
  revoked_at = none;
}

abbrev hash_as_is : Text → Option Text
hash_as_is key = some key

authenticate-revoke_example :
    authenticate hash_as_is (revoke (key_row ∷ []) 20 7 1).1 (codes "h") ≢ done (some (1, 7))
unfolding revoke
authenticate-revoke_example =
    authenticate-revoke hash_as_is (key_row ∷ []) 20 7 1 1 (codes "h") (tt, tt) refl

abbrev alice_session : Session ℕ
alice_session = record {
  first_read_fails = false;
  stored = done (some (record { auth_state = authenticated alice }));
  touched_at = none;
  writable = true;
}

abbrev delete_request : Request ℕ
delete_request = record {
  method = delete;
  path = codes "/pages/1";
  path_and_query = some (codes "/pages/1");
  peer = codes "203.0.113.9";
  authorization = none;
  accept = none;
  hx_request = none;
  cookie = none;
  session = some alice_session;
  extension = none;
}

abbrev tables : Lookups ℕ
tables = of_tables hash_as_is (alice ∷ bob ∷ []) (key_row ∷ [])

abbrev alice_data : SessionData ℕ
alice_data = record { auth_state = authenticated alice }

identity-AdminGrounds_example : AdminGrounds tables delete_request
unfolding identity refresh_session_role api_key_auth from_request_parts bearer_token find_by_uuid
    role_of
identity-AdminGrounds_example =
    identity-AdminGrounds tables 50 delete_request alice_data refl refl refl

mutations_need_admin_example :
    ((require_admin_for_mutations false role_scoped_mutations (authenticated bob) delete_request
        ≡ run)
      ↔ ((is_safe_method delete ≡ true)
          ⊎ IsCeremony false delete (codes "/pages/1")
          ⊎ (role_of (authenticated bob) ≡ admin)))
    × (require_admin_for_mutations false role_scoped_mutations (authenticated bob) delete_request
          ≡ forbidden
        → is_authenticated (authenticated bob) ≡ true)
    × (require_admin_for_mutations false role_scoped_mutations (authenticated bob) delete_request
          ≡ unauthorized
        → is_authenticated (authenticated bob) ≡ false)
mutations_need_admin_example = mutations_need_admin false (authenticated bob) delete_request

abbrev no_mac : List ℕ → List ℕ → Fallible (List ℕ)
no_mac key message = failed

abbrev nobody_greylisted : GreylistSet
nobody_greylisted = record { inner = []; allow = [] }

abbrev delete_seen : Request ℕ
delete_seen = record delete_request {
  session = some (record alice_session { touched_at = some 50 });
  extension = some alice_data;
}

serve_sound_example :
    MayPass no_mac nobody_greylisted [] 50 alice_data (identified tables no_mac 50 delete_request)
    × ((is_safe_method delete ≡ true)
        ⊎ (IsCeremony false delete (codes "/pages/1") ⊎ AdminGrounds tables delete_request))
unfolding serve refresh_session_role api_key_auth from_request_parts bearer_token find_by_uuid
    role_of greylist_challenge is_greylisted is_allowlisted is_one_of require_admin_for_mutations
    allowed_by_role_scope is_anonymous_auth_endpoint is_admin
serve_sound_example =
    serve_sound tables no_mac false nobody_greylisted [] 50 delete_request delete_seen alice_data
      refl refl
