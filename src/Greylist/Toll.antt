-- ===== src/Greylist/Toll.antt =====
-- src/web/middleware/greylist_challenge.rs: who pays the toll, and src/web/responder.rs: which kind
-- of client asks. The session is the one that the extractor yields.
pub mod Order
use hotchkiss_io.Base.{
  Bool, List, Option, [], all, any, false, if◌then◌else◌, leb, ltb, none, not, some, ℕ, ◌&&◌, ◌==◌,
  ◌>>=◌, ◌||◌, ◌∷◌,
}
use hotchkiss_io.Text.{
  Text, codes, contains, is_whitespace, same, split, starts_with, strip_prefix, trim,
}
use hotchkiss_io.Fallible.{Fallible}
use hotchkiss_io.Session.{Request, SessionData, is_authenticated}
use hotchkiss_io.Greylist.ActiveSet.{GreylistSet, is_greylisted}
use hotchkiss_io.Greylist.Challenge.{verify_clearance}

pub data ClientKind : Type 0 where
  htmx json native_browser : ClientKind

abbrev is_text : Text → Option Text → Bool
is_text s none = false
is_text s (some v) = same v s

abbrev has_part : Text → Option Text → Bool
has_part s none = false
has_part s (some v) = contains s v

unfoldable pub client_kind : {W : Type 0} → Request W → ClientKind
client_kind req =
    if is_text (codes "true") req.hx_request
    then htmx
    else if has_part (codes "application/json") req.accept
    then json
    else native_browser

abbrev pub exempt_prefixes : List Text
exempt_prefixes =
    codes "/challenge"
    ∷ codes "/login"
    ∷ codes "/styles/"
    ∷ codes "/scripts/"
    ∷ codes "/images/"
    ∷ codes "/vendor/"
    ∷ codes "/.well-known/"
    ∷ codes "/robots.txt"
    ∷ codes "/sitemap.xml"
    ∷ []

unfoldable pub is_exempt_path : Text → Bool
is_exempt_path path =
    same path (codes "/favicon.ico")
    || (same path (codes "/library") || any (λ p. starts_with p path) exempt_prefixes)

-- One part of the `Cookie` header, if it is the cookie of that name.
unfoldable pub cookie_of_part : Text → Text → Option Text
cookie_of_part name part = do rest ← strip_prefix name (trim part); strip_prefix (codes "=") rest

unfoldable pub find_cookie : Text → List Text → Option Text
unfolding cookie_of_part
find_cookie name [] = none
find_cookie name (part ∷ parts) = elim (cookie_of_part name part) [
  | some v ↦ some v
  | none ↦ find_cookie name parts
]

unfoldable pub cookie_value : {W : Type 0} → Request W → Text → Option Text
unfolding find_cookie split
cookie_value req name = do raw ← req.cookie; find_cookie name (split (λ c. c == b';') raw)

-- `char::is_control`
abbrev pub is_control : ℕ → Bool
is_control c = ltb c 32 || (leb 127 c && leb c 159)

-- Only a text with one slash in front, and without controls and whitespace, is a target.
unfoldable pub validate_redir : Option Text → Text
validate_redir none = codes "/"
validate_redir (some r) =
    if starts_with (codes "/") r
      && (not (starts_with (codes "//") r)
          && all (λ c. not (is_control c) && not (is_whitespace c)) r)
    then r
    else codes "/"

-- What a request comes to: its handler, or one of the two faces of the toll, each a 429 whose
-- request is logged as challenged.
pub data Toll : Type 0 where
  passes json_notice : Toll
  interstitial : Text → Toll

abbrev pub clearance_cookie_name : Text
clearance_cookie_name = codes "hio_toll"

abbrev or_root : Option Text → Text
or_root none = codes "/"
or_root (some pq) = pq

module _ (hmac : List ℕ → List ℕ → Fallible (List ℕ)) {W : Type 0} where
  unfoldable pub is_cleared : List ℕ → ℕ → Request W → Bool
  unfolding cookie_value
  is_cleared key now req = elim (cookie_value req clearance_cookie_name) [
    | none ↦ false
    | some token ↦ verify_clearance hmac key token now
  ]

  demand : Request W → Toll
  unfolding client_kind validate_redir
  demand req = elim (client_kind req) [
    | json ↦ json_notice
    | _ ↦ interstitial (validate_redir (some (or_root req.path_and_query)))
  ]

  unfoldable pub greylist_challenge : GreylistSet → List ℕ → ℕ → SessionData W → Request W → Toll
  unfolding is_cleared demand
  greylist_challenge greylist key now session req =
      if not (is_greylisted greylist req.peer)
      then passes
      else if is_exempt_path req.path
      then passes
      else if is_authenticated session.auth_state
      then passes
      else if is_cleared key now req
      then passes
      else demand req
