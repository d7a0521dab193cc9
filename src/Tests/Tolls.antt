-- ===== src/Tests/Tolls.antt =====
-- The toll, the challenge and the clearance, on concrete inputs.
use hotchkiss_io.Base.{
  All, List, Option, [], arith, false, none, refl, some, subst, true, ℕ, ◌%◌, ◌+◌, ◌<◌, ◌^◌, ◌↔◌,
  ◌∷◌, ◌≡◌, ◌≤◌, ◌⊎◌,
}
use hotchkiss_io.Text.{
  Text, codes, is_ascii_digit, is_whitespace, same, split_once, strip_prefix, trim,
  trim_end_matches, trim_start_matches,
}
use hotchkiss_io.Fallible.{Fallible, done}
use hotchkiss_io.Greylist.Endpoint.{
  TollImage, VerifyQuery, clearance_cookie, expiry_from, verify_challenge,
}
use hotchkiss_io.Greylist.Challenge.{
  ChallengeParams, compute_answer, ct_eq, derive_seed, hex_digit, is_fresh, mint_clearance,
  seed_message, to_hex, verify_answer, verify_clearance,
}
use hotchkiss_io.Greylist.Toll.Order.{IsDemand, IsRootedPath, MayPass, greylist_challenge-decides}
use hotchkiss_io.Greylist.ActiveSet.{GreylistSet}
use hotchkiss_io.Session.{Request, SessionData, get, nobody}
use hotchkiss_io.Greylist.Challenge.Answer.{IsAnswer, is_fresh_overflow, verify_answer_iff}
use hotchkiss_io.Text.Utf8.{as_bytes}
use hotchkiss_io.Int64.{i64_parse, i64_print, le_bytes}
use hotchkiss_io.Greylist.Toll.{greylist_challenge, passes, validate_redir}
use hotchkiss_io.Text.Decimal.{parse_digits, print}
use hotchkiss_io.Greylist.Endpoint.Grants.{IsGranted, verify_challenge_sound}
use hotchkiss_io.Greylist.Endpoint.Solved.{minted_clearance_passes}
use hotchkiss_io.Greylist.Challenge.Clearance.{IsClearance, verify_clearance_sound}
use hotchkiss_io.NextUrl.{safe_next}
use hotchkiss_io.NextUrl.Safe.{IsSiteTarget, safe_next-IsSiteTarget, validate_redir-backslash}

-- A MAC that is the sum of the bytes: enough to run the protocol.
abbrev sum : List ℕ → ℕ
sum [] = 0
sum (b ∷ bytes) = b + sum bytes

abbrev toy_mac : List ℕ → List ℕ → Fallible (List ℕ)
toy_mac key message = done (((sum key + sum message) % 256) ∷ [])

toy_mac-bytes : (k m mac : List ℕ) → toy_mac k m ≡ done mac → All (λ b. b < 256) mac
toy_mac-bytes k m mac e =
    let same_bytes : ((sum k + sum m) % 256) ∷ [] ≡ mac = cc in
    subst (All (λ b. b < 256)) same_bytes (omega arith, tt)

abbrev server_key : List ℕ
server_key = 1 ∷ 2 ∷ []

abbrev digest : List ℕ
digest = 9 ∷ []

abbrev params : ChallengeParams
params = record { inner_seed = 5 ∷ []; ts = 100; version = codes "v" }

verify_answer_iff_example :
    (verify_answer toy_mac server_key params digest (235 ∷ []) 150 120 ≡ done true)
    ↔ ((100 ≤ 150) × (150 ≤ 220) × IsAnswer toy_mac server_key params digest (235 ∷ []))
verify_answer_iff_example =
    verify_answer_iff toy_mac server_key params digest (235 ∷ []) 150 120 (omega arith)
      (omega arith) (omega arith)

is_fresh_overflow_example : is_fresh (2 ^ 63) 150 120 ≡ true
is_fresh_overflow_example =
    is_fresh_overflow (2 ^ 63) 150 120 (omega arith) (omega arith) (omega arith) (omega arith)
      (omega arith)

-- The clearance until 1000, minted with the MAC of its expiry: 0x03 + 0xe8 and the key.
abbrev token_1000 : Text
token_1000 = codes "1000.ee"

verify_clearance_sound_example : IsClearance toy_mac server_key token_1000 999
unfolding verify_clearance i64_parse parse_digits as_bytes to_hex hex_digit ct_eq same le_bytes
    split_once is_ascii_digit
verify_clearance_sound_example = verify_clearance_sound toy_mac server_key token_1000 999 refl

abbrev visitor : Request ℕ
visitor = record {
  method = get;
  path = codes "/pages/projects";
  path_and_query = some (codes "/pages/projects?x=1");
  peer = codes "8.8.8.8";
  authorization = none;
  accept = none;
  hx_request = none;
  cookie = some (codes "hio_toll=1000.ee");
  session = none;
  extension = none;
}

abbrev greylist_of_visitor : GreylistSet
greylist_of_visitor = record { inner = codes "8.8.8.8" ∷ []; allow = [] }

abbrev stranger : SessionData ℕ
stranger = record { auth_state = nobody }

abbrev visitor_with_more : Request ℕ
visitor_with_more = record visitor { cookie = some (codes "id=7; hio_toll=1000.ee; lang=en") }

minted_clearance_passes_example :
    greylist_challenge toy_mac greylist_of_visitor server_key 999 stranger visitor_with_more
    ≡ passes
unfolding trim trim_start_matches trim_end_matches is_whitespace strip_prefix mint_clearance
    i64_print to_hex hex_digit le_bytes print
minted_clearance_passes_example =
    minted_clearance_passes toy_mac server_key 1000 999 token_1000 greylist_of_visitor stranger
      visitor_with_more (codes "id=7" ∷ []) (codes "lang=en" ∷ []) toy_mac-bytes (omega arith) refl
      (((refl, (refl, (refl, (refl, tt)))), refl), tt) refl refl

greylist_challenge-decides_example :
    (MayPass toy_mac greylist_of_visitor server_key 1000 stranger visitor
      × (greylist_challenge toy_mac greylist_of_visitor server_key 1000 stranger visitor ≡ passes))
    ⊎ (¬ MayPass toy_mac greylist_of_visitor server_key 1000 stranger visitor
        × IsDemand toy_mac visitor
            (greylist_challenge toy_mac greylist_of_visitor server_key 1000 stranger visitor))
greylist_challenge-decides_example =
    greylist_challenge-decides toy_mac greylist_of_visitor server_key 1000 stranger visitor

-- A base64 that is the text itself.
abbrev decode_as_is : Text → Option (List ℕ)
decode_as_is s = some s

abbrev toll_image : TollImage
toll_image = record { version = codes "v"; digest = digest }

abbrev solved_query : VerifyQuery
solved_query = record {
  inner_seed = 5 ∷ [];
  ts = 100;
  version = codes "v";
  answer = 235 ∷ [];
  redir = some (codes "//evil.example");
}

abbrev cookie_text : Text
cookie_text = codes "hio_toll=604950.5d; Path=/; Max-Age=604800; HttpOnly; SameSite=Lax; Secure"

verify_challenge_sound_example :
    IsGranted toy_mac decode_as_is false server_key toll_image 150 solved_query
      (codes "/")
      cookie_text
    × IsRootedPath (codes "/")
unfolding verify_challenge verify_answer is_fresh derive_seed compute_answer seed_message as_bytes
    le_bytes mint_clearance expiry_from clearance_cookie i64_print print to_hex hex_digit ct_eq same
    validate_redir strip_prefix is_whitespace
verify_challenge_sound_example =
    verify_challenge_sound toy_mac decode_as_is false server_key toll_image 150 solved_query
      (codes "/") cookie_text refl

safe_next-IsSiteTarget_example :
    (codes "/library" ≡ codes "/library") × IsSiteTarget (codes "/library")
unfolding safe_next as_bytes
safe_next-IsSiteTarget_example = safe_next-IsSiteTarget (codes "/library") (codes "/library") refl

validate_redir-backslash_example :
    (validate_redir (some (b'/' ∷ 92 ∷ codes "evil.example")) ≡ b'/' ∷ 92 ∷ codes "evil.example")
    × (safe_next (b'/' ∷ 92 ∷ codes "evil.example") ≡ none)
unfolding is_whitespace
validate_redir-backslash_example = validate_redir-backslash (codes "evil.example") refl
