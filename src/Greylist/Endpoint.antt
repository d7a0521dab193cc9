-- ===== src/Greylist/Endpoint.antt =====
-- src/web/features/challenge.rs: the endpoint that an answer is submitted to. `decode` is the base64
-- crate's. The row that records a solve is best effort, and left out.
pub mod Grants
pub mod Solved
use hotchkiss_io.Base.{
  Bool, List, Option, [], false, if◌then◌else◌, none, not, some, true, ℕ, ◌%◌, ◌*◌, ◌++◌, ◌+◌, ◌==◌,
  ◌>>=◌, ◌^◌, ◌∷◌,
}
use hotchkiss_io.Text.{Text, codes, same}
use hotchkiss_io.Fallible.{Fallible, done, failed}
use hotchkiss_io.Greylist.Toll.{clearance_cookie_name, validate_redir}
use hotchkiss_io.Greylist.Challenge.{
  ChallengeParams, freshness_window, mint_clearance, verify_answer,
}
use hotchkiss_io.Text.Decimal.{print}

abbrev pub clearance_ttl_days : ℕ
clearance_ttl_days = 7

pub record VerifyQuery : Type 0 where
  pub inner_seed : Text
  pub ts : ℕ
  pub version : Text
  pub answer : Text
  pub redir : Option Text

-- What `ChallengeState` holds of the image.
pub record TollImage : Type 0 where
  pub version : Text
  pub digest : List ℕ

-- A redirect to solve again, a redirect with the cookie set, or an error page.
pub data Verified : Type 0 where
  retry : Text → Verified
  cleared : (location set_cookie : Text) → Verified
  error : Verified

escape_char : ℕ → Text
escape_char c =
    if c == b'%'
    then codes "%25"
    else if c == b'&'
    then codes "%26"
    else if c == b'#'
    then codes "%23"
    else if c == b'?'
    then codes "%3F"
    else c ∷ []

unfoldable pub urlencode : Text → Text
unfolding escape_char
urlencode [] = []
urlencode (c ∷ s) = escape_char c ++ urlencode s

-- `debug` is `cfg(debug_assertions)`.
unfoldable pub clearance_cookie : Bool → Text → Text
clearance_cookie debug token =
    clearance_cookie_name
    ++ (codes "="
        ++ (token
            ++ (codes "; Path=/; Max-Age="
                ++ (print (clearance_ttl_days * 86400)
                    ++ (codes "; HttpOnly; SameSite=Lax"
                        ++ (if debug then [] else codes "; Secure"))))))

module _ (hmac : List ℕ → List ℕ → Fallible (List ℕ)) (decode : Text → Option (List ℕ)) where
  unfoldable pub expiry_from : ℕ → ℕ
  expiry_from now = (now + clearance_ttl_days * 86400) % 2 ^ 64

  grant : Bool → List ℕ → ℕ → Text → Verified
  unfolding expiry_from clearance_cookie mint_clearance
  grant debug key now redir = elim (mint_clearance hmac key (expiry_from now)) [
    | failed ↦ error
    | done token ↦ cleared redir (clearance_cookie debug token)
  ]

  on_answer : Bool → List ℕ → ℕ → Text → Fallible Bool → Verified
  unfolding grant urlencode
  on_answer debug key now redir failed = error
  on_answer debug key now redir (done false) = retry (codes "/challenge?redir=" ++ urlencode redir)
  on_answer debug key now redir (done true) = grant debug key now redir

  -- The two decoded fields, both or none.
  decoded : VerifyQuery → Option (List ℕ × List ℕ)
  decoded q = do inner ← decode q.inner_seed; answer ← decode q.answer; some (inner, answer)

  unfoldable pub verify_challenge : Bool → List ℕ → TollImage → ℕ → VerifyQuery → Verified
  unfolding on_answer decoded validate_redir urlencode
  verify_challenge debug key toll now q =
      let redir : Text = validate_redir q.redir in
      let again : Verified = retry (codes "/challenge?redir=" ++ urlencode redir) in
      if not (same q.version toll.version) then again else elim (decoded q) [
        | none ↦ again
        | some (inner, answer) ↦
            let p : ChallengeParams = record {
              inner_seed = inner;
              ts = q.ts;
              version = q.version;
            } in
            on_answer debug key now redir
              (verify_answer hmac key p toll.digest answer now freshness_window)
      ]
