-- ===== src/Greylist/Endpoint/Grants.antt =====
-- What a clearance rests on.
use hotchkiss_io.Base.{
  Bool, Bool-cases, List, Option, arith, false, if◌then◌else◌, inl, inr, none, not, refl, some,
  subst, true, ℕ, ◌++◌, ◌>>=◌, ◌≡◌,
}
use hotchkiss_io.Text.{Text, codes, same}
use hotchkiss_io.Text.Laws.{same_iff}
use hotchkiss_io.Fallible.{Fallible, done, failed}
use hotchkiss_io.Greylist.Endpoint.{
  TollImage, Verified, VerifyQuery, clearance_cookie, cleared, decoded, error, expiry_from, grant,
  on_answer, retry, urlencode, verify_challenge,
}
use hotchkiss_io.Greylist.Challenge.{freshness_window, mint_clearance, verify_answer}
use hotchkiss_io.Greylist.Toll.Order.{IsRootedPath, validate_redir-IsRootedPath}
use hotchkiss_io.Greylist.Toll.{validate_redir}

module _ (hmac : List ℕ → List ℕ → Fallible (List ℕ)) (decode : Text → Option (List ℕ)) where
  -- A clearance for the endpoint's answer to a query: the query names the image's version, its two
  -- fields decode, the answer was accepted, and the cookie holds the token minted for seven days.
  pub record IsGranted (debug : Bool) (key : List ℕ) (toll : TollImage) (now : ℕ) (q : VerifyQuery)
      (location set_cookie : Text) : Type 0 where
    pub inner : List ℕ
    pub answer : List ℕ
    pub token : Text
    pub current : q.version ≡ toll.version
    pub inner_decoded : decode q.inner_seed ≡ some inner
    pub answer_decoded : decode q.answer ≡ some answer
    pub accepted :
        verify_answer hmac key
          (record { inner_seed = inner; ts = q.ts; version = q.version })
          toll.digest
          answer
          now
          freshness_window
        ≡ done true
    pub token_minted : mint_clearance hmac key (expiry_from hmac decode now) ≡ done token
    pub cookie_set : set_cookie ≡ clearance_cookie debug token
    pub target : location ≡ validate_redir q.redir

  grant_sound :
      (debug : Bool) (key : List ℕ) (now : ℕ) (redir location set_cookie : Text)
      → grant hmac decode debug key now redir ≡ cleared location set_cookie
      → (location ≡ redir)
        × ((token : Text) × (mint_clearance hmac key (expiry_from hmac decode now) ≡ done token)
            × (set_cookie ≡ clearance_cookie debug token))
  unfolding grant
  grant_sound debug key now redir location set_cookie h =
      of_token (mint_clearance hmac key (expiry_from hmac decode now)) refl h
    where
      of_token :
          (f : Fallible Text)
          → mint_clearance hmac key (expiry_from hmac decode now) ≡ f
          → elim f [ failed ↦ error | done token ↦ cleared redir (clearance_cookie debug token) ]
            ≡ cleared location set_cookie
          → (location ≡ redir)
            × ((token : Text) × (mint_clearance hmac key (expiry_from hmac decode now) ≡ done token)
                × (set_cookie ≡ clearance_cookie debug token))
      of_token failed e h = absurd (cc h)
      of_token (done token) e h = (cc, (token, e, cc))

  on_answer_sound :
      (debug : Bool) (key : List ℕ) (now : ℕ) (redir location set_cookie : Text) (f : Fallible Bool)
      → on_answer hmac decode debug key now redir f ≡ cleared location set_cookie
      → (f ≡ done true) × (grant hmac decode debug key now redir ≡ cleared location set_cookie)
  unfolding on_answer
  on_answer_sound debug key now redir location set_cookie failed h = absurd (cc h)
  on_answer_sound debug key now redir location set_cookie (done false) h = absurd (cc h)
  on_answer_sound debug key now redir location set_cookie (done true) h = (refl, h)

  decoded_sound :
      (q : VerifyQuery) (inner answer : List ℕ)
      → decoded hmac decode q ≡ some (inner, answer)
      → (decode q.inner_seed ≡ some inner) × (decode q.answer ≡ some answer)
  unfolding decoded
  decoded_sound q inner answer h = both (decode q.inner_seed) (decode q.answer) refl refl h
    where
      both :
          (a b : Option (List ℕ))
          → decode q.inner_seed ≡ a
          → decode q.answer ≡ b
          → ◌≡◌ {A = Option (List ℕ × List ℕ)}
              (a >>= (λ i. b >>= (λ w. some (i, w))))
              (some (inner, answer))
          → (decode q.inner_seed ≡ some inner) × (decode q.answer ≡ some answer)
      both none b e f h = absurd (cc h)
      both (some i) none e f h = absurd (cc h)
      both (some i) (some w) e f h =
          let p : ◌≡◌ {A = Option (List ℕ × List ℕ)} (some (i, w)) (some (inner, answer)) = h in
          (cc, cc)

  -- The endpoint gives a clearance only for an accepted answer about the current image, and sends
  -- the client back to a target that has the form of a path.
  pub verify_challenge_sound :
      (debug : Bool) (key : List ℕ) (toll : TollImage) (now : ℕ) (q : VerifyQuery)
      (location set_cookie : Text)
      → verify_challenge hmac decode debug key toll now q ≡ cleared location set_cookie
      → IsGranted debug key toll now q location set_cookie × IsRootedPath location
  unfolding verify_challenge
  verify_challenge_sound debug key toll now q location set_cookie h =
      elim (Bool-cases (same q.version toll.version)) [
        | inl y ↦ answered y (decoded hmac decode q) refl (
            subst
              (λ b.
                (if not b
                  then retry (codes "/challenge?redir=" ++ urlencode (validate_redir q.redir))
                  else after (decoded hmac decode q))
                ≡ cleared location set_cookie)
              y h)
        | inr n ↦ absurd (ground (arith, h, n))
      ]
    where
      after : Option (List ℕ × List ℕ) → Verified
      after none = retry (codes "/challenge?redir=" ++ urlencode (validate_redir q.redir))
      after (some (inner, answer)) = on_answer hmac decode debug key now (validate_redir q.redir) (
          verify_answer hmac key (record { inner_seed = inner; ts = q.ts; version = q.version })
            toll.digest answer now freshness_window)

      answered :
          same q.version toll.version ≡ true
          → (o : Option (List ℕ × List ℕ)) → decoded hmac decode q ≡ o
          → after o ≡ cleared location set_cookie
          → IsGranted debug key toll now q location set_cookie × IsRootedPath location
      answered y none e h = absurd (cc h)
      answered y (some (inner, answer)) e h =
          let (ok, g) =
            on_answer_sound debug key now (validate_redir q.redir) location set_cookie
              (verify_answer hmac key
                (record { inner_seed = inner; ts = q.ts; version = q.version }) toll.digest answer
                now freshness_window)
              h in
          let (at, (token, m, c)) =
            grant_sound debug key now (validate_redir q.redir) location set_cookie g in
          let (i, w) = decoded_sound q inner answer e in
          (
            record {
              inner = inner;
              answer = answer;
              token = token;
              current = (same_iff q.version toll.version).0 y;
              inner_decoded = i;
              answer_decoded = w;
              accepted = ok;
              token_minted = m;
              cookie_set = c;
              target = at;
            },
            rw at (validate_redir-IsRootedPath q.redir),
          )
