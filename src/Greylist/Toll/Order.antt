-- ===== src/Greylist/Toll/Order.antt =====
-- Who passes, what the others are shown, and where they are sent back.
use hotchkiss_io.Base.{
  All, Bool, Bool-cases, List, Option, [], all, arith, false, inl, inr, none, not, refl, some, true,
  ℕ, ◌&&◌, ◌∷◌, ◌≡◌, ◌≢◌, ◌⊎◌,
}
use hotchkiss_io.Text.{Text, codes, is_whitespace, starts_with, strip_prefix}
use hotchkiss_io.Fallible.{Fallible}
use hotchkiss_io.Session.{Request, SessionData, is_authenticated}
use hotchkiss_io.Greylist.Toll.{
  ClientKind, Toll, client_kind, demand, greylist_challenge, htmx, interstitial, is_cleared,
  is_control, is_exempt_path, json, json_notice, native_browser, or_root, passes, validate_redir,
}
use hotchkiss_io.Greylist.ActiveSet.{GreylistSet, is_greylisted}

-- A target of a redirect that has the form of a path: it starts with a slash that no second one
-- follows, and has no whitespace, so none of the line ends that could split a header.
pub record IsRootedPath (r : Text) : Type 0 where
  pub absolute : starts_with (codes "/") r ≡ true
  pub one_slash : starts_with (codes "//") r ≡ false
  pub one_line : All (λ c. is_whitespace c ≡ false) r

black_of_clean :
    (r : Text)
    → all (λ c. not (is_control c) && not (is_whitespace c)) r ≡ true
    → All (λ c. is_whitespace c ≡ false) r
black_of_clean [] h = tt
black_of_clean (c ∷ r) h = (ground arith, black_of_clean r (ground arith))

root-IsRootedPath : IsRootedPath (codes "/")
unfolding strip_prefix is_whitespace
root-IsRootedPath = record { absolute = refl; one_slash = refl; one_line = (refl, tt) }

-- Whatever a client asks to be sent back to, the target has the form of a path.
pub validate_redir-IsRootedPath : (r : Option Text) → IsRootedPath (validate_redir r)
unfolding validate_redir
validate_redir-IsRootedPath none = root-IsRootedPath
validate_redir-IsRootedPath (some r) =
    let clean : Bool = all (λ c. not (is_control c) && not (is_whitespace c)) r in
    elim (Bool-cases (starts_with (codes "/") r && (not (starts_with (codes "//") r) && clean))) [
      | inl y ↦ rw y (record {
        absolute = ground arith;
        one_slash = ground arith;
        one_line = black_of_clean r (ground arith);
      })
      | inr n ↦ rw n root-IsRootedPath
    ]

module _ (hmac : List ℕ → List ℕ → Fallible (List ℕ)) {W : Type 0} where
  -- A page, or a notice that no client without a JavaScript engine can take for one.
  abbrev pub IsDemand : Request W → Toll → Type 0
  IsDemand req passes = ⊥
  IsDemand req json_notice = client_kind req ≡ json
  IsDemand req (interstitial r) = (client_kind req ≢ json) × IsRootedPath r

  abbrev pub MayPass : GreylistSet → List ℕ → ℕ → SessionData W → Request W → Type 0
  MayPass greylist key now session req =
      (is_greylisted greylist req.peer ≡ false)
      ⊎ ((is_exempt_path req.path ≡ true)
          ⊎ ((is_authenticated session.auth_state ≡ true) ⊎ (is_cleared hmac key now req ≡ true)))

  demand-IsDemand : (req : Request W) → IsDemand req (demand hmac req)
  unfolding demand
  demand-IsDemand req = shown (client_kind req) refl
    where
      shown :
          (k : ClientKind)
          → client_kind req ≡ k
          → IsDemand req (elim k [
            | json ↦ json_notice
            | _ ↦ interstitial (validate_redir (some (or_root req.path_and_query)))
          ])
      shown json e = e
      shown htmx e =
          (λ q. absurd (cc (e, q)), validate_redir-IsRootedPath (some (or_root req.path_and_query)))
      shown native_browser e =
          (λ q. absurd (cc (e, q)), validate_redir-IsRootedPath (some (or_root req.path_and_query)))

  -- A request passes or is shown a toll, never both. It passes if its address is not greylisted, its
  -- path is exempt, it is authenticated, or it holds a clearance, and otherwise is shown the toll
  -- that its kind of client can read, with a path to come back to.
  pub greylist_challenge-decides :
      (greylist : GreylistSet) (key : List ℕ) (now : ℕ) (session : SessionData W) (req : Request W)
      → (MayPass greylist key now session req
          × (greylist_challenge hmac greylist key now session req ≡ passes))
        ⊎ (¬ MayPass greylist key now session req
            × IsDemand req (greylist_challenge hmac greylist key now session req))
  unfolding greylist_challenge
  greylist_challenge-decides greylist key now session req =
      elim (Bool-cases (is_greylisted greylist req.peer)) [
        | inr a ↦ rw a (inl (inl refl, refl))
        | inl a ↦ elim (Bool-cases (is_exempt_path req.path)) [
          | inl b ↦ rw (a, b) (inl (inr (inl refl), refl))
          | inr b ↦ elim (Bool-cases (is_authenticated session.auth_state)) [
            | inl c ↦ rw (a, b, c) (inl (inr (inr (inl refl)), refl))
            | inr c ↦ elim (Bool-cases (is_cleared hmac key now req)) [
              | inl d ↦ rw (a, b, c, d) (inl (inr (inr (inr refl)), refl))
              | inr d ↦ rw (a, b, c, d) (inr (λ m. ground arith, demand-IsDemand req))
            ]
          ]
        ]
      ]
