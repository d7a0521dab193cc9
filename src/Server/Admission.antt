-- ===== src/Server/Admission.antt =====
-- What reaches a handler.
use hotchkiss_io.Base.{Bool, List, inl, inr, none, refl, subst, true, ℕ, ◌≡◌, ◌⊎◌}
use hotchkiss_io.Fallible.{Fallible, done, failed}
use hotchkiss_io.Session.{Request, SessionData, from_request_parts, role_of}
use hotchkiss_io.Middleware.{
  Lookups, Outcome, api_key_auth, forbidden, is_safe_method, refresh_session_role,
  require_admin_for_mutations, role_scoped_mutations, run, unauthorized,
}
use hotchkiss_io.Greylist.ActiveSet.{GreylistSet}
use hotchkiss_io.Greylist.Toll.{Toll, greylist_challenge, interstitial, json_notice, passes}
use hotchkiss_io.Server.{gate, handled, past_toll, rejected, serve}
use hotchkiss_io.Middleware.Identity.{AdminGrounds, identity, identity-AdminGrounds}
use hotchkiss_io.Greylist.Toll.Order.{IsDemand, MayPass, greylist_challenge-decides}
use hotchkiss_io.Middleware.Gate.{IsCeremony, mutations_need_admin}
use hotchkiss_io.Roles.{admin}
use hotchkiss_io.Middleware.Unchanged.{identified-SameRequest}

module _ {W : Type 0} (db : Lookups W) (hmac : List ℕ → List ℕ → Fallible (List ℕ)) where
  -- The request as the last two layers see it.
  abbrev pub identified : ℕ → Request W → Request W
  identified now req = refresh_session_role db now (api_key_auth db req)

  past_toll_sound :
      (debug : Bool) (s t : SessionData W) (req seen : Request W) (toll : Toll)
      → past_toll db hmac debug s req toll ≡ handled t seen
      → (toll ≡ passes)
        × (require_admin_for_mutations debug role_scoped_mutations s.auth_state req ≡ run)
        × (s ≡ t)
  unfolding past_toll gate
  past_toll_sound debug s t req seen passes h =
      gated (require_admin_for_mutations debug role_scoped_mutations s.auth_state req) refl h
    where
      gated :
          (o : Outcome)
          → require_admin_for_mutations debug role_scoped_mutations s.auth_state req ≡ o
          → gate db hmac debug s req o ≡ handled t seen
          → (passes ≡ passes)
            × (require_admin_for_mutations debug role_scoped_mutations s.auth_state req ≡ run)
            × (s ≡ t)
      gated run e h = (refl, e, cc)
      gated forbidden e h = absurd (cc h)
      gated unauthorized e h = absurd (cc h)
  past_toll_sound debug s t req seen json_notice h = absurd (cc h)
  past_toll_sound debug s t req seen (interstitial r) h = absurd (cc h)

  passed :
      (greylist : GreylistSet) (key : List ℕ) (now : ℕ) (req : Request W) (toll : Toll)
      (d : SessionData W)
      → (MayPass hmac greylist key now d req × (toll ≡ passes))
        ⊎ (¬ MayPass hmac greylist key now d req × IsDemand hmac req toll)
      → toll ≡ passes
      → MayPass hmac greylist key now d req
  passed greylist key now req toll d (inl (m, _)) e = m
  passed greylist key now req toll d (inr (_, demand)) e =
      absurd (subst (IsDemand hmac req) e demand)

  admitted :
      (debug : Bool) (now : ℕ) (req : Request W) (d : SessionData W)
      → req.extension ≡ none
      → from_request_parts (identified now req) ≡ done d
      → (is_safe_method req.method ≡ true)
        ⊎ (IsCeremony debug req.method req.path ⊎ (role_of d.auth_state ≡ admin))
      → (is_safe_method req.method ≡ true)
        ⊎ (IsCeremony debug req.method req.path ⊎ AdminGrounds db req)
  admitted debug now req d x e (inl safe) = inl safe
  admitted debug now req d x e (inr (inl c)) = inr (inl c)
  admitted debug now req d x e (inr (inr a)) =
      inr (inr (identity-AdminGrounds db now req d x (unfold identity in e) a))

  -- The whole stack: a request that arrives with no injected identity reaches its handler only
  -- if the toll lets it through, and its method is safe, it is a POST of the sign-in ceremony,
  -- or its identity has grounds to be an admin: a live key or a session of a user whose row
  -- says so now, or a session that says so while the query for its user fails or the first read
  -- of it failed.
  pub serve_sound :
      (debug : Bool) (greylist : GreylistSet) (key : List ℕ) (now : ℕ) (req seen : Request W)
      (s : SessionData W)
      → req.extension ≡ none
      → serve db hmac debug greylist key now req ≡ handled s seen
      → MayPass hmac greylist key now s (identified now req)
        × ((is_safe_method req.method ≡ true)
            ⊎ (IsCeremony debug req.method req.path ⊎ AdminGrounds db req))
  unfolding serve
  serve_sound debug greylist key now req seen s x h =
      of_session (from_request_parts (identified now req)) refl h
    where
      of_session :
          (f : Fallible (SessionData W))
          → from_request_parts (identified now req) ≡ f
          → elim f [
            | failed ↦ rejected
            | done d ↦
                past_toll db hmac debug d
                  (identified now req)
                  (greylist_challenge hmac greylist key now d (identified now req))
          ]
            ≡ handled s seen
          → MayPass hmac greylist key now s (identified now req)
            × ((is_safe_method req.method ≡ true)
                ⊎ (IsCeremony debug req.method req.path ⊎ AdminGrounds db req))
      of_session failed e h = absurd (cc h)
      of_session (done d) e h =
          let (pass, ran, same_session) =
            past_toll_sound debug d s (identified now req) seen
              (greylist_challenge hmac greylist key now d (identified now req)) h in
          let kept = identified-SameRequest db now req in
          rw (← same_session) (
            passed greylist key now (identified now req) _ d
                (greylist_challenge-decides hmac greylist key now d (identified now req)) pass,
            admitted debug now req d x e (
                subst
                  (λ m.
                    (is_safe_method m ≡ true)
                    ⊎ (IsCeremony debug m req.path ⊎ (role_of d.auth_state ≡ admin)))
                  kept.same_verb
                  (subst
                    (λ p.
                      (is_safe_method (identified now req).method ≡ true)
                      ⊎ (IsCeremony debug (identified now req).method p
                          ⊎ (role_of d.auth_state ≡ admin)))
                    kept.same_place
                    ((mutations_need_admin debug d.auth_state (identified now req)).0.0 ran))),
          )
