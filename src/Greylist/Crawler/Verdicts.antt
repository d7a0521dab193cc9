-- ===== src/Greylist/Crawler/Verdicts.antt =====
-- What each verdict rests on, and that the memo answers as the resolver does.
use hotchkiss_io.Base.{
  All, Any, Bool, Bool-cases, List, Option, [], arith, false, filter, if◌then◌else◌, inl, inr, none,
  refl, some, sym, true, ℕ, ◌∷◌, ◌≡◌, ◌⊎◌,
}
use hotchkiss_io.Text.{Text}
use hotchkiss_io.Fallible.{Fallible, done, failed}
use hotchkiss_io.Greylist.Ip.{IpAddr, ips_contain, same_ip_iff}
use hotchkiss_io.Greylist.Crawler.{
  CrawlerCache, CrawlerDns, CrawlerVerdict, cached, confirm, find_entry, matches_crawler_suffix,
  not_crawler, of_flag, remember, unknown, verified, verify, verify_crawler,
}

module _ (dns : CrawlerDns) where
  -- A name under a crawler's suffix that resolves forward to the address.
  abbrev pub Confirms : IpAddr → Text → Type 0
  Confirms ip name =
      (matches_crawler_suffix name ≡ true)
      × ((ips : List IpAddr) × (dns.forward name ≡ done ips) × (ips_contain ips ip ≡ true))

  -- A name under no crawler's suffix, or one that resolves forward to other addresses.
  abbrev pub Denies : IpAddr → Text → Type 0
  Denies ip name =
      (matches_crawler_suffix name ≡ false)
      ⊎ ((ips : List IpAddr) × (dns.forward name ≡ done ips) × (ips_contain ips ip ≡ false))

  abbrev pub IsUndecided : Text → Type 0
  IsUndecided name = (matches_crawler_suffix name ≡ true) × (dns.forward name ≡ failed)

  abbrev pub Means : IpAddr → CrawlerVerdict → Type 0
  Means ip verified = (names : List Text) × (dns.ptr ip ≡ done names) × Any (Confirms ip) names
  Means ip not_crawler = (names : List Text) × (dns.ptr ip ≡ done names) × All (Denies ip) names
  Means ip unknown =
      (dns.ptr ip ≡ failed)
      ⊎ ((names : List Text) × (dns.ptr ip ≡ done names) × Any IsUndecided names)

  -- The same for the loop over the names that matched.
  abbrev Found : IpAddr → List Text → CrawlerVerdict → Type 0
  Found ip names verified = Any (Confirms ip) names
  Found ip names not_crawler = All (Denies ip) names
  Found ip names unknown = Any IsUndecided names

  Found-skip :
      (ip : IpAddr) (name : Text) (names : List Text) (v : CrawlerVerdict)
      → Denies ip name
      → Found ip names v
      → Found ip (name ∷ names) v
  Found-skip ip name names verified d f = inr f
  Found-skip ip name names not_crawler d f = (d, f)
  Found-skip ip name names unknown d f = inr f

  confirm-step :
      (ip : IpAddr) (name : Text) (names : List Text) (rest : CrawlerVerdict)
      (f : Fallible (List IpAddr))
      → matches_crawler_suffix name ≡ true
      → dns.forward name ≡ f
      → Found ip names rest
      → Found ip
          (name ∷ names)
          (elim f [ done ips ↦ if ips_contain ips ip then verified else rest | failed ↦ unknown ])
  confirm-step ip name names rest failed m e h = inl (m, e)
  confirm-step ip name names rest (done ips) m e h = elim (Bool-cases (ips_contain ips ip)) [
    | inl y ↦ rw y (inl (m, (ips, e, y)))
    | inr n ↦ rw n (Found-skip ip name names rest (inr (ips, e, n)) h)
  ]

  confirm-Found :
      (ip : IpAddr) (names : List Text)
      → Found ip names (confirm dns ip (filter matches_crawler_suffix names))
  unfolding confirm
  confirm-Found ip [] = tt
  confirm-Found ip (name ∷ names) = elim (Bool-cases (matches_crawler_suffix name)) [
    | inl y ↦ rw y (confirm-step ip name names _ (dns.forward name) y refl (confirm-Found ip names))
    | inr n ↦ rw n (Found-skip ip name names _ (inl n) (confirm-Found ip names))
  ]

  Means-of_Found :
      (ip : IpAddr) (names : List Text) (v : CrawlerVerdict)
      → dns.ptr ip ≡ done names
      → Found ip names v
      → Means ip v
  Means-of_Found ip names verified e f = (names, e, f)
  Means-of_Found ip names not_crawler e f = (names, e, f)
  Means-of_Found ip names unknown e f = inr (names, e, f)

  -- `Verified`: some name of the address lies under a crawler's suffix and resolves back to it.
  -- `NotCrawler`: every lookup that counts succeeded, and no name does. `Unknown`: a lookup that
  -- was needed failed.
  pub verify_crawler-Means : (ip : IpAddr) → Means ip (verify_crawler dns ip)
  unfolding verify_crawler
  verify_crawler-Means ip = judged (dns.ptr ip) refl
    where
      judged :
          (f : Fallible (List Text))
          → dns.ptr ip ≡ f
          → Means ip (elim f [
            | failed ↦ unknown
            | done names ↦ confirm dns ip (filter matches_crawler_suffix names)
          ])
      judged failed e = inl e
      judged (done names) e = Means-of_Found ip names _ e (confirm-Found ip names)

  -- Every entry of the memo is what the resolver says.
  abbrev pub Agrees : CrawlerCache → Type 0
  Agrees c = All (λ e. verify_crawler dns e.0 ≡ of_flag e.1) c.entries

  find_entry-Agrees :
      (ip : IpAddr) (es : List (IpAddr × Bool × ℕ)) (v : Bool) (at : ℕ)
      → All (λ e. verify_crawler dns e.0 ≡ of_flag e.1) es
      → find_entry ip es ≡ some (v, at)
      → verify_crawler dns ip ≡ of_flag v
  unfolding find_entry
  find_entry-Agrees ip [] v at a h = cc
  find_entry-Agrees ip ((j, w, t) ∷ es) v at a h =
      ground (arith, same_ip_iff j ip, a.0, find_entry-Agrees ip es v at a.1)

  cached-Agrees :
      (c : CrawlerCache) (ip : IpAddr) (now : ℕ) (v : Bool)
      → Agrees c
      → cached c ip now ≡ some v
      → verify_crawler dns ip ≡ of_flag v
  unfolding cached
  cached-Agrees c ip now v a h = held (find_entry ip c.entries) refl
    where
      held :
          (o : Option (Bool × ℕ)) → find_entry ip c.entries ≡ o → verify_crawler dns ip ≡ of_flag v
      held none e = absurd (ground arith)
      held (some (w, at)) e =
          let same_flag : w ≡ v = ground (arith, h, e) in
          find_entry-Agrees ip c.entries v at a (rw (← same_flag) e)

  remember-Agrees :
      (c : CrawlerCache) (ip : IpAddr) (now : ℕ) (v : CrawlerVerdict)
      → verify_crawler dns ip ≡ v
      → Agrees c
      → Agrees (remember c ip now v)
  unfolding remember
  remember-Agrees c ip now verified e a = (e, a)
  remember-Agrees c ip now not_crawler e a = (e, a)
  remember-Agrees c ip now unknown e a = a

  -- A verdict with the memo that is left: the resolver's own verdict, a memo that agrees with it,
  -- and the memo as it was if the verdict is inconclusive.
  abbrev pub Remembers : CrawlerCache → IpAddr → CrawlerVerdict × CrawlerCache → Type 0
  Remembers c ip (v, d) =
      (v ≡ verify_crawler dns ip) × Agrees d × (verify_crawler dns ip ≡ unknown → d ≡ c)

  -- With a memo that agrees with the resolver, the verdict is the resolver's, the memo that is
  -- left agrees with it too, and an inconclusive verdict leaves the memo as it was.
  pub verify-Agrees :
      (c : CrawlerCache) (ip : IpAddr) (now : ℕ) → Agrees c → Remembers c ip (verify dns c ip now)
  unfolding verify
  verify-Agrees c ip now a = agree (cached c ip now) refl
    where
      agree :
          (o : Option Bool)
          → cached c ip now ≡ o
          → Remembers c ip (elim o [
            | some v ↦ (of_flag v, c)
            | none ↦ (verify_crawler dns ip, remember c ip now (verify_crawler dns ip))
          ])
      agree none e = (refl, remember-Agrees c ip now _ refl a, λ u. rw u (unfold remember in refl))
      agree (some v) e = (sym (cached-Agrees c ip now v a e), a, λ u. refl)
