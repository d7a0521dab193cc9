-- ===== src/Deadlinks/Scan/Targets.antt =====
-- The targets that the enumeration of the pages collects.
use hotchkiss_io.Base.{
  All, All-append, All-filter_keep, Bool-cases, List, [], any, arith, inl, inr, is_some, refl,
  subst, true, ℕ, ◌||◌, ◌∙◌, ◌∷◌, ◌≡◌,
}
use hotchkiss_io.Text.{Text, is_one_of, same, trim}
use hotchkiss_io.Deadlinks.Store.{LinkRef, replace_for_page}
use hotchkiss_io.Deadlinks.Scan.{
  Outside, Page, add_target, add_targets, checkable, enumerate, page_urls,
}
use hotchkiss_io.Deadlinks.Store.Keeping.{any-snoc}
use hotchkiss_io.Deadlinks.Classify.{
  LinkTarget, classify, external_url, internal_path, skip, target_kind,
}
use hotchkiss_io.Text.Laws.{same_iff}
use hotchkiss_io.Deadlinks.Classify.Hosts.{classify-IsForeign}
use hotchkiss_io.Deadlinks.Extract.Distinct.{IsUrl, extract_links-IsDistinct}
use hotchkiss_io.Deadlinks.Extract.{extract_links}
use hotchkiss_io.Deadlinks.Scan.Loops.{IsGood, has_target}

module _ (o : Outside) (now : ℕ) (url : Text) where
  pub add_target-has :
      (raw : Text) (targets : List (Text × LinkTarget))
      → has_target (add_target o raw targets) url ≡ (has_target targets url || same raw url)
  unfolding add_target
  add_target-has raw targets = elim (Bool-cases (has_target targets raw)) [
    | inl y ↦ rw y (elim (Bool-cases (same raw url)) [
      | inl s ↦
          let there : has_target targets url ≡ true =
            subst (λ u. has_target targets u ≡ true) ((same_iff raw url).0 s) y in
          ground (arith, there, s)
      | inr s ↦ ground (arith, s)
    ])
    | inr n ↦
        rw n (any-snoc (λ e. same e.0 url) targets (raw, classify o.parse_url raw o.site_host))
  ]

  pub add_targets-has :
      (raws : List Text) (targets : List (Text × LinkTarget))
      → has_target (add_targets o raws targets) url ≡ (has_target targets url || is_one_of url raws)
  unfolding add_targets is_one_of
  add_targets-has [] targets = ground arith
  add_targets-has (raw ∷ raws) targets = ground (
    arith,
    add_targets-has raws (add_target o raw targets),
    add_target-has raw targets,
    same_iff raw url,
    same_iff url raw,
  )

  pub enumerate-has :
      (pages : List Page) (refs : List LinkRef) (targets : List (Text × LinkTarget))
      → has_target (enumerate o pages refs targets).1 url
        ≡ (has_target targets url || any (λ p. is_one_of url (page_urls o p)) pages)
  unfolding enumerate
  enumerate-has [] refs targets = ground arith
  enumerate-has (page ∷ pages) refs targets =
      enumerate-has pages (replace_for_page refs page.id (page_urls o page))
        (add_targets o (page_urls o page) targets)
      ∙ ground (arith, add_targets-has (page_urls o page) targets)

module _ (o : Outside) where
  pub IsGood-classify :
      (raw : Text) (t : LinkTarget)
      → classify o.parse_url raw o.site_host ≡ t
      → trim raw ≡ raw
      → is_some (target_kind t) ≡ true
      → IsGood (raw, t)
  unfolding target_kind
  IsGood-classify raw (internal_path path) e c k = tt
  IsGood-classify raw (external_url u) e c k =
      (classify-IsForeign o.parse_url raw o.site_host u e).0 ∙ c
  IsGood-classify raw (skip r) e c k = absurd (cc k)

  -- A URL as a page's list has it.
  abbrev pub IsRaw : Text → Type 0
  IsRaw raw = IsUrl raw × (checkable o raw ≡ true)

  pub add_target-IsGood :
      (raw : Text) (targets : List (Text × LinkTarget))
      → IsRaw raw
      → All IsGood targets
      → All IsGood (add_target o raw targets)
  unfolding add_target checkable
  add_target-IsGood raw targets (c, k) g = elim (Bool-cases (any (λ e. same e.0 raw) targets)) [
    | inl y ↦ rw y g
    | inr n ↦ rw n (All-append IsGood targets _ g (IsGood-classify raw _ refl c.0 k, tt))
  ]

  pub add_targets-IsGood :
      (raws : List Text) (targets : List (Text × LinkTarget))
      → All IsRaw raws
      → All IsGood targets
      → All IsGood (add_targets o raws targets)
  unfolding add_targets
  add_targets-IsGood [] targets r g = g
  add_targets-IsGood (raw ∷ raws) targets (r, rs) g =
      add_targets-IsGood raws (add_target o raw targets) rs (add_target-IsGood raw targets r g)

  pub page_urls-IsRaw : (page : Page) → All IsRaw (page_urls o page)
  unfolding page_urls
  page_urls-IsRaw page =
      All-filter_keep IsUrl (checkable o) (extract_links o.to_mdast page.markdown)
        (extract_links-IsDistinct o.to_mdast page.markdown).0

  pub enumerate-IsGood :
      (pages : List Page) (refs : List LinkRef) (targets : List (Text × LinkTarget))
      → All IsGood targets
      → All IsGood (enumerate o pages refs targets).1
  unfolding enumerate
  enumerate-IsGood [] refs targets g = g
  enumerate-IsGood (page ∷ pages) refs targets g =
      enumerate-IsGood pages (replace_for_page refs page.id (page_urls o page))
        (add_targets o (page_urls o page) targets)
        (add_targets-IsGood (page_urls o page) targets (page_urls-IsRaw page) g)
