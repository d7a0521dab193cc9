-- ===== src/Deadlinks/Scan.antt =====
-- src/deadlinks/scan.rs: a pass over every page, the re-check of one link, and the single-flight
-- state. The pages come in the order of the walk; each distinct URL is checked once, in the order of
-- first appearance, where the source's maps have none and its hosts run side by side: the rows of
-- different URLs are independent.
pub mod Flight
pub mod Rows
pub mod Loops
pub mod Targets
pub mod Fresh
use hotchkiss_io.Base.{
  Bool, List, Option, [], any, false, filter, if◌then◌else◌, is_some, length, none, some, true, ℕ,
  ◌++◌, ◌∷◌,
}
use hotchkiss_io.Text.{Text, codes, same}
use hotchkiss_io.Deadlinks.Class.{
  InternalVerdict, class_of_verdict, external, internal, link_dead, link_ok, link_unknown,
}
use hotchkiss_io.Deadlinks.Store.{
  LinkCheckRow, LinkRef, is_confirmed_dead, is_failing, needs_review, problem_rows, prune_orphans,
  record_check, replace_for_page, retain_days,
}
use hotchkiss_io.Deadlinks.Extract.{Node, extract_links}
use hotchkiss_io.Deadlinks.Classify.{
  LinkTarget, Url, classify, external_url, internal_path, skip, target_kind,
}
use hotchkiss_io.Deadlinks.External.{CheckOutcome, Sent, Verb, check}
use hotchkiss_io.Deadlinks.Internal.{Site, resolve_internal}
use hotchkiss_io.Fallible.{Fallible, done, failed}

pub record ScanSummary : Type 0 where
  pub pages_scanned : ℕ
  pub links_checked : ℕ
  pub confirmed_dead : ℕ
  pub failing : ℕ
  pub to_review : ℕ

-- What `DeadLinkScanState` guards.
pub record ScanState : Type 0 where
  pub running : Bool
  pub last_started : Option ℕ
  pub last_finished : Option ℕ
  pub last_summary : Option ScanSummary

unfoldable pub try_begin : ScanState → ℕ → Bool × ScanState
try_begin g now =
    if g.running then (false, g) else (true, record g { running = true; last_started = some now })

abbrev pub or_previous : Option ScanSummary → Option ScanSummary → Option ScanSummary
or_previous none kept = kept
or_previous (some s) kept = some s

unfoldable pub finish : ScanState → ℕ → Option ScanSummary → ScanState
finish g now summary = record g {
  running = false;
  last_finished = some now;
  last_summary = or_previous summary g.last_summary;
}

pub record Page : Type 0 where
  pub id : ℕ
  pub markdown : Text

unfoldable pub internal_detail : InternalVerdict → Text
internal_detail link_ok = codes "resolved"
internal_detail link_dead = codes "no such page or media"
internal_detail link_unknown = codes "unrecognized internal route"

-- The tables, and the crates and the network behind a scan.
pub record LinkTables : Type 0 where
  pub checks : List LinkCheckRow
  pub refs : List LinkRef

pub record Outside : Type 0 where
  pub to_mdast : Text → Option Node
  pub parse_url : Text → Option Url
  pub send : Verb → Text → Sent
  pub site : Site
  pub site_host : Text
  -- Whether writing the row of a URL fails.
  pub record_fails : Text → Bool

-- The URLs of a page that can be checked, and the target of each.
unfoldable pub checkable : Outside → Text → Bool
checkable o raw = is_some (target_kind (classify o.parse_url raw o.site_host))

unfoldable pub page_urls : Outside → Page → List Text
unfolding checkable
page_urls o page = filter (checkable o) (extract_links o.to_mdast page.markdown)

-- `entry(raw).or_insert(target)`
unfoldable pub add_target : Outside → Text → List (Text × LinkTarget) → List (Text × LinkTarget)
add_target o raw targets =
    if any (λ e. same e.0 raw) targets
    then targets
    else targets ++ (raw, classify o.parse_url raw o.site_host) ∷ []

unfoldable pub add_targets :
    Outside → List Text → List (Text × LinkTarget) → List (Text × LinkTarget)
unfolding add_target
add_targets o [] targets = targets
add_targets o (raw ∷ raws) targets = add_targets o raws (add_target o raw targets)

-- The loop over the pages: references refreshed, targets collected.
unfoldable pub enumerate :
    Outside
    → List Page
    → List LinkRef
    → List (Text × LinkTarget)
    → List LinkRef × List (Text × LinkTarget)
unfolding page_urls add_targets
enumerate o [] refs targets = (refs, targets)
enumerate o (page ∷ pages) refs targets =
    enumerate o pages (replace_for_page refs page.id (page_urls o page))
      (add_targets o (page_urls o page) targets)

-- The internal links, until a query or a write fails; whether all were done, and the table.
unfoldable pub check_internals :
    Outside → ℕ → List (Text × LinkTarget) → List LinkCheckRow → Bool × List LinkCheckRow
unfolding internal_detail
check_internals o now [] t = (true, t)
check_internals o now ((url, internal_path path) ∷ targets) t =
    elim (resolve_internal o.site path) [
      | failed ↦ (false, t)
      | done v ↦
          let rest =
            check_internals o now targets
              (record_check t url internal (class_of_verdict v) none (internal_detail v) now).1 in
          if o.record_fails url then (false, t) else rest
    ]
check_internals o now ((url, external_url u) ∷ targets) t = check_internals o now targets t
check_internals o now ((url, skip r) ∷ targets) t = check_internals o now targets t

-- An external link is checked and recorded under the URL that it classified as. A write that fails is
-- logged, and the loop goes on.
unfoldable pub check_externals :
    Outside → ℕ → List (Text × LinkTarget) → List LinkCheckRow → List LinkCheckRow
check_externals o now [] t = t
check_externals o now ((url, external_url u) ∷ targets) t =
    let got : CheckOutcome = check o.send u in
    check_externals o now targets (
      if o.record_fails u
      then t
      else (record_check t u external got.class got.status got.detail now).1)
check_externals o now ((url, internal_path path) ∷ targets) t = check_externals o now targets t
check_externals o now ((url, skip r) ∷ targets) t = check_externals o now targets t

abbrev is_checked_target : Text × LinkTarget → Bool
is_checked_target (url, target) = is_some (target_kind target)

unfoldable pub summarize : ℕ → ℕ → List LinkCheckRow → ScanSummary
summarize pages links t = record {
  pages_scanned = pages;
  links_checked = links;
  confirmed_dead = length (filter is_confirmed_dead (problem_rows t));
  failing = length (filter is_failing (problem_rows t));
  to_review = length (filter needs_review (problem_rows t));
}

-- The rest of a pass, from the internal checks on.
finish_scan :
    Outside
    → ℕ
    → ℕ
    → List LinkRef
    → List (Text × LinkTarget)
    → Bool × List LinkCheckRow
    → Fallible ScanSummary × LinkTables
unfolding check_externals summarize
finish_scan o now pages refs targets (false, t) = (failed, record { checks = t; refs = refs })
finish_scan o now pages refs targets (true, t) =
    let kept = prune_orphans (check_externals o now targets t) refs now retain_days in
    (
      done (summarize pages (length (filter is_checked_target targets)) kept),
      record { checks = kept; refs = refs },
    )

unfoldable pub run_scan : Outside → List Page → LinkTables → ℕ → Fallible ScanSummary × LinkTables
unfolding enumerate check_internals finish_scan
run_scan o pages tables now =
    let (refs, targets) = enumerate o pages tables.refs [] in
    finish_scan o now (length pages) refs targets (check_internals o now targets tables.checks)

unfoldable pub recheck_one :
    Outside → Text → List LinkCheckRow → ℕ → Fallible LinkCheckRow × List LinkCheckRow
unfolding internal_detail
recheck_one o url t now = elim (classify o.parse_url url o.site_host) [
  | skip reason ↦ (failed, t)
  | external_url u ↦
      let got : CheckOutcome = check o.send u in
      let (row, kept) = record_check t url external got.class got.status got.detail now in
      if o.record_fails url then (failed, t) else (done row, kept)
  | internal_path path ↦ elim (resolve_internal o.site path) [
    | failed ↦ (failed, t)
    | done v ↦
        let (row, kept) =
          record_check t url internal (class_of_verdict v) none (internal_detail v) now in
        if o.record_fails url then (failed, t) else (done row, kept)
  ]
]

abbrev summary_of : Fallible ScanSummary → Option ScanSummary
summary_of failed = none
summary_of (done s) = some s

-- A trigger: nothing if a scan is running.
unfoldable pub run_guarded :
    Outside → List Page → ScanState → LinkTables → (started finished : ℕ) → ScanState × LinkTables
unfolding try_begin run_scan finish
run_guarded o pages g tables started finished =
    let (mine, claimed) = try_begin g started in
    let (result, after) = run_scan o pages tables started in
    if mine then (finish claimed finished (summary_of result), after) else (g, tables)
