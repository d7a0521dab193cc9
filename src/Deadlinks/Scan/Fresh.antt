-- ===== src/Deadlinks/Scan/Fresh.antt =====
-- What a finished scan has checked.
use hotchkiss_io.Base.{All, Bool, List, [], any, arith, false, length, refl, true, ℕ, ◌∙◌, ◌≡◌}
use hotchkiss_io.Text.{Text, is_one_of}
use hotchkiss_io.Deadlinks.Store.{LinkCheckRow, LinkRef, prune_orphans, retain_days}
use hotchkiss_io.Deadlinks.Scan.{
  LinkTables, Outside, Page, ScanSummary, check_externals, check_internals, enumerate, finish_scan,
  page_urls, run_scan,
}
use hotchkiss_io.Deadlinks.Classify.{LinkTarget}
use hotchkiss_io.Fallible.{done, failed}
use hotchkiss_io.Deadlinks.Scan.Rows.{fresh, prune_orphans-fresh}
use hotchkiss_io.Deadlinks.Scan.Loops.{
  IsGood, check_externals-fresh, check_internals-fresh, has_either, has_target,
}
use hotchkiss_io.Deadlinks.Scan.Targets.{enumerate-IsGood, enumerate-has}

finish_scan-fresh :
    (o : Outside) (now count : ℕ) (refs : List LinkRef) (targets : List (Text × LinkTarget))
    (t kept : List LinkCheckRow) (url : Text)
    → All IsGood targets
    → o.record_fails url ≡ false
    → has_target targets url ≡ true
    → check_internals o now targets t ≡ (true, kept)
    → fresh (finish_scan o now count refs targets (true, kept)).1.checks url now ≡ true
unfolding finish_scan prune_orphans
finish_scan-fresh o now count refs targets t kept url g k h e =
    prune_orphans-fresh (check_externals o now targets kept) refs now retain_days url (
      check_externals-fresh o now url targets kept g k
      ∙ ground (
        arith,
        check_internals-fresh o now url targets t kept e,
        has_either o now url targets,
        h,
      ))

cut_short :
    (o : Outside) (now count : ℕ) (refs : List LinkRef) (targets : List (Text × LinkTarget))
    (t : List LinkCheckRow)
    → (finish_scan o now count refs targets (false, t)).0 ≡ failed
unfolding finish_scan
cut_short o now count refs targets t = refl

-- A scan that succeeds leaves a row checked at its own time for every URL that any page links to, that
-- can be checked and whose row can be written.
pub run_scan-fresh :
    (o : Outside) (pages : List Page) (tables : LinkTables) (now : ℕ) (summary : ScanSummary)
    (url : Text)
    → (run_scan o pages tables now).0 ≡ done summary
    → o.record_fails url ≡ false
    → any (λ p. is_one_of url (page_urls o p)) pages ≡ true
    → fresh (run_scan o pages tables now).1.checks url now ≡ true
unfolding run_scan
run_scan-fresh o pages tables now summary url e w h =
    finished (check_internals o now (enumerate o pages tables.refs []).1 tables.checks) refl e
  where
    finished :
        (r : Bool × List LinkCheckRow)
        → check_internals o now (enumerate o pages tables.refs []).1 tables.checks ≡ r
        → (finish_scan o now
            (length pages)
            (enumerate o pages tables.refs []).0
            (enumerate o pages tables.refs []).1
            r).0
          ≡ done summary
        → fresh
            (finish_scan o now
              (length pages)
              (enumerate o pages tables.refs []).0
              (enumerate o pages tables.refs []).1
              r).1.checks
            url
            now
          ≡ true
    finished (false, t) q k = absurd (
        cc (
          k,
          cut_short o now (length pages) (enumerate o pages tables.refs []).0
              (enumerate o pages tables.refs []).1 t,
        ))
    finished (true, kept) q k =
        finish_scan-fresh o now (length pages) (enumerate o pages tables.refs []).0
          (enumerate o pages tables.refs []).1 tables.checks kept url
          (enumerate-IsGood o pages tables.refs [] tt) w
          (enumerate-has o now url pages tables.refs [] ∙ h) q
