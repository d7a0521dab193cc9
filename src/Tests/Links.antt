-- ===== src/Tests/Links.antt =====
-- The dead-link scanner, on concrete inputs.
use hotchkiss_io.Base.{
  List, Option, [], arith, false, insert_by, none, refl, some, sort_by, true, ℕ, ◌↔◌, ◌∷◌, ◌≡◌, ◌≤◌,
}
use hotchkiss_io.Text.{
  Text, codes, is_ascii_uppercase, is_one_of, is_whitespace, lower_char, same, strip_prefix,
  text_leb, to_ascii_lowercase, trim, trim_end_matches, trim_start_matches,
}
use hotchkiss_io.Fallible.{done}
use hotchkiss_io.Deadlinks.External.{
  Sent, Verb, after_head, answered, check, classify_status, clean_status, get_request, head_request,
  outcome_from_status, outcome_of,
}
use hotchkiss_io.Deadlinks.Store.{
  LinkCheckRow, LinkRef, class_of, get_row, insert_ref, is_confirmed_dead, is_failing, needs_review,
  next_state, next_streak, problem_rows, prune_orphans, record_check, replace_for_page, same_class,
  upsert_row,
}
use hotchkiss_io.Deadlinks.Store.Streak.{Check}
use hotchkiss_io.Deadlinks.Classify.{Url, classify, classify_parsed, target_kind}
use hotchkiss_io.Deadlinks.Internal.{Site}
use hotchkiss_io.Deadlinks.Store.Keeping.{Recorded}
use hotchkiss_io.Deadlinks.Extract.{
  Node, collect, extract_links, more_nodes, no_nodes, node, push_url,
}
use hotchkiss_io.Deadlinks.Scan.{
  Outside, Page, ScanSummary, add_target, add_targets, check_externals, check_internals, checkable,
  enumerate, page_urls, run_scan, summarize, try_begin,
}
use hotchkiss_io.Deadlinks.Scan.Flight.{
  Flight, at_start, claimed, idle_flight, single_flight, then_step,
}
use hotchkiss_io.Deadlinks.Class.{
  class_as_str, class_from_stored, counts_as_failure, dead, external, kind_as_str,
}
use hotchkiss_io.Deadlinks.Store.Confirm.{IsLongDead, confirmed-IsLongDead, three_dead_confirm}
use hotchkiss_io.Text.Decimal.{print}
use hotchkiss_io.Deadlinks.Scan.Fresh.{run_scan-fresh}
use hotchkiss_io.Deadlinks.Scan.Rows.{fresh}

abbrev gone_url : Text
gone_url = codes "https://gone.example/"

abbrev dead_at : ℕ → Check
dead_at t = record { class = dead; status = some 404; detail = codes "HTTP 404"; at = t }

-- Three daily checks, the newest first, of a day each.
abbrev daily : List Check
daily = dead_at 172800 ∷ dead_at 86400 ∷ dead_at 0 ∷ []

abbrev row_with : ℕ → ℕ → LinkCheckRow
row_with k last = record {
  url = gone_url;
  kind = codes "external";
  last_class = codes "dead";
  last_status = some 404;
  detail = some (codes "HTTP 404");
  consecutive_failures = k;
  first_failed_at = some 0;
  last_ok_at = none;
  last_checked_at = last;
  ignored = false;
}

confirmed-IsLongDead_example : IsLongDead 72000 daily
unfolding next_state next_streak same_class counts_as_failure class_as_str kind_as_str trim
    trim_start_matches trim_end_matches is_whitespace is_confirmed_dead class_of class_from_stored
    same
confirmed-IsLongDead_example =
    confirmed-IsLongDead gone_url external 72000 daily (row_with 3 172800)
      (omega arith, (omega arith, tt)) refl refl

three_dead_confirm_example : is_confirmed_dead (row_with 3 172800) ≡ true
unfolding next_state next_streak same_class counts_as_failure class_as_str kind_as_str trim
    trim_start_matches trim_end_matches is_whitespace
three_dead_confirm_example =
    three_dead_confirm gone_url external 72000 [] (dead_at 0) (dead_at 86400) (dead_at 172800) refl
      refl refl (omega arith) (omega arith) (row_with 3 172800) refl

abbrev busy_flight : Flight
busy_flight = record {
  state = record {
    running = true;
    last_started = some 5;
    last_finished = none;
    last_summary = none;
  };
  in_flight = 1;
}

single_flight_example :
    (busy_flight.in_flight ≤ 1) × ((busy_flight.state.running ≡ true) ↔ (busy_flight.in_flight ≡ 1))
unfolding try_begin
single_flight_example =
    single_flight busy_flight
      (then_step idle_flight busy_flight at_start (claimed idle_flight 5 refl))

abbrev parse_gone : Text → Option Url
parse_gone s = some (record {
  scheme = codes "https";
  host = some (codes "gone.example");
  url_path = codes "/";
  query = none;
  fragment = none;
})

-- HEAD refused, GET gone.
abbrev send_gone : Verb → Text → Sent
send_gone head_request url = answered 405
send_gone get_request url = answered 410

abbrev empty_site : Site
empty_site = record {
  has_variant = λ key. done false;
  has_ref = λ key. done false;
  pages_found = λ segs. done 0;
}

abbrev note_404 : Recorded
note_404 = record {
  checked_url = gone_url;
  checked_kind = external;
  verdict = dead;
  answer = some 404;
  note = codes "HTTP 404";
  instant = 259200;
}

abbrev old_refs : List LinkRef
old_refs =
    record { page_id = 1; ref_url = codes "/old" } ∷ record { page_id = 2; ref_url = gone_url } ∷ []

abbrev two_links : Text → Option Node
two_links markdown = some (
    node none (
      more_nodes (node (some (codes " /a ")) no_nodes)
        (more_nodes (node (some (codes "/a")) no_nodes) no_nodes)))

abbrev linked_page : Page
linked_page = record { id = 1; markdown = codes "[x](https://gone.example/)" }

abbrev one_link : Text → Option Node
one_link markdown = some (node (some gone_url) no_nodes)

abbrev gone_outside : Outside
gone_outside = record {
  to_mdast = one_link;
  parse_url = parse_gone;
  send = send_gone;
  site = empty_site;
  site_host = codes "hotchkiss.io";
  record_fails = λ u. false;
}

abbrev first_summary : ScanSummary
first_summary = record {
  pages_scanned = 1;
  links_checked = 1;
  confirmed_dead = 0;
  failing = 1;
  to_review = 0;
}

run_scan-fresh_example :
    fresh
      (run_scan gone_outside (linked_page ∷ []) (record { checks = []; refs = [] }) 500).1.checks
      gone_url
      500
    ≡ true
unfolding run_scan enumerate page_urls checkable target_kind classify classify_parsed trim
    trim_start_matches trim_end_matches is_whitespace strip_prefix same to_ascii_lowercase
    lower_char is_ascii_uppercase extract_links collect push_url is_one_of replace_for_page
    insert_ref add_targets add_target check_internals check_externals check clean_status after_head
    outcome_of outcome_from_status classify_status record_check get_row upsert_row next_state
    next_streak same_class counts_as_failure class_as_str kind_as_str class_from_stored class_of
    summarize problem_rows text_leb is_confirmed_dead is_failing needs_review prune_orphans print
    sort_by insert_by
run_scan-fresh_example =
    run_scan-fresh gone_outside (linked_page ∷ []) (record { checks = []; refs = [] }) 500
      first_summary gone_url refl refl refl
