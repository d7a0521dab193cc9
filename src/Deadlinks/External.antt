-- ===== src/Deadlinks/External.antt =====
-- src/deadlinks/external.rs: the check of an external link. `send` is the HTTP client (the reqwest
-- crate): a status, or a transport error of one of the kinds that the code tells apart.
pub mod Verdicts
use hotchkiss_io.Base.{
  Bool, Option, if◌then◌else◌, leb, ltb, none, some, take, ℕ, ◌&&◌, ◌++◌, ◌==◌, ◌||◌,
}
use hotchkiss_io.Text.{Text, codes}
use hotchkiss_io.Deadlinks.Class.{CheckClass, blocked, dead, ok, transient}
use hotchkiss_io.Text.Decimal.{print}

pub record CheckOutcome : Type 0 where
  pub class : CheckClass
  pub status : Option ℕ
  pub detail : Text

pub data SendError : Type 0 where
  timeout connect_failed : SendError
  other_error : Text → SendError

pub data Sent : Type 0 where
  answered : ℕ → Sent
  errored : SendError → Sent

pub data Verb : Type 0 where
  head_request get_request : Verb

abbrev between : ℕ → ℕ → ℕ → Bool
between lo hi n = leb lo n && leb n hi

-- The arms of the `match`, in their order.
unfoldable pub classify_status : ℕ → CheckClass
classify_status status =
    if between 200 399 status
    then ok
    else if status == 404 || status == 410
    then dead
    else if status == 429
    then transient
    else if between 500 599 status
    then transient
    else if status == 999
    then blocked
    else if between 400 499 status
    then blocked
    else transient

unfoldable pub outcome_from_status : ℕ → CheckOutcome
unfolding classify_status
outcome_from_status status = record {
  class = classify_status status;
  status = some status;
  detail = codes "HTTP " ++ print status;
}

unfoldable pub classify_error : SendError → CheckOutcome
classify_error timeout = record { class = transient; status = none; detail = codes "timeout" }
classify_error connect_failed = record {
  class = dead;
  status = none;
  detail = codes "connection failed (DNS or refused)";
}
classify_error (other_error msg) = record {
  class = transient;
  status = none;
  detail = take 120 msg;
}

unfoldable pub outcome_of : Sent → CheckOutcome
unfolding outcome_from_status classify_error
outcome_of (answered status) = outcome_from_status status
outcome_of (errored e) = classify_error e

-- HEAD answers only if its status is clean; anything else is asked again by GET.
unfoldable pub clean_status : Sent → Option ℕ
clean_status (answered status) = if leb 200 status && ltb status 400 then some status else none
clean_status (errored e) = none

-- The answer to HEAD if it was clean, else the answer to GET.
unfoldable pub after_head : Option ℕ → Sent → CheckOutcome
unfolding outcome_of outcome_from_status
after_head (some status) got = outcome_from_status status
after_head none got = outcome_of got

unfoldable pub check : (Verb → Text → Sent) → Text → CheckOutcome
unfolding clean_status after_head
check send url = after_head (clean_status (send head_request url)) (send get_request url)
