-- ===== src/Deadlinks/Classify.antt =====
-- src/deadlinks/classify.rs: what the scanner does with a URL. `parse_url` is the url crate's
-- `Url::parse`.
pub mod Hosts
use hotchkiss_io.Base.{Bool, Option, [], if◌then◌else◌, none, some, ℕ, ◌++◌, ◌||◌, ◌∷◌}
use hotchkiss_io.Text.{Text, codes, is_empty, same, starts_with, to_ascii_lowercase, trim}
use hotchkiss_io.Deadlinks.Class.{LinkKind, external, internal}

pub record Url : Type 0 where
  pub scheme : Text
  pub host : Option Text
  pub url_path : Text
  pub query : Option Text
  pub fragment : Option Text

pub data SkipReason : Type 0 where
  empty anchor protocol_relative mailto tel data_uri java_script other_scheme malformed : SkipReason

pub data LinkTarget : Type 0 where
  internal_path external_url : Text → LinkTarget
  skip : SkipReason → LinkTarget

unfoldable pub target_kind : LinkTarget → Option LinkKind
target_kind (internal_path p) = some internal
target_kind (external_url u) = some external
target_kind (skip r) = none

abbrev or_empty : Option Text → Text
or_empty none = []
or_empty (some s) = s

-- A delimiter and the part behind it, if there is one.
abbrev suffix : ℕ → Option Text → Text
suffix d none = []
suffix d (some s) = d ∷ s

abbrev pub is_own_host : Text → Text → Bool
is_own_host host site = same host site || same host (codes "www." ++ site)

abbrev pub lower_host : Url → Text
lower_host u = to_ascii_lowercase (or_empty u.host)

abbrev pub is_http : Text → Bool
is_http s = same s (codes "http") || same s (codes "https")

unfoldable pub skip_scheme : Text → SkipReason
skip_scheme s =
    if same s (codes "mailto")
    then mailto
    else if same s (codes "tel")
    then tel
    else if same s (codes "data")
    then data_uri
    else if same s (codes "javascript")
    then java_script
    else other_scheme

unfoldable pub classify_parsed : Text → Text → Url → LinkTarget
unfolding skip_scheme
classify_parsed url site_host parsed =
    if is_http parsed.scheme
    then if is_own_host (lower_host parsed) (to_ascii_lowercase site_host)
      then internal_path
          (parsed.url_path ++ (suffix b'?' parsed.query ++ suffix b'#' parsed.fragment))
      else external_url url
    else skip (skip_scheme parsed.scheme)

unfoldable pub classify : (Text → Option Url) → Text → Text → LinkTarget
unfolding classify_parsed trim
classify parse_url raw site_host =
    let url : Text = trim raw in
    if is_empty url
    then skip empty
    else if starts_with (codes "#") url
    then skip anchor
    else if starts_with (codes "/") url
    then if starts_with (codes "//") url then skip protocol_relative else internal_path url
    else elim (parse_url url) [
      | none ↦ skip malformed
      | some parsed ↦ classify_parsed url site_host parsed
    ]
