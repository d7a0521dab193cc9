-- ===== src/Deadlinks/Classify/Hosts.antt =====
-- Which URLs are fetched.
use hotchkiss_io.Base.{Option, arith, false, if◌then◌else◌, none, refl, some, true, ◌++◌, ◌≡◌, ◌≢◌}
use hotchkiss_io.Text.{Text, codes, is_empty, starts_with, to_ascii_lowercase, trim}
use hotchkiss_io.Text.Laws.{same_iff}
use hotchkiss_io.Deadlinks.Classify.{
  LinkTarget, Url, anchor, classify, classify_parsed, empty, external_url, internal_path, is_http,
  is_own_host, lower_host, malformed, protocol_relative, skip,
}

-- A URL of another host, reached over HTTP.
pub record IsForeign (parse_url : Text → Option Url) (site_host url : Text) : Type 0 where
  pub parsed : Url
  pub parses : parse_url url ≡ some parsed
  pub over_http : is_http parsed.scheme ≡ true
  pub not_site : lower_host parsed ≢ to_ascii_lowercase site_host
  pub not_www : lower_host parsed ≢ codes "www." ++ to_ascii_lowercase site_host

classify_parsed-IsForeign :
    (parse_url : Text → Option Url) (url site_host u : Text) (parsed : Url)
    → parse_url url ≡ some parsed
    → classify_parsed url site_host parsed ≡ external_url u
    → (u ≡ url) × IsForeign parse_url site_host url
unfolding classify_parsed
classify_parsed-IsForeign parse_url url site_host u parsed e h =
    let site : Text = to_ascii_lowercase site_host in
    let host : Text = lower_host parsed in
    let own : is_own_host host site ≡ false = ground (arith, h) in
    (
      ground (arith, h),
      record {
        parsed = parsed;
        parses = e;
        over_http = ground (arith, h);
        not_site = λ q. ground (arith, own, (same_iff host site).1 q);
        not_www = λ q. ground (arith, own, (same_iff host (codes "www." ++ site)).1 q);
      },
    )

-- What is classified as external is the trimmed text itself, an HTTP URL whose host is neither
-- the site's nor that with `www.` in front.
pub classify-IsForeign :
    (parse_url : Text → Option Url) (raw site_host u : Text)
    → classify parse_url raw site_host ≡ external_url u
    → (u ≡ trim raw) × IsForeign parse_url site_host (trim raw)
unfolding classify
classify-IsForeign parse_url raw site_host u h =
    parsed_case (parse_url (trim raw)) refl (absolute (trim raw) _ h)
  where
    absolute :
        (url : Text) (t : LinkTarget)
        → (if is_empty url
            then skip empty
            else if starts_with (codes "#") url
            then skip anchor
            else if starts_with (codes "/") url
            then if starts_with (codes "//") url then skip protocol_relative else internal_path url
            else t)
          ≡ external_url u
        → t ≡ external_url u
    absolute url t k = ground arith

    parsed_case :
        (o : Option Url)
        → parse_url (trim raw) ≡ o
        → elim o [
          | none ↦ skip malformed
          | some parsed ↦ classify_parsed (trim raw) site_host parsed
        ]
          ≡ external_url u
        → (u ≡ trim raw) × IsForeign parse_url site_host (trim raw)
    parsed_case none e k = absurd (cc k)
    parsed_case (some parsed) e k =
        classify_parsed-IsForeign parse_url (trim raw) site_host u parsed e k
