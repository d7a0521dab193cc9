-- ===== src/Referer.antt =====
-- src/web/util/referer.rs: what a referer counts as, and the referrers of the dashboard. The parser
-- of URLs is a parameter. Counts are the natural numbers that SQLite counts.
pub mod Classes
pub mod Counts
pub mod Folded
pub mod Hosts
use hotchkiss_io.Base.{
  Bool, List, Option, [], false, filter, if◌then◌else◌, ltb, none, some, sort_by, take, true, ℕ,
  ◌&&◌, ◌++◌, ◌+◌, ◌==◌, ◌||◌, ◌∷◌,
}
use hotchkiss_io.Text.{
  Text, codes, contains, is_empty, same, strip_prefix, text_leb, to_ascii_lowercase, trim,
}

pub data RefererCategory : Type 0 where
  searching social aggregator referral : RefererCategory

unfoldable pub same_category : RefererCategory → RefererCategory → Bool
same_category searching searching = true
same_category social social = true
same_category aggregator aggregator = true
same_category referral referral = true
same_category _ _ = false

unfoldable pub as_label : RefererCategory → Text
as_label searching = codes "Search"
as_label social = codes "Social"
as_label aggregator = codes "Aggregator"
as_label referral = codes "Referral"

pub data RefererClass : Type 0 where
  direct malformed ip_literal internal : RefererClass
  external : Text → RefererCategory → RefererClass

-- `url::Host`
pub data Host : Type 0 where
  ipv4 ipv6 : Host
  domain : Text → Host

-- `Url::parse`, and `host` of what it gives
abbrev pub UrlParser : Type 0
UrlParser = Text → Option (Option Host)

abbrev pub category_rules : List (Text × RefererCategory)
category_rules =
    (codes "news.ycombinator.com", aggregator)
    ∷ (codes "reddit.com", aggregator)
    ∷ (codes "lobste.rs", aggregator)
    ∷ (codes "slashdot.org", aggregator)
    ∷ (codes "google.", searching)
    ∷ (codes "bing.com", searching)
    ∷ (codes "duckduckgo.com", searching)
    ∷ (codes "yahoo.com", searching)
    ∷ (codes "yandex.", searching)
    ∷ (codes "ecosia.org", searching)
    ∷ (codes "baidu.com", searching)
    ∷ (codes "t.co", social)
    ∷ (codes "twitter.com", social)
    ∷ (codes "x.com", social)
    ∷ (codes "facebook.com", social)
    ∷ (codes "instagram.com", social)
    ∷ (codes "linkedin.com", social)
    ∷ (codes "youtube.com", social)
    ∷ (codes "bsky.app", social)
    ∷ (codes "mastodon.", social)
    ∷ []

unfoldable pub strip_first : List Text → Text → Text
unfolding strip_prefix
strip_first [] h = h
strip_first (p ∷ ps) h = elim (strip_prefix p h) [ some rest ↦ rest | none ↦ strip_first ps h ]

unfoldable pub host_key : Text → Text
unfolding to_ascii_lowercase strip_first
host_key host =
    strip_first (codes "www." ∷ codes "m." ∷ codes "amp." ∷ []) (to_ascii_lowercase host)

unfoldable pub is_internal : Text → Text → Bool
unfolding same to_ascii_lowercase
is_internal key site_host =
    let site = to_ascii_lowercase site_host in same key site || same key (codes "beta." ++ site)

unfoldable pub category_by : List (Text × RefererCategory) → Text → RefererCategory
unfolding contains
category_by [] key = referral
category_by ((pat, cat) ∷ rules) key =
    let later = category_by rules key in if contains pat key then cat else later

unfoldable pub categorize : Text → RefererCategory
unfolding category_by
categorize key = category_by category_rules key

unfoldable pub class_of_host : Text → Option Host → RefererClass
unfolding host_key is_internal categorize
class_of_host site_host none = malformed
class_of_host site_host (some ipv4) = ip_literal
class_of_host site_host (some ipv6) = ip_literal
class_of_host site_host (some (domain d)) =
    let key = host_key d in
    if is_internal key site_host then internal else external key (categorize key)

unfoldable pub normalize_referer : UrlParser → Text → Text → RefererClass
unfolding trim class_of_host
normalize_referer parse raw site_host =
    let value = trim raw in
    if is_empty value
    then direct
    else elim (parse value) [ none ↦ malformed | some host ↦ class_of_host site_host host ]

-- A distinct referer of the log with its number of requests.
pub record RefererCount : Type 0 where
  pub referer : Text
  pub count : ℕ

pub record ExternalReferer : Type 0 where
  pub host : Text
  pub category : RefererCategory
  pub count : ℕ

pub record CategoryCount : Type 0 where
  pub label : Text
  pub count : ℕ

pub record GroupedReferers : Type 0 where
  pub top_external : List ExternalReferer
  pub by_category : List CategoryCount
  pub noise_count : ℕ
  pub direct_count : ℕ

abbrev pub top_external_limit : ℕ
top_external_limit = 25

-- `entry(host).or_insert(…)` and `e.count += n`
unfoldable pub add_external :
    Text → RefererCategory → ℕ → List ExternalReferer → List ExternalReferer
unfolding same
add_external host category n [] = record { host = host; category = category; count = 0 + n } ∷ []
add_external host category n (e ∷ es) =
    let later = add_external host category n es in
    if same e.host host then record e { count = e.count + n } ∷ es else e ∷ later

-- The hosts and `noise_count` after a row.
unfoldable pub count_row : RefererClass → ℕ → List ExternalReferer × ℕ → List ExternalReferer × ℕ
unfolding add_external
count_row (external host category) n (hosts, noise) = (add_external host category n hosts, noise)
count_row ip_literal n (hosts, noise) = (hosts, noise + n)
count_row malformed n (hosts, noise) = (hosts, noise + n)
count_row direct n (hosts, noise) = (hosts, noise + n)
count_row internal n (hosts, noise) = (hosts, noise)

unfoldable pub count_rows :
    UrlParser → Text → List RefererCount → List ExternalReferer × ℕ → List ExternalReferer × ℕ
unfolding count_row normalize_referer
count_rows parse site_host [] s = s
count_rows parse site_host (r ∷ rows) s =
    count_rows parse site_host rows
      (count_row (normalize_referer parse r.referer site_host) r.count s)

-- The count descending, then the host ascending.
unfoldable pub external_leb : ExternalReferer → ExternalReferer → Bool
unfolding text_leb
external_leb a b = ltb b.count a.count || (a.count == b.count && text_leb a.host b.host)

unfoldable pub total_of : List ExternalReferer → ℕ
total_of [] = 0
total_of (e ∷ es) = e.count + total_of es

unfoldable pub in_category : RefererCategory → List ExternalReferer → ℕ
unfolding total_of same_category
in_category cat es = total_of (filter (λ e. same_category e.category cat) es)

unfoldable pub category_counts : List RefererCategory → List ExternalReferer → List CategoryCount
unfolding in_category as_label
category_counts [] es = []
category_counts (cat ∷ cats) es =
    let n = in_category cat es in
    let later = category_counts cats es in
    if ltb 0 n then record { label = as_label cat; count = n } ∷ later else later

unfoldable pub group_referers : UrlParser → List RefererCount → Text → ℕ → GroupedReferers
unfolding count_rows external_leb category_counts sort_by
group_referers parse rows site_host direct_requests =
    let counted = count_rows parse site_host rows ([], 0) in
    let ordered = sort_by external_leb counted.0 in
    record {
      top_external = take top_external_limit ordered;
      by_category = category_counts (searching ∷ social ∷ aggregator ∷ referral ∷ []) ordered;
      noise_count = counted.1;
      direct_count = direct_requests;
    }
