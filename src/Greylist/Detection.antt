-- ===== src/Greylist/Detection.antt =====
-- src/greylist/detection.rs: features per address and the scoring rules. Counts are SQL counts,
-- natural numbers here; their sums are not bounded to 64 bits.
pub mod Features
pub mod Once
pub mod Rules
use hotchkiss_io.Base.{
  Bool, List, Option, [], false, if◌then◌else◌, leb, length, map, none, not, some, true, ℕ, ◌&&◌,
  ◌++◌, ◌+◌, ◌==◌, ◌||◌, ◌∷◌,
}
use hotchkiss_io.Text.{Text, codes, contains, is_one_of, to_ascii_lowercase}
use hotchkiss_io.Text.Map.{alter}
use hotchkiss_io.Text.Decimal.{print}
use hotchkiss_io.Greylist.Ip.{IpAddr, is_loopback, is_private_scope, is_unspecified}

-- A row of `RequestLogDao::ip_path_aggregates`.
pub record IpPathAgg : Type 0 where
  pub ip : Text
  pub path : Text
  pub status : ℕ
  pub count : ℕ

abbrev signature_patterns : List Text
signature_patterns =
    codes ".php"
    ∷ codes ".asp"
    ∷ codes ".aspx"
    ∷ codes ".jsp"
    ∷ codes "wp-login"
    ∷ codes "wp-admin"
    ∷ codes "wp-content"
    ∷ codes "wp-includes"
    ∷ codes "xmlrpc"
    ∷ codes "/.env"
    ∷ codes "/.git"
    ∷ codes "/.aws"
    ∷ codes "/.ssh"
    ∷ codes "/.svn"
    ∷ codes "phpmyadmin"
    ∷ codes "/cgi-bin/"
    ∷ codes "/vendor/phpunit"
    ∷ codes "/.vscode"
    ∷ codes "/.idea"
    ∷ []

contains_any : Text → List Text → Bool
contains_any p [] = false
contains_any p (pat ∷ pats) = contains pat p || contains_any p pats

unfoldable pub is_signature_path : Text → Bool
unfolding contains_any
is_signature_path path = contains_any (to_ascii_lowercase path) signature_patterns

-- The accumulator of `build_features`, and the features.
pub record Acc : Type 0 where
  pub total : ℕ
  pub errors : ℕ
  pub signature_hits : ℕ
  pub paths : List Text
  pub paths_404 : List Text

pub record IpFeatures : Type 0 where
  pub ip : Text
  pub total : ℕ
  pub distinct_paths : ℕ
  pub distinct_404 : ℕ
  pub errors : ℕ
  pub signature_hits : ℕ

-- `HashSet::insert`
unfoldable pub insert : Text → List Text → List Text
insert p s = if is_one_of p s then s else s ++ p ∷ []

abbrev pub no_requests : Acc
no_requests = record { total = 0; errors = 0; signature_hits = 0; paths = []; paths_404 = [] }

-- One row counted, on the accumulator of its address.
unfoldable pub count_row : IpPathAgg → Acc → Acc
count_row r a = record {
  total = a.total + r.count;
  errors = if leb 400 r.status then a.errors + r.count else a.errors;
  signature_hits =
      if leb 400 r.status && is_signature_path r.path
      then a.signature_hits + r.count
      else a.signature_hits;
  paths = insert r.path a.paths;
  paths_404 = if r.status == 404 then insert r.path a.paths_404 else a.paths_404;
}

abbrev pub or_new : Option Acc → Acc
or_new none = no_requests
or_new (some a) = a

abbrev pub features_of : Text × Acc → IpFeatures
features_of (ip, a) = record {
  ip = ip;
  total = a.total;
  distinct_paths = length a.paths;
  distinct_404 = length a.paths_404;
  errors = a.errors;
  signature_hits = a.signature_hits;
}

module _ (parse_ip : Text → Option IpAddr) where
  -- An address that does not parse is skipped.
  unfoldable pub should_evaluate : Text → Bool
  should_evaluate ip = elim (parse_ip ip) [
    | none ↦ false
    | some addr ↦ not (is_loopback addr || (is_unspecified addr || is_private_scope addr))
  ]

  unfoldable pub accumulate : List (Text × Acc) → List IpPathAgg → List (Text × Acc)
  accumulate m [] = m
  accumulate m (r ∷ rows) =
      accumulate (if should_evaluate r.ip then alter r.ip (λ a. count_row r (or_new a)) m else m)
        rows

  unfoldable pub build_features : List IpPathAgg → List IpFeatures
  unfolding accumulate
  build_features rows = map features_of (accumulate [] rows)

abbrev pub r1_signature_min : ℕ
r1_signature_min = 2

abbrev pub r2_distinct_404_min : ℕ
r2_distinct_404_min = 40

abbrev pub r3_flood_min : ℕ
r3_flood_min = 1000

pub data Rule : Type 0 where
  signature_probe distinct_404_burst flood : Rule

abbrev pub exempts_verified_crawlers : Rule → Bool
exempts_verified_crawlers signature_probe = false
exempts_verified_crawlers _ = true

abbrev pub rule_label : Rule → Text
rule_label signature_probe = codes "R1: signature probe"
rule_label distinct_404_burst = codes "R2: 404 burst"
rule_label flood = codes "R3: flood"

pub data Verdict : Type 0 where
  clear : Verdict
  greylist : Rule → (reason evidence : Text) → Verdict

-- The first rule that matches, the most confident first.
unfoldable pub tripped : IpFeatures → Option Rule
tripped f =
    if leb r1_signature_min f.signature_hits
    then some signature_probe
    else if leb r2_distinct_404_min f.distinct_404
    then some distinct_404_burst
    else if leb r3_flood_min f.total
    then some flood
    else none

unfoldable pub evidence_of : IpFeatures → Text
evidence_of f =
    codes "signature_hits="
    ++ (print f.signature_hits
        ++ (codes " distinct_404="
            ++ (print f.distinct_404
                ++ (codes " errors="
                    ++ (print f.errors
                        ++ (codes " total="
                            ++ (print f.total
                                ++ (codes " distinct_paths=" ++ print f.distinct_paths))))))))

unfoldable pub score : IpFeatures → Verdict
unfolding tripped
score f = elim (tripped f) [
  | some rule ↦ greylist rule (rule_label rule) (evidence_of f)
  | none ↦ clear
]
