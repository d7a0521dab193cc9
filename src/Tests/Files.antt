-- ===== src/Tests/Files.antt =====
-- Media items and their files, on concrete inputs.
use hotchkiss_io.Base.{
  All, List, Option, [], filter, if◌then◌else◌, insert_by, length, map, none, refl, some, sort_by,
  true, ℕ, ◌∷◌, ◌≡◌,
}
use hotchkiss_io.Text.{
  Text, after_last, codes, contains, is_ascii_alphanumeric, is_ascii_digit, is_ascii_lowercase,
  is_ascii_uppercase, is_whitespace, lower_char, same, split_once, strip_prefix, take_while,
  text_leb, to_ascii_lowercase, trim, trim_end_matches, trim_start_matches,
}
use hotchkiss_io.Roles.{anonymous, family, rank}
use hotchkiss_io.Media.{
  DiskAnswer, MediaDao, MediaTables, MediaVariantDao, at_path, find_by_url_key_with_required_rank,
  has_key, is_media_visible_to, is_sha256_hex, not_found, owner_ranks, serve_media_file,
  sharing_ranks, sql_max,
}
use hotchkiss_io.Media.Strictest.{serve_media_file_strictest}
use hotchkiss_io.Media.Store.{Disks, MediaStore, pick_write_root, probe_root, roots_status}
use hotchkiss_io.Media.Store.Target.{listed_root, roots_status-pick_write_root}
use hotchkiss_io.Pages.{sql_gate_rank}
use hotchkiss_io.Referer.{
  RefererCount, UrlParser, add_external, categorize, category_by, class_of_host, count_row,
  count_rows, domain, external_leb, group_referers, host_key, ipv4, is_internal, normalize_referer,
  strip_first,
}
use hotchkiss_io.Referer.Hosts.{IsGrouped, group_referers-IsGrouped}
use hotchkiss_io.Media.Reference.{
  is_token_char, parse_cover_reference, parse_ref, parse_token, parse_url_key, ref_token,
  trim_token,
}

abbrev item_of : ℕ → Option Text → MediaDao
item_of i gate = record {
  media_id = i;
  media_ref = codes "ref";
  kind = codes "image";
  title = none;
  width = none;
  height = none;
  duration_ms = none;
  created_at = [];
  min_role = gate;
  metadata = none;
}

abbrev shared_key : Text
shared_key = codes "0123456789abcdef0123456789abcdef0123456789abcdef0123456789abcdef"

abbrev encoding_of : ℕ → ℕ → MediaVariantDao
encoding_of i item = record {
  variant_id = i;
  media_id = item;
  sha256 = codes "abcd";
  url_key = shared_key;
  mime = codes "image/png";
  codecs = none;
  bytes = 9;
  storage_root = none;
  width = none;
  height = none;
}

-- One picture that two items share, a public one and one for the family.
abbrev shared_picture : MediaTables
shared_picture = record {
  media = item_of 1 none ∷ item_of 2 (some (codes "Family")) ∷ [];
  variants = encoding_of 1 1 ∷ encoding_of 2 2 ∷ [];
}

abbrev found_at : Text → Option Text → DiskAnswer
found_at sha_hex hint = at_path (codes "/media/ab/cd/abcd")

serve_media_file_strictest_example :
    All
      (λ w.
        has_key shared_key w ≡ true
        → All
            (λ m. m.media_id ≡ w.media_id → is_media_visible_to m family ≡ true)
            shared_picture.media)
      shared_picture.variants
unfolding serve_media_file is_sha256_hex is_ascii_digit find_by_url_key_with_required_rank same
    sharing_ranks owner_ranks sql_gate_rank sql_max rank
serve_media_file_strictest_example =
    serve_media_file_strictest found_at shared_picture family shared_key (encoding_of 1 1)
      (codes "/media/ab/cd/abcd") refl

-- The public item's encoding is found, and anonymous visitors still get nothing.
shared_picture_is_hidden : serve_media_file found_at shared_picture anonymous shared_key ≡ not_found
unfolding serve_media_file is_sha256_hex is_ascii_digit find_by_url_key_with_required_rank same
    sharing_ranks owner_ranks sql_gate_rank sql_max rank
shared_picture_is_hidden = refl

-- Two drives, the first of them full.
abbrev two_drives : Disks
two_drives = record {
  exists = λ path. true;
  parent = λ path. none;
  available_space = λ path. some (length path);
  total_space = λ path. some 100;
}

abbrev two_roots : MediaStore
two_roots = record { roots = codes "/a" ∷ codes "/media" ∷ []; min_free_bytes = 3 }

roots_status-pick_write_root_example :
    map (λ s. s.path) (filter (λ s. s.is_write_target) (roots_status two_drives two_roots))
    ≡ listed_root (pick_write_root two_drives two_roots.min_free_bytes two_roots.roots)
roots_status-pick_write_root_example = roots_status-pick_write_root two_drives two_roots

second_drive_is_picked :
    pick_write_root two_drives two_roots.min_free_bytes two_roots.roots ≡ some (codes "/media")
unfolding pick_write_root probe_root
second_drive_is_picked = refl

-- A parser for the URLs of these tests: the text up to a slash is the host.
abbrev toy_parse : UrlParser
toy_parse url = elim (split_once b'/' url) [
  | none ↦ none
  | some (h, rest) ↦ some (if same h (codes "1.2.3.4") then some ipv4 else some (domain h))
]

abbrev referer_rows : List RefererCount
referer_rows =
    record { referer = codes "www.google.com/search"; count = 3 }
    ∷ record { referer = codes "beta.hotchkiss.io/"; count = 9 }
    ∷ record { referer = codes "1.2.3.4/"; count = 2 }
    ∷ record { referer = codes "hotchkiss.io.evil.com/"; count = 1 }
    ∷ record { referer = codes "google.com/"; count = 4 }
    ∷ []

abbrev site_name : Text
site_name = codes "hotchkiss.io"

group_referers-IsGrouped_example :
    IsGrouped toy_parse site_name referer_rows (group_referers toy_parse referer_rows site_name 5)
group_referers-IsGrouped_example = group_referers-IsGrouped toy_parse referer_rows site_name 5

google_leads :
    map (λ e. e.count) (group_referers toy_parse referer_rows site_name 5).top_external ≡ 7 ∷ 1 ∷ []
unfolding group_referers count_rows count_row add_external normalize_referer class_of_host host_key
    strip_first is_internal categorize category_by external_leb sort_by insert_by trim
    trim_start_matches trim_end_matches is_whitespace same contains strip_prefix to_ascii_lowercase
    lower_char text_leb split_once
google_leads = refl

pasted_embed :
    parse_cover_reference (codes " ![](/media/abc-1) ") ≡ some (ref_token (codes "abc-1"))
unfolding parse_cover_reference parse_ref trim_token is_token_char take_while trim
    trim_start_matches trim_end_matches is_whitespace after_last strip_prefix is_ascii_alphanumeric
    is_ascii_digit is_ascii_lowercase is_ascii_uppercase
pasted_embed = refl

pasted_short_key : parse_cover_reference (codes "/media/file/abc") ≡ none
unfolding parse_cover_reference parse_token parse_url_key is_sha256_hex trim_token is_token_char
    take_while trim trim_start_matches trim_end_matches is_whitespace after_last strip_prefix
    is_ascii_alphanumeric is_ascii_digit is_ascii_lowercase is_ascii_uppercase
pasted_short_key = refl
