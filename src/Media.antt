-- ===== src/Media.antt =====
-- src/db/dao/media.rs: the tables of media items and of their encodings, and the gate of the bytes
-- that src/web/features/media.rs serves.
pub mod Strictest
pub mod Store
pub mod Reference
use hotchkiss_io.Base.{
  Bool, List, Option, [], all, any, filter, if◌then◌else◌, leb, length, ltb, map, none, not, some,
  ℕ, ◌&&◌, ◌++◌, ◌==◌, ◌||◌, ◌∷◌,
}
use hotchkiss_io.Text.{Text, codes, is_ascii_digit, same}
use hotchkiss_io.Fallible.{Fallible, done, failed}
use hotchkiss_io.Roles
use hotchkiss_io.Roles.{Role, from_stored, rank}
use hotchkiss_io.Pages.{sql_gate_rank}

pub record MediaDao : Type 0 where
  pub media_id : ℕ
  pub media_ref : Text
  pub kind : Text
  pub title : Option Text
  pub width : Option ℕ
  pub height : Option ℕ
  pub duration_ms : Option ℕ
  pub created_at : Text
  pub min_role : Option Text
  pub metadata : Option Text

pub record MediaVariantDao : Type 0 where
  pub variant_id : ℕ
  pub media_id : ℕ
  pub sha256 : Text
  pub url_key : Text
  pub mime : Text
  pub codecs : Option Text
  pub bytes : ℕ
  pub storage_root : Option Text
  pub width : Option ℕ
  pub height : Option ℕ

pub record MediaTables : Type 0 where
  pub media : List MediaDao
  pub variants : List MediaVariantDao

unfoldable pub is_media_visible_to : MediaDao → Role → Bool
unfolding Roles.is_visible_to from_stored
is_media_visible_to m viewer = Roles.is_visible_to (from_stored m.min_role) viewer

unfoldable pub set_min_role : MediaTables → ℕ → Option Text → MediaTables
set_min_role t i gate = record t {
  media = map (λ m. if m.media_id == i then record m { min_role = gate } else m) t.media;
}

-- ON DELETE CASCADE takes the encodings along.
unfoldable pub delete_by_id : MediaTables → ℕ → MediaTables
delete_by_id t i = record {
  media = filter (λ m. not (m.media_id == i)) t.media;
  variants = filter (λ v. not (v.media_id == i)) t.variants;
}

unfoldable pub delete_all_for_media : MediaTables → ℕ → MediaTables
delete_all_for_media t i = record t { variants = filter (λ v. not (v.media_id == i)) t.variants }

unfoldable pub delete_avif_rungs_except : MediaTables → ℕ → Text → MediaTables
unfolding same
delete_avif_rungs_except t i keep_sha = record t {
  variants =
      filter
        (λ v.
          not
            (v.media_id == i && (same v.mime (codes "image/avif") && not (same v.sha256 keep_sha))))
        t.variants;
}

abbrev pub in_item : ℕ → Text → MediaVariantDao → Bool
in_item i url_key v = v.media_id == i && same v.url_key url_key

unfoldable pub delete_by_url_key_in_item : MediaTables → ℕ → Text → MediaTables × Bool
unfolding same
delete_by_url_key_in_item t i url_key = (
  record t { variants = filter (λ v. not (in_item i url_key v)) t.variants },
  any (in_item i url_key) t.variants,
)

abbrev pub has_key : Text → MediaVariantDao → Bool
has_key url_key v = same v.url_key url_key

-- The ranks of the items that an encoding is joined with.
unfoldable pub owner_ranks : List MediaDao → MediaVariantDao → List ℕ
unfolding sql_gate_rank
owner_ranks media v =
    map (λ m. sql_gate_rank m.min_role) (filter (λ m. m.media_id == v.media_id) media)

unfoldable pub sharing_ranks : List MediaDao → List MediaVariantDao → List ℕ
unfolding owner_ranks
sharing_ranks media [] = []
sharing_ranks media (v ∷ vs) = owner_ranks media v ++ sharing_ranks media vs

-- SQL's MAX, which is NULL over no rows.
abbrev pub larger : ℕ → Option ℕ → Option ℕ
larger n none = some n
larger n (some m) = some (if leb n m then m else n)

unfoldable pub sql_max : List ℕ → Option ℕ
sql_max [] = none
sql_max (n ∷ ns) = larger n (sql_max ns)

abbrev title_of : List MediaDao → Option Text
title_of [] = none
title_of (m ∷ ms) = m.title

-- The encoding with a key (the first of those that share it), the strictest rank among the items that
-- share it, and the title of the encoding's own item. A rank that is NULL fails to decode.
unfoldable pub find_by_url_key_with_required_rank :
    MediaTables → Text → Fallible (Option (MediaVariantDao × ℕ × Option Text))
unfolding same sharing_ranks sql_max
find_by_url_key_with_required_rank t url_key =
    let sharing = filter (has_key url_key) t.variants in
    elim sharing [
      | [] ↦ done none
      | ◌∷◌ v vs ↦ elim (sql_max (sharing_ranks t.media (v ∷ vs))) [
        | none ↦ failed
        | some rank ↦
            done (some (v, rank, title_of (filter (λ m. m.media_id == v.media_id) t.media)))
      ]
    ]

-- `is_sha256_hex`, which is also the format of a `UrlKey`.
unfoldable pub is_sha256_hex : Text → Bool
unfolding is_ascii_digit
is_sha256_hex s = length s == 64 && all (λ c. is_ascii_digit c || (leb b'a' c && leb c b'f')) s

-- How the search for the file ends, within the time it is given.
pub data DiskAnswer : Type 0 where
  at_path : Text → DiskAnswer
  offline panicked timed_out : DiskAnswer

pub data FileAnswer : Type 0 where
  served : MediaVariantDao → Text → FileAnswer
  not_found lookup_failed resolve_failed unavailable : FileAnswer

abbrev file_of : MediaVariantDao → DiskAnswer → FileAnswer
file_of v (at_path path) = served v path
file_of v offline = not_found
file_of v panicked = resolve_failed
file_of v timed_out = unavailable

-- The handler of the bytes, up to the transfer; `disk` is the search for a hash with a hint.
unfoldable pub serve_media_file :
    (Text → Option Text → DiskAnswer) → MediaTables → Role → Text → FileAnswer
unfolding is_sha256_hex find_by_url_key_with_required_rank rank
serve_media_file disk t viewer url_key =
    if not (is_sha256_hex url_key)
    then not_found
    else elim (find_by_url_key_with_required_rank t url_key) [
      | failed ↦ lookup_failed
      | done none ↦ not_found
      | done (some (v, required, title)) ↦
          if ltb (rank viewer) required then not_found else file_of v (disk v.sha256 v.storage_root)
    ]
