-- ===== src/Pages/Write.antt =====
-- src/web/features/pages/write.rs: creating and updating a page. The rewriting of links in the
-- markdown, the lookup of a media reference, chrono's parser and Unicode's lowercase are parameters,
-- and so is which of the queries fail.
pub mod Created
pub mod Inserted
pub mod Saved
pub mod Updated
use mathlib.Core.Option
use hotchkiss_io.Base.{
  Bool, List, Option, [], false, if◌then◌else◌, none, not, some, true, ℕ, ◌&&◌, ◌++◌, ◌∷◌,
}
use hotchkiss_io.Text.{Text, codes, join, trim}
use hotchkiss_io.Roles
use hotchkiss_io.Pages
use hotchkiss_io.Pages.{ContentPageDao, display_title, is_scheduled}
use hotchkiss_io.Pages.Rows.{
  ContentPages, create, find_by_path, inserted, not_inserted, set_cover, unique_violation, update,
}
use hotchkiss_io.Slug.{slug_new}
use hotchkiss_io.Fallible.{Fallible, done, failed}
use hotchkiss_io.Roles.{apply_write, from_stored, to_stored}

pub record Library : Type 0 where
  pub to_lowercase : ℕ → Text
  -- `NaiveDateTime::parse_from_str`, the text first and the format second
  pub parse_from_str : Text → Text → Option ℕ
  pub rewrite_links : Text → Fallible Text
  pub resolve_cover : Text → Option ℕ

-- Which queries of a handler fail for reasons of the database's own.
pub record Faults : Type 0 where
  pub on_find : Bool
  pub on_create : Bool
  pub on_update : Bool
  pub on_cover : Bool

pub record WrittenPage : Type 0 where
  pub page_id : ℕ
  pub slug : Text
  pub path_segments : List Text
  pub title : Text
  pub min_role : Option Text
  pub scheduled : Bool
  pub featured : Bool

unfoldable pub from_dao : ℕ → ContentPageDao → List Text → WrittenPage
unfolding display_title is_scheduled Pages.is_featured
from_dao now p segments = record {
  page_id = p.page_id;
  slug = p.page_name;
  path_segments = segments;
  title = display_title p;
  min_role = p.min_role;
  scheduled = is_scheduled now p;
  featured = Pages.is_featured p;
}

unfoldable pub pages_url : WrittenPage → Text
unfolding join
pages_url w = codes "/pages/" ++ join (codes "/") w.path_segments

pub data PageWriteError : Type 0 where
  empty_title not_found internal : PageWriteError
  duplicate_slug : Text → Text → PageWriteError

-- A handler's end: the table that it leaves, and the page or the error.
pub data Outcome : Type 0 where
  page_written : ContentPages → WrittenPage → Outcome
  page_error : ContentPages → PageWriteError → Outcome

unfoldable pub parse_local_datetime : Library → Text → Option ℕ
parse_local_datetime lib s = elim (lib.parse_from_str s (codes "%Y-%m-%dT%H:%M:%S")) [
  | some date ↦ some date
  | none ↦ lib.parse_from_str s (codes "%Y-%m-%dT%H:%M")
]

abbrev pub last : {A : Type 0} → List A → Option A
last [] = none
last (x ∷ []) = some x
last (x ∷ y ∷ xs) = last (y ∷ xs)

-- The parent's id and gate: none at the top level, and no answer when the parent does not exist.
abbrev pub parent_of : List ContentPageDao → List Text → Option (Option ℕ × Option Text)
parent_of rows [] = some (none, none)
parent_of rows (s ∷ path) = elim (last (find_by_path rows (s ∷ path))) [
  | none ↦ none
  | some parent ↦ some (some parent.page_id, parent.min_role)
]

abbrev pub parent_name : List Text → Text
parent_name [] = codes "the top level"
parent_name (s ∷ path) = join (codes "/") (s ∷ path)

-- The second write of a creation: the title and the inherited gate.
unfoldable pub finish_create :
    Faults → ℕ → List Text → Text → Option Text → ContentPages → ContentPageDao → Outcome
unfolding update from_dao
finish_create io now segments title inherited t p =
    let cp = record p { page_title = some title; min_role = inherited } in
    if io.on_update then page_error t internal else elim (update t now cp) [
      | failed ↦ page_error t internal
      | done (u, saved) ↦ page_written u (from_dao now saved segments)
    ]

unfoldable pub create_below :
    Faults → ℕ → List Text → Text → Text → ContentPages → Option ℕ × Option Text → Outcome
unfolding create finish_create join
create_below io now path title slug t (parent, inherited) =
    if io.on_create then page_error t internal else elim (create t now parent slug none [] none) [
      | unique_violation ↦ page_error t (duplicate_slug slug (parent_name path))
      | not_inserted ↦ page_error t internal
      | inserted u p ↦ finish_create io now (path ++ (slug ∷ [])) title inherited u p
    ]

unfoldable pub create_page : Library → Faults → ℕ → ContentPages → List Text → Text → Outcome
unfolding trim slug_new find_by_path create_below
create_page lib io now t path title = elim (slug_new lib.to_lowercase (trim title)) [
  | none ↦ page_error t empty_title
  | some slug ↦
      if io.on_find && not (no_path path)
      then page_error t internal
      else elim (parent_of t.rows path) [
        | none ↦ page_error t not_found
        | some parent ↦ create_below io now path (trim title) slug t parent
      ]
]
  where
    no_path : List Text → Bool
    no_path [] = true
    no_path (s ∷ p) = false

pub record PageUpdate : Type 0 where
  pub title : Option Text
  pub category : Option Text
  pub markdown : Text
  pub order : ℕ
  pub creation_date : Option Text
  pub min_role : Option Text
  pub cover_ref : Option Text

-- What a save does to the cover: `none` keeps it, `some` writes it.
unfoldable pub cover_update : Library → PageUpdate → Option (Option ℕ)
cover_update lib input = elim input.cover_ref [
  | none ↦ some none
  | some raw ↦ Option.map some (lib.resolve_cover raw)
]

abbrev pub date_or : Option ℕ → ℕ → ℕ
date_or (some date) kept = date
date_or none kept = kept

abbrev date_of : Library → Option Text → Option ℕ
date_of lib none = none
date_of lib (some s) = parse_local_datetime lib s

-- The row after the edits of a save, before it is written.
unfoldable pub edited : Library → PageUpdate → Text → ContentPageDao → ContentPageDao
unfolding parse_local_datetime apply_write from_stored to_stored
edited lib input markdown p = record p {
  page_title = input.title;
  page_category = input.category;
  page_markdown = markdown;
  page_order = input.order;
  page_creation_date = date_or (date_of lib input.creation_date) p.page_creation_date;
  min_role = to_stored (apply_write (from_stored p.min_role) input.min_role);
}

-- The cover's own write, skipped when the reference does not resolve.
unfoldable pub write_cover :
    Faults → ℕ → List Text → Option (Option ℕ) → ContentPages → ContentPageDao → Outcome
unfolding set_cover from_dao
write_cover io now path none t p = page_written t (from_dao now p path)
write_cover io now path (some media) t p =
    if io.on_cover
    then page_error t internal
    else page_written (set_cover t now p.page_id media) (from_dao now p path)

unfoldable pub save :
    Library → Faults → ℕ → List Text → PageUpdate → ContentPages → ContentPageDao → Outcome
unfolding cover_update edited update write_cover
save lib io now path input t p = elim (lib.rewrite_links input.markdown) [
  | failed ↦ page_error t internal
  | done markdown ↦
      if io.on_update
      then page_error t internal
      else elim (update t now (edited lib input markdown p)) [
        | failed ↦ page_error t internal
        | done (u, saved) ↦ write_cover io now path (cover_update lib input) u saved
      ]
]

unfoldable pub update_page : Library → Faults → ℕ → ContentPages → List Text → PageUpdate → Outcome
unfolding find_by_path save
update_page lib io now t path input =
    if io.on_find then page_error t internal else elim (last (find_by_path t.rows path)) [
      | none ↦ page_error t not_found
      | some p ↦ save lib io now path input t p
    ]
