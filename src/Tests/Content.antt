-- ===== src/Tests/Content.antt =====
-- Slugs, tags and pages, on concrete inputs.
use Prim.Native.String.{String}
use mathlib.Core.List.{Perm}
use hotchkiss_io.Base.{
  All, In, List, Option, [], arith, false, inl, inr, insert_by, leb, none, refl, some, sort_by,
  true, ℕ, ◌==◌, ◌∷◌, ◌≡◌, ◌≢◌, ◌⊎◌,
}
use hotchkiss_io.Text.{
  Text, codes, contains, is_ascii_alphanumeric, is_ascii_digit, is_ascii_lowercase,
  is_ascii_uppercase, is_whitespace, lower_char, same, split, trim, trim_end_matches,
  trim_start_matches,
}
use hotchkiss_io.Pages.{ContentPageDao, display_title, is_scheduled, sql_visible}
use hotchkiss_io.Pages.Rows.{
  ContentPages, create, delete, find_by_name, find_by_path, new_row, path_from, stamp, update,
  update_rows,
}
use hotchkiss_io.Pages.Rows.Effects.{IsTable}
use hotchkiss_io.Slug.Canonical.{IsLowercase, IsSlugOf, slug_new-IsSlugOf}
use hotchkiss_io.Category
use hotchkiss_io.Pages
use hotchkiss_io.Roles
use hotchkiss_io.Category.{tags}
use hotchkiss_io.Urlencode.{urlencode}
use hotchkiss_io.Urlencode.RoundTrip.{is_query_char, percent_decode, percent_decode-urlencode}
use hotchkiss_io.Slug.{lower_all, slug_loop, slug_new, slugify}
use hotchkiss_io.Deadlinks.Internal.{Site}
use hotchkiss_io.Deadlinks.Walk.{all_pages}
use hotchkiss_io.Pages.Handlers.{cat_404, get_page_path, view_leaf}
use hotchkiss_io.Text.Utf8.{as_bytes}
use hotchkiss_io.Roles.{
  anonymous, apply_write, family, from_stored, gate_rank, rank, registered, to_stored,
}
use hotchkiss_io.Pages.History.{
  PageEvent, after_events, creates, deletes, publishes, reorders, saves,
}
use hotchkiss_io.Pages.Write.{
  Library, PageUpdate, WrittenPage, cover_update, create_below, create_page, edited, finish_create,
  from_dao, last, page_written, save, update_page, write_cover,
}
use hotchkiss_io.Pages.Listing.{Collation, newest, paginate}
use hotchkiss_io.Pages.Rows.Deletion.{delete_lifts_children}
use hotchkiss_io.Pages.Handlers.Gate.{ViewMeans, get_page_path-ViewMeans}
use hotchkiss_io.Pages.Write.Created.{create_page_found, create_page_top_level, no_faults}
use hotchkiss_io.Pages.History.Invariant.{after_events-IsTable}
use hotchkiss_io.Pages.Listing.Windows.{IsListing, paginate-IsListing}
use hotchkiss_io.Deadlinks.Walk.Total.{all_pages-total}
use hotchkiss_io.Fallible.{done}
use hotchkiss_io.Deadlinks.Internal.PageLinks.{pages_in}
use hotchkiss_io.Pages.Visible.{sql_visible-is_visible_to}
use hotchkiss_io.Pages.Write.Updated.{update_page_loosens}
use hotchkiss_io.Pages.Listing.Order.{IsDateOrder}

-- Lowercase as on ASCII, everywhere.
abbrev ascii_lowercase : ℕ → Text
ascii_lowercase c = lower_char c ∷ []

ascii_lowercase-IsLowercase : IsLowercase ascii_lowercase
unfolding lower_char is_ascii_uppercase
ascii_lowercase-IsLowercase = record {
  on_ascii = λ c h. refl;
  no_capital = λ c. (ground arith, tt);
}

slug_new-IsSlugOf_example :
    IsSlugOf ascii_lowercase
      (codes "  Hello,   World!!!  ")
      (slug_new ascii_lowercase (codes "  Hello,   World!!!  "))
slug_new-IsSlugOf_example =
    slug_new-IsSlugOf ascii_lowercase ascii_lowercase-IsLowercase (codes "  Hello,   World!!!  ")

percent_decode-urlencode_example :
    (percent_decode (urlencode (codes "a b&c")) ≡ some (as_bytes (codes "a b&c")))
    × All (λ c. is_query_char c ≡ true) (urlencode (codes "a b&c"))
percent_decode-urlencode_example = percent_decode-urlencode (codes "a b&c") (ground arith)

abbrev page_of : ℕ → Option ℕ → String → Option Text → ContentPageDao
page_of i parent name gate = record {
  page_id = i;
  parent_page_id = parent;
  page_name = codes name;
  page_title = none;
  page_category = none;
  page_markdown = [];
  page_cover_attachment_id = none;
  page_order = 0;
  page_creation_date = 0;
  page_modified_date = 0;
  special_page = false;
  min_role = gate;
}

-- A page for the family, with a page below it that has no gate of its own.
abbrev vault_page : ContentPageDao
vault_page = page_of 1 none "vault" (some (codes "Family"))

abbrev secret_page : ContentPageDao
secret_page = page_of 2 (some 1) "secret" none

abbrev pages_now : ContentPages
pages_now = record { rows = vault_page ∷ secret_page ∷ []; covers = λ i. none; last_id = 2 }

pages_now-IsTable : IsTable pages_now
unfolding same
pages_now-IsTable = record {
  bounded = (omega arith, (omega arith, tt));
  distinct = ((ground arith, tt), (tt, tt));
  rooted = (inl refl, (inr (1, refl, omega arith, inl refl), tt));
  no_twins = ((refl, tt), (tt, tt));
}

abbrev library : Library
library = record {
  to_lowercase = ascii_lowercase;
  parse_from_str = λ s format. none;
  rewrite_links = λ markdown. done markdown;
  resolve_cover = λ raw. none;
}

abbrev family_form : PageUpdate
family_form = record {
  title = some (codes "Secret");
  category = none;
  markdown = codes "text";
  order = 0;
  creation_date = none;
  min_role = some (codes "Family");
  cover_ref = some (codes "no-such-ref");
}

abbrev page_events : List PageEvent
page_events =
    creates library no_faults 5 (codes "vault" ∷ []) (codes "Third Page")
    ∷ saves library no_faults 6 (codes "vault" ∷ codes "secret" ∷ []) family_form
    ∷ reorders (1 ∷ [])
    ∷ publishes 2 7
    ∷ deletes (codes "vault")
    ∷ []

after_events-IsTable_example : IsTable (after_events pages_now page_events)
after_events-IsTable_example = after_events-IsTable pages_now page_events pages_now-IsTable

all_pages-total_example :
    (out : List ContentPageDao) × (all_pages pages_now.rows ≡ some out) × Perm out pages_now.rows
all_pages-total_example = all_pages-total pages_now pages_now-IsTable

get_page_path-ViewMeans_example :
    ViewMeans 5 anonymous
      (find_by_path pages_now.rows (split (λ c. c == b'/') (codes "vault/secret")))
      (get_page_path 5 pages_now.rows (codes "vault/secret") anonymous)
get_page_path-ViewMeans_example =
    get_page_path-ViewMeans 5 pages_now.rows (codes "vault/secret") anonymous

-- The page below the vault is the vault's to hide.
secret_is_hidden : get_page_path 5 pages_now.rows (codes "vault/secret") anonymous ≡ cat_404
unfolding get_page_path view_leaf find_by_path path_from find_by_name sort_by insert_by same split
    Pages.is_visible_to Roles.is_visible_to from_stored gate_rank rank is_scheduled
secret_is_hidden = refl

sql_visible-is_visible_to_example :
    sql_visible 1500000000 vault_page registered
    ≡ Pages.is_visible_to 1500000000 vault_page registered
sql_visible-is_visible_to_example =
    sql_visible-is_visible_to 1500000000 vault_page registered (omega arith)

delete_lifts_children_example :
    In (record secret_page { parent_page_id = none }) (delete pages_now vault_page).rows
delete_lifts_children_example =
    delete_lifts_children pages_now vault_page secret_page pages_now-IsTable (inl refl) refl
      (inr (inl refl)) refl

create_page_top_level_example :
    (u : ContentPages) × (w : WrittenPage) × (create_page library no_faults 5 pages_now []
        (codes "Vault")
      ≡ page_written u w)
unfolding slug_new slugify trim trim_start_matches trim_end_matches is_whitespace lower_all
    lower_char slug_loop is_ascii_alphanumeric is_ascii_digit is_ascii_lowercase is_ascii_uppercase
create_page_top_level_example =
    create_page_top_level library 5 pages_now (codes "Vault") (codes "vault") refl

abbrev third_row : ContentPageDao
third_row = record (new_row 3 5 (some 1) (codes "third") none [] none) {
  page_title = some (codes "Third");
  min_role = some (codes "Family");
}

abbrev third_table : ContentPages
third_table = record {
  rows = vault_page ∷ secret_page ∷ third_row ∷ [];
  covers = λ i. none;
  last_id = 3;
}

abbrev third_answer : WrittenPage
third_answer = record {
  page_id = 3;
  slug = codes "third";
  path_segments = codes "vault" ∷ codes "third" ∷ [];
  title = codes "Third";
  min_role = some (codes "Family");
  scheduled = false;
  featured = false;
}

create_page_found_example :
    (above : ContentPageDao) × (p : ContentPageDao) × (last
        (find_by_path pages_now.rows (codes "vault" ∷ []))
      ≡ some above)
    × (last (find_by_path third_table.rows third_answer.path_segments) ≡ some p)
    × (p.parent_page_id ≡ some above.page_id)
    × (p.min_role ≡ above.min_role)
unfolding create_page create_below finish_create create update update_rows from_dao display_title
    is_scheduled Pages.is_featured Category.is_featured tags find_by_path path_from find_by_name
    sort_by insert_by same slug_new slugify trim trim_start_matches trim_end_matches is_whitespace
    lower_all lower_char slug_loop is_ascii_alphanumeric is_ascii_digit is_ascii_lowercase
    is_ascii_uppercase
create_page_found_example =
    create_page_found library no_faults 5 pages_now (codes "vault") [] (codes "Third") third_table
      third_answer pages_now-IsTable refl

abbrev two_at_once : Collation
two_at_once = record { like = λ t s. contains s t; date_leb = λ a b. leb a b }

by_number : IsDateOrder two_at_once
by_number = record { total = λ a b h. ground arith; trans = λ a b c h k. ground arith }

paginate-IsListing_example :
    IsListing two_at_once pages_now.rows 5 (some 1) family newest (trim (codes " ")) (
      paginate two_at_once pages_now.rows 5
        (some 1)
        (record { q = some (codes " "); page = some 9 })
        newest
        (codes "/blog")
        family)
paginate-IsListing_example =
    paginate-IsListing two_at_once pages_now.rows 5 (some 1)
      (record { q = some (codes " "); page = some 9 }) newest (codes "/blog") family by_number
      (omega arith) (omega arith)

abbrev tree_site : Site
tree_site = record {
  has_variant = λ key. done false;
  has_ref = λ media_ref. done false;
  pages_found = pages_in pages_now.rows;
}

abbrev public_form : PageUpdate
public_form = record family_form { min_role = some (codes "Public") }

abbrev open_vault : ContentPageDao
open_vault = record vault_page {
  page_title = some (codes "Secret");
  page_markdown = codes "text";
  min_role = none;
  page_modified_date = stamp 6;
}

abbrev open_answer : WrittenPage
open_answer = record {
  page_id = 1;
  slug = codes "vault";
  path_segments = codes "vault" ∷ [];
  title = codes "Secret";
  min_role = none;
  scheduled = false;
  featured = false;
}

update_page_loosens_example :
    (public_form.min_role ≡ some (codes "Public"))
    ⊎ ((public_form.min_role ≡ some (codes "Registered")) × (anonymous ≢ anonymous))
    ⊎ ((public_form.min_role ≡ some (codes "Family")) × (anonymous ≡ family))
unfolding update_page save edited update update_rows write_cover cover_update from_dao display_title
    is_scheduled Pages.is_featured Category.is_featured tags find_by_path path_from find_by_name
    sort_by insert_by same trim trim_start_matches trim_end_matches is_whitespace apply_write
    from_stored to_stored Roles.is_visible_to gate_rank rank
update_page_loosens_example =
    update_page_loosens library no_faults 6 pages_now (codes "vault" ∷ []) public_form
      (record pages_now { rows = open_vault ∷ secret_page ∷ [] }) open_answer refl vault_page
      open_vault anonymous refl refl (inl refl) refl refl
