-- ===== src/Pages/Rows.antt =====
-- src/db/dao/content_pages.rs: the statements on the table, whose schema is in
-- src/db/migrations/0005_TableContentPages.sql. Every statement runs at an instant `now`.
pub mod Effects
pub mod Deletion
pub mod Path
use hotchkiss_io.Base.{
  Bool, List, Option, [], any, false, filter, if◌then◌else◌, map, none, not, some, sort_by, suc,
  true, ℕ, ◌&&◌, ◌*◌, ◌++◌, ◌==◌, ◌>>=◌, ◌||◌, ◌∷◌,
}
use hotchkiss_io.Text.{Text, same}
use hotchkiss_io.Pages.{ContentPageDao, seconds}
use hotchkiss_io.Fallible.{Fallible, done, failed}
use hotchkiss_io.Int64.{i64_lt}

-- The rows by ascending rowid, the column page_cover_media_id by page, and the sequence of
-- AUTOINCREMENT.
pub record ContentPages : Type 0 where
  pub rows : List ContentPageDao
  pub covers : ℕ → Option ℕ
  pub last_id : ℕ

-- `IS` on a nullable id: NULL is NULL.
abbrev pub same_id : Option ℕ → Option ℕ → Bool
same_id none none = true
same_id (some a) (some b) = a == b
same_id _ _ = false

-- `=` on a nullable id: NULL equals nothing.
abbrev pub equal_id : Option ℕ → Option ℕ → Bool
equal_id (some a) (some b) = a == b
equal_id _ _ = false

abbrev pub is_child_of : Option ℕ → ContentPageDao → Bool
is_child_of parent p = same_id p.parent_page_id parent

abbrev pub has_id : ℕ → ContentPageDao → Bool
has_id i p = p.page_id == i

abbrev pub order_leb : ContentPageDao → ContentPageDao → Bool
order_leb p q = not (i64_lt q.page_order p.page_order)

abbrev pub first : {A : Type 0} → List A → Option A
first [] = none
first (x ∷ xs) = some x

unfoldable pub find_by_parent : List ContentPageDao → Option ℕ → List ContentPageDao
unfolding sort_by
find_by_parent rows parent = sort_by order_leb (filter (is_child_of parent) rows)

unfoldable pub find_by_id : List ContentPageDao → ℕ → Option ContentPageDao
find_by_id rows i = first (filter (has_id i) rows)

abbrev pub named : Option ℕ → Text → ContentPageDao → Bool
named parent name p = is_child_of parent p && same p.page_name name

unfoldable pub find_by_name : List ContentPageDao → Option ℕ → Text → Option ContentPageDao
unfolding sort_by same
find_by_name rows parent name = first (sort_by order_leb (filter (named parent name) rows))

-- UNIQUE (parent_page_id, page_name), in which rows with a NULL parent never collide.
abbrev pub collides : Option ℕ → Text → ContentPageDao → Bool
collides parent name p = equal_id p.parent_page_id parent && same p.page_name name

abbrev pub parent_exists : List ContentPageDao → Option ℕ → Bool
parent_exists rows none = true
parent_exists rows (some q) = any (has_id q) rows

-- What an INSERT ends with: a violated UNIQUE, another error, or the row.
pub data Inserted : Type 0 where
  inserted : ContentPages → ContentPageDao → Inserted
  not_inserted : Inserted
  unique_violation : Inserted

-- `CURRENT_TIMESTAMP` and `datetime('now')`: whole seconds.
abbrev pub stamp : ℕ → ℕ
stamp now = seconds now * 1000000000

abbrev pub new_row : ℕ → ℕ → Option ℕ → Text → Option Text → Text → Option ℕ → ContentPageDao
new_row i now parent name category markdown cover = record {
  page_id = i;
  parent_page_id = parent;
  page_name = name;
  page_title = none;
  page_category = category;
  page_markdown = markdown;
  page_cover_attachment_id = cover;
  page_order = 0;
  page_creation_date = stamp now;
  page_modified_date = stamp now;
  special_page = false;
  min_role = none;
}

unfoldable pub create :
    ContentPages → ℕ → Option ℕ → Text → Option Text → Text → Option ℕ → Inserted
unfolding same
create t now parent name category markdown cover =
    let row = new_row (suc t.last_id) now parent name category markdown cover in
    if any (collides parent name) t.rows
    then unique_violation
    else if parent_exists t.rows parent
    then inserted (record t { rows = t.rows ++ (row ∷ []); last_id = suc t.last_id }) row
    else not_inserted

-- ON DELETE SET NULL of the parent, for the children of a deleted row.
abbrev pub orphaned : ℕ → ContentPageDao → ContentPageDao
orphaned i p = if same_id p.parent_page_id (some i) then record p { parent_page_id = none } else p

abbrev pub deletable : ℕ → ContentPageDao → Bool
deletable i p = has_id i p && not p.special_page

unfoldable pub delete : ContentPages → ContentPageDao → ContentPages
delete t p =
    if any (deletable p.page_id) t.rows
    then record t {
      rows = map (orphaned p.page_id) (filter (λ r. not (deletable p.page_id r)) t.rows);
    }
    else t

-- An UPDATE of the rows with an id.
unfoldable pub update_rows :
    ℕ → (ContentPageDao → ContentPageDao) → List ContentPageDao → List ContentPageDao
update_rows i f [] = []
update_rows i f (r ∷ rs) = (if has_id i r then f r else r) ∷ update_rows i f rs

-- The columns that `update` writes; special_page and the media cover are not among them.
abbrev pub written : ℕ → ContentPageDao → ContentPageDao → ContentPageDao
written now p r = record r {
  parent_page_id = p.parent_page_id;
  page_name = p.page_name;
  page_title = p.page_title;
  page_category = p.page_category;
  page_markdown = p.page_markdown;
  page_cover_attachment_id = p.page_cover_attachment_id;
  page_order = p.page_order;
  page_creation_date = p.page_creation_date;
  min_role = p.min_role;
  page_modified_date = stamp now;
}

-- Fails if no row has the id (`fetch_one`), or a constraint is violated.
unfoldable pub update : ContentPages → ℕ → ContentPageDao → Fallible (ContentPages × ContentPageDao)
unfolding update_rows same
update t now p =
    if not (any (has_id p.page_id) t.rows)
      || (any (λ r. not (has_id p.page_id r) && collides p.parent_page_id p.page_name r) t.rows
          || not (parent_exists t.rows p.parent_page_id))
    then failed
    else done (
      record t { rows = update_rows p.page_id (written now p) t.rows },
      record p { page_modified_date = stamp now },
    )

unfoldable pub set_cover : ContentPages → ℕ → ℕ → Option ℕ → ContentPages
unfolding update_rows
set_cover t now i media = record t {
  rows = update_rows i (λ r. record r { page_modified_date = stamp now }) t.rows;
  covers = λ j. if j == i then media else t.covers j;
}

unfoldable pub set_order : ContentPages → ℕ → ℕ → ContentPages
unfolding update_rows
set_order t i order = record t {
  rows = update_rows i (λ r. record r { page_order = order }) t.rows;
}

unfoldable pub set_category : ContentPages → ℕ → Option Text → ContentPages
unfolding update_rows
set_category t i category = record t {
  rows = update_rows i (λ r. record r { page_category = category }) t.rows;
}

unfoldable pub set_creation_date : ContentPages → ℕ → ℕ → ℕ → ContentPages
unfolding update_rows
set_creation_date t now i date = record t {
  rows =
      update_rows i (λ r. record r { page_creation_date = date; page_modified_date = stamp now })
        t.rows;
}

-- The nodes from a parent down a path; `none` is the early return on a missing one.
unfoldable pub path_from : List ContentPageDao → Option ℕ → List Text → Option (List ContentPageDao)
unfolding find_by_name
path_from rows parent [] = some []
path_from rows parent (name ∷ names) = do
  node ← find_by_name rows parent name
  nodes ← path_from rows (some node.page_id) names
  some (node ∷ nodes)

abbrev pub or_empty : {A : Type 0} → Option (List A) → List A
or_empty none = []
or_empty (some xs) = xs

unfoldable pub find_by_path : List ContentPageDao → List Text → List ContentPageDao
unfolding path_from
find_by_path rows names = or_empty (path_from rows none names)
