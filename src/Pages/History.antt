-- ===== src/Pages/History.antt =====
-- The handlers that write pages, one after the other in any order: each of them leaves a forest.
pub mod Steps
pub mod Invariant
use hotchkiss_io.Base.{List, Option, [], none, some, ℕ, ◌∷◌}
use hotchkiss_io.Text.{Text}
use hotchkiss_io.Pages.Rows.{ContentPages}
use hotchkiss_io.Pages.Write.{
  Faults, Library, Outcome, PageUpdate, create_page, page_error, page_written, update_page,
}
use hotchkiss_io.Pages.Reorder.{
  publish_now, reorder_children, reorder_pages, toggle_feature, unpublish,
}
use hotchkiss_io.Pages.Handlers.{Deletion, delete_page_path, deleted}

pub data PageEvent : Type 0 where
  creates : Library → Faults → ℕ → List Text → Text → PageEvent
  saves : Library → Faults → ℕ → List Text → PageUpdate → PageEvent
  deletes : Text → PageEvent
  reorders : List ℕ → PageEvent
  reorders_below : ℕ → ℕ → List ℕ → PageEvent
  toggles publishes unpublishes : ℕ → ℕ → PageEvent

abbrev pub table_of : Outcome → ContentPages
table_of (page_written t w) = t
table_of (page_error t e) = t

abbrev after_deletion : ContentPages → Deletion → ContentPages
after_deletion t (deleted u target) = u
after_deletion t _ = t

abbrev or_same : ContentPages → Option ContentPages → ContentPages
or_same t none = t
or_same t (some u) = u

-- The table after a handler; the event's last number is the instant, or the sentinel of a draft.
unfoldable pub after_event : ContentPages → PageEvent → ContentPages
unfolding create_page update_page delete_page_path reorder_pages reorder_children toggle_feature
    publish_now unpublish
after_event t (creates lib io now path title) = table_of (create_page lib io now t path title)
after_event t (saves lib io now path input) = table_of (update_page lib io now t path input)
after_event t (deletes path) = after_deletion t (delete_page_path t path)
after_event t (reorders ids) = (reorder_pages t ids).0
after_event t (reorders_below parent start ids) = (reorder_children t parent start ids).0
after_event t (toggles i now) = or_same t (toggle_feature t i)
after_event t (publishes i now) = or_same t (publish_now t now i)
after_event t (unpublishes i now) = or_same t (unpublish now t now i)

unfoldable pub after_events : ContentPages → List PageEvent → ContentPages
unfolding after_event
after_events t [] = t
after_events t (e ∷ es) = after_events (after_event t e) es
