-- ===== src/Greylist/ActiveSet.antt =====
-- src/greylist/active_set.rs: the snapshot that the request path reads. Each method takes the locks
-- that it needs in turn; the model is the sequence of the methods' effects.
pub mod Allowlist
use hotchkiss_io.Base.{Bool, List, [], filter, if◌then◌else◌, map, not, ◌&&◌, ◌∷◌}
use hotchkiss_io.Text.{Text, is_one_of, same, text_leb}
use hotchkiss_io.Greylist.Ip.{IpAddr}
use hotchkiss_io.Greylist.Table.{GreylistEntry}

pub record GreylistSet : Type 0 where
  pub inner : List Text
  pub allow : List Text

unfoldable pub refresh : GreylistSet → List GreylistEntry → GreylistSet
refresh s entries = record s { inner = map (λ e. e.ip) entries }

-- `show_ip` is the `Display` of an address.
unfoldable pub set_public_ips : (IpAddr → Text) → GreylistSet → List IpAddr → GreylistSet
set_public_ips show_ip s ips = record s { allow = map show_ip ips }

unfoldable pub is_allowlisted : GreylistSet → Text → Bool
is_allowlisted s ip = is_one_of ip s.allow

unfoldable pub is_greylisted : GreylistSet → Text → Bool
is_greylisted s ip = not (is_allowlisted s ip) && is_one_of ip s.inner

unfoldable pub insert_ip : GreylistSet → Text → GreylistSet
insert_ip s ip = record s { inner = ip ∷ s.inner }

unfoldable pub remove_ip : GreylistSet → Text → GreylistSet
remove_ip s ip = record s { inner = filter (λ j. not (same j ip)) s.inner }

insert_sorted : Text → List Text → List Text
insert_sorted a [] = a ∷ []
insert_sorted a (b ∷ t) = if text_leb a b then a ∷ b ∷ t else b ∷ insert_sorted a t

unfoldable pub sort_texts : List Text → List Text
unfolding insert_sorted
sort_texts [] = []
sort_texts (a ∷ t) = insert_sorted a (sort_texts t)

-- The allowlist, sorted.
unfoldable pub allowlisted : GreylistSet → List Text
allowlisted s = sort_texts s.allow
