-- ===== src/Greylist/ActiveSet/Allowlist.antt =====
-- What the snapshot answers.
use hotchkiss_io.Base.{
  List, [], arith, false, filter, map, not, refl, true, ◌&&◌, ◌||◌, ◌∙◌, ◌∷◌, ◌≡◌,
}
use hotchkiss_io.Text.{Text, is_one_of, same}
use hotchkiss_io.Text.Laws.{same_iff}
use hotchkiss_io.Greylist.Table.{GreylistEntry}
use hotchkiss_io.Greylist.Table.Pins.{has_row}
use hotchkiss_io.Greylist.ActiveSet.{
  GreylistSet, allowlisted, insert_ip, insert_sorted, is_allowlisted, is_greylisted, refresh,
  remove_ip, sort_texts,
}

is_one_of-map :
    (ip : Text) (es : List GreylistEntry) → is_one_of ip (map (λ e. e.ip) es) ≡ has_row ip es
unfolding is_one_of
is_one_of-map ip [] = refl
is_one_of-map ip (e ∷ es) = ground (arith, same_iff ip e.ip, same_iff e.ip ip, is_one_of-map ip es)

is_one_of-filter_other :
    (ip j : Text) (ts : List Text)
    → is_one_of ip (filter (λ k. not (same k j)) ts) ≡ (not (same ip j) && is_one_of ip ts)
unfolding is_one_of
is_one_of-filter_other ip j [] = ground arith
is_one_of-filter_other ip j (k ∷ ts) =
    ground (arith, same_iff ip k, same_iff k j, same_iff ip j, is_one_of-filter_other ip j ts)

-- After a refresh, the addresses greylisted are those with a row among the entries, except the
-- operator's own.
pub is_greylisted-refresh :
    (s : GreylistSet) (es : List GreylistEntry) (ip : Text)
    → is_greylisted (refresh s es) ip ≡ (not (is_allowlisted s ip) && has_row ip es)
unfolding is_greylisted refresh is_allowlisted
is_greylisted-refresh s es ip = rw (is_one_of-map ip es) refl

-- The methods that change the snapshot.
pub data Change : Type 0 where
  refreshed : List GreylistEntry → Change
  inserted removed : Text → Change

abbrev pub apply_change : Change → GreylistSet → GreylistSet
apply_change (refreshed es) s = refresh s es
apply_change (inserted ip) s = insert_ip s ip
apply_change (removed ip) s = remove_ip s ip

abbrev pub run_changes : List Change → GreylistSet → GreylistSet
run_changes [] s = s
run_changes (c ∷ cs) s = run_changes cs (apply_change c s)

apply_change-allow : (c : Change) (s : GreylistSet) → (apply_change c s).allow ≡ s.allow
unfolding refresh insert_ip remove_ip
apply_change-allow (refreshed es) s = refl
apply_change-allow (inserted ip) s = refl
apply_change-allow (removed ip) s = refl

run_changes-allow : (cs : List Change) (s : GreylistSet) → (run_changes cs s).allow ≡ s.allow
run_changes-allow [] s = refl
run_changes-allow (c ∷ cs) s = run_changes-allow cs (apply_change c s) ∙ apply_change-allow c s

-- An allowlisted address is not greylisted after any sequence of refreshes, insertions and
-- removals.
pub allowlisted_never_greylisted :
    (cs : List Change) (s : GreylistSet) (ip : Text)
    → is_allowlisted s ip ≡ true
    → is_greylisted (run_changes cs s) ip ≡ false
unfolding is_allowlisted is_greylisted
allowlisted_never_greylisted cs s ip h = rw (run_changes-allow cs s) (rw h refl)

-- What one insertion or removal changes: the address named, and it alone.
pub is_greylisted-insert_ip :
    (s : GreylistSet) (ip j : Text)
    → is_greylisted (insert_ip s ip) j
      ≡ (not (is_allowlisted s j) && (same j ip || is_one_of j s.inner))
unfolding is_greylisted insert_ip is_allowlisted is_one_of
is_greylisted-insert_ip s ip j = refl

pub is_greylisted-remove_ip :
    (s : GreylistSet) (ip j : Text)
    → is_greylisted (remove_ip s ip) j ≡ (not (same j ip) && is_greylisted s j)
unfolding is_greylisted remove_ip is_allowlisted
is_greylisted-remove_ip s ip j = ground (arith, is_one_of-filter_other j ip s.inner)

is_one_of-insert_sorted :
    (ip a : Text) (ts : List Text)
    → is_one_of ip (insert_sorted a ts) ≡ (same ip a || is_one_of ip ts)
unfolding is_one_of insert_sorted
is_one_of-insert_sorted ip a [] = refl
is_one_of-insert_sorted ip a (b ∷ ts) = ground (arith, is_one_of-insert_sorted ip a ts)

is_one_of-sort_texts : (ip : Text) (ts : List Text) → is_one_of ip (sort_texts ts) ≡ is_one_of ip ts
unfolding is_one_of sort_texts
is_one_of-sort_texts ip [] = refl
is_one_of-sort_texts ip (a ∷ ts) =
    ground (arith, is_one_of-insert_sorted ip a (sort_texts ts), is_one_of-sort_texts ip ts)

-- The list that the sweep walks holds the addresses on the allowlist.
pub is_one_of-allowlisted :
    (s : GreylistSet) (ip : Text) → is_one_of ip (allowlisted s) ≡ is_allowlisted s ip
unfolding allowlisted is_allowlisted
is_one_of-allowlisted s ip = is_one_of-sort_texts ip s.allow
