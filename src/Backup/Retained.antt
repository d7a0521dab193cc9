-- ===== src/Backup/Retained.antt =====
-- What is left after a pruning.
use mathlib.Core.List.{Perm}
use hotchkiss_io.Base.{
  All, Bool-cases, List, [], ap, arith, filter, inl, inr, leb, length, refl, sort_by, subst, suc,
  sym, take, true, zero, ℕ, ◌++◌, ◌-◌, ◌∙◌, ◌∷◌, ◌≡◌, ◌≤◌, ◌⊎◌,
}
use hotchkiss_io.Text.{Text, text_leb}
use hotchkiss_io.Sorting.{IsAscending, IsAscending-append, sort_by-IsAscending, sort_by-perm}
use hotchkiss_io.Backup.{Paths, drop_first, is_backup_file, pruned}
use hotchkiss_io.Text.Laws.{text_leb_total, text_leb_trans}

take-drop_first : {A : Type 0} (n : ℕ) (xs : List A) → take n xs ++ drop_first n xs ≡ xs
take-drop_first zero xs = refl
take-drop_first (suc n) [] = refl
take-drop_first (suc n) (x ∷ xs) = ap (◌∷◌ x) (take-drop_first n xs)

length-drop_first : {A : Type 0} (n : ℕ) (xs : List A) → length (drop_first n xs) ≡ length xs - n
length-drop_first zero xs = omega arith
length-drop_first (suc n) [] = omega arith
length-drop_first (suc n) (x ∷ xs) = omega (arith, length-drop_first n xs)

-- The backups of a directory split in the removed and the kept ones: every removed path is at most
-- every kept one, and as many are kept as asked for, or all.
pub record IsPruned (paths : Paths) (dir removed : List Text) (keep : ℕ) : Type 0 where
  pub kept : List Text
  pub backups : Perm (removed ++ kept) (filter (is_backup_file paths) dir)
  pub older : All (λ r. All (λ k. text_leb r k ≡ true) kept) removed
  pub count : (length kept ≡ keep) ⊎ ((removed ≡ []) × (length kept ≤ keep))

-- A pruning removes backups only and none that comes behind one that it keeps, and it keeps `keep` of
-- them; with no more than that, it removes nothing.
pub pruned-IsPruned :
    (paths : Paths) (dir : List Text) (keep : ℕ) → IsPruned paths dir (pruned paths dir keep) keep
pruned-IsPruned paths dir keep = elim (Bool-cases (leb (length backups) keep)) [
  | inl y ↦
      let nothing : pruned paths dir keep ≡ [] = unfold pruned in rw y refl in
      record {
        kept = backups;
        backups = rw nothing (sort_by-perm text_leb (filter (is_backup_file paths) dir));
        older = rw nothing tt;
        count = inr (nothing, ground arith);
      }
  | inr n ↦
      let some_go : pruned paths dir keep ≡ take (length backups - keep) backups =
        unfold pruned in rw n refl in
      let together : pruned paths dir keep ++ drop_first (length backups - keep) backups ≡ backups =
        ap (λ z. z ++ drop_first (length backups - keep) backups) some_go
        ∙ take-drop_first (length backups - keep) backups in
      record {
        kept = drop_first (length backups - keep) backups;
        backups =
            subst (λ z. Perm z (filter (is_backup_file paths) dir)) (sym together)
              (sort_by-perm text_leb (filter (is_backup_file paths) dir));
        older =
            IsAscending-append text_leb (pruned paths dir keep)
              (drop_first (length backups - keep) backups)
              (subst (IsAscending text_leb) (sym together) (
                sort_by-IsAscending text_leb text_leb_total text_leb_trans
                  (filter (is_backup_file paths) dir)));
        count = inl (ground (arith, length-drop_first (length backups - keep) backups, n));
      }
]
  where
    backups : List Text
    backups = sort_by text_leb (filter (is_backup_file paths) dir)
