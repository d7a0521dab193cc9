-- ===== src/Backup.antt =====
-- src/coordinator/backup.rs: which dated backups are deleted. The directory is the list of the paths
-- that `read_dir` gives; what `Path` says of a path is a parameter. They are files of one directory,
-- so that the order of the paths is the order of their characters.
pub mod Retained
use hotchkiss_io.Base.{
  Bool, List, Option, [], false, filter, if◌then◌else◌, leb, length, ltb, none, some, sort_by, suc,
  take, zero, ℕ, ◌&&◌, ◌+◌, ◌-◌, ◌∷◌,
}
use hotchkiss_io.Text.{Text, codes, ends_with, starts_with, strip_prefix, text_leb}

pub record Paths : Type 0 where
  pub is_file : Text → Bool
  -- `file_name` where it is UTF-8
  pub file_name : Text → Option Text

abbrev pub retain_backups : ℕ
retain_backups = 7

abbrev backup_prefix : Text
backup_prefix = codes "database-"

abbrev backup_suffix : Text
backup_suffix = codes ".sqlite"

-- `name.len()` counts bytes; between an ASCII prefix and suffix it exceeds theirs exactly if the
-- number of characters does.
abbrev is_backup_name : Text → Bool
is_backup_name name =
    starts_with backup_prefix name
    && (ends_with backup_suffix name
        && ltb (length backup_prefix + length backup_suffix) (length name))

abbrev named_as_backup : Option Text → Bool
named_as_backup none = false
named_as_backup (some name) = is_backup_name name

unfoldable pub is_backup_file : Paths → Text → Bool
unfolding strip_prefix ends_with
is_backup_file paths path = paths.is_file path && named_as_backup (paths.file_name path)

abbrev pub drop_first : {A : Type 0} → ℕ → List A → List A
drop_first zero xs = xs
drop_first (suc n) [] = []
drop_first (suc n) (x ∷ xs) = drop_first n xs

-- The files that are removed, in order.
unfoldable pub pruned : Paths → List Text → ℕ → List Text
unfolding is_backup_file sort_by text_leb
pruned paths dir keep =
    let backups = sort_by text_leb (filter (is_backup_file paths) dir) in
    if leb (length backups) keep then [] else take (length backups - keep) backups
