-- ===== src/Media/Store.antt =====
-- src/media/mod.rs: the content-addressed store over several roots. What the file system answers, and
-- SHA-256, are parameters; a path is the text of its segments.
pub mod Target
use mathlib.Core.Option
use hotchkiss_io.Base.{
  Bool, List, Option, [], false, if◌then◌else◌, leb, ltb, none, not, some, take, true, ℕ, ◌&&◌,
  ◌++◌, ◌||◌, ◌∷◌,
}
use hotchkiss_io.Text.{Text, codes, same}

pub record Disks : Type 0 where
  pub exists : Text → Bool
  pub parent : Text → Option Text
  pub available_space : Text → Option ℕ
  pub total_space : Text → Option ℕ

pub record MediaStore : Type 0 where
  pub roots : List Text
  pub min_free_bytes : ℕ

-- Two levels of directories, of one byte of the hash each.
unfoldable pub shard_path : Text → Text → Text
shard_path root sha_hex =
    root
    ++ (codes "/"
        ++ (take 2 sha_hex ++ (codes "/" ++ (take 2 (drop_two sha_hex) ++ (codes "/" ++ sha_hex)))))
  where
    drop_two : Text → Text
    drop_two (a ∷ b ∷ s) = s
    drop_two s = []

-- `iter().map(…).find(…)`
unfoldable pub find_root : (Text → Bool) → Text → List Text → Option Text
unfolding shard_path
find_root is_file sha_hex [] = none
find_root is_file sha_hex (root ∷ roots) =
    let rest = find_root is_file sha_hex roots in
    if is_file (shard_path root sha_hex) then some root else rest

unfoldable pub root_containing : MediaStore → (Text → Bool) → Text → Option Text
unfolding find_root
root_containing store is_file sha_hex = find_root is_file sha_hex store.roots

abbrev by_hint : (Text → Bool) → Text → Option Text → Option Text
by_hint is_file sha_hex none = none
by_hint is_file sha_hex (some hint) =
    if is_file (shard_path hint sha_hex) then some (shard_path hint sha_hex) else none

unfoldable pub resolve_path : MediaStore → (Text → Bool) → Text → Option Text → Option Text
unfolding shard_path root_containing
resolve_path store is_file sha_hex hint = elim (by_hint is_file sha_hex hint) [
  | some path ↦ some path
  | none ↦ Option.map (λ root. shard_path root sha_hex) (root_containing store is_file sha_hex)
]

pub record Probe : Type 0 where
  pub present : Bool
  pub free : Option ℕ
  pub total : Option ℕ

abbrev existing : Disks → Option Text → Option Text
existing disks none = none
existing disks (some path) = if disks.exists path then some path else none

abbrev probed : Disks → Option Text → Probe
probed disks none = record { present = false; free = none; total = none }
probed disks (some path) = record {
  present = true;
  free = disks.available_space path;
  total = disks.total_space path;
}

unfoldable pub probe_root : Disks → Text → Probe
probe_root disks root =
    if disks.exists root
    then probed disks (some root)
    else probed disks (existing disks (disks.parent root))

abbrev pub above : ℕ → Option ℕ → Bool
above margin none = false
above margin (some free) = ltb margin free

abbrev at_most : ℕ → Option ℕ → Bool
at_most margin none = false
at_most margin (some free) = leb free margin

-- `none` when no root is ready.
unfoldable pub pick_write_root : Disks → ℕ → List Text → Option Text
unfolding probe_root
pick_write_root disks margin [] = none
pick_write_root disks margin (root ∷ roots) =
    let rest = pick_write_root disks margin roots in
    let probe = probe_root disks root in
    if not probe.present then rest else if above margin probe.free then some root else rest

pub record RootStatus : Type 0 where
  pub path : Text
  pub free_bytes : Option ℕ
  pub total_bytes : Option ℕ
  pub is_write_target : Bool
  pub below_margin : Bool

unfoldable pub status_of : Disks → ℕ → Bool → Text → RootStatus
unfolding probe_root
status_of disks margin taken root =
    let probe = probe_root disks root in
    record {
      path = root;
      free_bytes = probe.free;
      total_bytes = probe.total;
      is_write_target = not taken && (probe.present && above margin probe.free);
      below_margin = probe.present && at_most margin probe.free;
    }

unfoldable pub statuses : Disks → ℕ → Bool → List Text → List RootStatus
unfolding status_of
statuses disks margin taken [] = []
statuses disks margin taken (root ∷ roots) =
    let row = status_of disks margin taken root in
    row ∷ statuses disks margin (taken || row.is_write_target) roots

unfoldable pub roots_status : Disks → MediaStore → List RootStatus
unfolding statuses
roots_status disks store = statuses disks store.min_free_bytes false store.roots

-- The files after a write, and the hash and the root of a stored blob; `none` when no root is ready.
abbrev pub written_file : (Text → Bool) → Text → Text → Bool
written_file is_file path q = same q path || is_file q

unfoldable pub store_blob :
    Disks → MediaStore → (Text → Bool) → Text → Option (Text × (Text → Bool))
unfolding root_containing pick_write_root shard_path same
store_blob disks store is_file sha_hex = elim (root_containing store is_file sha_hex) [
  | some root ↦ some (root, is_file)
  | none ↦
      Option.map (λ root. (root, written_file is_file (shard_path root sha_hex)))
        (pick_write_root disks store.min_free_bytes store.roots)
]
