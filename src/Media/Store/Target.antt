-- ===== src/Media/Store/Target.antt =====
-- Where a blob is written and found again.
use hotchkiss_io.Base.{
  Bool, Bool-cases, In, List, Option, Option-cases, [], ap, arith, false, filter, inl, inr, map,
  none, refl, some, subst, sym, true, ℕ, ◌∙◌, ◌∷◌, ◌≡◌, ◌⊎◌,
}
use hotchkiss_io.Text.{Text}
use hotchkiss_io.Media.Store.{
  Disks, MediaStore, above, find_root, pick_write_root, probe_root, resolve_path, root_containing,
  roots_status, shard_path, status_of, statuses, store_blob, written_file,
}
use hotchkiss_io.Text.Laws.{same_refl}

abbrev pub listed_root : Option Text → List Text
listed_root none = []
listed_root (some root) = root ∷ []

no_target :
    (disks : Disks) (margin : ℕ) (roots : List Text)
    → filter (λ s. s.is_write_target) (statuses disks margin true roots) ≡ []
unfolding statuses status_of
no_target disks margin [] = refl
no_target disks margin (root ∷ roots) = no_target disks margin roots

statuses-pick_write_root :
    (disks : Disks) (margin : ℕ) (roots : List Text)
    → map (λ s. s.path) (filter (λ s. s.is_write_target) (statuses disks margin false roots))
      ≡ listed_root (pick_write_root disks margin roots)
unfolding statuses status_of pick_write_root
statuses-pick_write_root disks margin [] = refl
statuses-pick_write_root disks margin (root ∷ roots) =
    one (probe_root disks root).present (above margin (probe_root disks root).free) refl refl
      (statuses-pick_write_root disks margin roots)
  where
    one :
        (p a : Bool)
        → (probe_root disks root).present ≡ p
        → above margin (probe_root disks root).free ≡ a
        → map (λ s. s.path) (filter (λ s. s.is_write_target) (statuses disks margin false roots))
          ≡ listed_root (pick_write_root disks margin roots)
        → map
            (λ s. s.path)
            (filter (λ s. s.is_write_target) (statuses disks margin false (root ∷ roots)))
          ≡ listed_root (pick_write_root disks margin (root ∷ roots))
    one true true e k ih = rw (e, k, no_target disks margin roots) refl
    one true false e k ih = rw (e, k) ih
    one false true e k ih = rw e ih
    one false false e k ih = rw e ih

-- The panel of the storage roots marks exactly the root that an upload would be written to, and none
-- when no root is ready.
pub roots_status-pick_write_root :
    (disks : Disks) (store : MediaStore)
    → map (λ s. s.path) (filter (λ s. s.is_write_target) (roots_status disks store))
      ≡ listed_root (pick_write_root disks store.min_free_bytes store.roots)
unfolding roots_status
roots_status-pick_write_root disks store =
    statuses-pick_write_root disks store.min_free_bytes store.roots

find_root-is_file :
    (is_file : Text → Bool) (sha_hex : Text) (roots : List Text) (root : Text)
    → find_root is_file sha_hex roots ≡ some root
    → is_file (shard_path root sha_hex) ≡ true
unfolding find_root
find_root-is_file is_file sha_hex [] root h = absurd (cc h)
find_root-is_file is_file sha_hex (r ∷ roots) root h =
    elim (Bool-cases (is_file (shard_path r sha_hex))) [
      | inl y ↦ subst (λ z. is_file (shard_path z sha_hex) ≡ true) (ground (arith, h, y)) y
      | inr n ↦ find_root-is_file is_file sha_hex roots root (ground (arith, h, n))
    ]

pick_write_root-In :
    (disks : Disks) (margin : ℕ) (roots : List Text) (root : Text)
    → pick_write_root disks margin roots ≡ some root
    → In root roots
unfolding pick_write_root
pick_write_root-In disks margin [] root h = absurd (cc h)
pick_write_root-In disks margin (r ∷ roots) root h = elim here_or_later [
  | inl e ↦ inl (ground (arith, h, e))
  | inr e ↦ inr (pick_write_root-In disks margin roots root (sym e ∙ h))
]
  where
    here_or_later :
        (pick_write_root disks margin (r ∷ roots) ≡ some r)
        ⊎ (pick_write_root disks margin (r ∷ roots) ≡ pick_write_root disks margin roots)
    here_or_later = ground arith

find_root_of_In :
    (is_file : Text → Bool) (sha_hex root : Text) (roots : List Text)
    → In root roots
    → is_file (shard_path root sha_hex) ≡ true
    → (found : Text) × (find_root is_file sha_hex roots ≡ some found)
unfolding find_root
find_root_of_In is_file sha_hex root (r ∷ roots) m h =
    elim (Bool-cases (is_file (shard_path r sha_hex))) [
      | inl y ↦ (r, rw y refl)
      | inr n ↦ elim m [
        | inl e ↦ absurd (cc (n, subst (λ z. is_file (shard_path z sha_hex) ≡ true) (sym e) h))
        | inr k ↦
            let (found, e) = find_root_of_In is_file sha_hex root roots k h in
            (found, rw (n, e) refl)
      ]
    ]
find_root_of_In is_file sha_hex root [] m h = absurd m

resolve_path_hint :
    (store : MediaStore) (files : Text → Bool) (sha_hex root : Text)
    → files (shard_path root sha_hex) ≡ true
    → resolve_path store files sha_hex (some root) ≡ some (shard_path root sha_hex)
unfolding resolve_path
resolve_path_hint store files sha_hex root h = ground (arith, h)

again_is :
    (disks : Disks) (store : MediaStore) (files : Text → Bool) (sha_hex again : Text)
    → find_root files sha_hex store.roots ≡ some again
    → store_blob disks store files sha_hex ≡ some (again, files)
unfolding store_blob root_containing
again_is disks store files sha_hex again h = ground (arith, h)

module _ (disks : Disks) (store : MediaStore) (is_file : Text → Bool) (sha_hex root : Text)
    (files : Text → Bool) where
  -- What storing has done: found the blob, or written it under the root that was picked.
  stored :
      store_blob disks store is_file sha_hex ≡ some (root, files)
      → ((files ≡ is_file) × (root_containing store is_file sha_hex ≡ some root))
        ⊎ ((files ≡ written_file is_file (shard_path root sha_hex))
            × (pick_write_root disks store.min_free_bytes store.roots ≡ some root))
  unfolding store_blob
  stored h = elim (Option-cases (root_containing store is_file sha_hex)) [
    | inr (r, e) ↦ inl (ground (arith, h, e), ground (arith, h, e))
    | inl e ↦ elim (Option-cases (pick_write_root disks store.min_free_bytes store.roots)) [
      | inl k ↦ absurd (ground (arith, h, e, k))
      | inr (r, k) ↦ inr (ground (arith, h, e, k), ground (arith, h, e, k))
    ]
  ]

  -- A stored blob is found under the root that the store names, and storing it again writes nothing.
  pub store_blob-resolve_path :
      store_blob disks store is_file sha_hex ≡ some (root, files)
      → (resolve_path store files sha_hex (some root) ≡ some (shard_path root sha_hex))
        × ((again : Text) × (store_blob disks store files sha_hex ≡ some (again, files)))
  store_blob-resolve_path h = elim (stored h) [
    | inl (e, k) ↦
        let there : files (shard_path root sha_hex) ≡ true =
          ap (λ f. f (shard_path root sha_hex)) e
          ∙ find_root-is_file is_file sha_hex store.roots root (unfold root_containing in k) in
        (
          resolve_path_hint store files sha_hex root there,
          (root, subst (λ f. store_blob disks store f sha_hex ≡ some (root, files)) (sym e) h),
        )
    | inr (e, k) ↦
        let there : files (shard_path root sha_hex) ≡ true =
          ap (λ f. f (shard_path root sha_hex)) e ∙ own (shard_path root sha_hex) in
        let (again, found) =
          find_root_of_In files sha_hex root store.roots
            (pick_write_root-In disks store.min_free_bytes store.roots root k) there in
        (
          resolve_path_hint store files sha_hex root there,
          (again, again_is disks store files sha_hex again found),
        )
  ]
    where
      own : (path : Text) → written_file is_file path path ≡ true
      own path = ground (arith, same_refl path)
