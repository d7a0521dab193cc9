-- ===== src/Greylist/Table/Pins.antt =====
-- What the statements on the `greylist` table do to the row of an address.
use hotchkiss_io.Base.{
  Bool, List, Option, [], any, any-filter, any-filter_le, any-filter_none, ap, arith, false, filter,
  filter-filter, is_some, none, not, refl, some, true, ℕ, ◌&&◌, ◌<◌, ◌||◌, ◌∙◌, ◌∷◌, ◌≡◌,
}
use hotchkiss_io.Text.{Text, same}
use hotchkiss_io.Text.Laws.{same_iff}
use hotchkiss_io.Greylist.Table.{
  GreylistEntry, active, insert_newest, is_active, is_after, is_due, newest_first, prune_expired,
  release, selects_active, upsert, upsert_auto,
}

-- A row of the address that is active at `now`, and a row of it at all.
abbrev pub holds : Text → ℕ → List GreylistEntry → Bool
holds ip now = any (λ e. same e.ip ip && is_active e now)

abbrev pub has_row : Text → List GreylistEntry → Bool
has_row ip = any (λ e. same e.ip ip)

-- A pinned row.
abbrev pub is_pinned : Text → List GreylistEntry → Bool
is_pinned ip = any (λ e. same e.ip ip && e.manual)

selects_active-is_active : (now : ℕ) (e : GreylistEntry) → selects_active now e ≡ is_active e now
unfolding is_active
selects_active-is_active now e = expiry e.manual e.expires_at
  where
    expiry :
        (m : Bool) (o : Option ℕ) → (m || (is_some o && is_after now o)) ≡ (m || is_after now o)
    expiry m none = ground arith
    expiry m (some at) = ground arith

-- An address entered until `expires_at` is held until then, whatever row it had.
pub upsert_auto-holds :
    (t : List GreylistEntry) (now : ℕ) (ip reason : Text) (evidence : Option Text)
    (expires_at later : ℕ)
    → later < expires_at
    → holds ip later (upsert_auto t now ip reason evidence expires_at) ≡ true
unfolding upsert_auto upsert is_active
upsert_auto-holds [] now ip reason evidence expires_at later h = ground (arith, same_iff ip ip)
upsert_auto-holds (e ∷ t) now ip reason evidence expires_at later h =
    ground (arith, same_iff e.ip ip, upsert_auto-holds t now ip reason evidence expires_at later h)

pub upsert_auto-other :
    (p : GreylistEntry → Bool) (j : Text) (t : List GreylistEntry) (now : ℕ) (ip reason : Text)
    (evidence : Option Text) (expires_at : ℕ)
    → same ip j ≡ false
    → any (λ e. same e.ip j && p e) (upsert_auto t now ip reason evidence expires_at)
      ≡ any (λ e. same e.ip j && p e) t
unfolding upsert_auto upsert
upsert_auto-other p j [] now ip reason evidence expires_at h = ground arith
upsert_auto-other p j (e ∷ t) now ip reason evidence expires_at h = ground (
  arith,
  same_iff e.ip ip,
  same_iff e.ip j,
  same_iff ip j,
  upsert_auto-other p j t now ip reason evidence expires_at h,
)

pub upsert_auto-has_row :
    (j : Text) (t : List GreylistEntry) (now : ℕ) (ip reason : Text) (evidence : Option Text)
    (expires_at : ℕ)
    → has_row j (upsert_auto t now ip reason evidence expires_at) ≡ (same ip j || has_row j t)
unfolding upsert_auto upsert
upsert_auto-has_row j [] now ip reason evidence expires_at = ground arith
upsert_auto-has_row j (e ∷ t) now ip reason evidence expires_at = ground (
  arith,
  same_iff e.ip ip,
  same_iff e.ip j,
  same_iff ip j,
  upsert_auto-has_row j t now ip reason evidence expires_at,
)

-- An automatic entry leaves a pin, its own or another's, as it is.
pub upsert_auto-pinned :
    (j : Text) (t : List GreylistEntry) (now : ℕ) (ip reason : Text) (evidence : Option Text)
    (expires_at : ℕ)
    → is_pinned j (upsert_auto t now ip reason evidence expires_at) ≡ is_pinned j t
unfolding upsert_auto upsert
upsert_auto-pinned j [] now ip reason evidence expires_at = ground arith
upsert_auto-pinned j (e ∷ t) now ip reason evidence expires_at =
    ground (arith, upsert_auto-pinned j t now ip reason evidence expires_at)

pub release-other :
    (p : GreylistEntry → Bool) (j ip : Text) (t : List GreylistEntry)
    → same ip j ≡ false
    → any (λ e. same e.ip j && p e) (release t ip).1 ≡ any (λ e. same e.ip j && p e) t
unfolding release
release-other p j ip t h =
    any-filter (λ e. same e.ip j && p e) (λ e. not (same e.ip ip))
      (λ e y. ground (arith, same_iff e.ip ip, same_iff e.ip j, same_iff ip j)) t

pub release-gone : (t : List GreylistEntry) (ip : Text) → has_row ip (release t ip).1 ≡ false
unfolding release
release-gone t ip =
    any-filter_none (λ e. same e.ip ip) (λ e. not (same e.ip ip)) (λ e y. rw y refl) t

pub release-has_row :
    (t : List GreylistEntry) (ip j : Text)
    → has_row j t ≡ false
    → has_row j (release t ip).1 ≡ false
unfolding release
release-has_row t ip j h = any-filter_le (λ e. same e.ip j) (λ e. not (same e.ip ip)) t h

pub prune_expired-has_row :
    (t : List GreylistEntry) (now : ℕ) (j : Text)
    → has_row j t ≡ false
    → has_row j (prune_expired t now).1 ≡ false
unfolding prune_expired
prune_expired-has_row t now j h = any-filter_le (λ e. same e.ip j) _ t h

kept_if_active :
    (m : Bool) (o : Option ℕ) (now : ℕ)
    → (m || is_after now o) ≡ true
    → not (not m && is_due now o) ≡ true
kept_if_active true o now h = refl
kept_if_active false none now h = refl
kept_if_active false (some at) now h = ground arith

pub prune_expired-holds :
    (t : List GreylistEntry) (now : ℕ) (ip : Text)
    → holds ip now (prune_expired t now).1 ≡ holds ip now t
unfolding prune_expired is_active
prune_expired-holds t now ip =
    any-filter (λ e. same e.ip ip && is_active e now) _
      (λ e y. kept_if_active e.manual e.expires_at now (ground arith)) t

-- Pruning at a time leaves the rows active at that time, in their order.
pub active-prune_expired :
    (t : List GreylistEntry) (now : ℕ) → active (prune_expired t now).1 now ≡ active t now
unfolding active prune_expired is_active
active-prune_expired t now = ap newest_first (
    filter-filter (selects_active now) _
      (λ e y. kept_if_active e.manual e.expires_at now (rw (← selects_active-is_active now e) y)) t)

any-insert_newest :
    (p : GreylistEntry → Bool) (e : GreylistEntry) (t : List GreylistEntry)
    → any p (insert_newest e t) ≡ (p e || any p t)
unfolding insert_newest
any-insert_newest p e [] = refl
any-insert_newest p e (f ∷ t) = ground (arith, any-insert_newest p e t)

any-newest_first :
    (p : GreylistEntry → Bool) (t : List GreylistEntry) → any p (newest_first t) ≡ any p t
unfolding newest_first
any-newest_first p [] = refl
any-newest_first p (e ∷ t) =
    ground (arith, any-insert_newest p e (newest_first t), any-newest_first p t)

any-selected :
    (ip : Text) (now : ℕ) (t : List GreylistEntry)
    → any (λ e. same e.ip ip) (filter (selects_active now) t) ≡ holds ip now t
any-selected ip now [] = refl
any-selected ip now (e ∷ t) = ground (arith, selects_active-is_active now e, any-selected ip now t)

-- The active rows are those of the addresses held.
pub active-holds :
    (ip : Text) (now : ℕ) (t : List GreylistEntry) → has_row ip (active t now) ≡ holds ip now t
unfolding active
active-holds ip now t =
    any-newest_first (λ e. same e.ip ip) (filter (selects_active now) t) ∙ any-selected ip now t
