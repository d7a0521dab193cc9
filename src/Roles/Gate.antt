-- ===== src/Roles/Gate.antt =====
-- The gate of roles.rs: who passes, what a write may change, and that the stored form decodes back.
use mathlib.Core.Option
use hotchkiss_io.Base.{
  Bool-cases, Option, ap, arith, false, inl, inr, none, refl, some, true, ◌↔◌, ◌≡◌, ◌≢◌, ◌≤◌, ◌⊎◌,
}
use hotchkiss_io.Text.{Text, codes, same}
use hotchkiss_io.Text.Laws.{same_iff}
use hotchkiss_io.Roles.{
  MinRole, Role, admin, anonymous, apply_write, family, from_stored, is_visible_to, rank,
  registered, role_name, to_stored,
}

-- Who may read an item whose stored gate is `raw`.
pub data MayRead (viewer : Role) : Option Text → Type 0 where
  public : MayRead viewer none
  member : (raw : Text) → raw ≡ codes "Registered" → viewer ≢ anonymous → MayRead viewer (some raw)
  household :
      (raw : Text)
      → raw ≡ codes "Family"
      → (viewer ≡ family) ⊎ (viewer ≡ admin)
      → MayRead viewer (some raw)
  owner : (raw : Text) → viewer ≡ admin → MayRead viewer (some raw)

visible_sound :
    (raw : Option Text) (viewer : Role)
    → is_visible_to (from_stored raw) viewer ≡ true
    → MayRead viewer raw
unfolding is_visible_to from_stored
visible_sound none viewer h = public
visible_sound (some raw) admin h = owner raw refl
visible_sound (some raw) anonymous h =
    absurd (ground (arith, same_iff raw (codes "Registered"), same_iff raw (codes "Family")))
visible_sound (some raw) registered h =
    member raw (ground (arith, same_iff raw (codes "Registered"), same_iff raw (codes "Family")))
      (λ e. cc)
visible_sound (some raw) family h = elim (Bool-cases (same raw (codes "Registered"))) [
  | inl y ↦ member raw ((same_iff raw (codes "Registered")).0 y) (λ e. cc)
  | inr n ↦ household raw (ground (arith, same_iff raw (codes "Family"))) (inl refl)
]

visible_complete :
    {raw : Option Text} {viewer : Role}
    → MayRead viewer raw
    → is_visible_to (from_stored raw) viewer ≡ true
unfolding is_visible_to from_stored
visible_complete public = ground arith
visible_complete {viewer = admin} (member raw e n) = ground arith
visible_complete {viewer = anonymous} (member raw e n) = absurd (n refl)
visible_complete {viewer = family} (member raw e n) =
    ground (arith, same_iff raw (codes "Registered"))
visible_complete {viewer = registered} (member raw e n) =
    ground (arith, same_iff raw (codes "Registered"))
visible_complete (household raw e v) =
    ground (arith, same_iff raw (codes "Family"), same_iff raw (codes "Registered"))
visible_complete (owner raw e) = ground arith

-- An item is visible exactly to those that its stored gate admits: everyone if the column is NULL,
-- every logged-in role for "Registered", family and admin for "Family", and the admin alone for
-- every other stored text.
pub visible_iff :
    (raw : Option Text) (viewer : Role)
    → (is_visible_to (from_stored raw) viewer ≡ true) ↔ MayRead viewer raw
visible_iff raw viewer = (visible_sound raw viewer, visible_complete)

-- A higher rank passes every gate that a lower rank passes.
pub is_visible_to_mono :
    (m : MinRole) (low high : Role)
    → rank low ≤ rank high
    → is_visible_to m low ≡ true
    → is_visible_to m high ≡ true
unfolding is_visible_to
is_visible_to_mono m low high h v = ground arith

abbrev IsGate : MinRole → Type 0
IsGate m = m.gate ≢ some anonymous

from_stored-IsGate : (raw : Option Text) → IsGate (from_stored raw)
unfolding from_stored
from_stored-IsGate none = ground arith
from_stored-IsGate (some raw) = ground arith

apply_write-IsGate : (m : MinRole) (wire : Option Text) → IsGate m → IsGate (apply_write m wire)
unfolding apply_write
apply_write-IsGate m none h = h
apply_write-IsGate m (some wire) h = ground arith

from_stored-role_name :
    (r : Role) → r ≢ anonymous → from_stored (some (role_name r)) ≡ record { gate = some r }
unfolding from_stored same
from_stored-role_name admin h = refl
from_stored-role_name anonymous h = absurd (h refl)
from_stored-role_name family h = refl
from_stored-role_name registered h = refl

from_stored-map :
    (g : Option Role)
    → g ≢ some anonymous
    → from_stored (Option.map role_name g) ≡ record { gate = g }
from_stored-map none h = unfold from_stored in refl
from_stored-map (some r) h = from_stored-role_name r (λ e. h (ap some e))

from_stored-to_stored_of_IsGate : (m : MinRole) → IsGate m → from_stored (to_stored m) ≡ m
unfolding to_stored
from_stored-to_stored_of_IsGate m h = from_stored-map m.gate h

-- Whatever is stored and whatever an author sends, the gate that results is the one that its own
-- stored form decodes to.
pub from_stored-to_stored :
    (raw wire : Option Text)
    → from_stored (to_stored (apply_write (from_stored raw) wire))
      ≡ apply_write (from_stored raw) wire
from_stored-to_stored raw wire =
    from_stored-to_stored_of_IsGate _ (apply_write-IsGate _ wire (from_stored-IsGate raw))

-- A write shows an item to a viewer who could not see it only when it names "Public", or
-- "Registered" and the viewer is logged in, or "Family" and the viewer is family.
pub apply_write_loosens :
    (m : MinRole) (wire : Option Text) (viewer : Role)
    → is_visible_to m viewer ≡ false
    → is_visible_to (apply_write m wire) viewer ≡ true
    → (wire ≡ some (codes "Public"))
      ⊎ ((wire ≡ some (codes "Registered")) × (viewer ≢ anonymous))
      ⊎ ((wire ≡ some (codes "Family")) × (viewer ≡ family))
unfolding is_visible_to apply_write
apply_write_loosens m none viewer n y = cc
apply_write_loosens m (some wire) viewer n y = ground (
  arith,
  same_iff wire (codes "Public"),
  same_iff wire (codes "Registered"),
  same_iff wire (codes "Family"),
)
