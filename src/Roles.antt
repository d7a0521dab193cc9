-- ===== src/Roles.antt =====
-- src/db/dao/roles.rs: the trust ladder and the visibility gate `MinRole`.
pub mod Gate
use mathlib.Core.Option
use hotchkiss_io.Base.{Bool, Option, false, if◌then◌else◌, leb, none, some, true, ℕ}
use hotchkiss_io.Text.{Text, codes, same}

pub data Role : Type 0 where
  admin anonymous family registered : Role

pub Role-discrete : Discrete Role
Role-discrete = hlevel

unfoldable pub rank : Role → ℕ
rank anonymous = 0
rank registered = 1
rank family = 2
rank admin = 3

-- `==` on `Role`
abbrev pub same_role : Role → Role → Bool
same_role admin admin = true
same_role anonymous anonymous = true
same_role family family = true
same_role registered registered = true
same_role _ _ = false

-- The `Display` of a role is its variant's name.
abbrev pub role_name : Role → Text
role_name admin = codes "Admin"
role_name anonymous = codes "Anonymous"
role_name family = codes "Family"
role_name registered = codes "Registered"

-- `MinRole(Option<Role>)`
pub record MinRole : Type 0 where
  pub gate : Option Role

abbrev of_gate : Option Role → MinRole
of_gate g = record { gate = g }

unfoldable pub from_stored : Option Text → MinRole
from_stored none = of_gate none
from_stored (some raw) =
    if same raw (codes "Registered")
    then of_gate (some registered)
    else if same raw (codes "Family")
    then of_gate (some family)
    else of_gate (some admin)

unfoldable pub to_stored : MinRole → Option Text
to_stored m = Option.map role_name m.gate

unfoldable pub gate_rank : MinRole → ℕ
unfolding rank
gate_rank m = elim m.gate [ none ↦ 0 | some r ↦ rank r ]

unfoldable pub is_visible_to : MinRole → Role → Bool
unfolding gate_rank
is_visible_to m viewer = leb (gate_rank m) (rank viewer)

label_of : Option Role → Option Text
label_of none = none
label_of (some registered) = some (codes "Registered")
label_of (some family) = some (codes "Family")
label_of _ = some (codes "Admin-only")

unfoldable pub label : MinRole → Option Text
unfolding label_of
label m = label_of m.gate

unfoldable pub apply_write : MinRole → Option Text → MinRole
apply_write m none = m
apply_write m (some wire) =
    if same wire (codes "Public")
    then of_gate none
    else if same wire (codes "Registered")
    then of_gate (some registered)
    else if same wire (codes "Family")
    then of_gate (some family)
    else if same wire (codes "Admin")
    then of_gate (some admin)
    else m
