-- ===== src/Deadlinks/Class.antt =====
-- src/deadlinks/class.rs: the verdicts on a link and their stored form.
use hotchkiss_io.Base.{Bool, false, if◌then◌else◌, refl, true, ◌≡◌}
use hotchkiss_io.Text.{Text, codes, same}

pub data LinkKind : Type 0 where
  internal external : LinkKind

unfoldable pub kind_as_str : LinkKind → Text
kind_as_str internal = codes "internal"
kind_as_str external = codes "external"

unfoldable pub kind_from_stored : Text → LinkKind
kind_from_stored s = if same s (codes "external") then external else internal

pub data CheckClass : Type 0 where
  ok dead transient blocked unknown_class : CheckClass

unfoldable pub class_as_str : CheckClass → Text
class_as_str ok = codes "ok"
class_as_str dead = codes "dead"
class_as_str transient = codes "transient"
class_as_str blocked = codes "blocked"
class_as_str unknown_class = codes "unknown"

unfoldable pub class_from_stored : Text → CheckClass
class_from_stored s =
    if same s (codes "ok")
    then ok
    else if same s (codes "dead")
    then dead
    else if same s (codes "transient")
    then transient
    else if same s (codes "blocked")
    then blocked
    else unknown_class

unfoldable pub counts_as_failure : CheckClass → Bool
counts_as_failure dead = true
counts_as_failure transient = true
counts_as_failure _ = false

-- The verdict on an internal link.
pub data InternalVerdict : Type 0 where
  link_ok link_dead link_unknown : InternalVerdict

abbrev pub class_of_verdict : InternalVerdict → CheckClass
class_of_verdict link_ok = ok
class_of_verdict link_dead = dead
class_of_verdict link_unknown = unknown_class

-- The stored form is read back.
pub class_from_stored-as_str : (c : CheckClass) → class_from_stored (class_as_str c) ≡ c
unfolding class_from_stored class_as_str same
class_from_stored-as_str ok = refl
class_from_stored-as_str dead = refl
class_from_stored-as_str transient = refl
class_from_stored-as_str blocked = refl
class_from_stored-as_str unknown_class = refl
