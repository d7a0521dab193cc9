-- ===== src/Fallible.antt =====
-- `anyhow::Result` where the caller looks at success alone: the error's text is not modelled.
use hotchkiss_io.Base.{Option, none}

pub data Fallible {ℓ} (A : Type ℓ) : Type ℓ where
  done : A → Fallible A
  failed : Fallible A

-- `.ok()??` on a fallible query for an optional row.
abbrev pub found {ℓ} : {A : Type ℓ} → Fallible (Option A) → Option A
found (done o) = o
found failed = none
