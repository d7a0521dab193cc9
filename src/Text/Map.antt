-- ===== src/Text/Map.antt =====
-- A `HashMap` with text keys, as an association list that keeps the order of first insertion. No
-- code reads that order without sorting, or says so.
use hotchkiss_io.Base.{List, Option, [], arith, if◌then◌else◌, none, refl, some, ◌∷◌, ◌≡◌}
use hotchkiss_io.Text.{Text, same}
use hotchkiss_io.Text.Laws.{same_iff, same_refl}

module _ {V : Type 0} where
  unfoldable pub lookup : Text → List (Text × V) → Option V
  lookup k [] = none
  lookup k ((j, v) ∷ m) = if same j k then some v else lookup k m

  -- `entry(k)` with an update of the value that is there, or of none.
  unfoldable pub alter : Text → (Option V → V) → List (Text × V) → List (Text × V)
  alter k f [] = (k, f none) ∷ []
  alter k f ((j, v) ∷ m) = if same j k then (j, f (some v)) ∷ m else (j, v) ∷ alter k f m

  pub lookup-alter :
      (k j : Text) (f : Option V → V) (m : List (Text × V))
      → lookup j (alter k f m) ≡ (if same k j then some (f (lookup k m)) else lookup j m)
  unfolding lookup alter
  lookup-alter k j f [] = refl
  lookup-alter k j f ((i, v) ∷ m) =
      ground (arith, same_iff k j, same_iff i k, same_iff i j, lookup-alter k j f m)

  pub lookup-alter_self :
      (k : Text) (f : Option V → V) (m : List (Text × V))
      → lookup k (alter k f m) ≡ some (f (lookup k m))
  lookup-alter_self k f m = ground (arith, lookup-alter k k f m, same_refl k)
