-- ===== src/Base/Dict.antt =====
-- Go's maps from strings, as association lists; the first entry of a key counts.
use mathlib.Core.Path.{◌≡◌}
use mathlib.Core.Option.{Option, none, some}
use mathlib.Core.List.{List, [], ◌∷◌}
use native.Mathlib.Omega.{arith}
use galene.Base.Tests.{if◌then◌else◌}
use galene.Base.Strings.{Text, same, same_iff}

abbrev pub Dict : Type 0 → Type 0
Dict V = List (Text × V)

module _ {V : Type 0} where
  abbrev pub find : Text → Dict V → Option V
  find k [] = none
  find k ((j, v) ∷ m) = let rest = find k m in if same j k then some v else rest

  abbrev pub remove : Text → Dict V → Dict V
  remove k [] = []
  remove k ((j, v) ∷ m) = let rest = remove k m in if same j k then rest else (j, v) ∷ rest

  abbrev pub insert : Text → V → Dict V → Dict V
  insert k v m = (k, v) ∷ remove k m

  pub find-remove :
      (k j : Text) (m : Dict V) → find j (remove k m) ≡ (if same k j then none else find j m)
  find-remove k j [] = ground arith
  find-remove k j ((i, v) ∷ m) =
      ground (arith, find-remove k j m, same_iff i k, same_iff i j, same_iff k j)

  pub find-insert :
      (k j : Text) (v : V) (m : Dict V)
      → find j (insert k v m) ≡ (if same k j then some v else find j m)
  find-insert k j v m = ground (arith, find-remove k j m)
