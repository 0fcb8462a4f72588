-- ===== src/Prelude/Map.antt =====
-- `std::map` with numbers as keys: an association list in ascending order of the keys.
use Prim.Native.Nat.{ℕ, ◌<◌}
use mathlib.Core.Path.{◌≡◌, refl}
use mathlib.Core.Option.{Option, none, some}
use mathlib.Core.List.{List, [], ◌∷◌}
use native.Mathlib.Omega.{arith}
use jfsrec.Prelude.Tests.{ltb, ◌==◌, if◌then◌else◌}

module _ {ℓ} {V : Type ℓ} where
  unfoldable pub lookup : ℕ → List (ℕ × V) → Option V
  lookup k [] = none
  lookup k ((j, w) ∷ m) = if k == j then some w else lookup k m

  unfoldable pub insert : ℕ → V → List (ℕ × V) → List (ℕ × V)
  insert k v [] = (k, v) ∷ []
  insert k v ((j, w) ∷ m) =
      if k == j then (k, v) ∷ m else if ltb k j then (k, v) ∷ (j, w) ∷ m else (j, w) ∷ insert k v m

  pub lookup-insert :
      (i k : ℕ) (v : V) (m : List (ℕ × V))
      → lookup i (insert k v m) ≡ (if i == k then some v else lookup i m)
  unfolding lookup insert
  lookup-insert i k v [] = refl
  lookup-insert i k v ((j, w) ∷ m) = ground (arith, lookup-insert i k v m)

  -- Every key lies above `k`.
  abbrev pub Above : ℕ → List (ℕ × V) → Type 0
  Above k [] = Unit
  Above k ((j, w) ∷ m) = (k < j) × Above k m

  abbrev pub IsSorted : List (ℕ × V) → Type 0
  IsSorted [] = Unit
  IsSorted ((j, w) ∷ m) = Above j m × IsSorted m

  Above-insert : (j k : ℕ) (v : V) (m : List (ℕ × V)) → Above j m → j < k → Above j (insert k v m)
  unfolding insert
  Above-insert j k v [] h lt = ground arith
  Above-insert j k v ((i, w) ∷ m) h lt = ground (arith, Above-insert j k v m)

  Above_mono : (j k : ℕ) (m : List (ℕ × V)) → Above k m → j < k → Above j m
  Above_mono j k [] h lt = tt
  Above_mono j k ((i, w) ∷ m) h lt = (omega arith, Above_mono j k m h.1 lt)

  pub insert-IsSorted : (k : ℕ) (v : V) (m : List (ℕ × V)) → IsSorted m → IsSorted (insert k v m)
  unfolding insert
  insert-IsSorted k v [] h = (tt, tt)
  insert-IsSorted k v ((j, w) ∷ m) h =
      ground (arith, insert-IsSorted k v m, Above-insert j k v m, Above_mono k j m)

  -- A key below all the others is not there.
  pub lookup-Above : (k : ℕ) (m : List (ℕ × V)) → Above k m → lookup k m ≡ none
  unfolding lookup
  lookup-Above k [] h = refl
  lookup-Above k ((j, w) ∷ m) h = ground (arith, lookup-Above k m)
