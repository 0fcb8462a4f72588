-- ===== src/Prelude/Fresh.antt =====
-- What a walk that keeps the numbers it has passed still has before it, of a finite list.
use Prim.Native.Nat.{ℕ, zero, suc, ◌<◌, ◌≤◌}
use mathlib.Core.Path.{◌≡◌, refl}
use mathlib.Core.Bool.{true, false, not}
use mathlib.Core.List.{List, [], ◌∷◌}
use native.Mathlib.Omega.{arith}
use jfsrec.Prelude.Lists.{has, select, length}

unfoldable pub fresh : List ℕ → List ℕ → List ℕ
fresh passed u = select (λ x. not (has x passed)) u

fresh-le : (q : ℕ) (passed u : List ℕ) → length (fresh (q ∷ passed) u) ≤ length (fresh passed u)
unfolding fresh
fresh-le q passed [] = omega arith
fresh-le q passed (x ∷ u) = ground (arith, fresh-le q passed u)

pub fresh-lt :
    (q : ℕ) (passed u : List ℕ)
    → has q u ≡ true
    → has q passed ≡ false
    → length (fresh (q ∷ passed) u) < length (fresh passed u)
unfolding fresh
fresh-lt q passed [] e f = cc
fresh-lt q passed (x ∷ u) e f = ground (arith, fresh-lt q passed u, fresh-le q passed u)

pub fresh-length : (passed u : List ℕ) → length (fresh passed u) ≤ length u
unfolding fresh
fresh-length passed [] = omega arith
fresh-length passed (x ∷ u) = ground (arith, fresh-length passed u)

-- The numbers below a bound.
unfoldable pub below : ℕ → List ℕ
below zero = []
below (suc n) = n ∷ below n

pub has-below : (n a : ℕ) → a < n → has a (below n) ≡ true
unfolding below
has-below zero a h = absurd (omega arith)
has-below (suc n) a h = ground (arith, has-below n a)

pub length-below : (n : ℕ) → length (below n) ≡ n
unfolding below
length-below zero = refl
length-below (suc n) = omega (arith, length-below n)
