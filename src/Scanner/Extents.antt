-- ===== src/Scanner/Extents.antt =====
-- src/inodescanner.cpp: `detect_ino_extents`.
use Prim.Native.Nat.{min, max}
use native.Mathlib.Numerals.{add-one}
use native.Mathlib.Nat.{add-zero, zero-add}
use mathlib.Core.Path.{subst}
use jfsrec.Prelude.{
  ℕ, zero, suc, ◌+◌, ◌-◌, ◌<◌, ◌≤◌, ◌≡◌, true, not, List, [], ◌∷◌, length, ltb, leb, if◌then◌else◌,
  arith, has, Bool-cases, inl, inr, has-select, get_elem?, some, ap, ◌∙◌,
}
use jfsrec.Inode.{Ptr}
use jfsrec.Vector.{Heap, InodeVector, set_marked, unmark_all}
use jfsrec.Vector.Remove.{remove-Splits}
use jfsrec.Scanner.{
  Place, din, bo, forward, backward, num_consec, mark_extents, places, detect_ino_extents,
}

-- The inode at position `k + 1` follows the one at `k`, by number and on the device.
abbrev pub Follows : List Place → ℕ → Type 0
Follows xs k = (din xs (k + 1) ≡ din xs k + 1) × (bo xs (k + 1) ≡ bo xs k + 512)

abbrev pub IsRun : List Place → ℕ → ℕ → Type 0
IsRun xs low high = (k : ℕ) → low ≤ k → k < high → Follows xs k

forward_mono : (fuel : ℕ) (xs : List Place) (j num : ℕ) → num ≤ forward fuel xs j num
unfolding forward
forward_mono zero xs j num = omega arith
forward_mono (suc fuel) xs j num = ground (arith, forward_mono fuel xs (j + 1) (num + 1))

forward_run :
    (fuel : ℕ) (xs : List Place) (j high num : ℕ)
    → IsRun xs j high
    → j ≤ high
    → high < length xs
    → 32 < fuel + num
    → min 32 (num + (high - j) + 1) ≤ forward fuel xs j num
unfolding forward
forward_run zero xs j high num run le inside enough = omega arith
forward_run (suc fuel) xs j high num run le inside enough = elim (Bool-cases (ltb j high)) [
  | inr stop ↦ ground (arith, forward_mono fuel xs (j + 1) (num + 1))
  | inl less ↦
      ground
        (arith, run j, forward_run fuel xs (j + 1) high (num + 1) (λ k p q. run k (omega arith) q))
]

backward_mono : (fuel : ℕ) (xs : List Place) (j num : ℕ) → num ≤ backward fuel xs j num
unfolding backward
backward_mono zero xs j num = omega arith
backward_mono (suc fuel) xs zero num = omega arith
backward_mono (suc fuel) xs (suc j) num = ground (arith, backward_mono fuel xs j (num + 1))

run_step :
    (xs : List Place) (low j : ℕ)
    → IsRun xs low (suc j)
    → low ≤ j
    → (din xs (suc j) ≡ din xs j + 1) × (bo xs (suc j) ≡ bo xs j + 512)
run_step xs low j run le =
    let (number, place) = run j le (omega arith) in (rw add-one at number, rw add-one at place)

backward_run :
    (fuel : ℕ) (xs : List Place) (low j num : ℕ)
    → IsRun xs low j
    → low ≤ j
    → 32 < fuel + num
    → min 32 (num + (j - max low 1) + 1) ≤ backward fuel xs j num
unfolding backward
backward_run zero xs low j num run le enough = omega arith
backward_run (suc fuel) xs low zero num run le enough = omega arith
backward_run (suc fuel) xs low (suc j) num run le enough = elim (Bool-cases (leb low j)) [
  | inr stop ↦ ground (arith, backward_mono fuel xs j (num + 1))
  | inl more ↦
      let (number, place) = run_step xs low j run (ground arith) in
      ground (
        arith,
        number,
        place,
        backward_run fuel xs low j (num + 1) (λ k p q. run k p (omega arith)),
      )
]

-- In a run of 32 inodes with consecutive numbers that stand one behind the other, every inode
-- counts at least 32 consecutive ones, also where the run begins at position 0, which the second
-- loop never looks at.
pub num_consec-extent :
    (xs : List Place) (low i : ℕ)
    → IsRun xs low (low + 31)
    → low + 31 < length xs
    → low ≤ i
    → i ≤ low + 31
    → 32 ≤ num_consec xs i
unfolding num_consec
num_consec-extent xs low i run inside ge le =
    let f =
      forward_run 33 xs i (low + 31) 0 (λ k p q. run k (omega arith) q) le inside (omega arith) in
    let b =
      backward_run 33 xs low i (forward 33 xs i 0) (λ k p q. run k p (omega arith)) ge
        (omega arith) in
    omega (arith, f, b)

mark_extents_mono :
    (xs : List Place) (h : Heap) (i : ℕ) (ps : List Ptr) (q : Ptr)
    → (h q).is_marked ≡ true
    → (mark_extents xs h i ps q).is_marked ≡ true
unfolding mark_extents set_marked
mark_extents_mono xs h i [] q e = e
mark_extents_mono xs h i (p ∷ ps) q e =
    mark_extents_mono xs (if leb 32 (num_consec xs i) then set_marked true h p else h) (i + 1) ps q
      (ground arith)

here :
    (xs : List Place) (h : Heap) (i : ℕ) (p q : Ptr)
    → some p ≡ some q
    → 32 ≤ num_consec xs (i + 0)
    → ((if leb 32 (num_consec xs i) then set_marked true h p else h) q).is_marked ≡ true
unfolding set_marked
here xs h i p q e n = let n' : 32 ≤ num_consec xs i = rw add-zero at n in ground arith

mark_extents_at :
    (xs : List Place) (h : Heap) (i k : ℕ) (ps : List Ptr) (q : Ptr)
    → get_elem? ps k ≡ some q
    → 32 ≤ num_consec xs (i + k)
    → (mark_extents xs h i ps q).is_marked ≡ true
unfolding mark_extents
mark_extents_at xs h i k [] q e n = cc
mark_extents_at xs h i zero (p ∷ ps) q e n =
    mark_extents_mono xs _ (i + 1) ps q (here xs h i p q e n)
mark_extents_at xs h i (suc k) (p ∷ ps) q e n =
    let moved : i + suc k ≡ i + 1 + k = omega arith in
    mark_extents_at xs (if leb 32 (num_consec xs i) then set_marked true h p else h) (i + 1) k ps q
      e (subst (λ j. 32 ≤ num_consec xs j) moved n)

has_of_get_elem? : (q : Ptr) (ps : List Ptr) (k : ℕ) → get_elem? ps k ≡ some q → has q ps ≡ true
has_of_get_elem? q [] k e = cc
has_of_get_elem? q (p ∷ ps) zero e = ground arith
has_of_get_elem? q (p ∷ ps) (suc k) e = ground (arith, has_of_get_elem? q ps k)

-- The inodes of a run of 32, consecutive by number and on the device, all stay in the vector.
pub detect_ino_extents-keeps :
    (h : Heap) (v : InodeVector) (low i : ℕ) (p : Ptr)
    → IsRun (places h v.inodes) low (low + 31)
    → low + 31 < length (places h v.inodes)
    → low ≤ i
    → i ≤ low + 31
    → get_elem? v.inodes i ≡ some p
    → has p (detect_ino_extents h v).1.inodes ≡ true
unfolding detect_ino_extents
detect_ino_extents-keeps h v low i p run inside ge le at =
    let xs = places h v.inodes in
    let h2 = mark_extents xs (unmark_all h v) 0 v.inodes in
    let marked =
      mark_extents_at xs (unmark_all h v) 0 i v.inodes p at
        (rw zero-add (num_consec-extent xs low i run inside ge le)) in
    ap (has p) (remove-Splits h2 v).1.0
    ∙ has-select p (λ q. not (not (h2 q).is_marked)) v.inodes
    ∙ rw (marked, has_of_get_elem? p v.inodes i at)
