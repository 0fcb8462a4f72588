-- ===== src/FileInode/Sane.antt =====
-- src/fileinode.cpp: `xads_sane`, the test of a set of extents, and what it promises.
use jfsrec.Prelude.{
  ℕ, ◌+◌, ◌%◌, ◌^◌, ◌≤◌, ◌≡◌, Bool, true, false, ◌||◌, Option, none, some, List, [], ◌∷◌, All,
  length, ltb, if◌then◌else◌, arith,
}
use jfsrec.Disk.{Xad}
use jfsrec.Disk.Extent.{address_xad, offset_xad, length_xad}
use jfsrec.FileInode.{extent_bytes}

-- The loop over the addresses: none where they go down, or else the size of all extents.
unfoldable pub linear_from : ℕ → ℕ → ℕ → List Xad → Option ℕ
unfolding address_xad extent_bytes
linear_from blocksize prev_xad_addr filesize [] = some filesize
linear_from blocksize prev_xad_addr filesize (x ∷ xs) =
    let rest =
      linear_from blocksize (address_xad x) ((filesize + extent_bytes blocksize x) % 2 ^ 64) xs in
    if ltb (address_xad x) prev_xad_addr then none else rest

-- The inner loop over the extents behind `x`.
unfoldable pub overlaps : Xad → List Xad → Bool
unfolding offset_xad length_xad
overlaps x [] = false
overlaps x (y ∷ ys) = ltb (offset_xad y) (offset_xad x + length_xad x) || overlaps x ys

unfoldable pub any_overlap : List Xad → Bool
unfolding overlaps
any_overlap [] = false
any_overlap (x ∷ xs) = overlaps x xs || any_overlap xs

-- Without extents the code reads the first one all the same, and from 2^16 on its counters of 16 bits
-- do not reach the end: there is no answer then.
unfoldable pub xads_sane : ℕ → ℕ → List Xad → Option Bool
unfolding linear_from any_overlap
xads_sane blocksize di_size [] = none
xads_sane blocksize di_size (x ∷ xs) =
    if ltb (2 ^ 16) (length (x ∷ xs) + 1)
    then none
    else elim (linear_from blocksize (address_xad x) (extent_bytes blocksize x) xs) [
      | none ↦ some false
      | some filesize ↦ some (
          if ltb ((di_size + blocksize) % 2 ^ 64) filesize
          then false
          else if any_overlap (x ∷ xs)
          then false
          else true)
    ]

-- Every extent ends at or before those behind it begin, in blocks of the file.
abbrev pub Apart : List Xad → Type 0
Apart [] = Unit
Apart (x ∷ xs) = All (λ y. offset_xad x + length_xad x ≤ offset_xad y) xs × Apart xs

overlaps-All :
    (x : Xad) (ys : List Xad)
    → overlaps x ys ≡ false
    → All (λ y. offset_xad x + length_xad x ≤ offset_xad y) ys
unfolding overlaps
overlaps-All x [] e = tt
overlaps-All x (y ∷ ys) e = (ground arith, overlaps-All x ys (ground arith))

any_overlap-Apart : (xs : List Xad) → any_overlap xs ≡ false → Apart xs
unfolding any_overlap
any_overlap-Apart [] e = tt
any_overlap-Apart (x ∷ xs) e =
    (overlaps-All x xs (ground arith), any_overlap-Apart xs (ground arith))

pub xads_sane-Apart :
    (blocksize di_size : ℕ) (xs : List Xad) → xads_sane blocksize di_size xs ≡ some true → Apart xs
unfolding xads_sane
xads_sane-Apart blocksize di_size [] e = tt
xads_sane-Apart blocksize di_size (x ∷ xs) e = any_overlap-Apart (x ∷ xs) (ground (arith, e))
