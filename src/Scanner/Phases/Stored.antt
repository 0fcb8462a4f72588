-- ===== src/Scanner/Phases/Stored.antt =====
-- src/inodescanner.cpp, src/inodevector.cpp: the inodes that `restore` and `load_from_positions` make
-- of the offsets of inodes.
use jfsrec.Prelude.{
  ℕ, ◌+◌, ◌%◌, ◌^◌, ◌<◌, ◌≤◌, ◌≡◌, refl, Option, none, some, List, [], ◌∷◌, map, length, All, arith,
}
use jfsrec.Device.{Read, ok}
use jfsrec.Inode.{Inode}
use jfsrec.Vector.{stream_values, last_or, read_each, load_from_positions}
use jfsrec.Scanner.Stages.{restore}
use jfsrec.Scanner.Sweep.Found.{last_of}
use jfsrec.Scanner.Phases.{all_there}

abbrev pub offsets : List Inode → List ℕ
offsets is = map (λ i. i.byte_offset) is

-- A list with its last inode once more.
abbrev pub repeat_last : List Inode → List Inode
repeat_last [] = []
repeat_last (i ∷ []) = i ∷ i ∷ []
repeat_last (i ∷ j ∷ is) = i ∷ repeat_last (j ∷ is)

pub length-repeat_last :
    (i : Inode) (is : List Inode) → length (repeat_last (i ∷ is)) ≡ length is + 2
length-repeat_last i [] = refl
length-repeat_last i (j ∷ is) = omega (arith, length-repeat_last j is)

pub length-repeat_last_le : (is : List Inode) → length (repeat_last is) ≤ length is + 1
length-repeat_last_le [] = omega arith
length-repeat_last_le (i ∷ is) = omega (arith, length-repeat_last i is)

pub All-repeat_last : (P : Inode → Type 0) (is : List Inode) → All P is → All P (repeat_last is)
All-repeat_last P [] all = tt
All-repeat_last P (i ∷ []) all = (all.0, all)
All-repeat_last P (i ∷ j ∷ is) all = (all.0, All-repeat_last P (j ∷ is) all.1)

pub all_there-some : (is : List Inode) → all_there (map (λ i. some i) is) ≡ some is
all_there-some [] = refl
all_there-some (i ∷ is) = rw (all_there-some is) refl

last_or-offsets :
    (junk : ℕ) (i : Inode) (is : List Inode)
    → last_or junk (offsets (i ∷ is)) ≡ (last_of i is).byte_offset
unfolding last_or
last_or-offsets junk i [] = refl
last_or-offsets junk i (j ∷ is) = last_or-offsets i.byte_offset j is

-- What invalidated.txt holds: it is only written for at least one inode.
abbrev pub file_of : List Inode → Option (List ℕ)
file_of [] = none
file_of (i ∷ is) = some (offsets (i ∷ is))

module _ (fetch : ℕ → Read (Option Inode)) where
  abbrev pub ReadsBack : Inode → Type 0
  ReadsBack i = fetch i.byte_offset ≡ ok (some i)

  read_each-repeat_last :
      (junk : ℕ) (i : Inode) (is : List Inode)
      → All ReadsBack (i ∷ is)
      → read_each fetch (stream_values junk (offsets (i ∷ is)))
        ≡ ok (map (λ j. some j) (repeat_last (i ∷ is)))
  unfolding read_each stream_values
  read_each-repeat_last junk i [] all = rw (all.0)
  read_each-repeat_last junk i (j ∷ is) all =
      rw (all.0, read_each-repeat_last i.byte_offset j is all.1)

  pub restore-repeat_last :
      (junk : ℕ) (i : Inode) (is : List Inode)
      → All ReadsBack (i ∷ is)
      → (last_of i is).byte_offset + 512 < 2 ^ 64
      → restore fetch junk (some (offsets (i ∷ is)))
        ≡ ok (map (λ j. some j) (repeat_last (i ∷ is)), (last_of i is).byte_offset + 512)
  unfolding restore
  restore-repeat_last junk i is all fits =
      let behind : ((last_of i is).byte_offset + 512) % 2 ^ 64 ≡ (last_of i is).byte_offset + 512 =
        omega arith in
      rw (read_each-repeat_last junk i is all, last_or-offsets junk i is, behind)

  pub load-repeat_last :
      (junk : ℕ) (i : Inode) (is out : List Inode)
      → All ReadsBack (i ∷ is)
      → All ReadsBack out
      → load_from_positions fetch junk (offsets (i ∷ is)) (file_of out)
        ≡ ok (map (λ j. some j) (repeat_last (i ∷ is)), map (λ j. some j) (repeat_last out))
  unfolding load_from_positions
  load-repeat_last junk i is [] all all' = rw (read_each-repeat_last junk i is all)
  load-repeat_last junk i is (j ∷ out) all all' = rw (
    read_each-repeat_last junk i is all,
    read_each-repeat_last (last_or junk (offsets (i ∷ is))) j out all',
  )
