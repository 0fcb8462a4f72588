-- ===== src/Examples/Trees.antt =====
-- The theorems on src/recoverer.cpp and the walks of src/inode.cpp, at examples.
use jfsrec.Prelude.{
  ℕ, zero, suc, ◌*◌, ◌≤◌, ◌≡◌, refl, true, false, Bool, Option, some, none, List, [], ◌∷◌, ◌++◌,
  if◌then◌else◌, has, count, arith, ◌==◌,
}
use jfsrec.Inode.{Ptr, Name, Kind, time_lt}
use jfsrec.Vector.{Heap, InodeVector}
use jfsrec.Recoverer.{get_full_path, pick_newest}
use jfsrec.Recoverer.Roots.{IsClosed}
use jfsrec.Recoverer.Unique.{find_roots, find_roots-returns, HasRoot}
use jfsrec.Recoverer.Paths.{IsCyclic, IsRanked, HasPath, get_full_path-HasPath}
use jfsrec.Recoverer.Run.{recover_dirtree, recover_iterative}
use jfsrec.Recoverer.Effects.{Effect, In, directories_created, file_recovered, carried_out_each}
use jfsrec.Recoverer.Effects.Prepared.{carried_out_each-prepared, carried_out_each-cyclic}
use jfsrec.Recoverer.Newest.{pick_newest-oldest, otime}
use jfsrec.Recoverer.Names.{is_illegal, rename_illegal, rename_illegal-legal}
use jfsrec.Examples.{object, dinode, heap, vector}

-- 1 and 2 are each other's parents, and 3 is below 1; 0 has no parent.
abbrev up : Ptr → Option Ptr
up (suc zero) = some 2
up (suc (suc zero)) = some 1
up (suc (suc (suc zero))) = some 1
up p = none

abbrev cyclic : Heap
cyclic p = object p (512 * p) (up p) (dinode 7 p 1 p)

abbrev objects : List Ptr
objects = 3 ∷ 2 ∷ 1 ∷ []

abbrev cyclic_vector : InodeVector
cyclic_vector = record {
  inodes = 3 ∷ 1 ∷ [];
  invalidated_inodes = [];
  di_number_index = [];
  di_number_index_ok = false;
}

objects-IsClosed : IsClosed cyclic objects
objects-IsClosed zero q h e = cc
objects-IsClosed (suc zero) q h e = ground arith
objects-IsClosed (suc (suc zero)) q h e = ground arith
objects-IsClosed (suc (suc (suc zero))) q h e = ground arith
objects-IsClosed (suc (suc (suc (suc p)))) q h e = cc

within : (q : Ptr) → has q cyclic_vector.inodes ≡ true → has q objects ≡ true
within q h = ground arith

find_roots-returns_example :
    (rs : List Ptr) × (find_roots 4 cyclic cyclic_vector ≡ some rs)
    × (count 2 rs ≤ 1)
    × HasRoot cyclic rs 3
find_roots-returns_example =
    find_roots-returns 4 cyclic objects cyclic_vector 2 3 objects-IsClosed within (omega arith) refl

abbrev on_cycle : Ptr → Bool
on_cycle (suc zero) = true
on_cycle (suc (suc zero)) = true
on_cycle p = false

cyclic-IsCyclic : IsCyclic cyclic on_cycle
cyclic-IsCyclic zero e = cc
cyclic-IsCyclic (suc zero) e = (2, refl, refl, omega arith)
cyclic-IsCyclic (suc (suc zero)) e = (1, refl, refl, omega arith)
cyclic-IsCyclic (suc (suc (suc p))) e = cc

-- The same objects, all of them directories.
abbrev looped : Heap
looped p = record (cyclic p) { kind = Kind.dir }

carried_out_each-cyclic_example :
    (carried_out_each 1000 looped (recover_dirtree (3 ∷ 1 ∷ [])) ≡ none)
    × (carried_out_each 1000 looped (recover_dirtree (3 ∷ 1 ∷ []) ++ recover_iterative (3 ∷ 1 ∷ []))
        ≡ none)
carried_out_each-cyclic_example =
    carried_out_each-cyclic looped on_cycle 1000 (3 ∷ 1 ∷ []) 1 cyclic-IsCyclic refl refl refl

-- Every object is below the one before it.
abbrev previous : Ptr → Option Ptr
previous zero = none
previous (suc p) = some p

abbrev line : Heap
line p = object p (512 * p) (previous p) (dinode 7 p 1 p)

line-IsRanked : IsRanked line (λ p. p)
line-IsRanked zero q e n = cc
line-IsRanked (suc p) q e n = ground arith

get_full_path-HasPath_example :
    (names : List Name) × (get_full_path 4 line 3 ≡ some names) × HasPath line 3 names
get_full_path-HasPath_example = get_full_path-HasPath line (λ p. p) 4 3 line-IsRanked (omega arith)

-- Directories up to the file 3.
abbrev nested : Heap
nested p = record (line p) { kind = if p == 3 then Kind.file else Kind.dir }

nested-IsRanked : IsRanked nested (λ p. p)
nested-IsRanked zero q e n = cc
nested-IsRanked (suc p) q e n = ground arith

carried_out_each-prepared_example :
    (made : List Effect) × (done : List Effect) × (path : List Name) × (carried_out_each 4 nested
        (recover_dirtree (3 ∷ 2 ∷ []))
      ≡ some made)
    × (carried_out_each 4 nested (recover_dirtree (3 ∷ 2 ∷ []) ++ recover_iterative (3 ∷ 2 ∷ []))
        ≡ some (made ++ done))
    × HasPath nested 2 path
    × In (directories_created path) made
    × In (file_recovered 3 (path ++ (nested 3).name ∷ [])) done
carried_out_each-prepared_example =
    carried_out_each-prepared nested (λ p. p) 4 (3 ∷ 2 ∷ []) 3 2 nested-IsRanked
      (omega arith, (omega arith, tt)) refl refl refl (omega arith) refl refl

picked : pick_newest heap (3 ∷ 1 ∷ 2 ∷ []) ≡ some 1
unfolding pick_newest time_lt
picked = refl

pick_newest-oldest_example :
    (has 1 (3 ∷ 1 ∷ 2 ∷ []) ≡ true) × (time_lt (otime heap 2) (otime heap 1) ≡ false)
pick_newest-oldest_example = pick_newest-oldest heap (3 ∷ 1 ∷ 2 ∷ []) 1 2 picked refl

-- A print that stands for the one of the library.
abbrev print : ℕ → Name
print n = 0x30 ∷ []

print_legal : (n : ℕ) → is_illegal (print n) ≡ false
unfolding is_illegal
print_legal n = refl

rename_illegal-legal_example : is_illegal ((rename_illegal print heap vector).0 6).name ≡ false
rename_illegal-legal_example = rename_illegal-legal print print_legal heap vector 6 refl
