-- ===== src/Recoverer.antt =====
-- src/recoverer.cpp, with `get_root`, `get_full_path` and `set_parent` of src/inode.cpp and
-- src/dirinode.cpp: parents, roots, paths and the order of recovery.
pub mod Roots
pub mod Paths
pub mod Newest
pub mod Queue
pub mod Unique
pub mod Names
pub mod Growth
pub mod Parents
pub mod Children
pub mod Run
pub mod Effects
use jfsrec.Prelude.{
  ℕ, zero, suc, ◌+◌, Bool, true, false, not, ◌&&◌, Option, none, some, List, [], ◌∷◌, ◌++◌, has,
  ◌==◌, if◌then◌else◌, length, get_elem?,
}
use mathlib.Core.Option
use jfsrec.Disk.{Timestruc}
use jfsrec.Inode.{Ptr, Name, Inode, Kind, file, dir, time_lt}
use jfsrec.Vector.{Heap, InodeVector, add_inode, get_by_di_number, get_invalidated_by_di_number}

abbrev write : Heap → Ptr → Inode → Heap
write h p i q = if q == p then i else h q

unfoldable pub is_dir : Heap → Ptr → Bool
is_dir h p = elim (h p).kind [ dir ↦ true | _ ↦ false ]

unfoldable pub is_file : Heap → Ptr → Bool
is_file h p = elim (h p).kind [ file ↦ true | _ ↦ false ]

-- `set_parent` of the object `p`: a directory also enters itself among the siblings of its parent,
-- when that is a directory.
unfoldable pub set_parent : Heap → Ptr → Ptr → Heap
unfolding is_dir
set_parent h p i =
    let h' = write h p (record (h p) { parent = some i }) in
    if is_dir h p && is_dir h i
    then write h' i (record (h' i) { siblings = (h' i).siblings ++ p ∷ [] })
    else h'

unfoldable pub set_name : Heap → Ptr → Name → Heap
set_name h p n = write h p (record (h p) { name = n })

-- The loop of `get_root`, with fuel: `r`, and the objects `p` passed so far.
unfoldable pub root_from : ℕ → Heap → List Ptr → Ptr → Option Ptr
root_from zero h p r = none
root_from (suc fuel) h p r = elim (h r).parent [
  | none ↦ some r
  | some q ↦ let more = root_from fuel h (q ∷ p) q in if has q p then some r else more
]

unfoldable pub get_root : ℕ → Heap → Ptr → Option Ptr
unfolding root_from
get_root fuel h r = root_from fuel h (r ∷ []) r

-- `get_full_path` as the list of its components behind the output directory, with fuel for the
-- depth of the calls. Names that boost refuses are not modelled.
unfoldable pub get_full_path : ℕ → Heap → Ptr → Option (List Name)
get_full_path zero h p = none
get_full_path (suc fuel) h p = elim (h p).parent [
  | none ↦ some ((h p).name ∷ [])
  | some q ↦
      let above = get_full_path fuel h q in
      if q == p
      then some ((h p).name ∷ [])
      else Option.map (λ names. names ++ (h p).name ∷ []) above
]

-- The loop that picks one of the invalidated inodes with a number: `newest` is the time of the one
-- picked so far.
unfoldable pub pick_from : Heap → Ptr → Timestruc → List Ptr → Ptr
unfolding time_lt
pick_from h picked newest [] = picked
pick_from h picked newest (p ∷ ps) =
    let t = (h p).dinode.di_otime in
    pick_from h (if time_lt t newest then p else picked) (if time_lt t newest then t else newest) ps

unfoldable pub pick_newest : Heap → List Ptr → Option Ptr
unfolding pick_from
pick_newest h [] = none
pick_newest h (p ∷ ps) = some (pick_from h p (h p).dinode.di_otime ps)

-- The parent that is validated again, if there is one.
unfoldable pub adopt_parent : Heap → InodeVector → Ptr → Option Ptr → Heap × InodeVector
adopt_parent h v c none = (h, v)
adopt_parent h v c (some p) = (set_parent h c p, add_inode h v p)

-- What follows the look-up of the parent's number.
unfoldable pub take_parent : Heap → InodeVector → Ptr → Option Ptr → Heap × InodeVector
unfolding is_file adopt_parent pick_newest get_invalidated_by_di_number
take_parent h v c none =
    adopt_parent h v c (pick_newest h (get_invalidated_by_di_number h v (h c).parent_di_number))
take_parent h v c (some p) = (if is_file h p then h else set_parent h c p, v)

-- One round of `find_directory_parents`, for the inode `c`.
unfoldable pub find_directory_parent : Heap → InodeVector → Ptr → Heap × InodeVector
unfolding is_dir take_parent get_by_di_number
find_directory_parent h v c =
    if not (is_dir h c)
    then (h, v)
    else let (v', found) = get_by_di_number h v (h c).parent_di_number in take_parent h v' c found

-- `for (i = 0; i < inovec_.size(); ++i)` over a vector that may grow while the loop runs. `none`: the
-- fuel ran out, or a step did not end.
unfoldable pub loop_growing :
    ℕ
    → (Heap → InodeVector → Ptr → Option (Heap × InodeVector))
    → ℕ
    → Heap
    → InodeVector
    → Option (Heap × InodeVector)
loop_growing zero step i h v = none
loop_growing (suc fuel) step i h v = elim (get_elem? v.inodes i) [
  | none ↦ some (h, v)
  | some c ↦ elim (step h v c) [
    | none ↦ none
    | some (h', v') ↦ loop_growing fuel step (i + 1) h' v'
  ]
]

unfoldable pub find_directory_parents : ℕ → Heap → InodeVector → Option (Heap × InodeVector)
unfolding loop_growing find_directory_parent
find_directory_parents fuel h v =
    loop_growing fuel (λ h' v' c. some (find_directory_parent h' v' c)) 0 h v

-- What `generate_prio_queue` asks the options: whether an option is given, and what its regex finds
-- in a path.
pub record Filters : Type 0 where
  pub exclude_speced : Bool
  pub first_speced : Bool
  pub last_speced : Bool
  pub exclude : List Name → Bool
  pub first : List Name → Bool
  pub last : List Name → Bool

-- A test of the loop: only if the option is given, the path of the object is made and searched.
-- `none`: `get_full_path` does not return.
unfoldable pub tested : ℕ → Heap → Bool → (List Name → Bool) → Ptr → Option Bool
unfolding get_full_path
tested fuel h false search p = some false
tested fuel h true search p = Option.map search (get_full_path fuel h p)

pub data Place : Type 0 where
  left_out in_first in_normal in_last : Place

-- A round of the loop, which both branches on `get_exclude_speced` share.
unfoldable pub place_of : ℕ → Heap → Filters → Ptr → Option Place
unfolding tested
place_of fuel h f p = elim (tested fuel h f.exclude_speced f.exclude p) [
  | none ↦ none
  | some true ↦ some left_out
  | some false ↦ elim (tested fuel h f.first_speced f.first p) [
    | none ↦ none
    | some true ↦ some in_first
    | some false ↦ elim (tested fuel h f.last_speced f.last p) [
      | none ↦ none
      | some true ↦ some in_last
      | some false ↦ some in_normal
    ]
  ]
]

-- The queues first, normal and last.
abbrev pub Queues : Type 0
Queues = List Ptr × List Ptr × List Ptr

abbrev pub put : Place → Ptr → Queues → Queues
put left_out p (first, normal, last) = (first, normal, last)
put in_first p (first, normal, last) = (p ∷ first, normal, last)
put in_normal p (first, normal, last) = (first, p ∷ normal, last)
put in_last p (first, normal, last) = (first, normal, p ∷ last)

unfoldable pub classify : ℕ → Heap → Filters → List Ptr → Option Queues
unfolding place_of
classify fuel h f [] = some ([], [], [])
classify fuel h f (p ∷ ps) = elim (place_of fuel h f p) [
  | none ↦ none
  | some place ↦ Option.map (put place p) (classify fuel h f ps)
]

abbrev pub one_behind_other : Queues → List Ptr
one_behind_other (first, normal, last) = (first ++ normal) ++ last

unfoldable pub generate_prio_queue : ℕ → Heap → Filters → InodeVector → Option (List Ptr)
unfolding classify
generate_prio_queue fuel h f v = Option.map one_behind_other (classify fuel h f v.inodes)
