-- ===== src/Vector.antt =====
-- src/inodevector.h and src/inodevector.cpp: the container of inodes, with its index by inode
-- number. The objects live in a heap; the container holds pointers, none of them null. What the
-- operations print, and the progress displays, are left out.
pub mod Marks
pub mod Index
pub mod Lookup
pub mod Same
pub mod Remove
pub mod Dupes
pub mod Positions
use jfsrec.Prelude.{
  ℕ, zero, suc, ◌+◌, Bool, true, false, not, ◌||◌, Option, none, some, List, [], ◌∷◌, ◌++◌, map,
  ◌==◌, if◌then◌else◌, length, get_elem?,
}
use jfsrec.Prelude.Map.{lookup, insert}
use jfsrec.Device.{Read, ok, ◌>>=◌}
use jfsrec.Inode.{Ptr, Inode, InodeCounter, time_lt}
use jfsrec.Inode

abbrev pub Heap : Type 0
Heap = Ptr → Inode

pub record InodeVector : Type 0 where
  pub inodes : List Ptr
  pub invalidated_inodes : List Ptr
  pub di_number_index : List (ℕ × Ptr)
  pub di_number_index_ok : Bool

-- `mark` and `unmark` of one object.
unfoldable pub set_marked : Bool → Heap → Ptr → Heap
set_marked b h p q = if q == p then record (h q) { is_marked = b } else h q

unfoldable pub set_marked_each : Bool → Heap → List Ptr → Heap
unfolding set_marked
set_marked_each b h [] = h
set_marked_each b h (p ∷ ps) = set_marked_each b (set_marked b h p) ps

unfoldable pub mark_all : Heap → InodeVector → Heap
unfolding set_marked_each
mark_all h v = set_marked_each true h v.inodes

unfoldable pub unmark_all : Heap → InodeVector → Heap
unfolding set_marked_each
unmark_all h v = set_marked_each false h v.inodes

-- One round of the loop that builds the index: of two inodes with one number, the later allocated.
unfoldable pub index_step : Heap → List (ℕ × Ptr) → Ptr → List (ℕ × Ptr)
unfolding lookup insert time_lt
index_step h m p = elim (lookup (h p).di_number m) [
  | none ↦ insert (h p).di_number p m
  | some q ↦
      if time_lt (h q).dinode.di_otime (h p).dinode.di_otime then insert (h p).di_number p m else m
]

unfoldable pub index_from : Heap → List (ℕ × Ptr) → List Ptr → List (ℕ × Ptr)
unfolding index_step
index_from h m [] = m
index_from h m (p ∷ ps) = index_from h (index_step h m p) ps

unfoldable pub generate_di_number_index : Heap → InodeVector → InodeVector
unfolding index_from
generate_di_number_index h v = record v {
  di_number_index = index_from h [] v.inodes;
  di_number_index_ok = true;
}

-- `none` is NULL.
unfoldable pub get_by_di_number : Heap → InodeVector → ℕ → InodeVector × Option Ptr
unfolding generate_di_number_index
get_by_di_number h v di =
    let v' = if v.di_number_index_ok then v else generate_di_number_index h v in
    (v', lookup di v'.di_number_index)

-- `inodes_[i]`; beyond the end it is undefined.
unfoldable pub get_by_number : InodeVector → ℕ → Option Ptr
get_by_number v i = get_elem? v.inodes i

unfoldable pub invalidated_from : Heap → List Ptr → ℕ → List Ptr
invalidated_from h [] di = []
invalidated_from h (p ∷ ps) di =
    if (h p).di_number == di then p ∷ invalidated_from h ps di else invalidated_from h ps di

unfoldable pub get_invalidated_by_di_number : Heap → InodeVector → ℕ → List Ptr
unfolding invalidated_from
get_invalidated_by_di_number h v di = invalidated_from h v.invalidated_inodes di

unfoldable pub add_inode : Heap → InodeVector → Ptr → InodeVector
add_inode h v p =
    if not v.di_number_index_ok
    then record v { inodes = v.inodes ++ p ∷ [] }
    else elim (lookup (h p).di_number v.di_number_index) [
      | none ↦ record v {
        di_number_index = insert (h p).di_number p v.di_number_index;
        inodes = v.inodes ++ p ∷ [];
        di_number_index_ok = true;
      }
      | some _ ↦ record v { inodes = v.inodes ++ p ∷ []; di_number_index_ok = false }
    ]

-- The loop that moves the objects of a test to the invalidated ones and leaves NULL behind.
unfoldable pub null_out : (Ptr → Bool) → List Ptr → List (Option Ptr) × List Ptr
null_out test [] = ([], [])
null_out test (p ∷ ps) =
    let (left, out) = null_out test ps in
    if test p then (none ∷ left, p ∷ out) else (some p ∷ left, out)

-- `erase(remove(…, NULL), …)`
unfoldable pub erase_null : List (Option Ptr) → List Ptr
erase_null [] = []
erase_null (none ∷ ps) = erase_null ps
erase_null (some p ∷ ps) = p ∷ erase_null ps

unfoldable pub remove_where : (Ptr → Bool) → InodeVector → InodeVector
unfolding null_out erase_null
remove_where test v =
    let (left, out) = null_out test v.inodes in
    record v {
      invalidated_inodes = v.invalidated_inodes ++ out;
      inodes = erase_null left;
      di_number_index_ok = false;
    }

unfoldable pub remove_marked : Heap → InodeVector → InodeVector
unfolding remove_where
remove_marked h v = remove_where (λ p. (h p).is_marked) v

unfoldable pub remove_unmarked : Heap → InodeVector → InodeVector
unfolding remove_where
remove_unmarked h v = remove_where (λ p. not (h p).is_marked) v

unfoldable pub values : List (ℕ × Ptr) → List Ptr
values [] = []
values ((k, p) ∷ m) = p ∷ values m

unfoldable pub remove_dupes : Heap → InodeVector → Heap × InodeVector
unfolding set_marked_each generate_di_number_index values remove_unmarked
remove_dupes h v =
    let h1 = set_marked_each false h v.inodes in
    let v1 = generate_di_number_index h1 v in
    let h2 = set_marked_each true h1 (values v1.di_number_index) in (h2, remove_unmarked h2 v1)

-- The loop of `print_stats` and `print_stats_compact`.
unfoldable pub count_from : Heap → List Ptr → InodeCounter → InodeCounter
unfolding Inode.count
count_from h [] ic = ic
count_from h (p ∷ ps) ic = count_from h ps (Inode.count (h p).kind ic)

unfoldable pub print_stats : Heap → InodeVector → InodeCounter
unfolding count_from
print_stats h v =
    count_from h v.inodes
      (record { num_unall = 0; num_files = 0; num_dirs = 0; num_symlinks = 0; num_specials = 0 })

-- The lines that `save_positions` writes: to the file given, and to invalidated.txt, which is not
-- written when nothing was invalidated.
unfoldable pub save_positions : Heap → InodeVector → List ℕ × Option (List ℕ)
save_positions h v = (
  map (λ p. (h p).byte_offset) v.inodes,
  if length v.invalidated_inodes == 0
      then none
      else some (map (λ p. (h p).byte_offset) v.invalidated_inodes),
)

-- `while (!f.eof()) { f >> bo; … }` over a file with a number to a line: the values that `bo` has
-- when it is used. Behind the last line the extraction fails and leaves `bo` as it was.
unfoldable pub stream_values : ℕ → List ℕ → List ℕ
stream_values bo [] = bo ∷ []
stream_values bo (x ∷ xs) = x ∷ stream_values x xs

unfoldable pub last_or : ℕ → List ℕ → ℕ
last_or bo [] = bo
last_or bo (x ∷ xs) = last_or x xs

unfoldable pub read_each : (ℕ → Read (Option Inode)) → List ℕ → Read (List (Option Inode))
read_each fetch [] = ok []
read_each fetch (bo ∷ bos) = do i ← fetch bo; is ← read_each fetch bos; ok (i ∷ is)

-- `load_from_positions`: the objects put in the two lists, null ones included. `fetch` is
-- `read_from_disk`, `junk` the value of the uninitialised `bo`; where invalidated.txt cannot be
-- opened the end-of-file mark of the first file is still set.
unfoldable pub load_from_positions :
    (ℕ → Read (Option Inode))
    → ℕ
    → List ℕ
    → Option (List ℕ)
    → Read (List (Option Inode) × List (Option Inode))
unfolding stream_values last_or read_each
load_from_positions fetch junk positions none = do
  inodes ← read_each fetch (stream_values junk positions)
  ok (inodes, [])
load_from_positions fetch junk positions (some invalidated) = do
  inodes ← read_each fetch (stream_values junk positions)
  out ← read_each fetch (stream_values (last_or junk positions) invalidated)
  ok (inodes, out)
