-- ===== src/Scanner/Phases.antt =====
-- src/inodescanner.cpp: the phases of `scan` carried out, over the objects, the vector and the files
-- of the progress directory.
pub mod Resumed
pub mod Refused
pub mod Stored
pub mod Ready
use jfsrec.Prelude.{
  ℕ, zero, suc, ◌+◌, Bool, true, false, Option, none, some, List, [], ◌∷◌, ◌++◌, map, get_or,
  length, if◌then◌else◌,
}
use jfsrec.Device.{Read, ok, invalid_read}
use jfsrec.Disk.{Image}
use jfsrec.Inode.{Ptr, Inode, Kind, new_inode}
use jfsrec.Vector.{Heap, InodeVector, add_inode, remove_dupes, save_positions, load_from_positions}
use jfsrec.Scanner.{Reader, do_scan, filter_inostamps, detect_ino_extents, remove_unallocated}
use jfsrec.Scanner.Stages.{Saved, Phase, scan, restore}

-- The objects that `new` makes for the inodes found: the pointers are their positions. Elsewhere
-- stands an object made of the bytes of `stale`, which nothing points at.
unfoldable pub allocate : Image → List Inode → Heap
unfolding new_inode
allocate stale found p = get_or found p (new_inode Kind.file stale 0)

unfoldable pub addresses : ℕ → ℕ → List Ptr
addresses from zero = []
addresses from (suc n) = from ∷ addresses (from + 1) n

-- The container before the sweep; no constructor sets the flag.
unfoldable pub new_vector : Bool → InodeVector
new_vector flag = record {
  inodes = [];
  invalidated_inodes = [];
  di_number_index = [];
  di_number_index_ok = flag;
}

unfoldable pub add_each : Heap → InodeVector → List Ptr → InodeVector
add_each h v [] = v
add_each h v (p ∷ ps) = add_each h (add_inode h v p) ps

-- The files of the progress directory, by their lines; inoscan.txt has the inodes that the sweep
-- found.
pub record Progress : Type 0 where
  pub positions : Saved → Option (List ℕ)
  pub invalidated : Option (List ℕ)
  pub inoscan : Option (List ℕ)

abbrev pub is_found : Option (List ℕ) → Bool
is_found none = false
is_found (some bos) = true

pub record ScanState : Type 0 where
  pub objects : Heap
  pub vector : InodeVector
  pub files : Progress

-- `exits` is `exit(1)`; `aborts` is an exception that nothing catches, or a null object, which the
-- phases behind use without a test.
pub data Performed : Type 0 where
  exits aborts out_of_fuel : Performed
  returned : ScanState → Performed

-- The objects of a list without null.
abbrev pub all_there : List (Option Inode) → Option (List Inode)
all_there [] = some []
all_there (none ∷ is) = none
all_there (some i ∷ is) = elim (all_there is) [ none ↦ none | some js ↦ some (i ∷ js) ]

abbrev same_saved : Saved → Saved → Bool
same_saved Saved.post_scan Saved.post_scan = true
same_saved Saved.post_extentscan Saved.post_extentscan = true
same_saved Saved.post_remove_unallocated Saved.post_remove_unallocated = true
same_saved Saved.post_remove_dupes Saved.post_remove_dupes = true
same_saved s t = false

-- invalidated.txt stays as it was where nothing is written.
abbrev written : Option (List ℕ) → Option (List ℕ) → Option (List ℕ)
written none old = old
written (some bos) old = some bos

abbrev pub lines : Option (List ℕ) → List ℕ
lines none = []
lines (some bos) = bos

-- What is behind the interfaces: the device, `read_from_disk`, the value of an uninitialised `bo`,
-- and what the chunk and the flag of the index held.
pub record Source : Type 0 where
  pub read : Reader
  pub fetch : ℕ → Read (Option Inode)
  pub devsize : ℕ
  pub blocksize : ℕ
  pub junk : ℕ
  pub chunk : Image
  pub flag : Bool

-- The vector behind a sweep that found these inodes, the restored ones before the others.
unfoldable pub swept : Source → List Inode → Progress → ScanState
unfolding allocate addresses new_vector add_each
swept s found files =
    let h = allocate s.chunk found in
    record {
      objects = h;
      vector = add_each h (new_vector s.flag) (addresses 0 (length found));
      files = files;
    }

-- The vector behind `load_from_positions`.
unfoldable pub reloaded : Source → List Inode → List Inode → Progress → ScanState
unfolding allocate addresses
reloaded s is out files = record {
  objects = allocate s.chunk (is ++ out);
  vector = record {
    inodes = addresses 0 (length is);
    invalidated_inodes = addresses (length is) (length out);
    di_number_index = [];
    di_number_index_ok = false;
  };
  files = files;
}

-- `do_scan` behind `restore`.
unfoldable pub sweep : ℕ → Source → Progress → Read (List (Option Inode) × ℕ) → Performed
unfolding do_scan swept
sweep fuel s files (invalid_read why) = exits
sweep fuel s files (ok (restored, start)) =
    elim (do_scan fuel s.read s.devsize s.blocksize s.chunk start) [
      | none ↦ out_of_fuel
      | some (invalid_read why) ↦ exits
      | some (ok found) ↦ elim (all_there restored) [
        | none ↦ aborts
        | some is ↦ returned (
            swept s (is ++ found) (record files {
              inoscan = some (lines files.inoscan ++ map (λ i. i.byte_offset) found);
            }))
      ]
    ]

unfoldable pub load :
    Source → Progress → Read (List (Option Inode) × List (Option Inode)) → Performed
unfolding reloaded
load s files (invalid_read why) = aborts
load s files (ok (is, out)) = elim (all_there is) [
  | none ↦ aborts
  | some js ↦ elim (all_there out) [ none ↦ aborts | some os ↦ returned (reloaded s js os files) ]
]

-- A phase on the objects and the vector alone.
abbrev on_vector : (Heap → InodeVector → Heap × InodeVector) → ScanState → Performed
on_vector phase st =
    let (h, v) = phase st.objects st.vector in
    returned (record { objects = h; vector = v; files = st.files })

-- `load_from_positions` stands only behind a file that could be opened.
unfoldable pub perform : ℕ → Source → Phase → ScanState → Performed
unfolding restore sweep load_from_positions load save_positions filter_inostamps detect_ino_extents
    remove_unallocated remove_dupes
perform fuel s (Phase.load_from_positions t) st =
    load s st.files
      (load_from_positions s.fetch s.junk (lines (st.files.positions t)) st.files.invalidated)
perform fuel s (Phase.save_positions t) st =
    let (positions, out) = save_positions st.objects st.vector in
    returned (record st {
      files = record st.files {
        positions = λ u. if same_saved t u then some positions else st.files.positions u;
        invalidated = written out st.files.invalidated;
      };
    })
perform fuel s Phase.do_scan st = sweep fuel s st.files (restore s.fetch s.junk st.files.inoscan)
perform fuel s Phase.filter_inostamps st = on_vector filter_inostamps st
perform fuel s Phase.detect_ino_extents st = on_vector detect_ino_extents st
perform fuel s Phase.remove_unallocated st = on_vector remove_unallocated st
perform fuel s Phase.remove_dupes st = on_vector remove_dupes st

unfoldable pub perform_each : ℕ → Source → List Phase → ScanState → Performed
unfolding perform
perform_each fuel s [] st = returned st
perform_each fuel s (phase ∷ phases) st = elim (perform fuel s phase st) [
  | exits ↦ exits
  | aborts ↦ aborts
  | out_of_fuel ↦ out_of_fuel
  | returned st' ↦ perform_each fuel s phases st'
]

-- `InodeScanner::scan` on a new vector, with the files of an earlier run.
unfoldable pub run_scan : ℕ → Source → Progress → Performed
unfolding scan perform_each swept
run_scan fuel s files =
    perform_each fuel s (scan (λ t. is_found (files.positions t))) (swept s [] files)
