-- ===== src/Examples/Runs.antt =====
-- The theorems on the loops of src/recoverer.cpp at examples, and the options of the runs of
-- src/jfsrec.cpp.
use jfsrec.Prelude.{
  ℕ, ◌+◌, ◌*◌, ◌^◌, ◌≡◌, refl, true, false, none, some, List, [], ◌∷◌, ◌%◌, ◌≢◌, ◌<◌, Bool, inl,
  inr, has, if◌then◌else◌, All, ◌==◌, arith, Option,
}
use Prim.Native.Nat.{bit_and}
use jfsrec.Device.{Device, regular_file, open_device, read_bytes}
use jfsrec.Disk.{Image, shifted, first_bytes}
use jfsrec.Inode.{Ptr, Name, Kind}
use jfsrec.Vector.{Heap, InodeVector}
use jfsrec.Vector.Lookup.{IsValid}
use jfsrec.DirInode.{Access}
use jfsrec.Recoverer.{Filters, find_directory_parents}
use jfsrec.Recoverer.Names.{find_file_parents_and_names}
use jfsrec.Recoverer.Growth.{Grown}
use jfsrec.Recoverer.Parents.{Parents, NumberedParent, known, find_directory_parents-returns}
use jfsrec.Recoverer.Children.{KnownParent, AllListable, find_file_parents_and_names-returns}
use jfsrec.Options.{Given, Options, init}
use jfsrec.Examples.Streams.{stream_of, read_bytes-stream_of}
use jfsrec.Examples.{zeros, heap}

-- Directories that all give 2 as the number of their parent, which 7 has.
abbrev folders : Heap
folders p = record {
  kind = Kind.dir;
  byte_offset = 512 * p;
  parent = none;
  name = 0x61 ∷ [];
  parent_di_number = 2;
  di_number = (heap p).di_number;
  is_marked = false;
  siblings = [];
  dinode = (heap p).dinode;
}

-- 7 was invalidated.
abbrev lost : InodeVector
lost = record {
  inodes = 1 ∷ 3 ∷ [];
  invalidated_inodes = 7 ∷ [];
  di_number_index = [];
  di_number_index_ok = false;
}

lost-IsValid : IsValid folders lost
lost-IsValid = record { indexed = λ e. cc; sorted = tt }

find_directory_parents-returns_example :
    (h' : Heap) × (v' : InodeVector) × (find_directory_parents 4 folders lost ≡ some (h', v'))
    × Grown folders lost h' v'
    × Parents (NumberedParent folders (known lost)) h'
find_directory_parents-returns_example =
    find_directory_parents-returns 4 folders lost lost-IsValid (λ c. tt) (omega arith)

-- A disk whose every 512 bytes hold a directory with one entry, in its root, for number 2.
abbrev field : ℕ → ℕ
field n =
    if n == 53
    then 0x40
    else if n == 240
    then 2
    else if n == 241
    then 1
    else if n == 248
    then 1
    else if n == 256
    then 2
    else if n == 260
    then 255
    else if n == 261
    then 1
    else if n == 262
    then 0x62
    else 0

abbrev directories : Image
directories i = field (i % 512)

abbrev disk_of_directories : Device
disk_of_directories = record { blocksize = 512; log2blocksize = 9; fssize = 8192 }

abbrev entrance : Access
entrance = record {
  read = read_bytes (stream_of directories) disk_of_directories;
  log2blocksize = 9;
  blocks = 16;
  heap = [];
  stale = zeros;
  depth = 1;
  chain = 1;
}

-- The flag of the root.
flag : (o : ℕ) → bit_and (first_bytes 512 (shifted directories (512 * o)) (224 + 16)) 2 ≢ 0
unfolding first_bytes
flag o e =
    let place : (512 * o + (224 + 16)) % 512 ≡ 240 = omega arith in
    let here = rw place at e in ground (arith, here)

small : (p : Ptr) → has p (known lost) ≡ true → p < 8
small p m = ground (arith, m)

folders-AllListable : AllListable (known lost) entrance folders
folders-AllListable p m e =
    let low = small p m in
    inr (
      first_bytes 512 (shifted directories (512 * p)),
      read_bytes-stream_of directories disk_of_directories (512 * p) 512 (omega (arith, low))
          (omega arith),
      inr (inl (flag p)),
    )

abbrev pub digit : ℕ → Name
digit n = 0x30 ∷ []

find_file_parents_and_names-returns_example :
    (h' : Heap) × (v' : InodeVector) × (find_file_parents_and_names 4 entrance digit folders lost
      ≡ some (h', v'))
    × Grown folders lost h' v'
    × Parents (KnownParent (known lost)) h'
find_file_parents_and_names-returns_example =
    find_file_parents_and_names-returns 4 entrance digit folders lost lost-IsValid (λ c. tt)
      folders-AllListable (omega arith)

-- Objects of files in the vector, with an option that excludes by the length of the path.
abbrev files : InodeVector
files = record {
  inodes = 1 ∷ 3 ∷ [];
  invalidated_inodes = [];
  di_number_index = [];
  di_number_index_ok = false;
}

abbrev single : List Name → Bool
single [] = false
single (n ∷ []) = true
single (n ∷ m ∷ ns) = false

abbrev some_filters : Filters
some_filters = record {
  exclude_speced = true;
  first_speced = true;
  last_speced = false;
  exclude = single;
  first = λ path. true;
  last = λ path. false;
}

abbrev indexed : InodeVector
indexed = record files { di_number_index = (1, 1) ∷ (3, 3) ∷ []; di_number_index_ok = true }

abbrev result : Option (Heap × InodeVector) → Heap × InodeVector
result none = (heap, files)
result (some r) = r

low : (ps : List Ptr) → All (λ p. 0 < 5) ps
low [] = tt
low (p ∷ ps) = (omega arith, low ps)

abbrev pub given : Given ℕ ℕ
given = record {
  help = false;
  output = some 1;
  logdir = some 2;
  device = some 3;
  blocksize = some 512;
  first = none;
  last = none;
  exclude = none;
  skip_unsane_extents = false;
}

abbrev pub options : Options ℕ ℕ
options = record {
  blocksize = 512;
  device = 3;
  output_dir = 1;
  progress_dir = 2;
  first = none;
  last = none;
  exclude = none;
  skip_unsane_xads = false;
}

abbrev pub size : ℕ
size = 2 ^ 24 + 1024

abbrev pub opened_device : Device
opened_device = record { blocksize = 512; log2blocksize = 9; fssize = size }

pub starts : init given ≡ some options
unfolding init
starts = refl

pub opens : open_device true (some (regular_file size)) 512 ≡ some opened_device
unfolding open_device
opens = refl
