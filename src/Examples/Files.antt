-- ===== src/Examples/Files.antt =====
-- The theorems on the dinodes in memory of src/inode.cpp, on src/fileinode.cpp,
-- the names of src/dirinode.cpp and on src/options.cpp, at examples.
use jfsrec.Prelude.{
  ℕ, zero, suc, ◌+◌, ◌*◌, ◌^◌, ◌<◌, ◌≡◌, ◌≢◌, refl, true, false, none, some, inl, inr, List, [],
  ◌∷◌, All, has, ◌%◌, replicate, take, drop, ◌==◌, if◌then◌else◌, arith, Bool-cases,
}
use jfsrec.Device.Reads.{read_bytes-ReadsDisk}
use jfsrec.Device.{Device, read_bytes, ok, invalid_read, beyond_file_system}
use jfsrec.Disk.{Xad, xad_at, Image, shifted, first_bytes, u16, u24, u32}
use jfsrec.Disk.Extent.{length_xad, address_xad}
use jfsrec.Inode.Cache.{Memory, Call, get, free, run, destroy, get_dinode, free_dinodes}
use jfsrec.Inode.Cache.Cells.{IsAllocator, IsOwned, IsLost}
use jfsrec.Inode.Cache.Owners.{run-IsOwned, run-leaks, get_dinode-IsOwned}
use jfsrec.Inode.Cache.Freed.{free_dinodes-returns}
use jfsrec.Utf8.Text.{IsUnit16, encoding}
use jfsrec.DirInode.{get_direntry}
use jfsrec.DirInode.Names.{Spells, Stored, get_direntry-Stored}
use jfsrec.FileInode.{Reader, save_file, num_entries, get_leaf_xads}
use jfsrec.FileInode.Tree.{IsTree}
use jfsrec.FileInode.Sane.{xads_sane}
use jfsrec.FileInode.Restored.{content, IsCopied, save_file-restores}
use jfsrec.FileInode.Recover.{Recovered, recover, recover-settles}
use jfsrec.Options.{Given, Options}
use jfsrec.Examples.Streams.{stream_of, stream_of-IsReadable, read_bytes-stream_of}
use jfsrec.Examples.{zeros, dinode}

-- The address behind the sum of the live ones.
abbrev behind : List ℕ → ℕ
behind [] = 1
behind (a ∷ live) = a + behind live

behind-positive : (live : List ℕ) → 0 < behind live
behind-positive [] = omega arith
behind-positive (a ∷ live) = omega (arith, behind-positive live)

has-behind : (a : ℕ) (live : List ℕ) → has a live ≡ true → a < behind live
has-behind a [] e = cc
has-behind a (b ∷ live) e = ground (arith, has-behind a live, behind-positive live)

behind-IsAllocator : IsAllocator behind
behind-IsAllocator live = elim (Bool-cases (has (behind live) live)) [
  | inl there ↦ absurd (omega (arith, has-behind (behind live) live there))
  | inr new ↦ new
]

-- Nothing is available, and 5 is allocated for something else.
abbrev memory : Memory
memory = record { cells = λ p. record { dinode_available = false; dinode = none }; live = 5 ∷ [] }

memory-IsOwned : IsOwned memory
memory-IsOwned = record { set = λ p e. cc; alive = λ p a e. cc; apart = λ p q a e f. cc }

abbrev calls : List Call
calls =
    get 1 (invalid_read beyond_file_system)
    ∷ free 1
    ∷ get 1 (ok zeros)
    ∷ get 2 (ok zeros)
    ∷ get 1 (ok zeros)
    ∷ free 1
    ∷ free 1
    ∷ []

run-IsOwned_example :
    (m' m'' : Memory) × (run behind calls memory ≡ some m') × IsOwned m' × (destroy 2 m' ≡ some m'')
run-IsOwned_example = run-IsOwned behind calls memory 2 behind-IsAllocator memory-IsOwned

run-leaks_example :
    (m' : Memory) × (run behind (get 1 (invalid_read beyond_file_system) ∷ calls) memory ≡ some m')
    × IsLost 6 m'
run-leaks_example =
    run-leaks behind calls 1 beyond_file_system memory behind-IsAllocator memory-IsOwned refl

-- The dinodes of 1 and 3 have been read.
abbrev loaded : Memory
loaded = get_dinode behind 3 (ok zeros) (get_dinode behind 1 (ok zeros) memory)

loaded-IsOwned : IsOwned loaded
loaded-IsOwned =
    get_dinode-IsOwned behind 3 (ok zeros) (get_dinode behind 1 (ok zeros) memory)
      behind-IsAllocator
      (get_dinode-IsOwned behind 1 (ok zeros) memory behind-IsAllocator memory-IsOwned)

free_dinodes-returns_example :
    (m' : Memory) × (free_dinodes (3 ∷ 2 ∷ 1 ∷ 3 ∷ []) loaded ≡ some m')
    × IsOwned m'
    × ((m'.cells 1).dinode_available ≡ false)
free_dinodes-returns_example =
    free_dinodes-returns (3 ∷ 2 ∷ 1 ∷ 3 ∷ []) loaded 1 loaded-IsOwned refl

-- A disk with a page in its block 9, a leaf with two extents: three blocks from 7 on, and behind a
-- hole of two blocks two from 20 on.
abbrev disk : Image
disk i =
    if i == 36864 + 16
    then 2
    else if i == 36864 + 18
    then 4
    else if i == 36864 + 40
    then 3
    else if i == 36864 + 44
    then 7
    else if i == 36864 + 52
    then 5
    else if i == 36864 + 56
    then 2
    else if i == 36864 + 60
    then 20
    else 0

abbrev device : Device
device = record { blocksize = 4096; log2blocksize = 12; fssize = 2 ^ 17 }

abbrev reader : Reader
reader = read_bytes (stream_of disk) device

-- A root that names this page.
abbrev root : Image
root i = if i == 18 then 3 else if i == 44 then 9 else 0

abbrev extents : List Xad
extents =
    record { flag = 0; off1 = 0; off2 = 0; len = 3; addr1 = 0; addr2 = 7 }
    ∷ record { flag = 0; off1 = 0; off2 = 5; len = 2; addr1 = 0; addr2 = 20 }
    ∷ []

root-IsTree : IsTree 1 reader 4096 zeros root extents
unfolding get_leaf_xads num_entries xad_at u16 u24 u32 address_xad first_bytes
root-IsTree = inr (
  refl,
  (
    extents,
    [],
    (
      first_bytes 4096 (shifted disk 36864),
      read_bytes-stream_of disk device 36864 4096 (omega arith) (omega arith),
      (λ e. ground (arith, e), refl),
    ),
    refl,
    refl,
  ),
)

extents-sane : xads_sane 4096 28672 extents ≡ some true
unfolding xads_sane
extents-sane = refl

extents-IsCopied : All (IsCopied 1 4096 (2 ^ 17)) extents
unfolding length_xad address_xad
extents-IsCopied = (
  record { on_device = omega arith; narrow = omega arith; short = omega arith },
  (record { on_device = omega arith; narrow = omega arith; short = omega arith }, tt),
)

some_entry : num_entries root ≢ 0
unfolding num_entries
some_entry e = ground (arith, e)

save_file-restores_example :
    (file : Image) × (save_file 1 2 reader 4096 zeros zeros 28672 root ≡ some (ok (file, 28672)))
    × ((i : ℕ) → file i ≡ content disk 4096 extents (λ k. 0) i)
save_file-restores_example =
    save_file-restores 1 1 reader disk (2 ^ 17) 4096 28672 zeros zeros root extents
      (read_bytes-ReadsDisk (stream_of disk) device disk (stream_of-IsReadable disk (2 ^ 17)))
      some_entry root-IsTree extents-IsCopied extents-sane

abbrev given : Given ℕ ℕ
given = record {
  help = false;
  output = some 1;
  logdir = some 2;
  device = some 3;
  blocksize = none;
  first = none;
  last = some 8;
  exclude = none;
  skip_unsane_extents = true;
}

abbrev options : Options ℕ ℕ
options = record {
  blocksize = 4096;
  device = 3;
  output_dir = 1;
  progress_dir = 2;
  first = none;
  last = some 8;
  exclude = none;
  skip_unsane_xads = true;
}

-- Nothing was saved yet.
abbrev untouched : Recovered
untouched = record { saved = 0; skipped = 0; output = none }

-- A save that fails at time 99 for a file that was created at 10.
recover-settles_example :
    recover 100 0
      (dinode 7 1 1 10)
      (ok (zeros, 0))
      (recover 99 1024 (dinode 7 1 1 10) (invalid_read beyond_file_system) untouched)
    ≡ record (recover 99 1024 (dinode 7 1 1 10) (invalid_read beyond_file_system) untouched) {
      skipped =
          (recover 99 1024 (dinode 7 1 1 10) (invalid_read beyond_file_system) untouched).skipped
          + 1;
    }
recover-settles_example =
    recover-settles 99 1024 100 0 (dinode 7 1 1 10) (invalid_read beyond_file_system)
      (ok (zeros, 0)) untouched (omega arith)

-- An entry in slot 1, whose name goes on in slot 2: thirteen times the letter a.
abbrev page : Image
page i =
    if i == 36
    then 2
    else if i == 37
    then 13
    else if i == 64
    then 255
    else if i % 2 == 0
    then 0x61
    else 0

abbrev letters : List ℕ
letters = replicate 13 0x61

letters-IsUnit16 : (n : ℕ) → All IsUnit16 (replicate n 0x61)
letters-IsUnit16 zero = tt
letters-IsUnit16 (suc n) = ((omega arith, omega arith), letters-IsUnit16 n)

head-Spells : Spells (λ i. u16 (shifted page (32 * 1)) (6 + 2 * i)) 0 (take 11 letters)
unfolding u16
head-Spells =
    (refl, (refl, (refl, (refl, (refl, (refl, (refl, (refl, (refl, (refl, (refl, tt)))))))))))

tail-Stored : Stored page [] (2 ∷ []) 2 (drop 11 letters)
unfolding u16
tail-Stored = (refl, omega arith, refl, (refl, (refl, tt)), (omega arith, refl))

get_direntry-Stored_example :
    get_direntry 129 [] page 1
    ≡ some (record { name = encoding letters; di_number = u32 (shifted page (32 * 1)) 0 })
get_direntry-Stored_example =
    get_direntry-Stored 129 [] page 1 letters (2 ∷ []) (letters-IsUnit16 13) (omega arith)
      (omega arith) refl head-Spells tail-Stored
