-- ===== src/Scanner.antt =====
-- src/inodescanner.h and src/inodescanner.cpp: the sweep over the device and the phases behind it.
-- What is printed and the progress displays are left out; `free_dinode` changes no value.
pub mod Sweep
pub mod Stamps
pub mod Extents
pub mod Unallocated
pub mod Stages
pub mod Phases
pub mod Postprocess
use jfsrec.Prelude.{
  ℕ, zero, suc, ◌+◌, ◌-◌, ◌*◌, ◌/◌, ◌%◌, ◌^◌, Bool, true, false, not, ◌&&◌, Option, none, some,
  List, [], ◌∷◌, ◌++◌, map, ltb, leb, ◌==◌, if◌then◌else◌, length, get_or,
}
use jfsrec.Prelude.Map.{lookup, insert}
use jfsrec.Device.{Read, ok, invalid_read}
use jfsrec.Disk.{Image}
use jfsrec.Inode.{Ptr, Inode, create_if_sane}
use jfsrec.Vector.{
  Heap, InodeVector, set_marked, set_marked_each, unmark_all, remove_marked, remove_unmarked,
}

abbrev pub inode_size : ℕ
inode_size = 512

abbrev pub chunk_blocks : ℕ
chunk_blocks = 2 ^ 15

-- The 512 bytes at `&chunk[curr_ino * inode_size_]`.
unfoldable pub slot : Image → ℕ → Image
slot chunk curr_ino i = if ltb i inode_size then chunk (curr_ino * inode_size + i) else 0

-- `if (inode != NULL)`
abbrev pub keep : Option Inode → List Inode → List Inode
keep none rest = rest
keep (some inode) rest = inode ∷ rest

-- The loop over the inodes of a chunk: `count` rounds from `curr_ino` on. The objects found are
-- added to the vector, and their offsets go to the progress file.
unfoldable pub scan_chunk : Image → ℕ → ℕ → ℕ → List Inode
scan_chunk chunk i zero curr_ino = []
scan_chunk chunk i (suc count) curr_ino =
    keep (create_if_sane (slot chunk curr_ino) (i + curr_ino * inode_size))
      (scan_chunk chunk i count (curr_ino + 1))

-- The device as the scanner reads it: `read_bytes` over the buffer that the last read left.
abbrev pub Reader : Type 0
Reader = ℕ → ℕ → Image → Read Image

abbrev prepend : List Inode → Read (List Inode) → Read (List Inode)
prepend found (ok more) = ok (found ++ more)
prepend found (invalid_read why) = invalid_read why

-- The loop of `do_scan` from position `i`, and the partial chunk behind it, with fuel. Positions
-- are of 64 bits, counts of 32. `some (invalid_read _)` is `exit(1)`.
unfoldable pub scan_from : ℕ → Reader → ℕ → ℕ → Image → ℕ → Option (Read (List Inode))
unfolding scan_chunk
scan_from zero read devsize chunk_bytes chunk i = none
scan_from (suc fuel) read devsize chunk_bytes chunk i =
    elim (ltb i ((devsize + 2 ^ 64 - chunk_bytes) % 2 ^ 64)) [
      | true ↦ elim (read i (chunk_bytes % 2 ^ 32) chunk) [
        | invalid_read why ↦ some (invalid_read why)
        | ok chunk' ↦
            elim (scan_from fuel read devsize chunk_bytes chunk' ((i + chunk_bytes) % 2 ^ 64)) [
              | none ↦ none
              | some more ↦ some (prepend (scan_chunk chunk' i (chunk_bytes / inode_size) 0) more)
            ]
      ]
      | false ↦
          let bytes_left = (devsize + 2 ^ 64 - i) % 2 ^ 64 in
          elim (read i (bytes_left % 2 ^ 32) chunk) [
            | invalid_read why ↦ some (invalid_read why)
            | ok chunk' ↦ some (ok (scan_chunk chunk' i (bytes_left / 2 ^ 9) 0))
          ]
    ]

unfoldable pub do_scan : ℕ → Reader → ℕ → ℕ → Image → ℕ → Option (Read (List Inode))
unfolding scan_from
do_scan fuel read devsize blocksize chunk start =
    scan_from fuel read devsize (chunk_blocks * blocksize) chunk start

-- `++inostamps[di_inostamp]` for every inode; the counters are of 32 bits.
abbrev or_zero : Option ℕ → ℕ
or_zero none = 0
or_zero (some n) = n

unfoldable pub count_stamps : Heap → List (ℕ × ℕ) → List Ptr → List (ℕ × ℕ)
unfolding lookup insert
count_stamps h m [] = m
count_stamps h m (p ∷ ps) =
    let s = (h p).dinode.di_inostamp in
    count_stamps h (insert s ((or_zero (lookup s m) + 1) % 2 ^ 32) m) ps

pub record Common : Type 0 where
  pub ismn : ℕ
  pub issmn : ℕ
  -- the stamp that `ismi` points at
  pub stamp : ℕ

-- The loop over the map, in the order of its keys.
unfoldable pub most_common : Common → List (ℕ × ℕ) → Common
most_common c [] = c
most_common c ((s, n) ∷ m) =
    most_common (if ltb c.ismn n then record { ismn = n; issmn = c.ismn; stamp = s } else c) m

-- `inostamps.begin()`, where there is one.
abbrev first_key : List (ℕ × ℕ) → ℕ
first_key [] = 0
first_key ((s, n) ∷ m) = s

unfoldable pub mark_other_stamps : ℕ → Heap → List Ptr → Heap
unfolding set_marked
mark_other_stamps s h [] = h
mark_other_stamps s h (p ∷ ps) =
    mark_other_stamps s (if (h p).dinode.di_inostamp == s then h else set_marked true h p) ps

unfoldable pub filter_inostamps : Heap → InodeVector → Heap × InodeVector
unfolding count_stamps most_common mark_other_stamps set_marked_each unmark_all remove_marked
filter_inostamps h v =
    let m = count_stamps h [] v.inodes in
    let c = most_common (record { ismn = 0; issmn = 0; stamp = first_key m }) m in
    if ltb c.issmn (c.ismn / 100)
    then (let h1 = unmark_all h v in
        let h2 = mark_other_stamps c.stamp h1 v.inodes in (h2, remove_marked h2 v))
    else (h, v)

-- `remove_unallocated`: the loop, and the removal.
unfoldable pub mark_unallocated : Heap → List Ptr → Heap
unfolding set_marked
mark_unallocated h [] = h
mark_unallocated h (p ∷ ps) = mark_unallocated (set_marked ((h p).dinode.di_nlink == 0) h p) ps

unfoldable pub remove_unallocated : Heap → InodeVector → Heap × InodeVector
unfolding mark_unallocated remove_marked
remove_unallocated h v = let h' = mark_unallocated h v.inodes in (h', remove_marked h' v)

-- What `detect_ino_extents` looks at: the number and the place of the inode at a position.
abbrev pub Place : Type 0
Place = ℕ × ℕ

abbrev pub din : List Place → ℕ → ℕ
din xs j = (get_or xs j (0, 0)).0

abbrev pub bo : List Place → ℕ → ℕ
bo xs j = (get_or xs j (0, 0)).1

-- The two do-while loops. Each round adds one to `num_consec`, and none is made from 32 on but the
-- first of the second loop, so 33 rounds are enough fuel.
unfoldable pub forward : ℕ → List Place → ℕ → ℕ → ℕ
forward zero xs j num = num
forward (suc fuel) xs j num =
    let num' = num + 1 in
    let more = forward fuel xs (j + 1) num' in
    if ltb (j + 1) (length xs)
      && ((din xs (j + 1) == din xs j + 1) && ((bo xs (j + 1) == bo xs j + 512) && ltb num' 32))
    then more
    else num'

unfoldable pub backward : ℕ → List Place → ℕ → ℕ → ℕ
backward zero xs j num = num
backward (suc fuel) xs zero num = num + 1
backward (suc fuel) xs (suc j) num =
    let num' = num + 1 in
    let more = backward fuel xs j num' in
    if ltb 0 j
      && ((din xs j + 1 == din xs (suc j)) && ((bo xs j + 512 == bo xs (suc j)) && ltb num' 32))
    then more
    else num'

unfoldable pub num_consec : List Place → ℕ → ℕ
unfolding forward backward
num_consec xs i = backward 33 xs i (forward 33 xs i 0)

-- The main loop: the objects at the positions from `i` on.
unfoldable pub mark_extents : List Place → Heap → ℕ → List Ptr → Heap
unfolding num_consec set_marked
mark_extents xs h i [] = h
mark_extents xs h i (p ∷ ps) =
    mark_extents xs (if leb 32 (num_consec xs i) then set_marked true h p else h) (i + 1) ps

abbrev pub places : Heap → List Ptr → List Place
places h ps = map (λ p. ((h p).dinode.di_number, (h p).byte_offset)) ps

unfoldable pub detect_ino_extents : Heap → InodeVector → Heap × InodeVector
unfolding mark_extents set_marked_each unmark_all remove_unmarked
detect_ino_extents h v =
    let h1 = unmark_all h v in
    let h2 = mark_extents (places h v.inodes) h1 0 v.inodes in (h2, remove_unmarked h2 v)
