-- ===== src/Main/Fit.antt =====
-- src/jfsrec.cpp: what stands on a device, for the recovery: the inodes that a scan finds, how they
-- read back, and directories whose names end.
use mathlib.Core.Path.{fun_ext}
use jfsrec.Prelude.{
  ℕ, zero, suc, Bool-cases, inl, inr, ◌+◌, ◌-◌, ◌*◌, ◌/◌, ◌^◌, ◌<◌, ◌≤◌, ◌≡◌, refl, sym, ap, ◌∙◌,
  Option, none, some, List, count, length, All, All-map, ltb, arith,
}
use jfsrec.Device.{Device, Stat, Stream, ok, get_size_bytes}
use jfsrec.Device.Reads.{ReadsDisk, IsReadable, read_bytes-ReadsDisk, IsOpened, IsBlocksize}
use jfsrec.Disk.{Image, first_bytes}
use jfsrec.Inode.{Inode, Kind, new_inode, create_if_sane, read_from_disk}
use jfsrec.Inode.Factory.{create_if_sane-parent, read_from_disk-create}
use jfsrec.Scanner.{do_scan, scan_chunk, chunk_blocks, keep, slot, Reader}
use jfsrec.Scanner.Sweep.Complete.{AllSane, AllSane-scan_chunk, do_scan-scan_chunk}
use jfsrec.Scanner.Sweep.Found.{IsFound, scan_chunk-IsFound}
use jfsrec.Scanner.Phases.Ready.{IsOrphan, Keeps}
use jfsrec.DirInode.{Access}
use jfsrec.DirInode.Listing.{IsListable}

-- What the recovery needs of the objects of the scan.
abbrev pub IsFit : Access → Inode → Type 0
IsFit a i = IsOrphan i × IsListable a i

pub file-IsFit : (a : Access) (img : Image) → IsFit a (new_inode Kind.file img 0)
unfolding new_inode
file-IsFit a img = (refl, λ e. cc)

pub IsFit-Keeps : (a : Access) → Keeps (IsFit a)
IsFit-Keeps a i j parent kind offset (orphan, listable) =
    (parent ∙ orphan, λ e. rw offset (listable (sym kind ∙ e)))

-- The names of all directories of the disk end.
abbrev pub IsReadableTree : Access → Image → ℕ → Type 0
IsReadableTree a disk n = (i : Inode) → IsFound disk n i → IsListable a i

pub IsFound-IsFit :
    (a : Access) (disk : Image) (n : ℕ) (i : Inode)
    → IsReadableTree a disk n
    → IsFound disk n i
    → IsFit a i
IsFound-IsFit a disk n i tree (k, lt, place, e) =
    (create_if_sane-parent (slot disk k) (k * 512) i e, tree i (k, lt, place, e))

pub AllSane-IsFound :
    (disk : Image) (n : ℕ) (is : List Inode) → AllSane disk n 0 is → All (IsFound disk n) is
AllSane-IsFound disk n is all =
    let e = AllSane-scan_chunk disk n 0 is all in
    let found = scan_chunk-IsFound disk n 0 n (omega arith) in rw e at found

pub All-IsFit :
    (a : Access) (disk : Image) (n : ℕ) (is : List Inode)
    → IsReadableTree a disk n
    → All (IsFound disk n) is
    → All (IsFit a) is
All-IsFit a disk n is tree all =
    All-map (IsFound disk n) (IsFit a) is (λ i found. IsFound-IsFit a disk n i tree found) all

keep-length : (o : Option Inode) (rest : List Inode) → length (keep o rest) ≤ suc (length rest)
keep-length none rest = omega arith
keep-length (some i) rest = omega arith

pub scan_chunk-length :
    (chunk : Image) (i count from : ℕ) → length (scan_chunk chunk i count from) ≤ count
unfolding scan_chunk
scan_chunk-length chunk i zero from = omega arith
scan_chunk-length chunk i (suc count) from = omega (
  arith,
  keep-length (create_if_sane (slot chunk from) (i + from * 512))
      (scan_chunk chunk i count (from + 1)),
  scan_chunk-length chunk i count (from + 1),
)

first_bytes-slot :
    (img disk : Image) (k : ℕ)
    → ((i : ℕ) → i < 512 → img i ≡ disk (k * 512 + i))
    → first_bytes 512 img ≡ slot disk k
unfolding first_bytes slot
first_bytes-slot img disk k same = fun_ext λ i. elim (Bool-cases (ltb i 512)) [
  | inl inside ↦ rw inside (same i (ground arith))
  | inr outside ↦ rw outside refl
]

-- What was found on the disk reads back.
pub IsFound-ReadsBack :
    (f : Stream) (d : Device) (disk stale : Image) (i : Inode)
    → IsReadable f disk d.fssize
    → IsFound disk (d.fssize / 512) i
    → read_from_disk f d stale i.byte_offset ≡ ok (some i)
IsFound-ReadsBack f d disk stale i readable (k, lt, place, e) =
    let (img, r, same) =
      read_bytes-ReadsDisk f d disk readable (k * 512) 512 stale (omega arith)
        (omega (arith, lt)) in
    ap (read_from_disk f d stale) place
    ∙ read_from_disk-create f d stale img (k * 512) i
        (ap (λ b. create_if_sane b (k * 512)) (first_bytes-slot img disk k same) ∙ e) r

pub blocksize-fits : (b : ℕ) → IsBlocksize b → (0 < b) × (b ≤ 4096)
blocksize-fits b blocks = (ground arith, ground arith)

-- A scan from a multiple of 512 bytes on, of a device that was opened.
pub scan-finds :
    (read : Reader) (disk : Image) (st : Stat) (d : Device) (blocksize fuel b : ℕ) (chunk : Image)
    → ReadsDisk read disk d.fssize
    → IsOpened blocksize st d
    → IsBlocksize blocksize
    → chunk_blocks * d.blocksize ≤ d.fssize
    → d.fssize < 2 ^ 63
    → b * 512 < d.fssize
    → d.fssize < fuel
    → do_scan fuel read (get_size_bytes st) d.blocksize chunk (b * 512)
      ≡ some (ok (scan_chunk disk 0 (d.fssize / 512 - b) b))
scan-finds read disk st d blocksize fuel b chunk faithful op blocks room fits inside enough =
    let (pos, le) = blocksize-fits blocksize blocks in
    rw (sym op.sized) (
      do_scan-scan_chunk read disk d.fssize d.blocksize b fuel chunk faithful
        (omega (arith, op.block, pos)) (omega (arith, op.block, le)) room fits inside enough)
