-- ===== src/Device/Reads.antt =====
-- src/device.cpp: what an opened device promises, and the outcomes of a read.
use jfsrec.Prelude.{
  ℕ, ◌+◌, ◌*◌, ◌^◌, ◌<◌, ◌≤◌, ◌≡◌, ◌⊎◌, ◌↔◌, ◌∙◌, refl, Bool, true, false, some, length, get_or,
  ltb, if◌then◌else◌, arith,
}
use jfsrec.Disk.{Image}
use jfsrec.Device.{
  Device, Stat, get_size_bytes, get_size_blocks, open_device, ok, invalid_read, Reason,
  beyond_file_system, unable_to_seek, zero_bytes, Stream, Read, read_bytes,
}

abbrev pub IsBlocksize : ℕ → Type 0
IsBlocksize b = (b ≡ 4096) ⊎ (b ≡ 2048) ⊎ (b ≡ 1024) ⊎ (b ≡ 512)

pub record IsOpened (blocksize : ℕ) (st : Stat) (d : Device) : Type 0 where
  pub block : d.blocksize ≡ blocksize
  pub power : 2 ^ d.log2blocksize ≡ d.blocksize
  pub sized : d.fssize ≡ get_size_bytes st
  pub whole : get_size_blocks d st * d.blocksize ≤ d.fssize

-- A device that opens has one of the four block sizes, the shift that goes with it, and a number
-- of whole blocks that its size holds.
pub open_device-IsOpened :
    (opens : Bool) (st : Stat) (blocksize : ℕ) {d : Device}
    → open_device opens (some st) blocksize ≡ some d
    → IsOpened blocksize st d × IsBlocksize blocksize
unfolding open_device get_size_blocks
open_device-IsOpened false st blocksize e = cc
open_device-IsOpened true st blocksize e = ground arith

-- A read within the size, of at least one byte, succeeds where the seek does: the bytes transferred
-- stand at the start of the buffer, and behind them, when the read is short, the buffer is as it was.
pub read_bytes-fills :
    (f : Stream) (d : Device) (disk_offset disk_count : ℕ) (buffer : Image)
    → disk_offset ≤ d.fssize
    → f.seek disk_offset ≡ true
    → 0 < disk_count
    → (image : Image) × (read_bytes f d disk_offset disk_count buffer ≡ ok image)
      × ((i : ℕ)
          → image i ≡ (
              if ltb i (length (f.fread disk_offset disk_count))
              then get_or (f.fread disk_offset disk_count) i 0
              else buffer i))
unfolding read_bytes
read_bytes-fills f d o n buffer within seeks some_bytes = (_, ground arith, λ i. refl)

-- A read is refused exactly for a position beyond the size, a failed seek, or a count of 0, in
-- this order.
pub read_bytes-refused :
    (f : Stream) (d : Device) (disk_offset disk_count : ℕ) (buffer : Image) (why : Reason)
    → (read_bytes f d disk_offset disk_count buffer ≡ invalid_read why) ↔ (
        ((d.fssize < disk_offset) × (why ≡ beyond_file_system))
        ⊎ ((disk_offset ≤ d.fssize) × (f.seek disk_offset ≡ false) × (why ≡ unable_to_seek))
        ⊎ ((disk_offset ≤ d.fssize)
            × (f.seek disk_offset ≡ true)
            × (disk_count ≡ 0)
            × (why ≡ zero_bytes)))
unfolding read_bytes
read_bytes-refused f d o n buffer why = ground arith

-- Within the size a read of at least one byte fills the buffer with the bytes of the disk.
abbrev pub ReadsDisk : (ℕ → ℕ → Image → Read Image) → Image → ℕ → Type 0
ReadsDisk read disk devsize =
    (o n : ℕ) (buffer : Image)
    → 0 < n
    → o + n ≤ devsize
    → (img : Image) × (read o n buffer ≡ ok img) × ((i : ℕ) → i < n → img i ≡ disk (o + i))

-- Documented behaviour of fseeko64 and fread on a readable file with the bytes of `disk`.
pub record IsReadable (f : Stream) (disk : Image) (size : ℕ) : Type 0 where
  pub seeks : (o : ℕ) → f.seek o ≡ true
  pub full : (o n : ℕ) → o + n ≤ size → length (f.fread o n) ≡ n
  pub bytes : (o n i : ℕ) → o + n ≤ size → i < n → get_or (f.fread o n) i 0 ≡ disk (o + i)

pub read_bytes-ReadsDisk :
    (f : Stream) (d : Device) (disk : Image)
    → IsReadable f disk d.fssize
    → ReadsDisk (read_bytes f d) disk d.fssize
read_bytes-ReadsDisk f d disk r o n buffer pos le =
    let (img, e, all) = read_bytes-fills f d o n buffer (omega arith) (r.seeks o) pos in
    (
      img,
      e,
      λ i lt.
          let inside : ltb i (length (f.fread o n)) ≡ true = rw (r.full o n le) (ground arith) in
          all i ∙ rw inside (r.bytes o n i le lt),
    )
