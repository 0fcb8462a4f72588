-- ===== src/Device.antt =====
-- src/device.h and src/device.cpp: opening a device, its size, and reading from it. What the C
-- library and the kernel answer are arguments: `Stream` is the open file, `Stat` what fstat64 and
-- the BLKGETSIZE ioctl say of it.
pub mod Reads
pub mod Suffix
pub mod Probe
use jfsrec.Prelude.{
  ℕ, ◌+◌, ◌-◌, ◌*◌, ◌/◌, ◌%◌, ◌^◌, Bool, true, false, not, Option, none, some, List, ltb, ◌==◌,
  if◌then◌else◌, length, get_or,
}
use jfsrec.Disk.{Image}

pub record Device : Type 0 where
  pub blocksize : ℕ
  pub log2blocksize : ℕ
  pub fssize : ℕ

pub data Stat : Type 0 where
  -- the number of 512-byte sectors, `none` if the ioctl fails
  block_device : Option ℕ → Stat
  regular_file : ℕ → Stat

-- The branches of `get_size_bytes` that Linux compiles.
unfoldable pub get_size_bytes : Stat → ℕ
get_size_bytes (block_device none) = 0
get_size_bytes (block_device (some sectors)) = sectors * 2 ^ 9
get_size_bytes (regular_file st_size) = st_size / 1024 * 1024

unfoldable pub get_size_blocks : Device → Stat → ℕ
unfolding get_size_bytes
get_size_blocks d st = get_size_bytes st / 2 ^ d.log2blocksize

abbrev sized : ℕ → ℕ → Stat → Device
unfolding get_size_bytes
sized b k st = record { blocksize = b; log2blocksize = k; fssize = get_size_bytes st }

-- `none` is `exit(1)`; the arguments are the answers of fopen64 and fstat64.
unfoldable pub open_device : Bool → Option Stat → ℕ → Option Device
unfolding get_size_bytes
open_device false st blocksize = none
open_device true none blocksize = none
open_device true (some st) blocksize =
    if blocksize == 4096
    then some (sized blocksize 12 st)
    else if blocksize == 2048
    then some (sized blocksize 11 st)
    else if blocksize == 1024
    then some (sized blocksize 10 st)
    else if blocksize == 512
    then some (sized blocksize 9 st)
    else none

pub data Reason : Type 0 where
  beyond_file_system unable_to_seek zero_bytes : Reason

-- `invalid_read` is an `invalid_read_exception`.
pub data Read {ℓ} (A : Type ℓ) : Type ℓ where
  ok : A → Read A
  invalid_read : Reason → Read A

infixl 5 ◌>>=◌
abbrev pub ◌>>=◌ {ℓ κ} : {A : Type ℓ} {B : Type κ} → Read A → (A → Read B) → Read B
ok a >>= f = f a
invalid_read e >>= f = invalid_read e

-- Whether fseeko64 succeeds, and the bytes that fread then transfers, by position and count.
pub record Stream : Type 0 where
  pub seek : ℕ → Bool
  pub fread : ℕ → ℕ → List ℕ

-- A short read leaves the end of the buffer as it was.
abbrev pub filled : List ℕ → Image → Image
filled bytes buffer i = if ltb i (length bytes) then get_or bytes i 0 else buffer i

unfoldable pub read_bytes : Stream → Device → ℕ → ℕ → Image → Read Image
read_bytes f d disk_offset disk_count data_buffer =
    if ltb d.fssize disk_offset
    then invalid_read beyond_file_system
    else if not (f.seek disk_offset)
    then invalid_read unable_to_seek
    else if disk_count == 0
    then invalid_read zero_bytes
    else ok (filled (f.fread disk_offset disk_count) data_buffer)
