-- ===== src/FileInode.antt =====
-- src/fileinode.h and src/fileinode.cpp: the extents of a file, and their copies in the output.
-- What is printed, the progress display and the metadata of the output are left out.
pub mod Copy
pub mod Sane
pub mod Tree
pub mod Restored
pub mod Recover
use Prim.Native.Nat.{bit_and}
use jfsrec.Prelude.{
  ℕ, zero, suc, ◌+◌, ◌-◌, ◌*◌, ◌/◌, ◌%◌, ◌^◌, Bool, true, false, Option, none, some, List, [], ◌∷◌,
  ◌++◌, ltb, leb, ◌==◌, if◌then◌else◌,
}
use jfsrec.Device.{Read, ok, invalid_read}
use jfsrec.Disk.{Image, u16, Xad, xad_at}
use jfsrec.Disk.Extent.{offset_xad, address_xad, length_xad}

-- The device, as `read_bytes` over the bytes that the buffer held.
abbrev pub Reader : Type 0
Reader = ℕ → ℕ → Image → Read Image

abbrev pub buffsize : ℕ
buffsize = 2 ^ 16

abbrev pub bt_leaf : ℕ
bt_leaf = 0x02

-- The 32-bit product `lengthXAD(x)*device.get_blocksize()`.
unfoldable pub extent_bytes : ℕ → Xad → ℕ
extent_bytes blocksize x = length_xad x * blocksize % 2 ^ 32

-- `fseeko64` and `fwrite` of the first `count` bytes of a buffer.
abbrev pub fwrite : ℕ → ℕ → Image → Image → Image
fwrite position count buffer file i =
    if leb position i
    then (if ltb i (position + count) then buffer (i - position) else file i)
    else file i

-- The loop of `write_extent_to_file`, with fuel: the buffer and the file when it ends.
unfoldable pub write_from : ℕ → Reader → ℕ → Xad → Image → Image → ℕ → Option (Read (Image × Image))
write_from zero read blocksize x buffer file bytes_read = none
write_from (suc fuel) read blocksize x buffer file bytes_read =
    elim (ltb bytes_read (extent_bytes blocksize x)) [
      | false ↦ some (ok (buffer, file))
      | true ↦
          let left = extent_bytes blocksize x - bytes_read in
          let count = if ltb buffsize left then buffsize else left in
          elim (read (address_xad x * blocksize + bytes_read) count buffer) [
            | invalid_read why ↦ some (invalid_read why)
            | ok buffer' ↦
                write_from fuel read blocksize x buffer'
                  (fwrite (offset_xad x * blocksize + bytes_read) count buffer' file)
                  (bytes_read + count)
          ]
    ]

unfoldable pub write_extent_to_file :
    ℕ → Reader → ℕ → Xad → Image → Image → Option (Read (Image × Image))
unfolding write_from
write_extent_to_file fuel read blocksize x buffer file =
    write_from fuel read blocksize x buffer file 0

-- The loop of `save_file` over the extents.
unfoldable pub write_each :
    ℕ → Reader → ℕ → List Xad → Image → Image → Option (Read (Image × Image))
write_each fuel read blocksize [] buffer file = some (ok (buffer, file))
write_each fuel read blocksize (x ∷ xs) buffer file =
    elim (write_extent_to_file fuel read blocksize x buffer file) [
      | none ↦ none
      | some (invalid_read why) ↦ some (invalid_read why)
      | some (ok (buffer', file')) ↦ write_each fuel read blocksize xs buffer' file'
    ]

-- `header.flag` and the signed `header.nextindex` of an xtpage_t, and its entries.
abbrev page_flag : Image → ℕ
page_flag page = page 16

unfoldable pub num_entries : Image → ℕ
unfolding u16
num_entries page = let n = u16 page 18 in if ltb n (2 ^ 15) then n - 2 else 0

unfoldable pub get_leaf_xads : Image → ℕ → ℕ → List Xad
unfolding xad_at
get_leaf_xads page zero i = []
get_leaf_xads page (suc count) i = xad_at page (16 * i) ∷ get_leaf_xads page count (i + 1)

-- The loop of `get_internal_xads`, over the function that it calls.
unfoldable pub get_internal_xads :
    (Xad → Option (Read (List Xad))) → List Xad → Option (Read (List Xad))
get_internal_xads visit [] = some (ok [])
get_internal_xads visit (x ∷ xs) = elim (visit x) [
  | none ↦ none
  | some (invalid_read why) ↦ some (invalid_read why)
  | some (ok found) ↦ elim (get_internal_xads visit xs) [
    | none ↦ none
    | some (invalid_read why) ↦ some (invalid_read why)
    | some (ok more) ↦ some (ok (found ++ more))
  ]
]

-- The entries of a page: its extents, or those of the pages below it.
unfoldable pub page_xads : (Xad → Option (Read (List Xad))) → Image → Option (Read (List Xad))
unfolding get_internal_xads get_leaf_xads num_entries
page_xads visit page =
    let entries = get_leaf_xads page (num_entries page) 2 in
    if bit_and (page_flag page) bt_leaf == 0
    then get_internal_xads visit entries
    else some (ok entries)

-- `get_internal_xtpage`, with fuel for the depth of the tree; `stale` is what the local page held.
unfoldable pub get_internal_xtpage : ℕ → Reader → ℕ → Image → Xad → Option (Read (List Xad))
unfolding page_xads
get_internal_xtpage zero read blocksize stale x = none
get_internal_xtpage (suc fuel) read blocksize stale x =
    elim (read (address_xad x * blocksize) 4096 stale) [
      | invalid_read why ↦ some (invalid_read why)
      | ok page ↦ page_xads (get_internal_xtpage fuel read blocksize stale) page
    ]

-- `ftruncate`: beyond the size there is nothing left of the file.
abbrev pub Saved : Type 0
Saved = Image × ℕ

-- `save_file` behind the opening of the file, which is empty then. `depth` and `fuel` bound the
-- tree and the loops; an inode without extents leaves an empty file.
unfoldable pub save_file : ℕ → ℕ → Reader → ℕ → Image → Image → ℕ → Image → Option (Read Saved)
unfolding page_xads get_internal_xtpage write_each num_entries
save_file depth fuel read blocksize stale buffer di_size root =
    if num_entries root == 0
    then some (ok (λ i. 0, 0))
    else elim (page_xads (get_internal_xtpage depth read blocksize stale) root) [
      | none ↦ none
      | some (invalid_read why) ↦ some (invalid_read why)
      | some (ok xads) ↦ elim (write_each fuel read blocksize xads buffer (λ i. 0)) [
        | none ↦ none
        | some (invalid_read why) ↦ some (invalid_read why)
        | some (ok (b, file)) ↦ some (ok (file, di_size))
      ]
    ]

unfoldable pub filesize_from : ℕ → List Xad → ℕ → ℕ
unfolding extent_bytes
filesize_from blocksize [] filesize = filesize
filesize_from blocksize (x ∷ xs) filesize =
    filesize_from blocksize xs ((filesize + extent_bytes blocksize x) % 2 ^ 64)

unfoldable pub filesize_from_xad_vector : ℕ → List Xad → ℕ
unfolding filesize_from
filesize_from_xad_vector blocksize xads = filesize_from blocksize xads 0
