-- ===== src/DirInode.antt =====
-- src/dirinode.h and src/dirinode.cpp: the names that a directory holds. A page is the memory from
-- its first byte on; addresses before it wrap around. The exceptions are caught where the names read so far are returned.
pub mod Entry
pub mod Names
pub mod Leaves
pub mod Tree
pub mod Ends
pub mod Listing
use Prim.Native.Nat.{bit_and}
use mathlib.Core.Option
use jfsrec.Prelude.{
  ℕ, zero, suc, ◌+◌, ◌-◌, ◌*◌, ◌/◌, ◌%◌, ◌^◌, Bool, true, false, not, ◌||◌, Option, none, some,
  List, [], ◌∷◌, ◌++◌, ltb, leb, ◌==◌, if◌then◌else◌, has, length, drop, take, replicate,
}
use jfsrec.Device.{Read, ok, invalid_read}
use jfsrec.Disk.{Image, u16, u32, u64, Pxd, pxd_at, shifted, ifmt, ifdir, btroot_offset}
use jfsrec.Disk.Extent.{address_pxd}
use jfsrec.Inode.{Name, Inode, Kind, dir}
use jfsrec.Utf8.{unicode_string_to_utf8_std_string}
use jfsrec.Unicode.{uni_strncpy}

abbrev pub Reader : Type 0
Reader = ℕ → ℕ → Image → Read Image

-- `InodeName`
pub record InodeName : Type 0 where
  pub name : Name
  pub di_number : ℕ

abbrev min : ℕ → ℕ → ℕ
min a b = if ltb a b then a else b

abbrev pub dtlhdrdatalen : ℕ
dtlhdrdatalen = 11

abbrev pub dtslotdatalen : ℕ
dtslotdatalen = 15

-- The loop of `get_direntry` over the slots of a name, with fuel: what it writes behind the first
-- part. `next` is a signed byte; `rec` holds the slots already read.
unfoldable pub slots_from : ℕ → Image → List ℕ → ℕ → ℕ → ℕ → Option (List ℕ)
unfolding uni_strncpy u16
slots_from zero slot rec next namlen len = none
slots_from (suc fuel) slot rec next namlen len =
    if leb 128 next
    then some []
    else let namlen' = namlen - len in
      let len' = min namlen' dtslotdatalen in
      let part = uni_strncpy (λ i. u16 slot (32 * next + 2 + 2 * i)) 0 len' in
      let next' = slot (32 * next) in
      let more = slots_from fuel slot (next ∷ rec) next' namlen' len' in
      if has next' (next ∷ rec) then some part else Option.map (λ rest. part ++ rest) more

-- `get_direntry`; `heap` is what the new array of `namlen + 1` characters holds.
unfoldable pub get_direntry : ℕ → List ℕ → Image → ℕ → Option InodeName
unfolding slots_from u32 unicode_string_to_utf8_std_string
get_direntry fuel heap slot head_index =
    let entry = shifted slot (32 * head_index) in
    let namlen = entry 5 in
    let len = min namlen dtlhdrdatalen in
    let part = uni_strncpy (λ i. u16 entry (6 + 2 * i)) 0 len in
    Option.map
      (λ rest.
        let written = part ++ rest in
        let text = take namlen (written ++ drop (length written) heap) in
        record { name = unicode_string_to_utf8_std_string text namlen; di_number = u32 entry 0 })
      (slots_from fuel slot [] (entry 4) namlen len)

-- A signed byte as an offset in slots, of 64 bits.
abbrev slot_offset : ℕ → ℕ
slot_offset b = if ltb b 128 then 32 * b else 2 ^ 64 - 32 * (256 - b)

-- The loops over `stbl`: `count` entries from `i` on.
unfoldable pub entries_from : List ℕ → Image → (ℕ → ℕ) → ℕ → ℕ → Option (List InodeName)
entries_from heap slot stbl zero i = some []
entries_from heap slot stbl (suc count) i = elim (get_direntry 129 heap slot (stbl i)) [
  | none ↦ none
  | some entry ↦ Option.map (λ rest. entry ∷ rest) (entries_from heap slot stbl count (i + 1))
]

-- The entries of a page of the tree: flag at 16, `nextindex` at 17, `stblindex` at 21.
abbrev stbl_of : Image → ℕ → ℕ
stbl_of dtree i = dtree ((slot_offset (dtree 21) + i) % 2 ^ 64)

abbrev signed_count : ℕ → ℕ
signed_count b = if ltb b 128 then b else 0

-- `next_leaf`, with fuel for the chain of leaves.
unfoldable pub next_leaf : ℕ → Reader → ℕ → List ℕ → Image → Option (List InodeName)
unfolding u64
next_leaf zero read log2blocksize heap dtree = none
next_leaf (suc fuel) read log2blocksize heap dtree =
    if dtree 17 == 255
    then some []
    else elim (entries_from heap dtree (stbl_of dtree) (signed_count (dtree 17)) 0) [
      | none ↦ none
      | some names ↦
          if u64 dtree 0 == 0
          then some names
          else elim (read (u64 dtree 0 * 2 ^ log2blocksize % 2 ^ 64) 4096 dtree) [
            | invalid_read why ↦ some names
            | ok page ↦
                Option.map (λ more. names ++ more) (next_leaf fuel read log2blocksize heap page)
          ]
    ]

-- `descend`, with fuel for the depth and for the chain; `blocks` is `device.get_size_blocks()`, and
-- `stale` what the local page held.
unfoldable pub descend : ℕ → ℕ → Reader → ℕ → ℕ → List ℕ → Image → Pxd → Option (List InodeName)
unfolding pxd_at
descend zero chain read log2blocksize blocks heap stale xd = none
descend (suc fuel) chain read log2blocksize blocks heap stale xd =
    if (address_pxd xd == 0) || (ltb blocks (address_pxd xd) || ltb blocks xd.len)
    then some []
    else elim (read (address_pxd xd * 2 ^ log2blocksize) 4096 stale) [
      | invalid_read why ↦ some []
      | ok dtree ↦
          if bit_and (dtree 16) 2 == 0
          then descend fuel chain read log2blocksize blocks heap stale
              (pxd_at dtree (32 * stbl_of dtree 0))
          else next_leaf chain read log2blocksize heap dtree
    ]

-- `extract_inode_names` of a directory: `root` is at `di_btroot`, with the flag at 16, `nextindex`
-- at 17 and `stbl` at 24.
unfoldable pub extract_inode_names :
    ℕ → ℕ → Reader → ℕ → ℕ → List ℕ → Image → ℕ → Option (List InodeName)
unfolding u32 pxd_at
extract_inode_names fuel chain read log2blocksize blocks heap stale byte_offset =
    elim (read byte_offset 512 stale) [
      | invalid_read why ↦ some []
      | ok inode ↦
          let root = shifted inode btroot_offset in
          if not (bit_and (u32 inode 52) ifmt == ifdir)
          then some []
          else if bit_and (root 16) 2 == 0
          then descend fuel chain read log2blocksize blocks heap stale
              (pxd_at inode ((btroot_offset + slot_offset (root 24)) % 2 ^ 64))
          else entries_from heap root (λ i. root (24 + i)) (signed_count (root 17)) 0
    ]

-- What `extract_inode_names` works with, besides the directory: the device, what the new arrays and
-- the local page held, and fuel for the depth of the tree and for its chain of leaves.
pub record Access : Type 0 where
  pub read : Reader
  pub log2blocksize : ℕ
  pub blocks : ℕ
  pub heap : List ℕ
  pub stale : Image
  pub depth : ℕ
  pub chain : ℕ

-- The virtual function: the one of Inode, which finds no names, is that of all other classes.
unfoldable pub inode_names : Access → Inode → Option (List InodeName)
unfolding extract_inode_names
inode_names a i = elim i.kind [
  | dir ↦
      extract_inode_names a.depth a.chain a.read a.log2blocksize a.blocks a.heap a.stale
        i.byte_offset
  | _ ↦ some []
]
