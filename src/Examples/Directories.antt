-- ===== src/Examples/Directories.antt =====
-- The theorem on the tree of a directory in src/dirinode.cpp, at an example.
use Prim.Native.Nat.{bit_and}
use jfsrec.Prelude.{ℕ, ◌≡◌, ◌<◌, refl, some, inr, [], ◌∷◌, ◌==◌, if◌then◌else◌, arith}
use jfsrec.Device.{ok}
use jfsrec.Disk.{Image, pxd_at, u16, u24, u32, u64, ifmt, ifdir}
use jfsrec.Disk.Extent.{address_pxd, address40}
use jfsrec.DirInode.{Reader, extract_inode_names}
use jfsrec.DirInode.Leaves.{Entry, IsLeaf, IsChain, listed, joined}
use jfsrec.DirInode.Tree.{IsSane, LeadsTo, IsDirectory, extract_inode_names-listed}
use jfsrec.Examples.{zeros}

-- A leaf with one entry, in slot 2, whose name is one character.
abbrev leaf : ℕ → ℕ → ℕ → Image
leaf next number c i =
    if i == 0
    then next
    else if i == 16
    then 2
    else if i == 17
    then 1
    else if i == 21
    then 1
    else if i == 32
    then 2
    else if i == 64
    then number
    else if i == 68
    then 255
    else if i == 69
    then 1
    else if i == 70
    then c
    else 0

-- A directory whose root leads to the leaf in block 9, and this one to the leaf in block 10.
abbrev inode : Image
inode i = if i == 53 then 0x40 else if i == 248 then 1 else if i == 260 then 9 else 0

abbrev reader : Reader
reader o n buffer =
    if o == 0 then ok inode else if o == 36864 then ok (leaf 10 7 0x61) else ok (leaf 0 8 0x62)

abbrev entry : ℕ → ℕ → Entry
entry c number = record { characters = c ∷ []; number = number }

one_leaf :
    (next number c : ℕ) → (0 < c) → (c < 65536) → IsLeaf (leaf next number c) (entry c number ∷ [])
unfolding u16 u32
one_leaf next number c pos small = record {
  nextindex = refl;
  few = omega arith;
  entries = (
    record {
      chain = [];
      units = ((pos, small), tt);
      small = omega arith;
      short = omega arith;
      namlen = refl;
      head = (omega arith, tt);
      tail = (omega arith, refl);
      inumber = omega arith;
    },
    tt,
  );
}

chained : IsChain reader 12 (leaf 10 7 0x61) (entry 0x61 7 ∷ []) ((entry 0x62 8 ∷ []) ∷ [])
unfolding u64 u32 u16
chained = (
  one_leaf 10 7 0x61 (omega arith) (omega arith),
  (λ e. ground (arith, e)),
  (leaf 0 8 0x62, refl, (one_leaf 0 8 0x62 (omega arith) (omega arith), refl)),
)

root-IsSane : IsSane 100 (pxd_at inode 256)
unfolding pxd_at u24 u32 u16 address_pxd address40
root-IsSane = record {
  some_block = λ e. ground (arith, e);
  inside = omega arith;
  fits = omega arith;
}

leads :
    LeadsTo reader 12 100 zeros 0 (pxd_at inode 256) (entry 0x61 7 ∷ []) ((entry 0x62 8 ∷ []) ∷ [])
unfolding pxd_at u32 u16 address_pxd address40
leads = (root-IsSane, (leaf 10 7 0x61, refl, (λ e. ground (arith, e)), chained))

inode-IsDirectory :
    IsDirectory reader 12 100 zeros inode 0 (entry 0x61 7 ∷ []) ((entry 0x62 8 ∷ []) ∷ [])
inode-IsDirectory = inr (refl, leads)

is_directory : bit_and (u32 inode 52) ifmt ≡ ifdir
unfolding u32 u16
is_directory = refl

extract_inode_names-listed_example :
    extract_inode_names 1 2 reader 12 100 [] zeros 0
    ≡ some (listed (joined (entry 0x61 7 ∷ []) ((entry 0x62 8 ∷ []) ∷ [])))
extract_inode_names-listed_example =
    extract_inode_names-listed 0 2 reader 12 100 [] zeros inode 0 (entry 0x61 7 ∷ [])
      ((entry 0x62 8 ∷ []) ∷ []) refl is_directory inode-IsDirectory (omega arith)
