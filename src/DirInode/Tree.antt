-- ===== src/DirInode/Tree.antt =====
-- src/dirinode.cpp: the tree of pages that holds the entries of a directory, and the names that
-- `extract_inode_names` finds in it.
use Prim.Native.Nat.{bit_and}
use jfsrec.Prelude.{
  ℕ, zero, suc, ◌+◌, ◌*◌, ◌%◌, ◌^◌, ◌<◌, ◌≤◌, ◌≡◌, ◌≢◌, ◌⊎◌, refl, ◌∙◌, true, false, ◌||◌, some,
  inl, inr, List, [], length, ltb, ◌==◌, arith,
}
use jfsrec.Device.{ok}
use jfsrec.Disk.{Image, shifted, u32, Pxd, pxd_at, ifmt, ifdir, btroot_offset}
use jfsrec.Disk.Extent.{address_pxd}
use jfsrec.DirInode.{
  Reader, entries_from, slot_offset, stbl_of, signed_count, next_leaf, descend, extract_inode_names,
}
use jfsrec.DirInode.Leaves.{
  Entry, HasEntries, listed, IsChain, joined, entries_from-HasEntries, next_leaf-IsChain,
}

-- The descriptor leads down to the chain of leaves, over as many inner pages as the number says.
pub record IsSane (blocks : ℕ) (xd : Pxd) : Type 0 where
  pub some_block : address_pxd xd ≢ 0
  pub inside : address_pxd xd ≤ blocks
  pub fits : xd.len ≤ blocks

module _ (read : Reader) (log2blocksize blocks : ℕ) (stale : Image) where
  abbrev pub LeadsTo : ℕ → Pxd → List Entry → List (List Entry) → Type 0
  LeadsTo zero xd es more =
      IsSane blocks xd
      × ((page : Image) × (read (address_pxd xd * 2 ^ log2blocksize) 4096 stale ≡ ok page)
          × (bit_and (page 16) 2 ≢ 0)
          × IsChain read log2blocksize page es more)
  LeadsTo (suc depth) xd es more =
      IsSane blocks xd
      × ((page : Image) × (read (address_pxd xd * 2 ^ log2blocksize) 4096 stale ≡ ok page)
          × (bit_and (page 16) 2 ≡ 0)
          × LeadsTo depth (pxd_at page (32 * stbl_of page 0)) es more)

  goes_on :
      (xd : Pxd)
      → IsSane blocks xd
      → ((address_pxd xd == 0) || (ltb blocks (address_pxd xd) || ltb blocks xd.len)) ≡ false
  goes_on xd s = ground (arith, s.some_block, s.inside, s.fits)

  descend-leaf :
      (fuel chain : ℕ) (heap : List ℕ) (xd : Pxd) (page : Image)
      → IsSane blocks xd
      → read (address_pxd xd * 2 ^ log2blocksize) 4096 stale ≡ ok page
      → bit_and (page 16) 2 ≢ 0
      → descend (suc fuel) chain read log2blocksize blocks heap stale xd
        ≡ next_leaf chain read log2blocksize heap page
  unfolding descend
  descend-leaf fuel chain heap xd page s e leaf =
      let flag : (bit_and (page 16) 2 == 0) ≡ false = ground (arith, leaf) in
      rw (descend, goes_on xd s, e, flag) refl

  descend-inner :
      (fuel chain : ℕ) (heap : List ℕ) (xd : Pxd) (page : Image)
      → IsSane blocks xd
      → read (address_pxd xd * 2 ^ log2blocksize) 4096 stale ≡ ok page
      → bit_and (page 16) 2 ≡ 0
      → descend (suc fuel) chain read log2blocksize blocks heap stale xd
        ≡ descend fuel chain read log2blocksize blocks heap stale
            (pxd_at page (32 * stbl_of page 0))
  unfolding descend
  descend-inner fuel chain heap xd page s e inner =
      let flag : (bit_and (page 16) 2 == 0) ≡ true = ground (arith, inner) in
      rw (descend, goes_on xd s, e, flag) refl

  descend-LeadsTo :
      (depth chain : ℕ) (heap : List ℕ) (xd : Pxd) (es : List Entry) (more : List (List Entry))
      → LeadsTo depth xd es more
      → length more < chain
      → descend (suc depth) chain read log2blocksize blocks heap stale xd
        ≡ some (listed (joined es more))
  descend-LeadsTo zero chain heap xd es more (s, (page, e, leaf, c)) lt =
      descend-leaf 0 chain heap xd page s e leaf
      ∙ next_leaf-IsChain chain read log2blocksize heap page es more c lt
  descend-LeadsTo (suc depth) chain heap xd es more (s, (page, e, inner, below)) lt =
      descend-inner (suc depth) chain heap xd page s e inner
      ∙ descend-LeadsTo depth chain heap (pxd_at page (32 * stbl_of page 0)) es more below lt

-- A directory with its entries in the root, or in leaves below it; `inode` is what is read of it.
-- `depth` is the number of inner pages above the leaves.
abbrev pub IsDirectory :
    Reader → ℕ → ℕ → Image → Image → ℕ → List Entry → List (List Entry) → Type 0
IsDirectory read log2blocksize blocks stale inode depth es more =
    let root = shifted inode btroot_offset in
    ((bit_and (root 16) 2 ≢ 0)
      × (root 17 ≡ length es)
      × (length es < 128)
      × (more ≡ [])
      × HasEntries root (λ i. root (24 + i)) 0 es)
    ⊎ ((bit_and (root 16) 2 ≡ 0)
        × LeadsTo read log2blocksize blocks stale depth
            (pxd_at inode ((btroot_offset + slot_offset (root 24)) % 2 ^ 64)) es more)

extract-root :
    (fuel chain : ℕ) (read : Reader) (log2blocksize blocks : ℕ) (heap : List ℕ)
    (stale inode : Image) (byte_offset : ℕ)
    → read byte_offset 512 stale ≡ ok inode
    → bit_and (u32 inode 52) ifmt ≡ ifdir
    → bit_and (inode (btroot_offset + 16)) 2 ≢ 0
    → extract_inode_names fuel chain read log2blocksize blocks heap stale byte_offset
      ≡ entries_from heap
          (shifted inode btroot_offset)
          (λ i. inode (btroot_offset + (24 + i)))
          (signed_count (inode (btroot_offset + 17)))
          0
unfolding extract_inode_names
extract-root fuel chain read log2blocksize blocks heap stale inode byte_offset e dir leaf =
    let flag : (bit_and (inode (btroot_offset + 16)) 2 == 0) ≡ false = ground (arith, leaf) in
    let directory : (bit_and (u32 inode 52) ifmt == ifdir) ≡ true = ground (arith, dir) in
    rw (extract_inode_names, e, directory, flag) refl

extract-inner :
    (fuel chain : ℕ) (read : Reader) (log2blocksize blocks : ℕ) (heap : List ℕ)
    (stale inode : Image) (byte_offset : ℕ)
    → read byte_offset 512 stale ≡ ok inode
    → bit_and (u32 inode 52) ifmt ≡ ifdir
    → bit_and (inode (btroot_offset + 16)) 2 ≡ 0
    → extract_inode_names fuel chain read log2blocksize blocks heap stale byte_offset
      ≡ descend fuel chain read log2blocksize blocks heap stale
          (pxd_at inode ((btroot_offset + slot_offset (inode (btroot_offset + 24))) % 2 ^ 64))
unfolding extract_inode_names
extract-inner fuel chain read log2blocksize blocks heap stale inode byte_offset e dir inner =
    let flag : (bit_and (inode (btroot_offset + 16)) 2 == 0) ≡ true = ground (arith, inner) in
    let directory : (bit_and (u32 inode 52) ifmt == ifdir) ≡ true = ground (arith, dir) in
    rw (extract_inode_names, e, directory, flag) refl

-- The names of a directory are all found, in the order of its entries and in UTF-8, with their
-- numbers, when the entries stand in the root or in a chain of leaves that the tree leads to. Fuel
-- for the depth of the tree and one page for each leaf behind the first is enough.
pub extract_inode_names-listed :
    (depth chain : ℕ) (read : Reader) (log2blocksize blocks : ℕ) (heap : List ℕ)
    (stale inode : Image) (byte_offset : ℕ) (es : List Entry) (more : List (List Entry))
    → read byte_offset 512 stale ≡ ok inode
    → bit_and (u32 inode 52) ifmt ≡ ifdir
    → IsDirectory read log2blocksize blocks stale inode depth es more
    → length more < chain
    → extract_inode_names (suc depth) chain read log2blocksize blocks heap stale byte_offset
      ≡ some (listed (joined es more))
extract_inode_names-listed depth chain read log2blocksize blocks heap stale inode byte_offset es
      more e dir (inl (leaf, count, few, alone, entries)) lt =
    let fits : ltb (length es) 128 ≡ true = ground (arith, few) in
    extract-root (suc depth) chain read log2blocksize blocks heap stale inode byte_offset e dir leaf
    ∙ rw (count, fits, alone)
        (entries_from-HasEntries heap (shifted inode btroot_offset)
          (λ i. inode (btroot_offset + (24 + i))) 0 es entries)
extract_inode_names-listed depth chain read log2blocksize blocks heap stale inode byte_offset es
      more e dir (inr (inner, leads)) lt =
    extract-inner (suc depth) chain read log2blocksize blocks heap stale inode byte_offset e dir
      inner
    ∙ descend-LeadsTo read log2blocksize blocks stale depth chain heap
        (pxd_at inode ((btroot_offset + slot_offset (inode (btroot_offset + 24))) % 2 ^ 64)) es more
        leads lt
