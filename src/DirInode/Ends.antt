-- ===== src/DirInode/Ends.antt =====
-- src/dirinode.cpp: when `extract_inode_names` ends. Neither the way down to the leaves nor the chain
-- of leaves remembers the pages that it has read, so that it does not end on a cycle of them.
use Prim.Native.Nat.{bit_and}
use jfsrec.Prelude.{
  ℕ, zero, suc, ◌+◌, ◌*◌, ◌%◌, ◌^◌, ◌≡◌, ◌≢◌, ◌⊎◌, refl, true, false, ◌||◌, Option, some, inl, inr,
  List, [], ◌++◌, ltb, ◌==◌, arith, Bool-cases,
}
use jfsrec.Device.{Reason, ok, invalid_read}
use jfsrec.Disk.{Image, u32, u64, Pxd, pxd_at, ifmt, ifdir, btroot_offset}
use jfsrec.Disk.Extent.{address_pxd}
use jfsrec.DirInode.{
  Reader, InodeName, Access, entries_from, slot_offset, stbl_of, signed_count, next_leaf, descend,
}
use jfsrec.DirInode.Entry.{entries_from-returns}

abbrev pub Returns : Option (List InodeName) → Type 0
Returns o = (names : List InodeName) × (o ≡ some names)

module _ (read : Reader) (log2blocksize : ℕ) where
  -- The chain from this leaf on has so many pages at most: it ends in a page with the count -1, in
  -- one with no next page, or where the next page cannot be read.
  abbrev pub LeavesEnd : ℕ → Image → Type 0
  LeavesEnd zero dtree = ⊥
  LeavesEnd (suc chain) dtree =
      (dtree 17 ≡ 255)
      ⊎ (u64 dtree 0 ≡ 0)
      ⊎ ((why : Reason) × (read (u64 dtree 0 * 2 ^ log2blocksize % 2 ^ 64) 4096 dtree
            ≡ invalid_read why))
      ⊎ ((page : Image) × (read (u64 dtree 0 * 2 ^ log2blocksize % 2 ^ 64) 4096 dtree ≡ ok page)
          × LeavesEnd chain page)

  next_leaf-empty :
      (chain : ℕ) (heap : List ℕ) (dtree : Image)
      → (dtree 17 == 255) ≡ true
      → next_leaf (suc chain) read log2blocksize heap dtree ≡ some []
  unfolding next_leaf
  next_leaf-empty chain heap dtree e = rw (next_leaf, e) refl

  module _ (heap : List ℕ) (dtree : Image) (names : List InodeName)
      (counted : (dtree 17 == 255) ≡ false)
      (entries : entries_from heap dtree (stbl_of dtree) (signed_count (dtree 17)) 0
        ≡ some names) where
    next_leaf-last :
        (chain : ℕ)
        → (u64 dtree 0 == 0) ≡ true
        → next_leaf (suc chain) read log2blocksize heap dtree ≡ some names
    unfolding next_leaf
    next_leaf-last chain e = rw (next_leaf, counted, entries, e) refl

    next_leaf-refused :
        (chain : ℕ) (why : Reason)
        → (u64 dtree 0 == 0) ≡ false
        → read (u64 dtree 0 * 2 ^ log2blocksize % 2 ^ 64) 4096 dtree ≡ invalid_read why
        → next_leaf (suc chain) read log2blocksize heap dtree ≡ some names
    unfolding next_leaf
    next_leaf-refused chain why e f = rw (next_leaf, counted, entries, e, f) refl

    next_leaf-more :
        (chain : ℕ) (page : Image) (more : List InodeName)
        → (u64 dtree 0 == 0) ≡ false
        → read (u64 dtree 0 * 2 ^ log2blocksize % 2 ^ 64) 4096 dtree ≡ ok page
        → next_leaf chain read log2blocksize heap page ≡ some more
        → next_leaf (suc chain) read log2blocksize heap dtree ≡ some (names ++ more)
    unfolding next_leaf
    next_leaf-more chain page more e f g = rw (next_leaf, counted, entries, e, f, g) refl

  next_leaf-Returns :
      (chain : ℕ) (heap : List ℕ) (dtree : Image)
      → LeavesEnd chain dtree
      → Returns (next_leaf chain read log2blocksize heap dtree)
  next_leaf-Returns zero heap dtree ends = absurd ends
  next_leaf-Returns (suc chain) heap dtree ends =
      let (names, e, l) =
        entries_from-returns heap dtree (stbl_of dtree) (signed_count (dtree 17)) 0 in
      elim (Bool-cases (dtree 17 == 255)) [
        | inl empty ↦ ([], next_leaf-empty chain heap dtree empty)
        | inr counted ↦ elim (Bool-cases (u64 dtree 0 == 0)) [
          | inl last ↦ (names, next_leaf-last heap dtree names counted e chain last)
          | inr next ↦ elim ends [
            | inl empty ↦ absurd (ground (arith, empty, counted))
            | inr (inl last) ↦ absurd (ground (arith, last, next))
            | inr (inr (inl (why, f))) ↦
                (names, next_leaf-refused heap dtree names counted e chain why next f)
            | inr (inr (inr (page, f, below))) ↦
                let (more, g) = next_leaf-Returns chain heap page below in
                (names ++ more, next_leaf-more heap dtree names counted e chain page more next f g)
          ]
        ]
      ]

module _ (a : Access) where
  abbrev IsInsane : Pxd → Type 0
  IsInsane xd =
      ((address_pxd xd == 0) || (ltb a.blocks (address_pxd xd) || ltb a.blocks xd.len)) ≡ true

  -- The way down from this descriptor has so many pages at most: it ends in a descriptor that is not
  -- sane, in a page that cannot be read, or in a leaf whose chain ends.
  abbrev pub DescentEnds : ℕ → Pxd → Type 0
  DescentEnds zero xd = ⊥
  DescentEnds (suc depth) xd =
      IsInsane xd
      ⊎ ((why : Reason) × (a.read (address_pxd xd * 2 ^ a.log2blocksize) 4096 a.stale
            ≡ invalid_read why))
      ⊎ ((page : Image) × (a.read (address_pxd xd * 2 ^ a.log2blocksize) 4096 a.stale ≡ ok page)
          × (((bit_and (page 16) 2 ≢ 0) × LeavesEnd a.read a.log2blocksize a.chain page)
              ⊎ ((bit_and (page 16) 2 ≡ 0)
                  × DescentEnds depth (pxd_at page (32 * stbl_of page 0)))))

  -- The names of the directory at this place end: it cannot be read, is none, has its entries in the
  -- root, or the way down from the root ends.
  abbrev pub NamesEnd : ℕ → Type 0
  NamesEnd byte_offset =
      ((why : Reason) × (a.read byte_offset 512 a.stale ≡ invalid_read why))
      ⊎ ((inode : Image) × (a.read byte_offset 512 a.stale ≡ ok inode)
          × ((bit_and (u32 inode 52) ifmt ≢ ifdir)
              ⊎ (bit_and (inode (btroot_offset + 16)) 2 ≢ 0)
              ⊎ DescentEnds a.depth (
                  pxd_at inode
                    ((btroot_offset + slot_offset (inode (btroot_offset + 24))) % 2 ^ 64))))

  descend-insane :
      (depth : ℕ) (xd : Pxd)
      → IsInsane xd
      → descend (suc depth) a.chain a.read a.log2blocksize a.blocks a.heap a.stale xd ≡ some []
  unfolding descend
  descend-insane depth xd e = rw (descend, e) refl

  module _ (xd : Pxd)
      (sane : ((address_pxd xd == 0) || (ltb a.blocks (address_pxd xd) || ltb a.blocks xd.len))
        ≡ false) where
    descend-refused :
        (depth : ℕ) (why : Reason)
        → a.read (address_pxd xd * 2 ^ a.log2blocksize) 4096 a.stale ≡ invalid_read why
        → descend (suc depth) a.chain a.read a.log2blocksize a.blocks a.heap a.stale xd ≡ some []
    unfolding descend
    descend-refused depth why e = rw (descend, sane, e) refl

    descend-leaf :
        (depth : ℕ) (page : Image)
        → a.read (address_pxd xd * 2 ^ a.log2blocksize) 4096 a.stale ≡ ok page
        → bit_and (page 16) 2 ≢ 0
        → descend (suc depth) a.chain a.read a.log2blocksize a.blocks a.heap a.stale xd
          ≡ next_leaf a.chain a.read a.log2blocksize a.heap page
    unfolding descend
    descend-leaf depth page e leaf =
        let flag : (bit_and (page 16) 2 == 0) ≡ false = ground (arith, leaf) in
        rw (descend, sane, e, flag) refl

    descend-inner :
        (depth : ℕ) (page : Image)
        → a.read (address_pxd xd * 2 ^ a.log2blocksize) 4096 a.stale ≡ ok page
        → bit_and (page 16) 2 ≡ 0
        → descend (suc depth) a.chain a.read a.log2blocksize a.blocks a.heap a.stale xd
          ≡ descend depth a.chain a.read a.log2blocksize a.blocks a.heap a.stale
              (pxd_at page (32 * stbl_of page 0))
    unfolding descend
    descend-inner depth page e inner =
        let flag : (bit_and (page 16) 2 == 0) ≡ true = ground (arith, inner) in
        rw (descend, sane, e, flag) refl

  pub Returns-along : (o o' : Option (List InodeName)) → o ≡ o' → Returns o' → Returns o
  Returns-along o o' e (names, f) = (names, rw e f)

  pub descend-Returns :
      (depth : ℕ) (xd : Pxd)
      → DescentEnds depth xd
      → Returns (descend depth a.chain a.read a.log2blocksize a.blocks a.heap a.stale xd)
  descend-Returns zero xd ends = absurd ends
  descend-Returns (suc depth) xd ends =
      elim (Bool-cases
        ((address_pxd xd == 0) || (ltb a.blocks (address_pxd xd) || ltb a.blocks xd.len))) [
          | inl insane ↦ ([], descend-insane depth xd insane)
          | inr sane ↦ elim ends [
            | inl insane ↦ absurd (cc)
            | inr (inl (why, e)) ↦ ([], descend-refused xd sane depth why e)
            | inr (inr (page, e, inl (leaf, chain))) ↦
                Returns-along _ _ (descend-leaf xd sane depth page e leaf)
                  (next_leaf-Returns a.read a.log2blocksize a.chain a.heap page chain)
            | inr (inr (page, e, inr (inner, below))) ↦
                Returns-along _ _ (descend-inner xd sane depth page e inner)
                  (descend-Returns depth (pxd_at page (32 * stbl_of page 0)) below)
          ]
        ]
