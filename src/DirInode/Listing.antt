-- ===== src/DirInode/Listing.antt =====
-- src/dirinode.cpp and src/inode.cpp: `extract_inode_names` of every class ends, where the pages of a
-- directory do.
use Prim.Native.Nat.{bit_and}
use jfsrec.Prelude.{
  ℕ, ◌+◌, ◌%◌, ◌^◌, ◌≡◌, refl, true, false, Option, some, inl, inr, List, [], ◌==◌, arith,
  Bool-cases,
}
use jfsrec.Device.{Reason, ok, invalid_read}
use jfsrec.Disk.{Image, shifted, u32, pxd_at, ifmt, ifdir, btroot_offset}
use jfsrec.Inode.{Inode, Kind, file, dir, unallocated, symlink, special}
use jfsrec.DirInode.{
  InodeName, Access, entries_from, slot_offset, signed_count, descend, extract_inode_names,
  inode_names,
}
use jfsrec.DirInode.Entry.{entries_from-returns}
use jfsrec.DirInode.Ends.{Returns, Returns-along, NamesEnd, descend-Returns}

abbrev names_at : Access → ℕ → Option (List InodeName)
names_at a byte_offset =
    extract_inode_names a.depth a.chain a.read a.log2blocksize a.blocks a.heap a.stale byte_offset

extract-refused :
    (a : Access) (byte_offset : ℕ) (why : Reason)
    → a.read byte_offset 512 a.stale ≡ invalid_read why
    → names_at a byte_offset ≡ some []
unfolding extract_inode_names
extract-refused a byte_offset why e = rw (extract_inode_names, e) refl

module _ (a : Access) (byte_offset : ℕ) (inode : Image)
    (read : a.read byte_offset 512 a.stale ≡ ok inode) where
  extract-other : (bit_and (u32 inode 52) ifmt == ifdir) ≡ false → names_at a byte_offset ≡ some []
  unfolding extract_inode_names
  extract-other e = rw (extract_inode_names, read, e) refl

  extract-root :
      (bit_and (u32 inode 52) ifmt == ifdir) ≡ true
      → (bit_and (inode (btroot_offset + 16)) 2 == 0) ≡ false
      → names_at a byte_offset
        ≡ entries_from a.heap
            (shifted inode btroot_offset)
            (λ i. inode (btroot_offset + (24 + i)))
            (signed_count (inode (btroot_offset + 17)))
            0
  unfolding extract_inode_names
  extract-root e f = rw (extract_inode_names, read, e, f) refl

  extract-inner :
      (bit_and (u32 inode 52) ifmt == ifdir) ≡ true
      → (bit_and (inode (btroot_offset + 16)) 2 == 0) ≡ true
      → names_at a byte_offset
        ≡ descend a.depth a.chain a.read a.log2blocksize a.blocks a.heap a.stale
            (pxd_at inode ((btroot_offset + slot_offset (inode (btroot_offset + 24))) % 2 ^ 64))
  unfolding extract_inode_names
  extract-inner e f = rw (extract_inode_names, read, e, f) refl

extract_inode_names-Returns :
    (a : Access) (byte_offset : ℕ) → NamesEnd a byte_offset → Returns (names_at a byte_offset)
extract_inode_names-Returns a byte_offset (inl (why, e)) = ([], extract-refused a byte_offset why e)
extract_inode_names-Returns a byte_offset (inr (inode, e, ends)) =
    elim (Bool-cases (bit_and (u32 inode 52) ifmt == ifdir)) [
      | inr other ↦ ([], extract-other a byte_offset inode e other)
      | inl directory ↦ elim (Bool-cases (bit_and (inode (btroot_offset + 16)) 2 == 0)) [
        | inr leaf ↦
            let (names, f, l) =
              entries_from-returns a.heap (shifted inode btroot_offset)
                (λ i. inode (btroot_offset + (24 + i))) (signed_count (inode (btroot_offset + 17)))
                0 in
            (names, rw (extract-root a byte_offset inode e directory leaf) f)
        | inl inner ↦ elim ends [
          | inl other ↦ absurd (ground (arith, other, directory))
          | inr (inl leaf) ↦ absurd (ground (arith, leaf, inner))
          | inr (inr below) ↦
              Returns-along a _ _ (extract-inner a byte_offset inode e directory inner) (
                descend-Returns a a.depth
                  (pxd_at inode
                    ((btroot_offset + slot_offset (inode (btroot_offset + 24))) % 2 ^ 64))
                  below)
        ]
      ]
    ]

-- If the inode is a directory, its names end.
abbrev pub IsListable : Access → Inode → Type 0
IsListable a i = i.kind ≡ dir → NamesEnd a i.byte_offset

by_kind :
    (a : Access) (i : Inode) (k : Kind) → i.kind ≡ k → IsListable a i → Returns (inode_names a i)
unfolding inode_names
by_kind a i dir e ends =
    let (names, f) = extract_inode_names-Returns a i.byte_offset (ends e) in (names, rw (e, f) refl)
by_kind a i file e ends = ([], rw e refl)
by_kind a i unallocated e ends = ([], rw e refl)
by_kind a i symlink e ends = ([], rw e refl)
by_kind a i special e ends = ([], rw e refl)

pub inode_names-Returns : (a : Access) (i : Inode) → IsListable a i → Returns (inode_names a i)
inode_names-Returns a i ends = by_kind a i i.kind refl ends
