-- ===== src/Inode/Factory.antt =====
-- src/inodefactory.cpp: which bytes become an inode, and of which class.
use Prim.Native.Nat.{bit_and}
use mathlib.Core.Option
use jfsrec.Prelude.{
  ℕ, ◌≡◌, ◌≢◌, ◌⊎◌, ◌↔◌, inl, inr, Option, none, some, arith, Bool-cases, not, ◌||◌, ◌==◌, ap, refl,
  sym, Bool, true, false, if◌then◌else◌, ◌∙◌,
}
use jfsrec.Device.{Stream, Device, ok, read_bytes}
use jfsrec.Disk.{
  Image, first_bytes, Dinode, dinode_at, ifmt, ifdir, ifreg, iflnk, ifblk, ifchr, iffifo, ifsock,
}
use jfsrec.Inode.{
  Inode, Kind, file, dir, unallocated, symlink, special, new_inode, kind_of, create_if_sane,
  read_from_disk, created,
}

-- What makes an inode of each class, as a relation between the record on disk and the class.
pub data HasKind (ip : Dinode) : Kind → Type 0 where
  is_unallocated : ip.di_nlink ≡ 0 → HasKind ip unallocated
  is_file : ip.di_nlink ≢ 0 → bit_and ip.di_mode ifmt ≡ ifreg → HasKind ip file
  is_dir : ip.di_nlink ≢ 0 → bit_and ip.di_mode ifmt ≡ ifdir → HasKind ip dir
  is_symlink : ip.di_nlink ≢ 0 → bit_and ip.di_mode ifmt ≡ iflnk → HasKind ip symlink
  is_special :
      ip.di_nlink ≢ 0
      → (bit_and ip.di_mode ifmt ≡ ifblk)
        ⊎ (bit_and ip.di_mode ifmt ≡ ifchr)
        ⊎ (bit_and ip.di_mode ifmt ≡ iffifo)
        ⊎ (bit_and ip.di_mode ifmt ≡ ifsock)
      → HasKind ip special

kind_of_complete : (ip : Dinode) (k : Kind) → HasKind ip k → kind_of ip ≡ some k
unfolding kind_of
kind_of_complete ip unallocated (is_unallocated h) = ground arith
kind_of_complete ip file (is_file h e) = ground arith
kind_of_complete ip dir (is_dir h e) = ground arith
kind_of_complete ip symlink (is_symlink h e) = ground arith
kind_of_complete ip special (is_special h e) = ground arith

kind_of-sound : (ip : Dinode) (k : Kind) → kind_of ip ≡ some k → HasKind ip k
unfolding kind_of
kind_of-sound ip unallocated e = is_unallocated (ground arith)
kind_of-sound ip file e = is_file (ground arith) (ground arith)
kind_of-sound ip dir e = is_dir (ground arith) (ground arith)
kind_of-sound ip symlink e = is_symlink (ground arith) (ground arith)
kind_of-sound ip special e = is_special (ground arith) (ground arith)

created-kind :
    (di : Image) (offset : ℕ) (k : Kind) (o : Option Kind)
    → created di offset o ≡ some (new_inode k di offset)
    → o ≡ some k
unfolding created
created-kind di offset k none e = cc
created-kind di offset k (some k') e = ap (Option.map (λ i. i.kind)) e

created-some :
    (di : Image) (offset : ℕ) (k : Kind) → created di offset (some k) ≡ some (new_inode k di offset)
unfolding created
created-some di offset k = refl

sane-created :
    (di : Image) (offset : ℕ)
    → (dinode_at di).di_ixpxd.len ≡ 4
    → (dinode_at di).di_fileset ≡ 16
    → create_if_sane di offset ≡ created di offset (kind_of (dinode_at di))
unfolding create_if_sane
sane-created di offset four sixteen = ground arith

-- 512 bytes become an inode of the class `k` exactly when its inode extent has 4 blocks, its
-- fileset is 16 and its link count and mode are those of the class.
pub create_if_sane_iff :
    (di : Image) (offset : ℕ) (k : Kind)
    → (create_if_sane di offset ≡ some (new_inode k di offset)) ↔ (
        ((dinode_at di).di_ixpxd.len ≡ 4)
        × ((dinode_at di).di_fileset ≡ 16)
        × HasKind (dinode_at di) k)
unfolding create_if_sane
create_if_sane_iff di offset k =
    let ip = dinode_at di in
    (
      λ e. elim (Bool-cases (not (ip.di_ixpxd.len == 4) || not (ip.di_fileset == 16))) [
        | inl bad ↦ absurd (Option.none-ne-some _ (rw bad at e))
        | inr good ↦
            let e' = created-kind di offset k (kind_of ip) (rw good at e) in
            (ground arith, ground arith, kind_of-sound ip k e')
      ],
      λ (four, sixteen, has).
          sane-created di offset four sixteen
          ∙ ap (created di offset) (kind_of_complete ip k has)
          ∙ created-some di offset k,
    )

-- Where 512 bytes were accepted while scanning, the offset written down reads them back from the disk
-- as the same object.
pub read_from_disk-create :
    (f : Stream) (d : Device) (stale di : Image) (offset : ℕ) (i : Inode)
    → create_if_sane (first_bytes 512 di) offset ≡ some i
    → read_bytes f d offset 512 stale ≡ ok di
    → read_from_disk f d stale offset ≡ ok (some i)
unfolding create_if_sane read_from_disk
read_from_disk-create f d stale di offset i e r = rw r (ground arith)

created-parent :
    (img : Image) (offset : ℕ) (k : Option Kind) (i : Inode)
    → created img offset k ≡ some i
    → i.parent ≡ none
unfolding created new_inode
created-parent img offset none i e = cc
created-parent img offset (some k) i e =
    let same : new_inode k img offset ≡ i = cc in ap (λ x. x.parent) (sym same)

unless {ℓ} :
    {A : Type ℓ} (b : Bool) (o : Option A) (a : A) → (if b then none else o) ≡ some a → o ≡ some a
unless true o a e = cc
unless false o a e = e

pub create_if_sane-parent :
    (di : Image) (offset : ℕ) (i : Inode) → create_if_sane di offset ≡ some i → i.parent ≡ none
unfolding create_if_sane
create_if_sane-parent di offset i e =
    let ip = dinode_at di in
    created-parent di offset (kind_of ip) i (
      unless (not (ip.di_ixpxd.len == 4) || not (ip.di_fileset == 16))
        (created di offset (kind_of ip)) i e)

created-offset :
    (img : Image) (offset : ℕ) (k : Option Kind) (i : Inode)
    → created img offset k ≡ some i
    → i.byte_offset ≡ offset
unfolding created new_inode
created-offset img offset none i e = cc
created-offset img offset (some k) i e =
    let same : new_inode k img offset ≡ i = cc in ap (λ x. x.byte_offset) (sym same)

pub create_if_sane-offset :
    (di : Image) (offset : ℕ) (i : Inode)
    → create_if_sane di offset ≡ some i
    → i.byte_offset ≡ offset
unfolding create_if_sane
create_if_sane-offset di offset i e =
    let ip = dinode_at di in
    created-offset di offset (kind_of ip) i (
      unless (not (ip.di_ixpxd.len == 4) || not (ip.di_fileset == 16))
        (created di offset (kind_of ip)) i e)
