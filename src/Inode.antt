-- ===== src/Inode.antt =====
-- src/inode.h, src/inode.cpp, src/inodefactory.cpp and the classes below Inode: the objects, their
-- counters and times, and their creation from bytes. An object's `dinode` is what `get_dinode`
-- reads from its place on the device, which nothing writes.
pub mod Factory
pub mod Times
pub mod Cache
use Prim.Native.Nat.{bit_and}
use jfsrec.Prelude.{
  ℕ, ◌+◌, Bool, true, false, not, ◌||◌, Option, none, some, List, [], ◌∷◌, ltb, ◌==◌, if◌then◌else◌,
}
use jfsrec.Device.{Stream, Device, Read, ok, ◌>>=◌, read_bytes}
use jfsrec.Disk.{
  Image, first_bytes, u32, Pxd, Timestruc, Dinode, dinode_at, btroot_offset, ifmt, ifdir, ifreg,
  iflnk, ifblk, ifchr, iffifo, ifsock,
}

-- The classes that inherit from Inode.
pub data Kind : Type 0 where
  file dir unallocated symlink special : Kind

-- A pointer to an object.
abbrev pub Ptr : Type 0
Ptr = ℕ

-- A `std::string`, as its bytes.
abbrev pub Name : Type 0
Name = List ℕ

pub record Inode : Type 0 where
  pub kind : Kind
  pub byte_offset : ℕ
  pub parent : Option Ptr
  pub name : Name
  pub parent_di_number : ℕ
  pub di_number : ℕ
  pub is_marked : Bool
  -- of a DirInode
  pub siblings : List Ptr
  pub dinode : Dinode

-- The constructor of the class: `idotdot` stands at offset 20 of the tree's root.
unfoldable pub new_inode : Kind → Image → ℕ → Inode
unfolding dinode_at u32
new_inode k img offset = record {
  kind = k;
  byte_offset = offset;
  parent = none;
  name = [];
  parent_di_number = u32 img (btroot_offset + 20);
  di_number = (dinode_at img).di_number;
  is_marked = false;
  siblings = [];
  dinode = dinode_at img;
}

-- The tests on `di_nlink` and `di_mode` that both functions of the factory make, in their order.
unfoldable pub kind_of : Dinode → Option Kind
kind_of ip =
    let format = bit_and ip.di_mode ifmt in
    if ip.di_nlink == 0
    then some unallocated
    else if format == ifreg
    then some file
    else if format == ifdir
    then some dir
    else if format == iflnk
    then some symlink
    else if format == ifblk || (format == ifchr || (format == iffifo || format == ifsock))
    then some special
    else none

created : Image → ℕ → Option Kind → Option Inode
unfolding new_inode
created img offset none = none
created img offset (some k) = some (new_inode k img offset)

-- `none` is NULL.
unfoldable pub create_if_sane : Image → ℕ → Option Inode
unfolding kind_of created
create_if_sane di offset =
    let ip = dinode_at di in
    if not (ip.di_ixpxd.len == 4) || not (ip.di_fileset == 16)
    then none
    else created di offset (kind_of ip)

-- The object of 512 bytes read from the device, with no test of sanity; `stale` is what the
-- uninitialised buffer held.
unfoldable pub read_from_disk : Stream → Device → Image → ℕ → Read (Option Inode)
unfolding read_bytes kind_of created first_bytes
read_from_disk f d stale offset = do
  ip ← read_bytes f d offset 512 stale
  ok (created (first_bytes 512 ip) offset (kind_of (dinode_at (first_bytes 512 ip))))

-- `operator<` on times.
unfoldable pub time_lt : Timestruc → Timestruc → Bool
time_lt t1 t2 =
    if t1.tv_sec == t2.tv_sec then ltb t1.tv_nsec t2.tv_nsec else ltb t1.tv_sec t2.tv_sec

pub record InodeCounter : Type 0 where
  pub num_unall : ℕ
  pub num_files : ℕ
  pub num_dirs : ℕ
  pub num_symlinks : ℕ
  pub num_specials : ℕ

-- `count` of each class.
unfoldable pub count : Kind → InodeCounter → InodeCounter
count file ic = record ic { num_files = ic.num_files + 1 }
count dir ic = record ic { num_dirs = ic.num_dirs + 1 }
count unallocated ic = record ic { num_unall = ic.num_unall + 1 }
count symlink ic = record ic { num_symlinks = ic.num_symlinks + 1 }
count special ic = record ic { num_specials = ic.num_specials + 1 }
