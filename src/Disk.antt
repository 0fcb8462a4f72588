-- ===== src/Disk.antt =====
-- src/jfs_types.h, src/jfs_dinode.h, src/jfs_dtree.h, src/jfs_xtree.h: the on-disk structures, read
-- from the bytes of a buffer as a little-endian machine with the layout of the comments reads them.
pub mod Extent
pub mod Dasd
use jfsrec.Prelude.{ℕ, ◌+◌, ◌-◌, ◌*◌, ◌/◌, ◌%◌, ◌^◌, ltb, if◌then◌else◌, Bool}

-- The bytes of a buffer, by their offset.
abbrev pub Image : Type 0
Image = ℕ → ℕ

abbrev pub shifted : Image → ℕ → Image
shifted img o i = img (o + i)

-- The bytes of a structure of so many bytes, alone.
unfoldable pub first_bytes : ℕ → Image → Image
first_bytes n img i = if ltb i n then img i else 0

unfoldable pub u16 : Image → ℕ → ℕ
u16 img o = img o + 256 * img (o + 1)

unfoldable pub u24 : Image → ℕ → ℕ
u24 img o = img o + 256 * img (o + 1) + 65536 * img (o + 2)

unfoldable pub u32 : Image → ℕ → ℕ
unfolding u16
u32 img o = u16 img o + 65536 * u16 img (o + 2)

unfoldable pub u64 : Image → ℕ → ℕ
unfolding u32
u64 img o = u32 img o + 2 ^ 32 * u32 img (o + 4)

pub record Timestruc : Type 0 where
  pub tv_sec : ℕ
  pub tv_nsec : ℕ

pub record Pxd : Type 0 where
  pub len : ℕ
  pub addr1 : ℕ
  pub addr2 : ℕ

pub record Dxd : Type 0 where
  pub flag : ℕ
  pub size : ℕ
  pub len : ℕ
  pub addr1 : ℕ
  pub addr2 : ℕ

pub record Xad : Type 0 where
  pub flag : ℕ
  pub off1 : ℕ
  pub off2 : ℕ
  pub len : ℕ
  pub addr1 : ℕ
  pub addr2 : ℕ

unfoldable pub timestruc_at : Image → ℕ → Timestruc
unfolding u32
timestruc_at img o = record { tv_sec = u32 img o; tv_nsec = u32 img (o + 4) }

unfoldable pub pxd_at : Image → ℕ → Pxd
unfolding u24 u32
pxd_at img o = record { len = u24 img o; addr1 = img (o + 3); addr2 = u32 img (o + 4) }

unfoldable pub dxd_at : Image → ℕ → Dxd
unfolding u24 u32
dxd_at img o = record {
  flag = img o;
  size = u32 img (o + 4);
  len = u24 img (o + 8);
  addr1 = img (o + 11);
  addr2 = u32 img (o + 12);
}

unfoldable pub xad_at : Image → ℕ → Xad
unfolding u24 u32
xad_at img o = record {
  flag = img o;
  off1 = img (o + 3);
  off2 = u32 img (o + 4);
  len = u24 img (o + 8);
  addr1 = img (o + 11);
  addr2 = u32 img (o + 12);
}

-- `struct dinode`: the base area, and the bytes of the extension area from `di_btroot` on.
-- `di_fileset` and the other signed fields are their bit patterns.
pub record Dinode : Type 0 where
  pub di_inostamp : ℕ
  pub di_fileset : ℕ
  pub di_number : ℕ
  pub di_gen : ℕ
  pub di_ixpxd : Pxd
  pub di_size : ℕ
  pub di_nblocks : ℕ
  pub di_nlink : ℕ
  pub di_uid : ℕ
  pub di_gid : ℕ
  pub di_mode : ℕ
  pub di_atime : Timestruc
  pub di_ctime : Timestruc
  pub di_mtime : Timestruc
  pub di_otime : Timestruc
  pub di_acl : Dxd
  pub di_ea : Dxd
  pub di_next_index : ℕ
  pub di_acltype : ℕ
  pub di_btroot : Image

-- The 96 bytes of the directory table stand between offset 128 and the root of the tree.
abbrev pub btroot_offset : ℕ
btroot_offset = 224

unfoldable pub dinode_at : Image → Dinode
unfolding u32 u64 pxd_at dxd_at timestruc_at
dinode_at img = record {
  di_inostamp = u32 img 0;
  di_fileset = u32 img 4;
  di_number = u32 img 8;
  di_gen = u32 img 12;
  di_ixpxd = pxd_at img 16;
  di_size = u64 img 24;
  di_nblocks = u64 img 32;
  di_nlink = u32 img 40;
  di_uid = u32 img 44;
  di_gid = u32 img 48;
  di_mode = u32 img 52;
  di_atime = timestruc_at img 56;
  di_ctime = timestruc_at img 64;
  di_mtime = timestruc_at img 72;
  di_otime = timestruc_at img 80;
  di_acl = dxd_at img 88;
  di_ea = dxd_at img 104;
  di_next_index = u32 img 120;
  di_acltype = u32 img 124;
  di_btroot = shifted img btroot_offset;
}

abbrev pub ifmt : ℕ
ifmt = 0xF000

abbrev pub ifdir : ℕ
ifdir = 0x4000

abbrev pub ifreg : ℕ
ifreg = 0x8000

abbrev pub iflnk : ℕ
iflnk = 0xA000

abbrev pub ifblk : ℕ
ifblk = 0x6000

abbrev pub ifchr : ℕ
ifchr = 0x2000

abbrev pub iffifo : ℕ
iffifo = 0x1000

abbrev pub ifsock : ℕ
ifsock = 0xC000
