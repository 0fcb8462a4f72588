-- ===== src/Examples.antt =====
-- Inputs on which the theorems are applied, for the code of src/: objects, vectors and devices.
mod Streams
mod Text
mod Devices
mod Vectors
mod Trees
mod Runs
mod Files
mod Directories
mod Resuming
mod Bytes
use jfsrec.Prelude.{ℕ, ◌+◌, ◌*◌, ◌%◌, Option, none, some, List, [], ◌∷◌, false, true, Bool}
use jfsrec.Device.{Device, Stream, Read, ok}
use jfsrec.Disk.{Image, Pxd, Dxd, Timestruc, Dinode, Xad}
use jfsrec.Inode.{Ptr, Inode, Kind}
use jfsrec.Vector.{Heap, InodeVector}

abbrev pub zeros : Image
zeros i = 0

-- A disk with changing bytes.
abbrev pub striped : Image
striped i = i % 256

abbrev pub pxd : Pxd
pxd = record { len = 4; addr1 = 0; addr2 = 100 }

abbrev pub dxd : Dxd
dxd = record { flag = 0; size = 0; len = 0; addr1 = 0; addr2 = 0 }

abbrev pub xad : Xad
xad = record { flag = 0; off1 = 0; off2 = 3; len = 20; addr1 = 0; addr2 = 7 }

-- An extent of 4 GiB, with blocks of 4096 bytes.
abbrev pub huge_xad : Xad
huge_xad = record { flag = 0; off1 = 0; off2 = 0; len = 1048576; addr1 = 0; addr2 = 7 }

abbrev time : ℕ → Timestruc
time s = record { tv_sec = s; tv_nsec = 0 }

-- A dinode with a stamp, a number, a link count and a time of creation.
abbrev pub dinode : ℕ → ℕ → ℕ → ℕ → Dinode
dinode stamp number links created = record {
  di_inostamp = stamp;
  di_fileset = 16;
  di_number = number;
  di_gen = 1;
  di_ixpxd = pxd;
  di_size = 0;
  di_nblocks = 0;
  di_nlink = links;
  di_uid = 0;
  di_gid = 0;
  di_mode = 0x81A4;
  di_atime = time 5;
  di_ctime = time 5;
  di_mtime = time 5;
  di_otime = time created;
  di_acl = dxd;
  di_ea = dxd;
  di_next_index = 0;
  di_acltype = 0;
  di_btroot = zeros;
}

abbrev pub object : ℕ → ℕ → Option Ptr → Dinode → Inode
object number offset parent ip = record {
  kind = Kind.file;
  byte_offset = offset;
  parent = parent;
  name = 0x61 ∷ [];
  parent_di_number = 2;
  di_number = number;
  is_marked = false;
  siblings = [];
  dinode = ip;
}

-- Objects at 1, 2 and so on: the numbers repeat after five, a later object is created later, and
-- every third has no link.
abbrev pub heap : Heap
heap p = object (p % 5) (512 * p) none (dinode 7 (p % 5) (p % 3) (10 + p))

abbrev pub vector : InodeVector
vector = record {
  inodes = 1 ∷ 2 ∷ 6 ∷ 3 ∷ [];
  invalidated_inodes = 9 ∷ [];
  di_number_index = [];
  di_number_index_ok = false;
}

abbrev pub device : Device
device = record { blocksize = 4096; log2blocksize = 12; fssize = 8192 }

abbrev pub stream : Stream
stream = record { seek = λ o. true; fread = λ o n. 1 ∷ 2 ∷ [] }
