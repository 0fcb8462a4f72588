-- ===== src/Examples/Devices.antt =====
-- The theorems on src/device.cpp, src/inodefactory.cpp, the sweep of src/inodescanner.cpp,
-- src/fileinode.cpp and src/dirinode.cpp, at examples.
use jfsrec.Prelude.{ℕ, ◌+◌, ◌-◌, ◌*◌, ◌/◌, ◌^◌, ◌≤◌, ◌≡◌, ◌↔◌, refl, true, some, List, arith}
use jfsrec.Device.{Device, ok, open_device, regular_file, read_bytes}
use jfsrec.Device.Reads.{read_bytes-ReadsDisk}
use jfsrec.Disk.{Image, dinode_at, shifted}
use jfsrec.Disk.Extent.{length_xad, offset_xad, address_xad}
use jfsrec.Inode.{Inode, Kind, create_if_sane, new_inode}
use jfsrec.Inode.Factory.{HasKind, create_if_sane_iff}
use jfsrec.Scanner.{do_scan}
use jfsrec.Scanner.Sweep.Complete.{AllSane, do_scan_complete}
use jfsrec.FileInode.{write_extent_to_file, extent_bytes, fwrite}
use jfsrec.FileInode.Copy.{write_extent_to_file-copies, write_extent_to_file-wraps}
use jfsrec.Examples.Streams.{stream_of, stream_of-IsReadable}
use jfsrec.Examples.{zeros, striped, xad, huge_xad}

-- Devices of 16 MiB and two sectors.
abbrev small_blocks : Device
small_blocks = record { blocksize = 512; log2blocksize = 9; fssize = 2 ^ 24 + 1024 }

abbrev large_blocks : Device
large_blocks = record { blocksize = 4096; log2blocksize = 12; fssize = 2 ^ 24 + 1024 }

do_scan_complete_example :
    (found : List Inode) × (do_scan
        (2 ^ 28)
        (read_bytes (stream_of striped) small_blocks)
        (2 ^ 24 + 1024)
        512
        zeros
        (3 * 512)
      ≡ some (ok found))
    × AllSane striped ((2 ^ 24 + 1024) / 512 - 3) 3 found
do_scan_complete_example =
    do_scan_complete (read_bytes (stream_of striped) small_blocks) striped (2 ^ 24 + 1024) 512 3
      (2 ^ 28) zeros
      (read_bytes-ReadsDisk (stream_of striped) small_blocks striped
        (stream_of-IsReadable striped (2 ^ 24 + 1024)))
      (omega arith) (omega arith) (omega arith) (omega arith) (omega arith) (omega arith)

xad_rounds : extent_bytes 4096 xad ≤ 2 * 65536
unfolding extent_bytes length_xad
xad_rounds = omega arith

xad_on_device : address_xad xad * 4096 + extent_bytes 4096 xad ≤ 2 ^ 24 + 1024
unfolding extent_bytes length_xad address_xad
xad_on_device = omega arith

write_extent_to_file-copies_example :
    (b new : Image) × (write_extent_to_file 3
        (read_bytes (stream_of striped) large_blocks)
        4096
        xad
        zeros
        zeros
      ≡ some (ok (b, new)))
    × ((i : ℕ)
        → new i
          ≡ fwrite
              (offset_xad xad * 4096)
              (extent_bytes 4096 xad)
              (shifted striped (address_xad xad * 4096))
              zeros
              i)
write_extent_to_file-copies_example =
    write_extent_to_file-copies 2 (read_bytes (stream_of striped) large_blocks) striped
      (2 ^ 24 + 1024) 4096 xad zeros zeros
      (read_bytes-ReadsDisk (stream_of striped) large_blocks striped
        (stream_of-IsReadable striped (2 ^ 24 + 1024)))
      xad_on_device xad_rounds

opens :
    open_device true (some (regular_file 5000)) 2048
    ≡ some (record { blocksize = 2048; log2blocksize = 11; fssize = 4096 })
unfolding open_device
opens = refl

create_if_sane_iff_example :
    (create_if_sane striped 512 ≡ some (new_inode Kind.file striped 512)) ↔ (
      ((dinode_at striped).di_ixpxd.len ≡ 4)
      × ((dinode_at striped).di_fileset ≡ 16)
      × HasKind (dinode_at striped) Kind.file)
create_if_sane_iff_example = create_if_sane_iff striped 512 Kind.file

huge_length : length_xad huge_xad * 4096 ≡ 1 * 2 ^ 32
unfolding length_xad
huge_length = refl

write_extent_to_file-wraps_example :
    write_extent_to_file 1 (read_bytes (stream_of striped) large_blocks) 4096 huge_xad zeros zeros
    ≡ some (ok (zeros, zeros))
write_extent_to_file-wraps_example =
    write_extent_to_file-wraps 0 (read_bytes (stream_of striped) large_blocks) 4096 1 huge_xad zeros
      zeros huge_length
