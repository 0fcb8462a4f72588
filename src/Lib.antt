-- ===== src/Lib.antt =====
-- jfsrec recovers files from a damaged JFS file system that it only reads. The program runs in this
-- order, and the library has a module for each part.
--
-- Main (src/jfsrec.cpp): `main`, which runs the parts one after the other, with the files of an
-- earlier run or without; Main/Complete has what a whole run comes to, Main/Complete/Again a run that
-- finds such files, and Main/Complete/Exits runs that end early. Main/Fit has what the recovery needs
-- of the device.
-- Options (src/options.cpp, src/options.h): what `init` makes of the options given.
-- Device (src/device.cpp): opens the device or image, finds its size and reads bytes. What fopen64,
-- fstat64, the ioctl, fseeko64 and fread answer are arguments.
-- Disk (src/jfs_types.h, src/jfs_dinode.h, src/jfs_xtree.h): the structures on the disk, read from
-- the bytes of a buffer, the low byte first, the macros for extents in Disk/Extent, and those
-- for limits and the directory table in Disk/Dasd.
-- Inode (src/inode.cpp, src/inode.h, src/inodefactory.cpp): an object for each inode, made by
-- `create_if_sane` and `read_from_disk`. The classes below Inode are the constructors of `Kind`.
-- Objects live in a heap, a function from pointers to objects, since the vector, the parents and the
-- siblings share them. The dinode of an object is a field; the memory that `get_dinode` allocates
-- and `free_dinode` deletes is a model of its own, Inode/Cache.
-- Vector (src/inodevector.cpp): the container of inodes, with the invalidated ones and the index by
-- number. The index is a `std::map`, modelled in Prelude/Map.
-- Scanner (src/inodescanner.cpp): the sweep of `do_scan`, the phases behind it, put together in
-- Scanner/Postprocess, and in Scanner/Stages the order of the phases and how an interrupted run is
-- taken up again. Scanner/Phases carries the phases out over the objects, the vector and the files of
-- the progress directory, which are lists of offsets.
-- FileInode (src/fileinode.cpp): the extents of a file and their copies, the tree of its pages in
-- FileInode/Tree, `xads_sane` in FileInode/Sane, the files that are restored in FileInode/Restored, and when a file is skipped in
-- FileInode/Recover.
-- ByteOrder (src/jfs_byteorder.h): the conversions that give machines of both byte orders the numbers
-- that Disk reads.
-- DirInode (src/dirinode.cpp): the names in a directory, in DirInode/Names how a name stands in the
-- slots of an entry, in DirInode/Leaves and DirInode/Tree how the entries stand in the pages of a
-- directory, and in DirInode/Ends and DirInode/Listing when their reading ends.
-- Utf8 (src/unicode_to_utf8.cpp): the conversions that the names go through.
-- Unicode (src/jfs_unicode.h): strings of 16-bit characters in memory, compared in Unicode/Compare.
-- Recoverer (src/recoverer.cpp, and the walks of src/inode.cpp): parents, names, roots, paths and
-- the order in which files are recovered. Recoverer/Names has the names, Recoverer/Run `recover`
-- with the calls that it makes on the objects, and Recoverer/Effects what these calls come to: the
-- paths that boost and the file streams are given.
--
-- Definitions have the names of the functions, `Inode::get_root` is `get_root`, with helpers for
-- loops. Machine integers are natural numbers with the remainders written out where the code can
-- wrap. Loops that are not over a list run on fuel, with `none` for a run that needs more:
-- `scan_from` needs one unit for each round, and the size of the device is enough; `root_from` one
-- more than there are objects; the loop over the slots of a name 129, since a signed byte names 128
-- slots; `write_from` one for each 65536 bytes and one more; the string loop of Utf8 one more than
-- there are bytes. `loop_growing`, over a vector that grows, needs one more than there are inodes
-- and invalidated inodes together, `recover` more than inodes and twice the invalidated ones, and
-- `main` more than there are bytes on the device, or, where it loads saved positions, two for each of
-- them and four more. `extract_inode_names` takes fuel for the depth of the tree and for the pages of
-- the chain of leaves. `get_full_path` and the trees of pages take fuel for the depth of the calls, and
-- run out of it on cycles, as the code does: then the model of `recover`, which goes through the names
-- of all directories and, where an option asks for them, through all paths, runs out of fuel too.
--
-- Not modelled: printing and progress displays, the parsing of the command line, the search of an
-- expression in a path, the creation of directories and the metadata of the output, which are calls
-- of the boost library, the names that boost refuses, and the shell script
-- src/jfsrec_rm_logged_inode.
pub mod Prelude
pub mod Utf8
pub mod Unicode
pub mod Disk
pub mod Device
pub mod Inode
pub mod Vector
pub mod Scanner
pub mod Options
pub mod FileInode
pub mod ByteOrder
pub mod DirInode
pub mod Recoverer
pub mod Main
mod Examples
