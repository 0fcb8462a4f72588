-- ===== src/Examples/Resuming.antt =====
-- The theorems on runs of src/jfsrec.cpp, with files of an earlier run, without, and on a small
-- device, at examples.
use jfsrec.Prelude.{
  ℕ, ◌*◌, ◌%◌, ◌≡◌, refl, true, some, none, List, [], ◌∷◌, length, ◌==◌, if◌then◌else◌, arith,
}
use jfsrec.Device.{Device, Stream, regular_file, open_device}
use jfsrec.Disk.{Image}
use jfsrec.Inode.{Inode, Kind, new_inode, create_if_sane}
use jfsrec.Scanner.{slot}
use jfsrec.Scanner.Sweep.Found.{IsFound}
use jfsrec.Scanner.Stages.{stage}
use jfsrec.Scanner.Phases.{Progress}
use jfsrec.Scanner.Phases.Stored.{offsets}
use jfsrec.Main.{Machine, Outcome, main}
use jfsrec.Main.Complete.Exits.{main-small, main-end}
use jfsrec.Examples.{zeros}
use jfsrec.Examples.Runs.{given, options, size, opened_device, starts, opens, digit}
use jfsrec.Examples.Streams.{stream_of, stream_of-IsReadable}

-- A disk whose every 512 bytes hold the same sane inode of a file.
abbrev field : ℕ → ℕ
field n =
    if n == 4 then 16 else if n == 16 then 4 else if n == 40 then 1 else if n == 53 then 0x81 else 0

abbrev full : Image
full i = field (i % 512)

abbrev inode_at : ℕ → Inode
inode_at k = new_inode Kind.file (slot full k) (k * 512)

first_sane : create_if_sane (slot full 0) 0 ≡ some (inode_at 0)
unfolding create_if_sane new_inode slot
first_sane = refl

last_sane : create_if_sane (slot full 32769) 16777728 ≡ some (inode_at 32769)
unfolding create_if_sane new_inode slot
last_sane = refl

first_IsFound : IsFound full 32770 (inode_at 0)
unfolding new_inode
first_IsFound = (0, omega arith, refl, first_sane)

last_IsFound : IsFound full 32770 (inode_at 32769)
unfolding new_inode
last_IsFound = (32769, omega arith, refl, last_sane)

abbrev machine : Stream → ℕ → Progress → Machine ℕ ℕ
machine f n files = record {
  given = given;
  opens = true;
  stat = some (regular_file n);
  stream = f;
  chunk = zeros;
  stale = zeros;
  junk = 0;
  flag = true;
  files = files;
  heap = [];
  print = digit;
  search = λ e path. e == length path;
}

abbrev begun : List Inode → Progress
begun is = record { positions = λ t. none; invalidated = none; inoscan = some (offsets is) }

abbrev nothing : Progress
nothing = record { positions = λ t. none; invalidated = none; inoscan = none }

-- post-scan.txt has the first inode, and invalidated.txt the last one.
abbrev stored : Progress
stored = record {
  positions = λ t. if stage t == 0 then some (offsets (inode_at 0 ∷ [])) else none;
  invalidated = some (offsets (inode_at 32769 ∷ []));
  inoscan = none;
}

-- The inode of the last 512 bytes is the last of inoscan.txt.
main-end_example :
    main 7 (machine (stream_of full) size (begun (inode_at 0 ∷ inode_at 32769 ∷ [])))
    ≡ Outcome.exits
unfolding new_inode
main-end_example =
    main-end 6 (machine (stream_of full) size (begun (inode_at 0 ∷ inode_at 32769 ∷ []))) options
      (regular_file size) opened_device full (inode_at 0) (inode_at 32769 ∷ []) starts refl opens
      (stream_of-IsReadable full size) (omega arith) (omega arith) (λ t. refl) refl
      (first_IsFound, (last_IsFound, tt)) refl

small_opens :
    open_device true (some (regular_file 4096)) 512
    ≡ some (record { blocksize = 512; log2blocksize = 9; fssize = 4096 })
unfolding open_device
small_opens = refl

main-small_example : main 2 (machine (stream_of full) 4096 nothing) ≡ Outcome.exits
main-small_example =
    main-small 0 (machine (stream_of full) 4096 nothing) options (regular_file 4096)
      (record { blocksize = 512; log2blocksize = 9; fssize = 4096 }) starts refl small_opens
      (omega arith) (λ t. refl) refl
