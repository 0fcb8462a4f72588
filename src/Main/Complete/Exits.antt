-- ===== src/Main/Complete/Exits.antt =====
-- src/jfsrec.cpp: runs that end in `exit(1)` because the sweep is refused a read.
use jfsrec.Prelude.{
  ℕ, suc, ◌+◌, ◌*◌, ◌/◌, ◌^◌, ◌<◌, ◌≤◌, ◌≡◌, refl, sym, ap, ◌∙◌, true, Option, none, some, List, [],
  ◌∷◌, map, All, ltb, arith,
}
use jfsrec.Device.{
  Device, Stat, Stream, Reason, invalid_read, ok, open_device, get_size_bytes, read_bytes,
  zero_bytes, beyond_file_system,
}
use jfsrec.Device.Reads.{IsReadable, open_device-IsOpened}
use jfsrec.Disk.{Image}
use jfsrec.Inode.{Inode}
use jfsrec.Scanner.{chunk_blocks, do_scan}
use jfsrec.Scanner.Sweep.{RefusesBeyond, do_scan-small, do_scan-end}
use jfsrec.Scanner.Sweep.Found.{IsFound, last_of}
use jfsrec.Scanner.Stages.{Saved, restore}
use jfsrec.Scanner.Phases.Stored.{offsets, repeat_last}
use jfsrec.Scanner.Phases.Refused.{run_scan-exits}
use jfsrec.Options.{Options, init}
use jfsrec.Main.{Machine, Outcome, source, main, started, opened, recovered}
use jfsrec.Main.Fit.{blocksize-fits}
use jfsrec.Main.Complete.{at_stat, opened-room, restore-nothing}
use jfsrec.Main.Complete.Again.{restored}

read_bytes-RefusesBeyond : (f : Stream) (d : Device) → RefusesBeyond (read_bytes f d) d.fssize
unfolding read_bytes
read_bytes-RefusesBeyond f d o n buffer lt =
    let beyond : ltb d.fssize o ≡ true = ground arith in (beyond_file_system, rw beyond refl)

read_bytes-zero :
    (f : Stream) (d : Device) (o : ℕ) (buffer : Image)
    → f.seek o ≡ true
    → o ≤ d.fssize
    → read_bytes f d o 0 buffer ≡ invalid_read zero_bytes
unfolding read_bytes
read_bytes-zero f d o buffer e le = ground arith

module _ {File : Type 0} {Regex : Type 0} where
  main-exits :
      (fuel : ℕ) (m : Machine File Regex) (o : Options File Regex) (st : Stat) (d : Device)
      (saved : List (Option Inode)) (start : ℕ) (why : Reason)
      → init m.given ≡ some o
      → m.stat ≡ some st
      → open_device m.opens (some st) o.blocksize ≡ some d
      → ((t : Saved) → m.files.positions t ≡ none)
      → restore (source m st d).fetch m.junk m.files.inoscan ≡ ok (saved, start)
      → do_scan fuel (read_bytes m.stream d) (get_size_bytes st) d.blocksize m.chunk start
        ≡ some (invalid_read why)
      → main fuel m ≡ Outcome.exits
  unfolding main source
  main-exits fuel m o st d saved start why given stat opening unsaved e f =
      ap (started fuel m) given
      ∙ at_stat fuel m o st m.stat stat
      ∙ ap (opened fuel m o (some st)) opening
      ∙ ap (recovered fuel m o st d)
          (run_scan-exits fuel (source m st d) m.files saved start why unsaved e f)

  -- With the options given, on a device that opens and that is smaller than a chunk, 128 MiB with
  -- blocks of 4096 bytes, a run without files of an earlier one ends by `exit(1)`, for at the latest
  -- the second read is refused. Nothing is recovered. Fuel for two rounds is enough.
  pub main-small :
      (fuel : ℕ) (m : Machine File Regex) (o : Options File Regex) (st : Stat) (d : Device)
      → init m.given ≡ some o
      → m.stat ≡ some st
      → open_device m.opens (some st) o.blocksize ≡ some d
      → d.fssize < chunk_blocks * d.blocksize
      → ((t : Saved) → m.files.positions t ≡ none)
      → m.files.inoscan ≡ none
      → main (suc (suc fuel)) m ≡ Outcome.exits
  unfolding source
  main-small fuel m o st d given stat opening small unsaved fresh =
      let (op, blocks) = open_device-IsOpened m.opens st o.blocksize opening in
      let (pos, le) = blocksize-fits o.blocksize blocks in
      let (why, e) =
        do_scan-small fuel (read_bytes m.stream d) d.fssize d.blocksize m.chunk
          (read_bytes-RefusesBeyond m.stream d) small (omega (arith, op.block, le)) in
      main-exits (suc (suc fuel)) m o st d [] 0 why given stat opening unsaved
        (restore-nothing (source m st d) m.files.inoscan fresh)
        (ap (λ k. do_scan (suc (suc fuel)) (read_bytes m.stream d) k d.blocksize m.chunk 0)
            (sym op.sized)
          ∙ e)

  -- With the options given, on a device that opens, that has at least a chunk and less than 2^63
  -- bytes, and whose bytes are read without errors, a run that finds no saved positions, and in
  -- inoscan.txt the offsets of sane inodes of the disk, the last of them the last 512 bytes of the
  -- device, ends by `exit(1)`: there are 0 bytes left to read, which is refused. Fuel for one round
  -- is enough.
  pub main-end :
      (fuel : ℕ) (m : Machine File Regex) (o : Options File Regex) (st : Stat) (d : Device)
      (disk : Image) (i : Inode) (is : List Inode)
      → init m.given ≡ some o
      → m.stat ≡ some st
      → open_device m.opens (some st) o.blocksize ≡ some d
      → IsReadable m.stream disk d.fssize
      → chunk_blocks * d.blocksize ≤ d.fssize
      → d.fssize < 2 ^ 63
      → ((t : Saved) → m.files.positions t ≡ none)
      → m.files.inoscan ≡ some (offsets (i ∷ is))
      → All (IsFound disk (d.fssize / 512)) (i ∷ is)
      → (last_of i is).byte_offset + 512 ≡ d.fssize
      → main (suc fuel) m ≡ Outcome.exits
  main-end fuel m o st d disk i is given stat opening readable room fits unsaved saved all ends =
      let (op, blocks) = open_device-IsOpened m.opens st o.blocksize opening in
      main-exits (suc fuel) m o st d (map (λ j. some j) (repeat_last (i ∷ is)))
        ((last_of i is).byte_offset + 512) zero_bytes given stat opening unsaved
        (restored m st d disk i is readable all (omega (arith, ends)) fits saved)
        (ap (do_scan (suc fuel) (read_bytes m.stream d) (get_size_bytes st) d.blocksize m.chunk)
            ends
          ∙ ap (λ k. do_scan (suc fuel) (read_bytes m.stream d) k d.blocksize m.chunk d.fssize)
              (sym op.sized)
          ∙ do_scan-end fuel (read_bytes m.stream d) d.fssize d.blocksize m.chunk zero_bytes
              (read_bytes-zero m.stream d d.fssize m.chunk (readable.seeks d.fssize) (omega arith))
              (omega (arith, opened-room m o st d opening)) room fits)
