-- ===== src/Main/Complete/Again.antt =====
-- src/jfsrec.cpp: runs that find files of an earlier run.
use jfsrec.Prelude.{
  ◌+◌, ◌/◌, ◌^◌, ◌<◌, ◌≤◌, ◌≡◌, ap, ◌∙◌, some, List, ◌∷◌, map, All, All-map, arith,
}
use jfsrec.Device.{Device, Stat, ok}
use jfsrec.Device.Reads.{IsReadable}
use jfsrec.Disk.{Image}
use jfsrec.Inode.{Inode, read_from_disk}
use jfsrec.Scanner.Sweep.Found.{IsFound, last_of}
use jfsrec.Scanner.Stages.{restore}
use jfsrec.Scanner.Phases.Stored.{offsets, repeat_last, restore-repeat_last}
use jfsrec.Options.{Options}
use jfsrec.Main.{Machine, source}
use jfsrec.Main.Fit.{IsFound-ReadsBack}

All-ReadsBack :
    {File : Type 0} {Regex : Type 0} (m : Machine File Regex) (d : Device) (disk : Image)
    (is : List Inode)
    → IsReadable m.stream disk d.fssize
    → All (IsFound disk (d.fssize / 512)) is
    → All (λ i. read_from_disk m.stream d m.stale i.byte_offset ≡ ok (some i)) is
All-ReadsBack m d disk is readable all =
    All-map (IsFound disk (d.fssize / 512))
      (λ i. read_from_disk m.stream d m.stale i.byte_offset ≡ ok (some i)) is
      (λ i found. IsFound-ReadsBack m.stream d disk m.stale i readable found) all

module _ {File : Type 0} {Regex : Type 0} where
  pub restored :
      (m : Machine File Regex) (st : Stat) (d : Device) (disk : Image) (i : Inode) (is : List Inode)
      → IsReadable m.stream disk d.fssize
      → All (IsFound disk (d.fssize / 512)) (i ∷ is)
      → (last_of i is).byte_offset + 512 ≤ d.fssize
      → d.fssize < 2 ^ 63
      → m.files.inoscan ≡ some (offsets (i ∷ is))
      → restore (source m st d).fetch m.junk m.files.inoscan
        ≡ ok (map (λ j. some j) (repeat_last (i ∷ is)), (last_of i is).byte_offset + 512)
  unfolding source
  restored m st d disk i is readable all inside fits e =
      ap (restore (read_from_disk m.stream d m.stale) m.junk) e
      ∙ restore-repeat_last (read_from_disk m.stream d m.stale) m.junk i is
          (All-ReadsBack m d disk (i ∷ is) readable all) (omega (arith, inside, fits))
