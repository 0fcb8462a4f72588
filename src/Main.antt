-- ===== src/Main.antt =====
-- src/jfsrec.cpp: `main`, with its options, device, scan and recovery, one after the other.
pub mod Fit
pub mod Complete
use jfsrec.Prelude.{ℕ, Bool, true, false, Option, none, some, List}
use jfsrec.Device.{Device, Stat, Stream, open_device, get_size_bytes, get_size_blocks, read_bytes}
use jfsrec.Disk.{Image}
use jfsrec.Inode.{Name, read_from_disk}
use jfsrec.Scanner.Phases.{Source, Progress, Performed, returned, run_scan}
use jfsrec.Options.{Given, Options, init, is_speced}
use jfsrec.DirInode.{Access}
use jfsrec.Recoverer.{Filters}
use jfsrec.Recoverer.Run.{Recovery, recover}

-- What does not stand in the repository: what is on the command line, what the C library says of the
-- device, what memory held before, and whether boost finds an expression in a path.
pub record Machine (File : Type 0) (Regex : Type 0) : Type 0 where
  pub given : Given File Regex
  pub opens : Bool
  pub stat : Option Stat
  pub stream : Stream
  pub chunk : Image
  pub stale : Image
  pub junk : ℕ
  pub flag : Bool
  pub files : Progress
  pub heap : List ℕ
  pub print : ℕ → Name
  pub search : Regex → List Name → Bool

-- `aborts` is an exception that nothing catches, or a null object.
pub data Outcome : Type 0 where
  exits aborts out_of_fuel : Outcome
  done : Recovery → Outcome

abbrev outcome : Option Recovery → Outcome
outcome none = out_of_fuel
outcome (some r) = done r

module _ {File : Type 0} {Regex : Type 0} where
  abbrev matches : Machine File Regex → Option Regex → List Name → Bool
  matches m none path = false
  matches m (some r) path = m.search r path

  unfoldable pub filters : Machine File Regex → Options File Regex → Filters
  filters m o = record {
    exclude_speced = is_speced o.exclude;
    first_speced = is_speced o.first;
    last_speced = is_speced o.last;
    exclude = matches m o.exclude;
    first = matches m o.first;
    last = matches m o.last;
  }

  -- What the scanner has of the device.
  unfoldable pub source : Machine File Regex → Stat → Device → Source
  unfolding read_bytes read_from_disk get_size_bytes
  source m st d = record {
    read = read_bytes m.stream d;
    fetch = read_from_disk m.stream d m.stale;
    devsize = get_size_bytes st;
    blocksize = d.blocksize;
    junk = m.junk;
    chunk = m.chunk;
    flag = m.flag;
  }

  -- What the directories have of the device.
  unfoldable pub access : ℕ → Machine File Regex → Stat → Device → Access
  unfolding read_bytes get_size_blocks
  access fuel m st d = record {
    read = read_bytes m.stream d;
    log2blocksize = d.log2blocksize;
    blocks = get_size_blocks d st;
    heap = m.heap;
    stale = m.stale;
    depth = fuel;
    chain = fuel;
  }

  -- The scan is done.
  unfoldable pub recovered :
      ℕ → Machine File Regex → Options File Regex → Stat → Device → Performed → Outcome
  unfolding recover filters access
  recovered fuel m o st d Performed.exits = Outcome.exits
  recovered fuel m o st d Performed.aborts = Outcome.aborts
  recovered fuel m o st d Performed.out_of_fuel = Outcome.out_of_fuel
  recovered fuel m o st d (returned s) =
      outcome (recover fuel (access fuel m st d) m.print (filters m o) s.objects s.vector)

  abbrev opened :
      ℕ → Machine File Regex → Options File Regex → Option Stat → Option Device → Outcome
  opened fuel m o none d = Outcome.exits
  opened fuel m o (some st) none = Outcome.exits
  opened fuel m o (some st) (some d) =
      recovered fuel m o st d (run_scan fuel (source m st d) m.files)

  abbrev started : ℕ → Machine File Regex → Option (Options File Regex) → Outcome
  started fuel m none = Outcome.exits
  started fuel m (some o) = opened fuel m o m.stat (open_device m.opens m.stat o.blocksize)

  unfoldable pub main : ℕ → Machine File Regex → Outcome
  unfolding init open_device run_scan source recovered
  main fuel m = started fuel m (init m.given)
