-- ===== src/Main/Complete.antt =====
-- src/jfsrec.cpp: a run on a device that is read without errors ends in a recovery.
pub mod Again
pub mod Exits
use mathlib.Core.Path.{fun_ext}
use native.Mathlib.Nat.{zero-add}
use jfsrec.Prelude.{
  ℕ, zero, suc, Bool-cases, inl, inr, ◌+◌, ◌-◌, ◌*◌, ◌/◌, ◌^◌, ◌<◌, ◌≤◌, ◌≡◌, refl, sym, ap, ◌∙◌,
  Bool, true, not, Option, none, some, List, [], ◌∷◌, ◌++◌, map, select, count, length,
  length-append, get_or, All, All-map, ltb, arith,
}
use jfsrec.Device.{Device, Stat, Stream, ok, open_device, get_size_bytes, read_bytes}
use jfsrec.Device.Reads.{
  ReadsDisk, IsReadable, read_bytes-ReadsDisk, open_device-IsOpened, IsOpened, IsBlocksize,
}
use jfsrec.Disk.{Image, first_bytes}
use jfsrec.Inode.{Ptr, Inode, Kind, new_inode, create_if_sane, read_from_disk}
use jfsrec.Inode.Factory.{create_if_sane-parent, read_from_disk-create}
use jfsrec.Vector.{Heap, InodeVector}
use jfsrec.Scanner.{do_scan, scan_chunk, chunk_blocks, keep, slot, Reader}
use jfsrec.Scanner.Sweep.Complete.{do_scan-scan_chunk}
use jfsrec.Scanner.Sweep.Found.{IsFound, keep-All, scan_chunk-IsFound}
use jfsrec.Scanner.Stages.{Saved, restore}
use jfsrec.Scanner.Phases.{Source, ScanState, Performed, all_there, run_scan, swept}
use jfsrec.Scanner.Phases.Resumed.{EndsIn, from_stage, run_scan-swept}
use jfsrec.Scanner.Phases.Ready.{IsOrphan, IsReady, Keeps, swept-IsReady, from_stage-IsReady}
use jfsrec.Options.{Options, init}
use jfsrec.DirInode.{Access}
use jfsrec.DirInode.Listing.{IsListable}
use jfsrec.Recoverer.Run.{Recovery, Named, recover, recover-returns, create_dir, recover_one}
use jfsrec.Recoverer.Queue.{excluded, IsSearchable}
use jfsrec.Recoverer.Parents.{At, NumberedParent, known}
use jfsrec.Main.{
  Machine, Outcome, filters, access, source, recovered, main, done, outcome, opened, started,
}
use jfsrec.Main.Fit.{
  IsFit, file-IsFit, IsFit-Keeps, IsFound-IsFit, IsFound-ReadsBack, blocksize-fits, scan-finds,
}

no-parents : (R : Ptr → Ptr → Type 0) (c : Ptr) (o : Option Ptr) → o ≡ none → At R c o
no-parents R c o e = rw e tt

pub restore-nothing :
    (s : Source) (saved : Option (List ℕ))
    → saved ≡ none
    → restore s.fetch s.junk saved ≡ ok ([], 0)
unfolding restore
restore-nothing s saved e = rw e refl

-- The inodes that the phases behind a file leave in the vector.
abbrev pub left_behind : Saved → ScanState → List Ptr
left_behind t st = (from_stage t st.objects st.vector).1.inodes

-- The objects and the vector behind these phases.
abbrev pub scanned : Saved → ScanState → Heap × InodeVector
scanned t st = from_stage t st.objects st.vector

module _ {File : Type 0} {Regex : Type 0} where
  -- The program comes to the calls of a recovery of the objects of a vector that begins with these
  -- pointers: every directory is created before the first object is recovered, in the same order, and
  -- each object of the vector is recovered as often as it stands there, but not at all if its path is
  -- excluded.
  abbrev pub IsRecovered : ℕ → Machine File Regex → Options File Regex → List Ptr → Outcome → Type 0
  IsRecovered fuel m o ps out =
      (r : Recovery) × (order extra : List Ptr) × (out ≡ done r)
      × (r.vector.inodes ≡ ps ++ extra)
      × (r.calls ≡ map (λ p. create_dir p) order ++ map (λ p. recover_one p) order)
      × ((p : Ptr)
          → count p order
            ≡ count p (select (λ q. not (excluded fuel r.objects (filters m o) q)) r.vector.inodes))

  -- No option asks for paths, or the parents go up that are found from these objects and this vector.
  abbrev pub EndsUp :
      ℕ → Machine File Regex → Options File Regex → Stat → Device → Heap × InodeVector → Type 0
  EndsUp fuel m o st d (h, v) =
      (h' : Heap) (v' : InodeVector)
      → Named fuel (access fuel m st d) m.print h v h' v'
      → IsSearchable fuel h' (filters m o) v'.inodes

  recovered-done :
      (fuel : ℕ) (m : Machine File Regex) (o : Options File Regex) (st : Stat) (d : Device)
      (s : Performed) (h : Heap) (v : InodeVector) (r : Recovery)
      → EndsIn s (h, v)
      → recover fuel (access fuel m st d) m.print (filters m o) h v ≡ some r
      → recovered fuel m o st d s ≡ done r
  unfolding recovered
  recovered-done fuel m o st d s h v r (t, e, f, g) k =
      let a = access fuel m st d in
      ap (recovered fuel m o st d) e
      ∙ ap (λ x. outcome (recover fuel a m.print (filters m o) x t.vector)) f
      ∙ ap (λ x. outcome (recover fuel a m.print (filters m o) h x)) g
      ∙ ap outcome k

  recovered-IsRecovered :
      (fuel : ℕ) (m : Machine File Regex) (o : Options File Regex) (st : Stat) (d : Device)
      (s : Performed) (n : ℕ) (h : Heap) (v : InodeVector)
      → EndsIn s (h, v)
      → IsReady (IsFit (access fuel m st d)) n (h, v)
      → EndsUp fuel m o st d (h, v)
      → 2 * n < fuel
      → IsRecovered fuel m o v.inodes (recovered fuel m o st d s)
  recovered-IsRecovered fuel m o st d s n h v ends (valid, fit, sizes) up lt =
      let (r, order, extra, e, prefix, calls, counts) =
        recover-returns fuel (access fuel m st d) m.print (filters m o) h v valid
          (λ c. no-parents (NumberedParent h (known v)) c (h c).parent (fit c).0)
          (λ p member. (fit p).1) up
          (omega (arith, lt, sizes, length-append v.inodes v.invalidated_inodes)) in
      (r, order, extra, recovered-done fuel m o st d s h v r ends e, prefix, calls, counts)

  pub at_stat :
      (fuel : ℕ) (m : Machine File Regex) (o : Options File Regex) (st : Stat) (s : Option Stat)
      → s ≡ some st
      → opened fuel m o s (open_device m.opens s o.blocksize)
        ≡ opened fuel m o (some st) (open_device m.opens (some st) o.blocksize)
  at_stat fuel m o st s e = ap (λ x. opened fuel m o x (open_device m.opens x o.blocksize)) e

  IsRecovered-along :
      (fuel : ℕ) (m : Machine File Regex) (o : Options File Regex) (ps : List Ptr)
      (out out' : Outcome)
      → out ≡ out'
      → IsRecovered fuel m o ps out'
      → IsRecovered fuel m o ps out
  IsRecovered-along fuel m o ps out out' e (r, order, extra, f, prefix, calls, counts) =
      (r, order, extra, e ∙ f, prefix, calls, counts)

  -- From a scan that ends in objects and a vector to the end of the run.
  pub main-IsRecovered :
      (fuel : ℕ) (m : Machine File Regex) (o : Options File Regex) (st : Stat) (d : Device) (n : ℕ)
      (h : Heap) (v : InodeVector)
      → init m.given ≡ some o
      → m.stat ≡ some st
      → open_device m.opens (some st) o.blocksize ≡ some d
      → EndsIn (run_scan fuel (source m st d) m.files) (h, v)
      → IsReady (IsFit (access fuel m st d)) n (h, v)
      → EndsUp fuel m o st d (h, v)
      → 2 * n < fuel
      → IsRecovered fuel m o v.inodes (main fuel m)
  unfolding main
  main-IsRecovered fuel m o st d n h v e f g ends ready up lt =
      let s = run_scan fuel (source m st d) m.files in
      IsRecovered-along fuel m o v.inodes (main fuel m) (recovered fuel m o st d s)
        (ap (started fuel m) e ∙ at_stat fuel m o st m.stat f ∙ ap (opened fuel m o (some st)) g)
        (recovered-IsRecovered fuel m o st d s n h v ends ready up lt)

  pub opened-room :
      (m : Machine File Regex) (o : Options File Regex) (st : Stat) (d : Device)
      → open_device m.opens (some st) o.blocksize ≡ some d
      → 0 < d.blocksize
  opened-room m o st d opening =
      let (op, blocks) = open_device-IsOpened m.opens st o.blocksize opening in
      let (pos, le) = blocksize-fits o.blocksize blocks in omega (arith, op.block, pos)

  pub opened-finds :
      (fuel : ℕ) (m : Machine File Regex) (o : Options File Regex) (st : Stat) (d : Device)
      (disk : Image) (b : ℕ)
      → open_device m.opens (some st) o.blocksize ≡ some d
      → IsReadable m.stream disk d.fssize
      → chunk_blocks * d.blocksize ≤ d.fssize
      → d.fssize < 2 ^ 63
      → b * 512 < d.fssize
      → d.fssize < fuel
      → do_scan fuel (read_bytes m.stream d) (get_size_bytes st) d.blocksize m.chunk (b * 512)
        ≡ some (ok (scan_chunk disk 0 (d.fssize / 512 - b) b))
  opened-finds fuel m o st d disk b opening readable room fits inside enough =
      let (op, blocks) = open_device-IsOpened m.opens st o.blocksize opening in
      scan-finds (read_bytes m.stream d) disk st d o.blocksize fuel b m.chunk
        (read_bytes-ReadsDisk m.stream d disk readable) op blocks room fits inside enough

  -- From what was restored and what the sweep found to the end of the run.
  pub main-swept :
      (fuel : ℕ) (m : Machine File Regex) (o : Options File Regex) (st : Stat) (d : Device)
      (restored : List (Option Inode)) (start : ℕ) (is found : List Inode)
      → init m.given ≡ some o
      → m.stat ≡ some st
      → open_device m.opens (some st) o.blocksize ≡ some d
      → ((t : Saved) → m.files.positions t ≡ none)
      → restore (source m st d).fetch m.junk m.files.inoscan ≡ ok (restored, start)
      → do_scan fuel (read_bytes m.stream d) (get_size_bytes st) d.blocksize m.chunk start
        ≡ some (ok found)
      → all_there restored ≡ some is
      → All (IsFit (access fuel m st d)) (is ++ found)
      → EndsUp fuel m o st d (scanned Saved.post_scan (swept (source m st d) (is ++ found) m.files))
      → 2 * length (is ++ found) < fuel
      → IsRecovered fuel m o
          (left_behind Saved.post_scan (swept (source m st d) (is ++ found) m.files))
          (main fuel m)
  unfolding source from_stage
  main-swept fuel m o st d restored start is found given stat opening unsaved e f g all up lt =
      let s = source m st d in
      let a = access fuel m st d in
      let st' = swept s (is ++ found) m.files in
      let (h, v) = from_stage Saved.post_scan st'.objects st'.vector in
      main-IsRecovered fuel m o st d (length (is ++ found)) h v given stat opening
        (run_scan-swept fuel s m.files restored start is found unsaved e f g)
        (from_stage-IsReady (IsFit a) (file-IsFit a) (IsFit-Keeps a) Saved.post_scan
          (length (is ++ found)) st'.objects st'.vector
          (swept-IsReady (IsFit a) (file-IsFit a) (IsFit-Keeps a) s (is ++ found) m.files all))
        up lt
