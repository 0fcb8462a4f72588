-- ===== src/Scanner/Stages.antt =====
-- src/inodescanner.cpp: `scan` as the sequence of its phases, and `restore`. Printing, and
-- `free_dinodes`, which changes no value, are left out.
use jfsrec.Prelude.{
  ℕ, ◌+◌, ◌%◌, ◌^◌, ◌<◌, ◌≡◌, refl, Bool, true, false, Option, none, some, List, [], ◌∷◌, ◌++◌, map,
  All, if◌then◌else◌, arith,
}
use jfsrec.Device.{Read, ok, ◌>>=◌}
use jfsrec.Inode.{Ptr, Inode}
use jfsrec.Vector.{Heap, stream_values, last_or, read_each}
use jfsrec.Vector.Positions.{ReadsBack, doubled, offsets, last_of, read_each-doubled}

-- The files of the progress directory, post-scan.txt and the three others.
pub data Saved : Type 0 where
  post_scan post_extentscan post_remove_unallocated post_remove_dupes : Saved

pub data Phase : Type 0 where
  load_from_positions save_positions : Saved → Phase
  do_scan filter_inostamps detect_ino_extents remove_unallocated remove_dupes : Phase

-- The code from each label on.
abbrev pub at_remove_dupes : List Phase
at_remove_dupes = Phase.remove_dupes ∷ Phase.save_positions post_remove_dupes ∷ []

abbrev pub at_remove_unallocated : List Phase
at_remove_unallocated =
    Phase.remove_unallocated ∷ Phase.save_positions post_remove_unallocated ∷ at_remove_dupes

abbrev pub at_filter_inostamps : List Phase
at_filter_inostamps =
    Phase.filter_inostamps
    ∷ Phase.detect_ino_extents
    ∷ Phase.save_positions post_extentscan
    ∷ at_remove_unallocated

-- `scan`: which files can be opened, and the phases that run.
unfoldable pub scan : (Saved → Bool) → List Phase
scan found =
    if found post_remove_dupes
    then Phase.load_from_positions post_remove_dupes ∷ []
    else if found post_remove_unallocated
    then Phase.load_from_positions post_remove_unallocated ∷ at_remove_dupes
    else if found post_extentscan
    then Phase.load_from_positions post_extentscan ∷ at_remove_unallocated
    else if found post_scan
    then Phase.load_from_positions post_scan ∷ at_filter_inostamps
    else Phase.do_scan ∷ Phase.save_positions post_scan ∷ at_filter_inostamps

-- The order in which a run writes the files.
abbrev pub stage : Saved → ℕ
stage post_scan = 0
stage post_extentscan = 1
stage post_remove_unallocated = 2
stage post_remove_dupes = 3

-- The phases before and behind the saving of a file, in a run from the beginning.
abbrev before : Saved → List Phase
before post_scan = Phase.do_scan ∷ []
before post_extentscan =
    Phase.do_scan
    ∷ Phase.save_positions post_scan
    ∷ Phase.filter_inostamps
    ∷ Phase.detect_ino_extents
    ∷ []
before post_remove_unallocated =
    Phase.do_scan
    ∷ Phase.save_positions post_scan
    ∷ Phase.filter_inostamps
    ∷ Phase.detect_ino_extents
    ∷ Phase.save_positions post_extentscan
    ∷ Phase.remove_unallocated
    ∷ []
before post_remove_dupes =
    Phase.do_scan
    ∷ Phase.save_positions post_scan
    ∷ Phase.filter_inostamps
    ∷ Phase.detect_ino_extents
    ∷ Phase.save_positions post_extentscan
    ∷ Phase.remove_unallocated
    ∷ Phase.save_positions post_remove_unallocated
    ∷ Phase.remove_dupes
    ∷ []

abbrev pub behind : Saved → List Phase
behind post_scan = at_filter_inostamps
behind post_extentscan = at_remove_unallocated
behind post_remove_unallocated = at_remove_dupes
behind post_remove_dupes = []

pub scan-behind :
    (found : Saved → Bool) (s : Saved)
    → found s ≡ true
    → ((t : Saved) → stage s < stage t → found t ≡ false)
    → scan found ≡ Phase.load_from_positions s ∷ behind s
unfolding scan
scan-behind found post_scan e later =
    rw
      (
        later post_remove_dupes (omega arith),
        later post_remove_unallocated (omega arith),
        later post_extentscan (omega arith),
        e,
      )
      refl
scan-behind found post_extentscan e later =
    rw (later post_remove_dupes (omega arith), later post_remove_unallocated (omega arith), e) refl
scan-behind found post_remove_unallocated e later =
    rw (later post_remove_dupes (omega arith), e) refl
scan-behind found post_remove_dupes e later = rw e refl

pub scan-fresh :
    (found : Saved → Bool)
    → ((t : Saved) → found t ≡ false)
    → scan found ≡ Phase.do_scan ∷ Phase.save_positions post_scan ∷ at_filter_inostamps
unfolding scan
scan-fresh found no_file =
    rw
      (
        no_file post_remove_dupes,
        no_file post_remove_unallocated,
        no_file post_extentscan,
        no_file post_scan,
      )
      refl

scan-before : (s : Saved) → scan (λ t. false) ≡ before s ++ Phase.save_positions s ∷ behind s
unfolding scan
scan-before post_scan = refl
scan-before post_extentscan = refl
scan-before post_remove_unallocated = refl
scan-before post_remove_dupes = refl

-- A run that finds the file `s`, and none that is written later, loads it and then runs exactly the
-- phases that a run from the beginning has behind the saving of `s`.
pub scan-resumes :
    (found : Saved → Bool) (s : Saved)
    → found s ≡ true
    → ((t : Saved) → stage s < stage t → found t ≡ false)
    → (before rest : List Phase) × (scan (λ t. false) ≡ before ++ Phase.save_positions s ∷ rest)
      × (scan found ≡ Phase.load_from_positions s ∷ rest)
scan-resumes found s e later = (before s, behind s, scan-before s, scan-behind found s e later)

-- `restore`: the objects of the offsets in inoscan.txt, and where the scan goes on. `none`: there is
-- no such file.
unfoldable pub restore :
    (ℕ → Read (Option Inode)) → ℕ → Option (List ℕ) → Read (List (Option Inode) × ℕ)
unfolding stream_values last_or read_each
restore fetch junk none = ok ([], 0)
restore fetch junk (some offsets) = do
  inodes ← read_each fetch (stream_values junk offsets)
  ok (inodes, (last_or junk offsets + 512) % 2 ^ 64)

last_or-offsets :
    (fetch : ℕ → Read (Option Inode)) (h : Heap) (junk : ℕ) (p : Ptr) (ps : List Ptr)
    → last_or junk (offsets fetch h (p ∷ ps)) ≡ (h (last_of fetch h p ps)).byte_offset
unfolding last_or
last_or-offsets fetch h junk p [] = refl
last_or-offsets fetch h junk p (q ∷ qs) = last_or-offsets fetch h (h p).byte_offset q qs

-- Where the offsets of at least one inode were written down, and each reads back as the object, a
-- scan that is taken up again has the objects found before, the last one twice, and goes on 512
-- bytes behind the last one, if that is below 2^64.
pub restore-resumes :
    (fetch : ℕ → Read (Option Inode)) (h : Heap) (junk : ℕ) (p : Ptr) (ps : List Ptr)
    → All (ReadsBack fetch h) (p ∷ ps)
    → (h (last_of fetch h p ps)).byte_offset + 512 < 2 ^ 64
    → restore fetch junk (some (map (λ q. (h q).byte_offset) (p ∷ ps)))
      ≡ ok (doubled fetch h (p ∷ ps), (h (last_of fetch h p ps)).byte_offset + 512)
unfolding restore
restore-resumes fetch h junk p ps all fits =
    let same = last_or-offsets fetch h junk p ps in
    let behind : ((h (last_of fetch h p ps)).byte_offset + 512) % 2 ^ 64
        ≡ (h (last_of fetch h p ps)).byte_offset + 512 =
      omega arith in
    rw (read_each-doubled fetch h junk p ps all, same, behind)
