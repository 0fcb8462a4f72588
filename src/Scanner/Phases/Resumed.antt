-- ===== src/Scanner/Phases/Resumed.antt =====
-- src/inodescanner.cpp: the phases of `scan` carried out from each of its labels on.
use jfsrec.Prelude.{
  ℕ, map, ◌<◌, ◌≡◌, refl, ap, ◌∙◌, true, false, Option, none, some, List, [], ◌∷◌, ◌++◌,
}
use jfsrec.Device.{ok}
use jfsrec.Inode.{Inode}
use jfsrec.Vector.{Heap, InodeVector, remove_dupes, load_from_positions}
use jfsrec.Scanner.{do_scan, remove_unallocated}
use jfsrec.Scanner.Postprocess.{postprocess}
use jfsrec.Scanner.Stages.{
  Saved, Phase, stage, behind, at_filter_inostamps, scan-behind, scan-fresh, restore,
}
use jfsrec.Scanner.Phases.{
  Source, ScanState, Performed, returned, perform, perform_each, run_scan, sweep, swept, load,
  reloaded, Progress, lines, all_there, is_found,
}

-- The phases end in a state with these objects and this vector.
abbrev pub EndsIn : Performed → Heap × InodeVector → Type 0
EndsIn r (h, v) = (st : ScanState) × (r ≡ returned st) × (st.objects ≡ h) × (st.vector ≡ v)

unfoldable pub from_stage : Saved → Heap → InodeVector → Heap × InodeVector
unfolding postprocess
from_stage Saved.post_scan h v = postprocess h v
from_stage Saved.post_extentscan h v = let (h', v') = remove_unallocated h v in remove_dupes h' v'
from_stage Saved.post_remove_unallocated h v = remove_dupes h v
from_stage Saved.post_remove_dupes h v = (h, v)

pub from_behind :
    (fuel : ℕ) (s : Source) (t : Saved) (st : ScanState)
    → EndsIn (perform_each fuel s (behind t) st) (from_stage t st.objects st.vector)
unfolding perform_each perform from_stage
from_behind fuel s Saved.post_scan st = (_, refl, refl, refl)
from_behind fuel s Saved.post_extentscan st = (_, refl, refl, refl)
from_behind fuel s Saved.post_remove_unallocated st = (_, refl, refl, refl)
from_behind fuel s Saved.post_remove_dupes st = (st, refl, refl, refl)

then :
    (fuel : ℕ) (s : Source) (phase : Phase) (phases : List Phase) (st st' : ScanState)
    → perform fuel s phase st ≡ returned st'
    → perform_each fuel s (phase ∷ phases) st ≡ perform_each fuel s phases st'
unfolding perform_each
then fuel s phase phases st st' e = rw (e, perform_each) refl

sweep-swept :
    (fuel : ℕ) (s : Source) (files : Progress) (restored : List (Option Inode)) (start : ℕ)
    (is found : List Inode)
    → do_scan fuel s.read s.devsize s.blocksize s.chunk start ≡ some (ok found)
    → all_there restored ≡ some is
    → sweep fuel s files (ok (restored, start))
      ≡ returned (
          swept s (is ++ found) (record files {
            inoscan = some (lines files.inoscan ++ map (λ i. i.byte_offset) found);
          }))
unfolding sweep
sweep-swept fuel s files restored start is found e f = rw (sweep, e, f) refl

load-reloaded :
    (s : Source) (files : Progress) (is out : List (Option Inode)) (js os : List Inode)
    → all_there is ≡ some js
    → all_there out ≡ some os
    → load s files (ok (is, out)) ≡ returned (reloaded s js os files)
unfolding load
load-reloaded s files is out js os e f = rw (load, e, f) refl

EndsIn-along : (r r' : Performed) (hv : Heap × InodeVector) → r ≡ r' → EndsIn r' hv → EndsIn r hv
EndsIn-along r r' (h, v) e (st, f, g, k) = (st, e ∙ f, g, k)

do_scan-swept :
    (fuel : ℕ) (s : Source) (st : ScanState) (restored : List (Option Inode)) (start : ℕ)
    (is found : List Inode)
    → restore s.fetch s.junk st.files.inoscan ≡ ok (restored, start)
    → do_scan fuel s.read s.devsize s.blocksize s.chunk start ≡ some (ok found)
    → all_there restored ≡ some is
    → perform fuel s Phase.do_scan st
      ≡ returned (
          swept s (is ++ found) (record st.files {
            inoscan = some (lines st.files.inoscan ++ map (λ i. i.byte_offset) found);
          }))
unfolding perform
do_scan-swept fuel s st restored start is found e f g =
    ap (sweep fuel s st.files) e ∙ sweep-swept fuel s st.files restored start is found f g

load-loaded :
    (fuel : ℕ) (s : Source) (st : ScanState) (t : Saved) (bos : List ℕ)
    (is out : List (Option Inode)) (js os : List Inode)
    → st.files.positions t ≡ some bos
    → load_from_positions s.fetch s.junk bos st.files.invalidated ≡ ok (is, out)
    → all_there is ≡ some js
    → all_there out ≡ some os
    → perform fuel s (Phase.load_from_positions t) st ≡ returned (reloaded s js os st.files)
unfolding perform
load-loaded fuel s st t bos is out js os found e f g =
    ap (λ o. load s st.files (load_from_positions s.fetch s.junk (lines o) st.files.invalidated))
      found
    ∙ ap (load s st.files) e
    ∙ load-reloaded s st.files is out js os f g

-- What follows the saving of the positions is the same for objects and vector.
from_save :
    (fuel : ℕ) (s : Source) (t : Saved) (st : ScanState)
    → EndsIn
        (perform_each fuel s (Phase.save_positions t ∷ at_filter_inostamps) st)
        (postprocess st.objects st.vector)
unfolding perform_each perform postprocess
from_save fuel s t st = (_, refl, refl, refl)

is_found-none :
    (files : Progress) (t : Saved) → files.positions t ≡ none → is_found (files.positions t) ≡ false
is_found-none files t e = rw e refl

is_found-some :
    (files : Progress) (t : Saved) (bos : List ℕ)
    → files.positions t ≡ some bos
    → is_found (files.positions t) ≡ true
is_found-some files t bos e = rw e refl

-- A run that finds no saved positions sweeps on from where inoscan.txt ends, and then runs all the
-- phases on what was restored and what was found.
pub run_scan-swept :
    (fuel : ℕ) (s : Source) (files : Progress) (restored : List (Option Inode)) (start : ℕ)
    (is found : List Inode)
    → ((t : Saved) → files.positions t ≡ none)
    → restore s.fetch s.junk files.inoscan ≡ ok (restored, start)
    → do_scan fuel s.read s.devsize s.blocksize s.chunk start ≡ some (ok found)
    → all_there restored ≡ some is
    → EndsIn
        (run_scan fuel s files)
        (postprocess (swept s (is ++ found) files).objects (swept s (is ++ found) files).vector)
unfolding run_scan swept
run_scan-swept fuel s files restored start is found no_file e f g =
    let st0 = swept s [] files in
    let st =
      swept s (is ++ found)
        (record files { inoscan = some (lines files.inoscan ++ map (λ i. i.byte_offset) found) }) in
    EndsIn-along (run_scan fuel s files)
      (perform_each fuel s (Phase.save_positions Saved.post_scan ∷ at_filter_inostamps) st)
      (postprocess st.objects st.vector)
      (ap (λ phases. perform_each fuel s phases st0)
          (scan-fresh (λ t. is_found (files.positions t)) (λ t. is_found-none files t (no_file t)))
        ∙ then fuel s Phase.do_scan (Phase.save_positions Saved.post_scan ∷ at_filter_inostamps) st0
            st (do_scan-swept fuel s st0 restored start is found e f g))
      (from_save fuel s Saved.post_scan st)

-- A run that finds saved positions loads them and runs the phases behind.
pub run_scan-reloaded :
    (fuel : ℕ) (s : Source) (files : Progress) (t : Saved) (bos : List ℕ)
    (is out : List (Option Inode)) (js os : List Inode)
    → files.positions t ≡ some bos
    → ((u : Saved) → stage t < stage u → files.positions u ≡ none)
    → load_from_positions s.fetch s.junk bos files.invalidated ≡ ok (is, out)
    → all_there is ≡ some js
    → all_there out ≡ some os
    → EndsIn
        (run_scan fuel s files)
        (from_stage t (reloaded s js os files).objects (reloaded s js os files).vector)
unfolding run_scan
run_scan-reloaded fuel s files t bos is out js os found later e f g =
    let st0 = swept s [] files in
    let st = reloaded s js os files in
    EndsIn-along (run_scan fuel s files) (perform_each fuel s (behind t) st)
      (from_stage t st.objects st.vector)
      (ap (λ phases. perform_each fuel s phases st0)
          (scan-behind (λ u. is_found (files.positions u)) t (is_found-some files t bos found)
            (λ u lt. is_found-none files u (later u lt)))
        ∙ then fuel s (Phase.load_from_positions t) (behind t) st0 st
            (load-loaded fuel s st0 t bos is out js os found e f g))
      (from_behind fuel s t st)
