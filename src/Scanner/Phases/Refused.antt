-- ===== src/Scanner/Phases/Refused.antt =====
-- src/inodescanner.cpp: the phases of `scan` where the device refuses a read of the sweep.
use jfsrec.Prelude.{ℕ, ◌≡◌, refl, ap, ◌∙◌, Option, none, some, List, [], ◌∷◌}
use jfsrec.Device.{Reason, ok, invalid_read}
use jfsrec.Inode.{Inode}
use jfsrec.Scanner.{do_scan}
use jfsrec.Scanner.Stages.{Saved, Phase, scan-fresh, restore, at_filter_inostamps}
use jfsrec.Scanner.Phases.{
  Source, Progress, ScanState, exits, perform, perform_each, run_scan, sweep, swept, is_found,
}

stop :
    (fuel : ℕ) (s : Source) (phase : Phase) (phases : List Phase) (st : ScanState)
    → perform fuel s phase st ≡ exits
    → perform_each fuel s (phase ∷ phases) st ≡ exits
unfolding perform_each
stop fuel s phase phases st e = rw (e, perform_each) refl

sweep-exits :
    (fuel : ℕ) (s : Source) (files : Progress) (restored : List (Option Inode)) (start : ℕ)
    (why : Reason)
    → do_scan fuel s.read s.devsize s.blocksize s.chunk start ≡ some (invalid_read why)
    → sweep fuel s files (ok (restored, start)) ≡ exits
unfolding sweep
sweep-exits fuel s files restored start why e = rw (sweep, e) refl

do_scan-exits :
    (fuel : ℕ) (s : Source) (st : ScanState) (restored : List (Option Inode)) (start : ℕ)
    (why : Reason)
    → restore s.fetch s.junk st.files.inoscan ≡ ok (restored, start)
    → do_scan fuel s.read s.devsize s.blocksize s.chunk start ≡ some (invalid_read why)
    → perform fuel s Phase.do_scan st ≡ exits
unfolding perform
do_scan-exits fuel s st restored start why e f =
    ap (sweep fuel s st.files) e ∙ sweep-exits fuel s st.files restored start why f

-- Without saved positions nothing is done behind a sweep that is refused a read.
pub run_scan-exits :
    (fuel : ℕ) (s : Source) (files : Progress) (restored : List (Option Inode)) (start : ℕ)
    (why : Reason)
    → ((t : Saved) → files.positions t ≡ none)
    → restore s.fetch s.junk files.inoscan ≡ ok (restored, start)
    → do_scan fuel s.read s.devsize s.blocksize s.chunk start ≡ some (invalid_read why)
    → run_scan fuel s files ≡ exits
unfolding run_scan swept
run_scan-exits fuel s files restored start why unsaved e f =
    let st0 = swept s [] files in
    ap (λ phases. perform_each fuel s phases st0)
      (scan-fresh (λ t. is_found (files.positions t)) (λ t. ap is_found (unsaved t)))
    ∙ stop fuel s Phase.do_scan (Phase.save_positions Saved.post_scan ∷ at_filter_inostamps) st0
        (do_scan-exits fuel s st0 restored start why e f)
