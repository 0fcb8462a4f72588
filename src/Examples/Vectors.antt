-- ===== src/Examples/Vectors.antt =====
-- The theorems on src/inodevector.cpp and the phases of src/inodescanner.cpp, at examples.
use jfsrec.Prelude.{
  ℕ, zero, suc, ◌+◌, ◌*◌, ◌/◌, ◌%◌, ◌<◌, ◌≡◌, ◌≢◌, refl, ap, sym, ◌∙◌, get_or, if◌then◌else◌, ltb,
  ◌==◌, true, false, Bool, Option, some, none, List, [], ◌∷◌, ◌++◌, has, arith,
}
use jfsrec.Device.{Read, ok}
use jfsrec.Inode.{Ptr, Inode}
use jfsrec.Vector.{
  Heap, InodeVector, get_by_di_number, add_inode, remove_dupes, save_positions, load_from_positions,
}
use jfsrec.Vector.Index.{Answers}
use jfsrec.Vector.Lookup.{members, IsValid, get_by_di_number-Answers, add_inode-IsValid}
use jfsrec.Vector.Remove.{Splits}
use jfsrec.Vector.Dupes.{IsDeduped, remove_dupes-IsDeduped}
use jfsrec.Vector.Positions.{doubled, load-save}
use jfsrec.Scanner.{detect_ino_extents, filter_inostamps, count_stamps, places}
use jfsrec.Scanner.Postprocess.{postprocess, Conserves, postprocess-Conserves, postprocess-sane}
use jfsrec.Scanner.Extents.{IsRun, detect_ino_extents-keeps}
use jfsrec.Scanner.Unallocated.{unlinked}
use jfsrec.Scanner.Stamps.{other_stamp, filter_inostamps-first}
use jfsrec.Scanner.Stages.{Saved, Phase, scan, stage, scan-resumes}
use jfsrec.Examples.{heap, vector, object, dinode}

vector-IsValid : IsValid heap vector
vector-IsValid = record { indexed = λ e. cc; sorted = tt }

get_by_di_number-Answers_example :
    Answers heap (members vector) 1 (get_by_di_number heap vector 1).1
    × ((get_by_di_number heap vector 1).0.inodes ≡ vector.inodes)
    × ((get_by_di_number heap vector 1).0.invalidated_inodes ≡ vector.invalidated_inodes)
    × IsValid heap (get_by_di_number heap vector 1).0
get_by_di_number-Answers_example = get_by_di_number-Answers heap vector 1 vector-IsValid

add_inode-IsValid_example :
    IsValid heap (add_inode heap vector 11)
    × ((add_inode heap vector 11).inodes ≡ vector.inodes ++ 11 ∷ [])
    × ((add_inode heap vector 11).invalidated_inodes ≡ vector.invalidated_inodes)
add_inode-IsValid_example = add_inode-IsValid heap vector 11 vector-IsValid

remove_dupes-IsDeduped_example : IsDeduped heap vector (remove_dupes heap vector).1
remove_dupes-IsDeduped_example = remove_dupes-IsDeduped heap vector

-- What the offsets of the heap read back as.
abbrev fetch : ℕ → Read (Option Inode)
fetch o = ok (
    some (
      object (o / 512 % 5) (512 * (o / 512)) none
        (dinode 7 (o / 512 % 5) (o / 512 % 3) (10 + o / 512))))

some_there : vector.inodes ≢ []
some_there e = cc

load-save_example :
    load_from_positions fetch 0 (save_positions heap vector).0 (save_positions heap vector).1
    ≡ ok (doubled fetch heap vector.inodes, doubled fetch heap vector.invalidated_inodes)
load-save_example =
    load-save fetch heap 0 vector some_there (refl, (refl, (refl, (refl, tt)))) (refl, tt)

abbrev found : Saved → Bool
found Saved.post_extentscan = true
found Saved.post_scan = true
found s = false

none_later : (t : Saved) → stage Saved.post_extentscan < stage t → found t ≡ false
none_later Saved.post_scan h = absurd (omega arith)
none_later Saved.post_extentscan h = absurd (omega arith)
none_later Saved.post_remove_unallocated h = refl
none_later Saved.post_remove_dupes h = refl

scan-resumes_example :
    (before rest : List Phase) × (scan (λ t. false)
      ≡ before ++ Phase.save_positions Saved.post_extentscan ∷ rest)
    × (scan found ≡ Phase.load_from_positions Saved.post_extentscan ∷ rest)
scan-resumes_example = scan-resumes found Saved.post_extentscan refl none_later

-- Inodes with consecutive numbers, one behind the other.
abbrev row_heap : Heap
row_heap p = object p (512 * p) none (dinode 7 p 1 10)

abbrev from : ℕ → ℕ → List Ptr
from a zero = []
from a (suc n) = a ∷ from (a + 1) n

abbrev row_vector : InodeVector
row_vector = record {
  inodes = from 64 33;
  invalidated_inodes = [];
  di_number_index = [];
  di_number_index_ok = false;
}

from_at :
    (a n k : ℕ) → k < n → get_or (places row_heap (from a n)) k (0, 0) ≡ (a + k, 512 * (a + k))
from_at a zero k h = absurd (omega arith)
from_at a (suc n) zero h = let same : a ≡ a + 0 = omega arith in ap (λ x. (x, 512 * x)) same
from_at a (suc n) (suc k) h =
    let same : a + 1 + k ≡ a + suc k = omega arith in
    from_at (a + 1) n k (omega arith) ∙ ap (λ x. (x, 512 * x)) same

row_vector-IsRun : IsRun (places row_heap row_vector.inodes) 1 (1 + 31)
row_vector-IsRun k ge lt =
    let here = from_at 64 33 k (omega arith) in
    let next = from_at 64 33 (k + 1) (omega arith) in
    let number : 64 + (k + 1) ≡ 64 + k + 1 = omega arith in
    let place : 512 * (64 + (k + 1)) ≡ 512 * (64 + k) + 512 = omega arith in
    (
      ap (λ x. x.0) next ∙ number ∙ ap (λ x. x.0 + 1) (sym here),
      ap (λ x. x.1) next ∙ place ∙ ap (λ x. x.1 + 512) (sym here),
    )

detect_ino_extents-keeps_example : has 74 (detect_ino_extents row_heap row_vector).1.inodes ≡ true
detect_ino_extents-keeps_example =
    detect_ino_extents-keeps row_heap row_vector 1 10 74 row_vector-IsRun (omega arith)
      (omega arith) (omega arith) refl

-- A hundred inodes with the stamp 7, and three with the stamp 9.
abbrev stamp_heap : Heap
stamp_heap p = object p (512 * p) none (dinode (if ltb 100 p then 9 else 7) p 1 10)

abbrev stamped : InodeVector
stamped = record {
  inodes = from 1 103;
  invalidated_inodes = [];
  di_number_index = [];
  di_number_index_ok = false;
}

stamped_counts : count_stamps stamp_heap [] stamped.inodes ≡ (7, 100) ∷ (9, 3) ∷ []
unfolding count_stamps
stamped_counts = refl

filter_inostamps-first_example :
    Splits (other_stamp 7 stamp_heap) stamped (filter_inostamps stamp_heap stamped).1
filter_inostamps-first_example =
    filter_inostamps-first stamp_heap stamped 7 100 ((9, 3) ∷ []) stamped_counts (omega arith)
      (omega arith, tt)

postprocess-Conserves_example : Conserves row_heap row_vector (postprocess row_heap row_vector)
postprocess-Conserves_example = postprocess-Conserves row_heap row_vector

stays : has 64 (postprocess row_heap row_vector).1.inodes ≡ true
unfolding postprocess
stays = refl

postprocess-sane_example :
    (has 64 row_vector.inodes ≡ true)
    × (unlinked row_heap 64 ≡ false)
    × ((64 == 64) ≡ ((row_heap 64).di_number == (row_heap 64).di_number))
postprocess-sane_example = postprocess-sane row_heap row_vector 64 64 stays stays
