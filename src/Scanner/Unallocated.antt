-- ===== src/Scanner/Unallocated.antt =====
-- src/inodescanner.cpp: `remove_unallocated`.
use jfsrec.Prelude.{◌≡◌, refl, ◌∙◌, Bool, List, [], ◌∷◌, has, ◌==◌, if◌then◌else◌, arith}
use jfsrec.Inode.{Ptr}
use jfsrec.Vector.{Heap, InodeVector, set_marked, remove_marked}
use jfsrec.Vector.Remove.{remove-Splits, Splits, Splits-congr}
use jfsrec.Scanner.{mark_unallocated, remove_unallocated}

abbrev pub unlinked : Heap → Ptr → Bool
unlinked h p = (h p).dinode.di_nlink == 0

-- Marks say nothing of the links, so the loop leaves the test of every object as it was.
set_marked-unlinked :
    (b : Bool) (h : Heap) (p q : Ptr) → unlinked (set_marked b h p) q ≡ unlinked h q
unfolding set_marked
set_marked-unlinked b h p q = ground arith

mark_unallocated_lem :
    (h : Heap) (ps : List Ptr) (q : Ptr)
    → (mark_unallocated h ps q).is_marked ≡ (if has q ps then unlinked h q else (h q).is_marked)
unfolding mark_unallocated set_marked
mark_unallocated_lem h [] q = refl
mark_unallocated_lem h (p ∷ ps) q = ground (
  arith,
  mark_unallocated_lem (set_marked (unlinked h p) h p) ps q,
  set_marked-unlinked (unlinked h p) h p q,
)

-- Exactly the inodes without a link are moved behind the invalidated ones, in their order, and the
-- others stay in theirs.
pub remove_unallocated-Splits :
    (h : Heap) (v : InodeVector) → Splits (unlinked h) v (remove_unallocated h v).1
unfolding remove_unallocated
remove_unallocated-Splits h v =
    let h' = mark_unallocated h v.inodes in
    Splits-congr (λ q. (h' q).is_marked) (unlinked h) v (remove_marked h' v)
      (λ q e. mark_unallocated_lem h v.inodes q ∙ rw e) (remove-Splits h' v).0
