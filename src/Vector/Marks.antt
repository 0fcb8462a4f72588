-- ===== src/Vector/Marks.antt =====
-- src/inodevector.cpp: marks of the objects of a list.
use jfsrec.Prelude.{◌≡◌, refl, Bool, List, [], ◌∷◌, has, if◌then◌else◌, arith}
use jfsrec.Inode.{Ptr}
use jfsrec.Vector.{Heap, set_marked, set_marked_each}

-- Marking the objects of a list changes their marks, and nothing else of any object.
pub set_marked_each_lem :
    (b : Bool) (h : Heap) (ps : List Ptr) (q : Ptr)
    → set_marked_each b h ps q ≡ (if has q ps then record (h q) { is_marked = b } else h q)
unfolding set_marked_each
set_marked_each_lem b h [] q = refl
set_marked_each_lem b h (p ∷ ps) q = ground (arith, set_marked_each_lem b (set_marked b h p) ps q)
