-- ===== src/Vector/Same.antt =====
-- src/inodevector.cpp: heaps that only differ in what the container does not look at.
use jfsrec.Prelude.{ℕ, ◌≡◌, refl, sym, ◌∙◌, Bool, Option, none, some, List, [], ◌∷◌, arith}
use jfsrec.Inode.{Ptr}
use jfsrec.Vector.{Heap, InodeVector, set_marked, set_marked_each}
use jfsrec.Vector.Index.{Answers}
use jfsrec.Vector.Lookup.{IsValid, members}

-- The objects of both heaps have the same numbers, dinodes, classes and places on the device.
abbrev pub Same : Heap → Heap → Type 0
Same h h' =
    (q : Ptr)
    → ((h' q).di_number ≡ (h q).di_number)
      × ((h' q).dinode ≡ (h q).dinode)
      × ((h' q).kind ≡ (h q).kind)
      × ((h' q).parent_di_number ≡ (h q).parent_di_number)
      × ((h' q).byte_offset ≡ (h q).byte_offset)

pub Same-refl : (h : Heap) → Same h h
Same-refl h q = (refl, refl, refl, refl, refl)

pub Same-trans : (h h' h'' : Heap) → Same h h' → Same h' h'' → Same h h''
Same-trans h h' h'' a b q =
    ((b q).0 ∙ (a q).0, (b q).1 ∙ (a q).1, (b q).2 ∙ (a q).2, (b q).3 ∙ (a q).3, (b q).4 ∙ (a q).4)

Answers-Same :
    (h h' : Heap) (s : Ptr → Bool) (d : ℕ) (o : Option Ptr)
    → Same h h'
    → Answers h s d o
    → Answers h' s d o
Answers-Same h h' s d none same a = λ q e n. a q e (sym (same q).0 ∙ n)
Answers-Same h h' s d (some p) same a = record {
  member = a.member;
  number = (same p).0 ∙ a.number;
  newest = λ q e n. rw ((same p).1, (same q).1) (a.newest q e (sym (same q).0 ∙ n));
}

-- The index only depends on numbers and dinodes.
pub IsValid-Same : (h h' : Heap) (v : InodeVector) → Same h h' → IsValid h v → IsValid h' v
IsValid-Same h h' v same valid = record {
  indexed = λ e d. Answers-Same h h' (members v) d _ same (valid.indexed e d);
  sorted = valid.sorted;
}

-- Parents, names and siblings are the same too: of the fields of an object only the mark may differ.
abbrev pub Alike : Heap → Heap → Type 0
Alike h h' =
    Same h h'
    × ((q : Ptr)
        → ((h' q).parent ≡ (h q).parent)
          × ((h' q).name ≡ (h q).name)
          × ((h' q).siblings ≡ (h q).siblings))

pub Alike-refl : (h : Heap) → Alike h h
Alike-refl h = (Same-refl h, λ q. (refl, refl, refl))

pub Alike-trans : (h h' h'' : Heap) → Alike h h' → Alike h' h'' → Alike h h''
Alike-trans h h' h'' a b = (
  Same-trans h h' h'' a.0 b.0,
  λ q. ((b.1 q).0 ∙ (a.1 q).0, (b.1 q).1 ∙ (a.1 q).1, (b.1 q).2 ∙ (a.1 q).2),
)

pub set_marked-Alike : (b : Bool) (h : Heap) (p : Ptr) → Alike h (set_marked b h p)
unfolding set_marked
set_marked-Alike b h p = (
  λ q. (ground arith, ground arith, ground arith, ground arith, ground arith),
  λ q. (ground arith, ground arith, ground arith),
)

pub set_marked_each-Alike : (b : Bool) (h : Heap) (ps : List Ptr) → Alike h (set_marked_each b h ps)
unfolding set_marked_each
set_marked_each-Alike b h [] = Alike-refl h
set_marked_each-Alike b h (p ∷ ps) =
    Alike-trans h (set_marked b h p) (set_marked_each b (set_marked b h p) ps)
      (set_marked-Alike b h p) (set_marked_each-Alike b (set_marked b h p) ps)
