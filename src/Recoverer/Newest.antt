-- ===== src/Recoverer/Newest.antt =====
-- src/recoverer.cpp: which of several invalidated inodes with one number is validated again.
use jfsrec.Prelude.{
  ◌≡◌, ◌≢◌, refl, ap, ◌∙◌, true, false, some, inl, inr, List, [], ◌∷◌, has, ◌==◌, arith, Bool-cases,
  ==_iff,
}
use jfsrec.Disk.{Timestruc}
use jfsrec.Inode.{Ptr, time_lt}
use jfsrec.Inode.Times.{time_lt_irrefl, time_lt_weak}
use jfsrec.Vector.{Heap}
use jfsrec.Recoverer.{pick_from, pick_newest}

abbrev pub otime : Heap → Ptr → Timestruc
otime h p = (h p).dinode.di_otime

-- A pick: one of the list, with none of the list before it.
abbrev IsPick : Heap → Ptr → List Ptr → Ptr → Type 0
IsPick h p ps r =
    (has r (p ∷ ps) ≡ true)
    × (time_lt (otime h p) (otime h r) ≡ false)
    × ((q : Ptr) → has q ps ≡ true → time_lt (otime h q) (otime h r) ≡ false)

not_after : (a b c : Timestruc) → time_lt a b ≡ true → time_lt a c ≡ false → time_lt b c ≡ false
unfolding time_lt
not_after a b c h k = ground arith

by_member :
    (h : Heap) (p : Ptr) (ps : List Ptr) (r q : Ptr)
    → time_lt (otime h p) (otime h r) ≡ false
    → ((q : Ptr) → has q ps ≡ true → time_lt (otime h q) (otime h r) ≡ false)
    → has q (p ∷ ps) ≡ true
    → time_lt (otime h q) (otime h r) ≡ false
by_member h p ps r q first rest e = elim (Bool-cases (q == p)) [
  | inl same ↦ rw ((==_iff q p).0 same) first
  | inr other ↦ rest q (ground arith)
]

IsPick-nothing : (h : Heap) (p : Ptr) → IsPick h p [] (pick_from h p (otime h p) [])
unfolding pick_from
IsPick-nothing h p = (ground arith, time_lt_irrefl (otime h p), λ q e. cc)

pick_before :
    (h : Heap) (p q : Ptr) (ps : List Ptr)
    → time_lt (otime h q) (otime h p) ≡ true
    → pick_from h p (otime h p) (q ∷ ps) ≡ pick_from h q (otime h q) ps
unfolding pick_from
pick_before h p q ps e = rw (e, pick_from) refl

pick_later :
    (h : Heap) (p q : Ptr) (ps : List Ptr)
    → time_lt (otime h q) (otime h p) ≡ false
    → pick_from h p (otime h p) (q ∷ ps) ≡ pick_from h p (otime h p) ps
unfolding pick_from
pick_later h p q ps e = rw (e, pick_from) refl

has-behind : (p r : Ptr) (ps : List Ptr) → has r ps ≡ true → has r (p ∷ ps) ≡ true
has-behind p r ps e = ground arith

has-between : (p q r : Ptr) (ps : List Ptr) → has r (p ∷ ps) ≡ true → has r (p ∷ q ∷ ps) ≡ true
has-between p q r ps e = ground arith

IsPick-before :
    (h : Heap) (p q : Ptr) (ps : List Ptr) (r : Ptr)
    → time_lt (otime h q) (otime h p) ≡ true
    → IsPick h q ps r
    → IsPick h p (q ∷ ps) r
IsPick-before h p q ps r before (member, first, rest) = (
  has-behind p r (q ∷ ps) member,
  not_after (otime h q) (otime h p) (otime h r) before first,
  λ s e. by_member h q ps r s first rest e,
)

IsPick-later :
    (h : Heap) (p q : Ptr) (ps : List Ptr) (r : Ptr)
    → time_lt (otime h q) (otime h p) ≡ false
    → IsPick h p ps r
    → IsPick h p (q ∷ ps) r
IsPick-later h p q ps r later (member, first, rest) =
    let behind = time_lt_weak (otime h q) (otime h p) (otime h r) later first in
    (has-between p q r ps member, first, λ s e. by_member h q ps r s behind rest e)

along : (h : Heap) (p : Ptr) (ps : List Ptr) (r s : Ptr) → s ≡ r → IsPick h p ps r → IsPick h p ps s
along h p ps r s e (member, first, rest) = (
  ap (λ x. has x (p ∷ ps)) e ∙ member,
  ap (λ x. time_lt (otime h p) (otime h x)) e ∙ first,
  λ q m. ap (λ x. time_lt (otime h q) (otime h x)) e ∙ rest q m,
)

pick_from-IsPick :
    (h : Heap) (p : Ptr) (ps : List Ptr) → IsPick h p ps (pick_from h p (otime h p) ps)
pick_from-IsPick h p [] = IsPick-nothing h p
pick_from-IsPick h p (q ∷ ps) = elim (Bool-cases (time_lt (otime h q) (otime h p))) [
  | inl before ↦
      let r = pick_from h q (otime h q) ps in
      along h p (q ∷ ps) r (pick_from h p (otime h p) (q ∷ ps)) (pick_before h p q ps before)
        (IsPick-before h p q ps r before (pick_from-IsPick h q ps))
  | inr later ↦
      let r = pick_from h p (otime h p) ps in
      along h p (q ∷ ps) r (pick_from h p (otime h p) (q ∷ ps)) (pick_later h p q ps later)
        (IsPick-later h p q ps r later (pick_from-IsPick h p ps))
]

pick_newest_cons :
    (h : Heap) (p : Ptr) (ps : List Ptr) (r : Ptr)
    → pick_newest h (p ∷ ps) ≡ some r
    → r ≡ pick_from h p (otime h p) ps
unfolding pick_newest
pick_newest_cons h p ps r e = cc

pick_newest_nil : (h : Heap) (r : Ptr) → pick_newest h [] ≢ some r
unfolding pick_newest
pick_newest_nil h r e = cc

-- The inode that is validated again is one of those with the number, and none of them was created
-- before it: of several it is the oldest.
pub pick_newest-oldest :
    (h : Heap) (ps : List Ptr) (r q : Ptr)
    → pick_newest h ps ≡ some r
    → has q ps ≡ true
    → (has r ps ≡ true) × (time_lt (otime h q) (otime h r) ≡ false)
pick_newest-oldest h [] r q e m = absurd (pick_newest_nil h r e)
pick_newest-oldest h (p ∷ ps) r q e m =
    let (member, first, rest) =
      along h p ps (pick_from h p (otime h p) ps) r (pick_newest_cons h p ps r e)
        (pick_from-IsPick h p ps) in
    (member, by_member h p ps r q first rest m)
