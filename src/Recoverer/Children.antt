-- ===== src/Recoverer/Children.antt =====
-- src/recoverer.cpp: `find_file_parents_and_names` ends, though the vector grows while it runs.
use jfsrec.Prelude.{
  ℕ, ◌+◌, ◌<◌, ◌≡◌, refl, sym, ap, ◌∙◌, true, Option, none, some, inl, inr, List, [], ◌∷◌, has,
  length, arith, Option-cases,
}
use jfsrec.Inode.{Ptr, Name}
use jfsrec.Vector.{
  Heap, InodeVector, invalidated_from, add_inode, get_by_di_number, get_invalidated_by_di_number,
}
use jfsrec.Vector.Index.{Answers, Answers-congr}
use jfsrec.Vector.Lookup.{IsValid, members, get_by_di_number-Answers}
use jfsrec.DirInode.{InodeName, Access}
use jfsrec.DirInode.Listing.{IsListable, inode_names-Returns}
use jfsrec.Recoverer.{set_parent, set_name, pick_newest, loop_growing}
use jfsrec.Recoverer.Names.{
  adopt_name, take_name, assign_name, assign_names, name_children, rename_one, rename_each,
  rename_illegal, find_file_parents_and_names, name_root,
}
use jfsrec.Vector.Same.{Same, Same-refl, Same-trans, IsValid-Same}
use jfsrec.Recoverer.Growth.{Grown, Grown-heap, Grown-add, Grown-trans, missing-le}
use jfsrec.Recoverer.Growth.Loop.{loop_growing-returns}
use jfsrec.Recoverer.Parents.{
  Parents, set_parent-Same, set_parent-Parents, pick_newest-member, Inside, Grown-Inside, known,
  known-Inside,
}

set_name-Same : (h : Heap) (p : Ptr) (n : Name) → Same h (set_name h p n)
unfolding set_name
set_name-Same h p n q = (ground arith, ground arith, ground arith, ground arith, ground arith)

set_name-parent :
    (h : Heap) (p : Ptr) (n : Name) (q : Ptr) → (set_name h p n q).parent ≡ (h q).parent
unfolding set_name
set_name-parent h p n q = ground arith

set_name-Parents :
    (R : Ptr → Ptr → Type 0) (h : Heap) (p : Ptr) (n : Name)
    → Parents R h
    → Parents R (set_name h p n)
set_name-Parents R h p n all c = rw (set_name-parent h p n c) (all c)

-- A parent is an object that the vector knows of.
abbrev pub KnownParent : List Ptr → Ptr → Ptr → Type 0
KnownParent u c q = has q u ≡ true

-- A child is named and put below `c`.
abbrev named : Heap → Ptr → InodeName → Ptr → Heap
named h c e p = set_parent (set_name h p e.name) p c

named-Same : (h : Heap) (c : Ptr) (e : InodeName) (p : Ptr) → Same h (named h c e p)
named-Same h c e p =
    Same-trans h (set_name h p e.name) (named h c e p) (set_name-Same h p e.name)
      (set_parent-Same (set_name h p e.name) p c)

module _ (u : List Ptr) where
  pub record IsTree (h : Heap) (v : InodeVector) : Type 0 where
    pub valid : IsValid h v
    pub inside : Inside u v
    pub parents : Parents (KnownParent u) h

  IsTree-Grown :
      (h h' : Heap) (v v' : InodeVector)
      → IsTree h v
      → Grown h v h' v'
      → Parents (KnownParent u) h'
      → Grown h v h' v' × IsTree h' v'
  IsTree-Grown h h' v v' l g parents = (
    g,
    record { valid = g.valid; inside = Grown-Inside u h h' v v' g l.inside; parents = parents },
  )

  IsTree-trans :
      (h h' h'' : Heap) (v v' v'' : InodeVector)
      → Grown h v h' v'
      → Grown h' v' h'' v'' × IsTree h'' v''
      → Grown h v h'' v'' × IsTree h'' v''
  IsTree-trans h h' h'' v v' v'' g (g', l) = (Grown-trans h h' h'' v v' v'' g g', l)

  named-Parents :
      (h : Heap) (c : Ptr) (e : InodeName) (p : Ptr)
      → Parents (KnownParent u) h
      → has c u ≡ true
      → Parents (KnownParent u) (named h c e p)
  named-Parents h c e p all m =
      set_parent-Parents (KnownParent u) (set_name h p e.name) p c
        (set_name-Parents (KnownParent u) h p e.name all) m

  take_name-IsTree :
      (h : Heap) (v : InodeVector) (c : Ptr) (e : InodeName) (found : Option Ptr)
      → IsTree h v
      → has c u ≡ true
      → Answers h (members v) e.di_number found
      → Grown h v (take_name h v c e found).0 (take_name h v c e found).1
        × IsTree (take_name h v c e found).0 (take_name h v c e found).1
  unfolding take_name adopt_name get_invalidated_by_di_number
  take_name-IsTree h v c e (some p) l m a =
      IsTree-Grown h (named h c e p) v v l
        (Grown-heap h (named h c e p) v v (named-Same h c e p) l.valid refl refl)
        (named-Parents h c e p l.parents m)
  take_name-IsTree h v c e none l m a =
      let ps = invalidated_from h v.invalidated_inodes e.di_number in
      elim (Option-cases (pick_newest h ps)) [
        | inl f ↦
            rw f (
              IsTree-Grown h h v v l (Grown-heap h h v v (Same-refl h) l.valid refl refl) l.parents)
        | inr (p, f) ↦
            let w = add_inode h v p in
            let added = Grown-add h v e.di_number p l.valid a (pick_newest-member h ps p f) in
            rw f (
              IsTree-Grown h (named h c e p) v w l
                (Grown-trans h h (named h c e p) v w w added
                  (Grown-heap h (named h c e p) w w (named-Same h c e p) added.valid refl refl))
                (named-Parents h c e p l.parents m))
      ]

  assign_name-IsTree :
      (h : Heap) (v : InodeVector) (c : Ptr) (e : InodeName)
      → IsTree h v
      → has c u ≡ true
      → Grown h v (assign_name h v c e).0 (assign_name h v c e).1
        × IsTree (assign_name h v c e).0 (assign_name h v c e).1
  unfolding assign_name
  assign_name-IsTree h v c e l m =
      let d = e.di_number in
      let v' = (get_by_di_number h v d).0 in
      let found = (get_by_di_number h v d).1 in
      let (a, f, g, valid) = get_by_di_number-Answers h v d l.valid in
      let (first, l') =
        IsTree-Grown h h v v' l (Grown-heap h h v v' (Same-refl h) valid f g) l.parents in
      IsTree-trans h h (take_name h v' c e found).0 v v' (take_name h v' c e found).1 first (
        take_name-IsTree h v' c e found l' m
          (Answers-congr h (members v) (members v') d found (λ q. ap (has q) (sym f)) a))

  assign_names-IsTree :
      (h : Heap) (v : InodeVector) (c : Ptr) (es : List InodeName)
      → IsTree h v
      → has c u ≡ true
      → Grown h v (assign_names h v c es).0 (assign_names h v c es).1
        × IsTree (assign_names h v c es).0 (assign_names h v c es).1
  unfolding assign_names
  assign_names-IsTree h v c [] l m =
      IsTree-Grown h h v v l (Grown-heap h h v v (Same-refl h) l.valid refl refl) l.parents
  assign_names-IsTree h v c (e ∷ es) l m =
      let h' = (assign_name h v c e).0 in
      let v' = (assign_name h v c e).1 in
      let (first, l') = assign_name-IsTree h v c e l m in
      IsTree-trans h h' (assign_names h' v' c es).0 v v' (assign_names h' v' c es).1 first
        (assign_names-IsTree h' v' c es l' m)

  -- The names of all directories end.
  abbrev pub AllListable : Access → Heap → Type 0
  AllListable a h = (p : Ptr) → has p u ≡ true → IsListable a (h p)

  pub AllListable-Same : (a : Access) (h h' : Heap) → Same h h' → AllListable a h → AllListable a h'
  AllListable-Same a h h' same all p m e = rw ((same p).4) (all p m (sym (same p).2 ∙ e))

  name_children-IsTree :
      (a : Access) (h : Heap) (v : InodeVector) (c : Ptr)
      → IsTree h v
      → AllListable a h
      → has c v.inodes ≡ true
      → (h' : Heap) × (v' : InodeVector) × (name_children a h v c ≡ some (h', v'))
        × Grown h v h' v'
        × IsTree h' v'
        × AllListable a h'
  unfolding name_children
  name_children-IsTree a h v c l all m =
      let (names, e) = inode_names-Returns a (h c) (all c (l.inside.0 c m)) in
      let (grown, l') = assign_names-IsTree h v c names l (l.inside.0 c m) in
      let (h', v') = assign_names h v c names in
      (h', v', rw e refl, grown, l', AllListable-Same a h h' grown.same all)

-- A heap in which only names differ.
abbrev Renamed : Heap → Heap → Type 0
Renamed h h' = Same h h' × ((q : Ptr) → (h' q).parent ≡ (h q).parent)

rename_one-Renamed : (print : ℕ → Name) (h : Heap) (p : Ptr) → Renamed h (rename_one print h p)
unfolding rename_one set_name
rename_one-Renamed print h p =
    (λ q. (ground arith, ground arith, ground arith, ground arith, ground arith), λ q. ground arith)

rename_each-Renamed :
    (print : ℕ → Name) (h : Heap) (ps : List Ptr) → Renamed h (rename_each print h ps)
unfolding rename_each
rename_each-Renamed print h [] = (Same-refl h, λ q. refl)
rename_each-Renamed print h (p ∷ ps) =
    let (same, parents) = rename_one-Renamed print h p in
    let h1 = rename_one print h p in
    let (same', parents') = rename_each-Renamed print h1 ps in
    (Same-trans h h1 (rename_each print h1 ps) same same', λ q. parents' q ∙ parents q)

name_root-Renamed : (h : Heap) (o : Option Ptr) → Renamed h (name_root h o)
unfolding set_name
name_root-Renamed h none = (Same-refl h, λ q. refl)
name_root-Renamed h (some p) =
    (λ q. (ground arith, ground arith, ground arith, ground arith, ground arith), λ q. ground arith)

Renamed-Parents : (R : Ptr → Ptr → Type 0) (h h' : Heap) → Renamed h h' → Parents R h → Parents R h'
Renamed-Parents R h h' (same, parents) all c = rw (parents c) (all c)

rename_illegal-IsTree :
    (u : List Ptr) (print : ℕ → Name) (h : Heap) (v : InodeVector)
    → IsTree u h v
    → Grown h v (rename_illegal print h v).0 (rename_illegal print h v).1
      × IsTree u (rename_illegal print h v).0 (rename_illegal print h v).1
unfolding rename_illegal
rename_illegal-IsTree u print h v l =
    let h1 = rename_each print h v.inodes in
    let (same, parents) = rename_each-Renamed print h v.inodes in
    let v' = (get_by_di_number h1 v 2).0 in
    let found = (get_by_di_number h1 v 2).1 in
    let (a, f, g, valid) = get_by_di_number-Answers h1 v 2 (IsValid-Same h h1 v same l.valid) in
    let (same', parents') = name_root-Renamed h1 found in
    let h2 = name_root h1 found in
    let (first, l1) =
      IsTree-Grown u h h1 v v l (Grown-heap h h1 v v same l.valid refl refl)
        (Renamed-Parents (KnownParent u) h h1 (same, parents) l.parents) in
    IsTree-trans u h h1 h2 v v v' first (
      IsTree-Grown u h1 h2 v v' l1 (Grown-heap h1 h2 v v' same' valid f g)
        (Renamed-Parents (KnownParent u) h1 h2 (same', parents') l1.parents))

find-loop :
    (fuel : ℕ) (a : Access) (print : ℕ → Name) (h : Heap) (v : InodeVector) (h1 : Heap)
    (v1 : InodeVector)
    → loop_growing fuel (name_children a) 0 h v ≡ some (h1, v1)
    → find_file_parents_and_names fuel a print h v ≡ some (rename_illegal print h1 v1)
unfolding find_file_parents_and_names
find-loop fuel a print h v h1 v1 e = rw (e, find_file_parents_and_names) refl

-- From a valid vector, where parents are objects that it knows of, and where the pages that hold the
-- names of each directory it knows of end, the search for names and for the parents of files ends
-- whatever these names are, though it adds to the vector it goes through: fuel for one more round than there are inodes and invalidated inodes is enough. The
-- vector keeps its inodes in front, followed by some that were invalidated, and is valid; numbers,
-- classes and dinodes are as before, and parents are objects that the vector knew of.
pub find_file_parents_and_names-returns :
    (fuel : ℕ) (a : Access) (print : ℕ → Name) (h : Heap) (v : InodeVector)
    → IsValid h v
    → Parents (KnownParent (known v)) h
    → AllListable (known v) a h
    → length v.inodes + length v.invalidated_inodes < fuel
    → (h' : Heap) × (v' : InodeVector) × (find_file_parents_and_names fuel a print h v
        ≡ some (h', v'))
      × Grown h v h' v'
      × Parents (KnownParent (known v)) h'
find_file_parents_and_names-returns fuel a print h v valid parents all lt =
    let u = known v in
    let start : IsTree u h v = record {
      valid = valid;
      inside = known-Inside v;
      parents = parents;
    } in
    let (h1, v1, e, grown, (l, all')) =
      loop_growing-returns (name_children a) (λ b w. IsTree u b w × AllListable u a b)
        (λ b w c k m.
          let (b', w', done, more, l, all'') = name_children-IsTree u a b w c k.0 k.1 m in
          (b', w', done, more, (l, all'')))
        fuel 0 h v valid (start, all)
        (omega (arith, missing-le h v.inodes v.invalidated_inodes, lt)) in
    let (more, l') = rename_illegal-IsTree u print h1 v1 l in
    (
      (rename_illegal print h1 v1).0,
      (rename_illegal print h1 v1).1,
      find-loop fuel a print h v h1 v1 e,
      Grown-trans h h1 (rename_illegal print h1 v1).0 v v1 (rename_illegal print h1 v1).1 grown
          more,
      l'.parents,
    )
