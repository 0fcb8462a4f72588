-- ===== src/Recoverer/Parents.antt =====
-- src/recoverer.cpp: `find_directory_parents` ends, though the vector grows while it runs, and what
-- the parents are then.
use jfsrec.Prelude.{
  ℕ, ◌+◌, ◌<◌, ◌≡◌, refl, sym, ap, ◌∙◌, true, Option, none, some, inl, inr, List, [], ◌∷◌, ◌++◌,
  All, has, has-append, length, ◌==◌, if◌then◌else◌, arith, Bool-cases, Option-cases, ==_iff,
}
use jfsrec.Inode.{Ptr}
use jfsrec.Vector.{
  Heap, InodeVector, invalidated_from, add_inode, get_by_di_number, get_invalidated_by_di_number,
}
use jfsrec.Vector.Index.{Answers, Answers-congr}
use jfsrec.Vector.Lookup.{IsValid, members, get_by_di_number-Answers}
use jfsrec.Recoverer.{
  set_parent, pick_newest, is_dir, is_file, adopt_parent, take_parent, find_directory_parent,
  find_directory_parents,
}
use jfsrec.Recoverer.Newest.{pick_newest-oldest}
use jfsrec.Recoverer.Growth.Loop.{loop_growing-returns}
use jfsrec.Vector.Same.{Same, Same-refl, Same-trans}
use jfsrec.Recoverer.Growth.{Grown, Grown-heap, Grown-add, Grown-trans, has-invalidated, missing-le}

-- The parent, if there is one, is related to the object.
abbrev pub At : (Ptr → Ptr → Type 0) → Ptr → Option Ptr → Type 0
At R c none = Unit
At R c (some q) = R c q

abbrev pub Parents : (Ptr → Ptr → Type 0) → Heap → Type 0
Parents R h = (c : Ptr) → At R c (h c).parent

set_parent_lem :
    (h : Heap) (p i q : Ptr)
    → (set_parent h p i q).parent ≡ (if q == p then some i else (h q).parent)
unfolding set_parent
set_parent_lem h p i q = ground arith

pub set_parent-Same : (h : Heap) (p i : Ptr) → Same h (set_parent h p i)
unfolding set_parent
set_parent-Same h p i q = (ground arith, ground arith, ground arith, ground arith, ground arith)

pub set_parent-Parents :
    (R : Ptr → Ptr → Type 0) (h : Heap) (p i : Ptr)
    → Parents R h
    → R p i
    → Parents R (set_parent h p i)
set_parent-Parents R h p i all r c = elim (Bool-cases (c == p)) [
  | inl same ↦ let eq = (==_iff c p).0 same in rw (set_parent_lem h p i c, same) (rw eq r)
  | inr other ↦ rw (set_parent_lem h p i c, other) (all c)
]

pub pick_newest-member :
    (h : Heap) (ps : List Ptr) (r : Ptr) → pick_newest h ps ≡ some r → has r ps ≡ true
unfolding pick_newest
pick_newest-member h [] r e = cc
pick_newest-member h (p ∷ ps) r e = (pick_newest-oldest h (p ∷ ps) r p e (ground arith)).0

-- All the objects that the vector knows of stand in one list.
abbrev pub Inside : List Ptr → InodeVector → Type 0
Inside u v =
    ((q : Ptr) → has q v.inodes ≡ true → has q u ≡ true)
    × ((q : Ptr) → has q v.invalidated_inodes ≡ true → has q u ≡ true)

has-All :
    (out u : List Ptr) (xs : List Ptr) (q : Ptr)
    → ((r : Ptr) → has r out ≡ true → has r u ≡ true)
    → All (λ p. has p out ≡ true) xs
    → has q xs ≡ true
    → has q u ≡ true
has-All out u [] q within all m = cc
has-All out u (x ∷ xs) q within all m = elim (Bool-cases (q == x)) [
  | inl same ↦ rw ((==_iff q x).0 same) (within x all.0)
  | inr other ↦ has-All out u xs q within all.1 (ground arith)
]

pub Grown-Inside :
    (u : List Ptr) (h h' : Heap) (v v' : InodeVector) → Grown h v h' v' → Inside u v → Inside u v'
Grown-Inside u h h' v v' g (members_in, out_in) = (
  λ q m. elim (Bool-cases (has q v.inodes)) [
    | inl old ↦ members_in q old
    | inr new ↦
        has-All v.invalidated_inodes u g.extra q out_in g.from_out
          (ground (arith, has-append q v.inodes g.extra, ap (has q) g.grows, m))
  ],
  λ q m. out_in q (ap (has q) (sym g.out) ∙ m),
)

-- What `find_directory_parents` keeps: a parent is an object that the vector knows of, and has the
-- number that the directory gives for its parent. Numbers are those of the heap `o` at the start.
abbrev pub NumberedParent : Heap → List Ptr → Ptr → Ptr → Type 0
NumberedParent o u c q = (has q u ≡ true) × ((o q).di_number ≡ (o c).parent_di_number)

module _ (o : Heap) (u : List Ptr) where
  pub record IsLinked (h : Heap) (v : InodeVector) : Type 0 where
    pub valid : IsValid h v
    pub same : Same o h
    pub inside : Inside u v
    pub parents : Parents (NumberedParent o u) h

  IsLinked-Grown :
      (h h' : Heap) (v v' : InodeVector)
      → IsLinked h v
      → Grown h v h' v'
      → Parents (NumberedParent o u) h'
      → Grown h v h' v' × IsLinked h' v'
  IsLinked-Grown h h' v v' l g parents = (
    g,
    record {
      valid = g.valid;
      same = Same-trans o h h' l.same g.same;
      inside = Grown-Inside u h h' v v' g l.inside;
      parents = parents;
    },
  )

  numbered :
      (h : Heap) (v : InodeVector) (c p : Ptr)
      → IsLinked h v
      → has p u ≡ true
      → (h p).di_number ≡ (h c).parent_di_number
      → Parents (NumberedParent o u) (set_parent h c p)
  numbered h v c p l m e =
      set_parent-Parents (NumberedParent o u) h c p l.parents
        (m, sym (l.same p).0 ∙ e ∙ (l.same c).3)

  take_parent-IsLinked :
      (h : Heap) (v : InodeVector) (c : Ptr) (found : Option Ptr)
      → IsLinked h v
      → Answers h (members v) (h c).parent_di_number found
      → Grown h v (take_parent h v c found).0 (take_parent h v c found).1
        × IsLinked (take_parent h v c found).0 (take_parent h v c found).1
  unfolding take_parent adopt_parent get_invalidated_by_di_number
  take_parent-IsLinked h v c (some p) l a = elim (Bool-cases (is_file h p)) [
    | inl bad ↦
        rw bad
          (IsLinked-Grown h h v v l (Grown-heap h h v v (Same-refl h) l.valid refl refl) l.parents)
    | inr fine ↦ rw fine (
        IsLinked-Grown h (set_parent h c p) v v l
          (Grown-heap h (set_parent h c p) v v (set_parent-Same h c p) l.valid refl refl)
          (numbered h v c p l (l.inside.0 p a.member) a.number))
  ]
  take_parent-IsLinked h v c none l a =
      let ps = invalidated_from h v.invalidated_inodes (h c).parent_di_number in
      elim (Option-cases (pick_newest h ps)) [
        | inl e ↦ rw e (
            IsLinked-Grown h h v v l (Grown-heap h h v v (Same-refl h) l.valid refl refl) l.parents)
        | inr (p, e) ↦
            let m = pick_newest-member h ps p e in
            let (in_out, number) =
              has-invalidated h v.invalidated_inodes (h c).parent_di_number p m in
            let added = Grown-add h v (h c).parent_di_number p l.valid a m in
            let w = add_inode h v p in
            rw e (
              IsLinked-Grown h (set_parent h c p) v w l
                (Grown-trans h h (set_parent h c p) v w w added (
                  Grown-heap h (set_parent h c p) w w (set_parent-Same h c p) added.valid refl
                    refl))
                (numbered h v c p l (l.inside.1 p in_out) number))
      ]

  find_directory_parent-IsLinked :
      (h : Heap) (v : InodeVector) (c : Ptr)
      → IsLinked h v
      → Grown h v (find_directory_parent h v c).0 (find_directory_parent h v c).1
        × IsLinked (find_directory_parent h v c).0 (find_directory_parent h v c).1
  unfolding find_directory_parent
  find_directory_parent-IsLinked h v c l = elim (Bool-cases (is_dir h c)) [
    | inr other ↦
        rw other
          (IsLinked-Grown h h v v l (Grown-heap h h v v (Same-refl h) l.valid refl refl) l.parents)
    | inl directory ↦
        let d = (h c).parent_di_number in
        let v' = (get_by_di_number h v d).0 in
        let found = (get_by_di_number h v d).1 in
        let (a, e, f, valid) = get_by_di_number-Answers h v d l.valid in
        let (first, l') =
          IsLinked-Grown h h v v' l (Grown-heap h h v v' (Same-refl h) valid e f) l.parents in
        let (second, l'') =
          take_parent-IsLinked h v' c found l'
            (Answers-congr h (members v) (members v') d found (λ q. ap (has q) (sym e)) a) in
        rw directory (
          Grown-trans h h (take_parent h v' c found).0 v v' (take_parent h v' c found).1 first
              second,
          l'',
        )
  ]

-- The list of all objects that a vector knows of.
abbrev pub known : InodeVector → List Ptr
known v = v.inodes ++ v.invalidated_inodes

pub known-Inside : (v : InodeVector) → Inside (known v) v
known-Inside v = (
  λ q m. ground (arith, has-append q v.inodes v.invalidated_inodes, m),
  λ q m. ground (arith, has-append q v.inodes v.invalidated_inodes, m),
)

-- From a valid vector whose objects have no parents but such with the number they give, the loop
-- ends, though it adds to the vector it goes through: fuel for one more round than there are inodes
-- and invalidated inodes is enough. The vector keeps its inodes in front, followed by some that were
-- invalidated, and is valid. Numbers, classes and dinodes are as before. The parent of an object, if
-- it has one, is an object that the vector knows of, with the number that the object gives.
pub find_directory_parents-returns :
    (fuel : ℕ) (h : Heap) (v : InodeVector)
    → IsValid h v
    → Parents (NumberedParent h (known v)) h
    → length v.inodes + length v.invalidated_inodes < fuel
    → (h' : Heap) × (v' : InodeVector) × (find_directory_parents fuel h v ≡ some (h', v'))
      × Grown h v h' v'
      × Parents (NumberedParent h (known v)) h'
unfolding find_directory_parents
find_directory_parents-returns fuel h v valid parents lt =
    let u = known v in
    let start : IsLinked h u h v = record {
      valid = valid;
      same = Same-refl h;
      inside = known-Inside v;
      parents = parents;
    } in
    let (h', v', e, grown, l) =
      loop_growing-returns (λ a w c. some (find_directory_parent a w c)) (IsLinked h u)
        (λ a w c l m.
          let r = find_directory_parent a w c in
          let (more, l') = find_directory_parent-IsLinked h u a w c l in (r.0, r.1, refl, more, l'))
        fuel 0 h v valid start (omega (arith, missing-le h v.inodes v.invalidated_inodes, lt)) in
    (h', v', e, grown, l.parents)
