-- ===== src/Scanner/Postprocess.antt =====
-- src/inodescanner.cpp: the phases of `scan` behind the sweep, one after the other.
use jfsrec.Prelude.{
  ℕ, ◌+◌, ◌≡◌, refl, sym, ap, ◌∙◌, Bool, true, false, not, inl, inr, List, [], ◌∷◌, has, has-select,
  count, length, ltb, ◌/◌, leb, ◌==◌, if◌then◌else◌, arith, Bool-cases, ==_iff,
}
use jfsrec.Inode.{Ptr}
use jfsrec.Vector.{
  Heap, InodeVector, set_marked, set_marked_each, unmark_all, remove_marked, remove_unmarked,
  remove_dupes, generate_di_number_index, values,
}
use jfsrec.Vector.Lookup.{IsValid, generate-IsIndex}
use jfsrec.Vector.Same.{Alike, Alike-refl, Alike-trans, set_marked-Alike, set_marked_each-Alike}
use jfsrec.Vector.Remove.{both, remove-count, remove-length, Splits, remove-Splits}
use jfsrec.Vector.Dupes.{IsDeduped, remove_dupes-IsDeduped}
use jfsrec.Scanner.{
  Place, places, count_stamps, most_common, first_key, num_consec, mark_extents, mark_unallocated,
  mark_other_stamps, filter_inostamps, detect_ino_extents, remove_unallocated,
}
use jfsrec.Scanner.Unallocated.{unlinked, remove_unallocated-Splits}

-- `scan` from the label filter_inostamps on; what is saved in between changes nothing.
unfoldable pub postprocess : Heap → InodeVector → Heap × InodeVector
unfolding filter_inostamps detect_ino_extents remove_unallocated remove_dupes
postprocess h v =
    let (h1, v1) = filter_inostamps h v in
    let (h2, v2) = detect_ino_extents h1 v1 in
    let (h3, v3) = remove_unallocated h2 v2 in remove_dupes h3 v3

-- What a phase does: only marks change, and no pointer is lost or added.
abbrev pub Conserves : Heap → InodeVector → Heap × InodeVector → Type 0
Conserves h v (h', v') =
    Alike h h'
    × ((p : Ptr) → count p (both v') ≡ count p (both v))
    × (length (both v') ≡ length (both v))

pub Conserves-trans :
    (h : Heap) (v : InodeVector) (h' : Heap) (v' : InodeVector) (r : Heap × InodeVector)
    → Conserves h v (h', v')
    → Conserves h' v' r
    → Conserves h v r
Conserves-trans h v h' v' (h'', v'') a b =
    (Alike-trans h h' h'' a.0 b.0, λ p. b.1 p ∙ a.1 p, b.2 ∙ a.2)

if-Alike : (b : Bool) (h h' h'' : Heap) → Alike h h' → Alike h h'' → Alike h (if b then h' else h'')
if-Alike true h h' h'' a a' = a
if-Alike false h h' h'' a a' = a'

if-Conserves :
    (b : Bool) (h : Heap) (v : InodeVector) (h' : Heap) (v' : InodeVector)
    → Conserves h v (h', v')
    → Conserves h v (if b then (h', v') else (h, v))
if-Conserves true h v h' v' c = c
if-Conserves false h v h' v' c = (Alike-refl h, λ p. refl, refl)

mark_other_stamps-Alike : (s : ℕ) (h : Heap) (ps : List Ptr) → Alike h (mark_other_stamps s h ps)
unfolding mark_other_stamps
mark_other_stamps-Alike s h [] = Alike-refl h
mark_other_stamps-Alike s h (p ∷ ps) =
    let b = (h p).dinode.di_inostamp == s in
    let h' = if b then h else set_marked true h p in
    Alike-trans h h' (mark_other_stamps s h' ps)
      (if-Alike b h h (set_marked true h p) (Alike-refl h) (set_marked-Alike true h p))
      (mark_other_stamps-Alike s h' ps)

mark_extents-Alike :
    (xs : List Place) (h : Heap) (i : ℕ) (ps : List Ptr) → Alike h (mark_extents xs h i ps)
unfolding mark_extents
mark_extents-Alike xs h i [] = Alike-refl h
mark_extents-Alike xs h i (p ∷ ps) =
    let b = leb 32 (num_consec xs i) in
    let h' = if b then set_marked true h p else h in
    Alike-trans h h' (mark_extents xs h' (i + 1) ps)
      (if-Alike b h (set_marked true h p) h (set_marked-Alike true h p) (Alike-refl h))
      (mark_extents-Alike xs h' (i + 1) ps)

mark_unallocated-Alike : (h : Heap) (ps : List Ptr) → Alike h (mark_unallocated h ps)
unfolding mark_unallocated
mark_unallocated-Alike h [] = Alike-refl h
mark_unallocated-Alike h (p ∷ ps) =
    let b = (h p).dinode.di_nlink == 0 in
    Alike-trans h (set_marked b h p) (mark_unallocated (set_marked b h p) ps)
      (set_marked-Alike b h p) (mark_unallocated-Alike (set_marked b h p) ps)

filter_inostamps-Conserves : (h : Heap) (v : InodeVector) → Conserves h v (filter_inostamps h v)
unfolding filter_inostamps unmark_all
filter_inostamps-Conserves h v =
    let m = count_stamps h [] v.inodes in
    let c = most_common (record { ismn = 0; issmn = 0; stamp = first_key m }) m in
    let h1 = set_marked_each false h v.inodes in
    let h2 = mark_other_stamps c.stamp h1 v.inodes in
    if-Conserves (ltb c.issmn (c.ismn / 100)) h v h2 (remove_marked h2 v) (
      Alike-trans h h1 h2 (set_marked_each-Alike false h v.inodes)
          (mark_other_stamps-Alike c.stamp h1 v.inodes),
      λ p. (remove-count h2 v p).0,
      (remove-length h2 v).0,
    )

detect_ino_extents-Conserves : (h : Heap) (v : InodeVector) → Conserves h v (detect_ino_extents h v)
unfolding detect_ino_extents unmark_all
detect_ino_extents-Conserves h v =
    let h1 = set_marked_each false h v.inodes in
    let h2 = mark_extents (places h v.inodes) h1 0 v.inodes in
    (
      Alike-trans h h1 h2 (set_marked_each-Alike false h v.inodes)
          (mark_extents-Alike (places h v.inodes) h1 0 v.inodes),
      λ p. (remove-count h2 v p).1,
      (remove-length h2 v).1,
    )

pub remove_unallocated-Conserves :
    (h : Heap) (v : InodeVector) → Conserves h v (remove_unallocated h v)
unfolding remove_unallocated
remove_unallocated-Conserves h v =
    let h' = mark_unallocated h v.inodes in
    (mark_unallocated-Alike h v.inodes, λ p. (remove-count h' v p).0, (remove-length h' v).0)

pub remove_dupes-Conserves : (h : Heap) (v : InodeVector) → Conserves h v (remove_dupes h v)
unfolding remove_dupes generate_di_number_index
remove_dupes-Conserves h v =
    let h1 = set_marked_each false h v.inodes in
    let v1 = generate_di_number_index h1 v in
    let h2 = set_marked_each true h1 (values v1.di_number_index) in
    (
      Alike-trans h h1 h2 (set_marked_each-Alike false h v.inodes)
          (set_marked_each-Alike true h1 (values v1.di_number_index)),
      λ p. (remove-count h2 v1 p).1,
      (remove-length h2 v1).1,
    )

-- The phases behind the sweep lose no inode and invent none: each stands in the two lists of the
-- vector together as often as before. Only marks change in the objects.
pub postprocess-Conserves : (h : Heap) (v : InodeVector) → Conserves h v (postprocess h v)
unfolding postprocess
postprocess-Conserves h v =
    let (h1, v1) = filter_inostamps h v in
    let (h2, v2) = detect_ino_extents h1 v1 in
    let (h3, v3) = remove_unallocated h2 v2 in
    Conserves-trans h v h1 v1 (remove_dupes h3 v3) (filter_inostamps-Conserves h v) (
      Conserves-trans h1 v1 h2 v2 (remove_dupes h3 v3) (detect_ino_extents-Conserves h1 v1) (
        Conserves-trans h2 v2 h3 v3 (remove_dupes h3 v3) (remove_unallocated-Conserves h2 v2)
          (remove_dupes-Conserves h3 v3)))

Splits-member :
    (test : Ptr → Bool) (v v' : InodeVector) (p : Ptr)
    → Splits test v v'
    → has p v'.inodes ≡ true
    → (has p v.inodes ≡ true) × (test p ≡ false)
Splits-member test v v' p (kept, out, flag) m =
    let selected = sym (has-select p (λ q. not (test q)) v.inodes) ∙ ap (has p) (sym kept) ∙ m in
    (ground arith, ground arith)

if-member :
    (b : Bool) (h : Heap) (v : InodeVector) (h' : Heap) (v' : InodeVector) (p : Ptr)
    → (has p v'.inodes ≡ true → has p v.inodes ≡ true)
    → has p (if◌then◌else◌ {A = Heap × InodeVector} b (h', v') (h, v)).1.inodes ≡ true
    → has p v.inodes ≡ true
if-member true h v h' v' p back m = back m
if-member false h v h' v' p back m = m

filter_inostamps-member :
    (h : Heap) (v : InodeVector) (p : Ptr)
    → has p (filter_inostamps h v).1.inodes ≡ true
    → has p v.inodes ≡ true
unfolding filter_inostamps
filter_inostamps-member h v p m =
    let t = count_stamps h [] v.inodes in
    let c = most_common (record { ismn = 0; issmn = 0; stamp = first_key t }) t in
    let h2 = mark_other_stamps c.stamp (unmark_all h v) v.inodes in
    if-member (ltb c.issmn (c.ismn / 100)) h v h2 (remove_marked h2 v) p
      (λ k.
        (Splits-member (λ q. (h2 q).is_marked) v (remove_marked h2 v) p (remove-Splits h2 v).0 k).0)
      m

detect_ino_extents-member :
    (h : Heap) (v : InodeVector) (p : Ptr)
    → has p (detect_ino_extents h v).1.inodes ≡ true
    → has p v.inodes ≡ true
unfolding detect_ino_extents
detect_ino_extents-member h v p m =
    let h2 = mark_extents (places h v.inodes) (unmark_all h v) 0 v.inodes in
    (Splits-member (λ q. not (h2 q).is_marked) v (remove_unmarked h2 v) p (remove-Splits h2 v).1
      m).0

remove_dupes-member :
    (h : Heap) (v : InodeVector) (p : Ptr)
    → has p (remove_dupes h v).1.inodes ≡ true
    → has p v.inodes ≡ true
remove_dupes-member h v p m = ((remove_dupes-IsDeduped h v).newest p m).member

pub remove_dupes-IsValid :
    (h : Heap) (v : InodeVector) → IsValid (remove_dupes h v).0 (remove_dupes h v).1
unfolding remove_dupes
remove_dupes-IsValid h v = record {
  indexed = λ e. cc;
  sorted = (generate-IsIndex (set_marked_each false h v.inodes) v).1;
}

pub postprocess-IsValid :
    (h : Heap) (v : InodeVector) → IsValid (postprocess h v).0 (postprocess h v).1
unfolding postprocess
postprocess-IsValid h v =
    let (h1, v1) = filter_inostamps h v in
    let (h2, v2) = detect_ino_extents h1 v1 in
    let (h3, v3) = remove_unallocated h2 v2 in remove_dupes-IsValid h3 v3

same_object :
    (h : Heap) (v : InodeVector) (p q : Ptr)
    → IsDeduped h v (remove_dupes h v).1
    → has p (remove_dupes h v).1.inodes ≡ true
    → has q (remove_dupes h v).1.inodes ≡ true
    → (p == q) ≡ ((h p).di_number == (h q).di_number)
same_object h v p q d m n = elim (Bool-cases (p == q)) [
  | inl same ↦ let eq = ap (λ x. (h x).di_number) ((==_iff p q).0 same) in ground arith
  | inr other ↦ elim (Bool-cases ((h p).di_number == (h q).di_number)) [
    | inr differ ↦ other ∙ sym differ
    | inl equal ↦
        let eq = d.unique p q m n ((==_iff (h p).di_number (h q).di_number).0 equal) in ground arith
  ]
]

-- Of the inodes that are left behind the phases each was in the vector and has a link, and no two of
-- them have the same number: they are one object exactly when their numbers are equal.
pub postprocess-sane :
    (h : Heap) (v : InodeVector) (p q : Ptr)
    → has p (postprocess h v).1.inodes ≡ true
    → has q (postprocess h v).1.inodes ≡ true
    → (has p v.inodes ≡ true)
      × (unlinked h p ≡ false)
      × ((p == q) ≡ ((h p).di_number == (h q).di_number))
unfolding postprocess
postprocess-sane h v p q m n =
    let (h1, v1) = filter_inostamps h v in
    let (h2, v2) = detect_ino_extents h1 v1 in
    let (h3, v3) = remove_unallocated h2 v2 in
    let a1 = filter_inostamps-Conserves h v in
    let a2 = detect_ino_extents-Conserves h1 v1 in
    let a3 = remove_unallocated-Conserves h2 v2 in
    let alike2 = Alike-trans h h1 h2 a1.0 a2.0 in
    let alike3 = Alike-trans h h2 h3 alike2 a3.0 in
    let (m2, linked) =
      Splits-member (unlinked h2) v2 v3 p (remove_unallocated-Splits h2 v2)
        (remove_dupes-member h3 v3 p m) in
    (
      filter_inostamps-member h v p (detect_ino_extents-member h1 v1 p m2),
      ap (λ d. d.di_nlink == 0) (sym (alike2.0 p).1) ∙ linked,
      same_object h3 v3 p q (remove_dupes-IsDeduped h3 v3) m n
          ∙ ap (λ x. x == (h3 q).di_number) (alike3.0 p).0
          ∙ ap (λ x. (h p).di_number == x) (alike3.0 q).0,
    )
