-- ===== src/Vector/Dupes.antt =====
-- src/inodevector.cpp: `remove_dupes`.
use jfsrec.Prelude.{
  ℕ, ◌≡◌, inl, inr, refl, sym, ap, ◌∙◌, Bool, true, false, not, none, some, List, [], ◌∷◌, has,
  has-select, ◌==◌, if◌then◌else◌, arith, Option-cases, Bool-cases,
}
use jfsrec.Prelude.Map.{lookup, lookup-Above, IsSorted}
use jfsrec.Inode.{Ptr}
use jfsrec.Vector.{
  Heap, InodeVector, generate_di_number_index, set_marked_each, values, remove_dupes,
}
use jfsrec.Vector.Marks.{set_marked_each_lem}
use jfsrec.Vector.Index.{IsNewest, Answers, IsIndex}
use jfsrec.Vector.Lookup.{members, generate-IsIndex}
use jfsrec.Vector.Remove.{remove-Splits}

-- In a map the values are what the look-ups find.
values-lookup :
    (m : List (ℕ × Ptr)) (q : Ptr)
    → IsSorted m
    → has q (values m) ≡ true
    → (k : ℕ) × (lookup k m ≡ some q)
unfolding values lookup
values-lookup [] q s e = cc
values-lookup ((j, p) ∷ m) q s e = elim (Bool-cases (q == p)) [
  | inl same ↦ (j, ground arith)
  | inr other ↦
      let (k, f) = values-lookup m q s.1 (ground arith) in (k, ground (arith, lookup-Above j m))
]

lookup-values :
    (m : List (ℕ × Ptr)) (k : ℕ) (q : Ptr) → lookup k m ≡ some q → has q (values m) ≡ true
unfolding values lookup
lookup-values [] k q e = cc
lookup-values ((j, p) ∷ m) k q e = ground (arith, lookup-values m k q)

-- Of every number that was in the vector one inode is left, and it is the one allocated last.
pub record IsDeduped (h : Heap) (v v' : InodeVector) : Type 0 where
  pub newest : (p : Ptr) → has p v'.inodes ≡ true → IsNewest h (members v) (h p).di_number p
  pub unique :
      (p q : Ptr)
      → has p v'.inodes ≡ true
      → has q v'.inodes ≡ true
      → (h p).di_number ≡ (h q).di_number
      → p ≡ q
  pub covers :
      (q : Ptr)
      → has q v.inodes ≡ true
      → (p : Ptr) × (has p v'.inodes ≡ true) × ((h p).di_number ≡ (h q).di_number)

one_answer : {p q : Ptr} → some p ≡ some q → p ≡ q
one_answer e = cc

module _ (h : Heap) (v : InodeVector) where
  unmarked : Heap
  unmarked = set_marked_each false h v.inodes

  index : List (ℕ × Ptr)
  index = (generate_di_number_index unmarked v).di_number_index

  same_number : (q : Ptr) → (unmarked q).di_number ≡ (h q).di_number
  unfolding unmarked
  same_number q = ground (arith, set_marked_each_lem false h v.inodes q)

  same_disk : (q : Ptr) → (unmarked q).dinode ≡ (h q).dinode
  unfolding unmarked
  same_disk q = rw (set_marked_each_lem false h v.inodes q) (by_test (has q v.inodes))
    where
      by_test :
          (b : Bool) → (if b then record (h q) { is_marked = false } else h q).dinode ≡ (h q).dinode
      by_test true = refl
      by_test false = refl

  right : IsIndex unmarked (members v) index
  unfolding index
  right = (generate-IsIndex unmarked v).0

  IsNewest-back : (d : ℕ) (p : Ptr) → IsNewest unmarked (members v) d p → IsNewest h (members v) d p
  IsNewest-back d p n = record {
    member = n.member;
    number = sym (same_number p) ∙ n.number;
    newest = λ q e f. rw (← same_disk p, ← same_disk q) (n.newest q e (same_number q ∙ f));
  }

  -- What stays is what the look-up of its number finds.
  stays : Ptr → Bool
  stays q = has q (values index)

  marked : Heap
  marked = set_marked_each true unmarked (values index)

  marked-is_marked :
      (q : Ptr)
      → (marked q).is_marked
        ≡ (if stays q then true else if has q v.inodes then false else (h q).is_marked)
  unfolding marked unmarked stays
  marked-is_marked q =
      rw (set_marked_each_lem true (set_marked_each false h v.inodes) (values index) q)
        (ground (arith, set_marked_each_lem false h v.inodes q))

  kept-inodes :
      (q : Ptr) → has q (remove_dupes h v).1.inodes ≡ (if stays q then has q v.inodes else false)
  unfolding remove_dupes generate_di_number_index unmarked index marked
  kept-inodes q =
      ap (has q) (remove-Splits marked (generate_di_number_index unmarked v)).1.0
      ∙ has-select q (λ p. not (not (marked p).is_marked)) v.inodes
      ∙ ground (arith, marked-is_marked q)

  -- An inode that stays is what the look-up of its number finds.
  stays-lookup : (q : Ptr) → stays q ≡ true → lookup (h q).di_number index ≡ some q
  unfolding stays index
  stays-lookup q e =
      let (k, f) = values-lookup index q (generate-IsIndex unmarked v).1 e in
      let n : IsNewest unmarked (members v) k q = rw f at (right k) in
      rw (← same_number q, n.number) f

  kept-stays :
      (q : Ptr)
      → has q (remove_dupes h v).1.inodes ≡ true
      → (stays q ≡ true) × (has q v.inodes ≡ true)
  kept-stays q e = ground (arith, kept-inodes q)

  kept-lookup :
      (q : Ptr) → has q (remove_dupes h v).1.inodes ≡ true → lookup (h q).di_number index ≡ some q
  kept-lookup q e = stays-lookup q (kept-stays q e).0

  covered :
      (q : Ptr)
      → has q v.inodes ≡ true
      → (p : Ptr) × (has p (remove_dupes h v).1.inodes ≡ true) × ((h p).di_number ≡ (h q).di_number)
  unfolding stays
  covered q e = elim (Option-cases (lookup (h q).di_number index)) [
    | inl f ↦
        let absent : Answers unmarked (members v) (h q).di_number none =
          rw f at (right (h q).di_number) in
        absurd (absent q e (same_number q))
    | inr (p, f) ↦
        let n : IsNewest unmarked (members v) (h q).di_number p = rw f at (right (h q).di_number) in
        let there = lookup-values index (h q).di_number p f in
        (p, rw (kept-inodes p, there) n.member, sym (same_number p) ∙ n.number)
  ]

  -- `remove_dupes` leaves of each inode number that is in the vector exactly one inode, the one
  -- with the latest creation time.
  pub remove_dupes-IsDeduped : IsDeduped h v (remove_dupes h v).1
  remove_dupes-IsDeduped = record {
    newest = λ p e.
        let n : IsNewest unmarked (members v) (h p).di_number p =
          rw (kept-lookup p e) at (right (h p).di_number) in
        IsNewest-back (h p).di_number p n;
    unique = λ p q e f g.
        one_answer (sym (kept-lookup p e) ∙ ap (λ k. lookup k index) g ∙ kept-lookup q f);
    covers = covered;
  }
