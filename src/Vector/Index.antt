-- ===== src/Vector/Index.antt =====
-- src/inodevector.cpp: the index by inode number, and the look-ups and additions that use it.
use mathlib.Core.Bool.{false≢true}
use jfsrec.Prelude.{
  sym, ◌∙◌, ℕ, ◌≡◌, ◌≢◌, inl, inr, refl, Bool, true, false, ◌||◌, Option, none, some, List, [], ◌∷◌,
  has, ◌==◌, arith, Option-cases, Bool-cases, ==_iff,
}
use jfsrec.Prelude.Map.{lookup, insert, lookup-insert, IsSorted, insert-IsSorted}
use jfsrec.Inode.{Ptr, time_lt}
use jfsrec.Inode.Times.{time_lt_irrefl, time_lt_trans}
use jfsrec.Vector.{Heap, index_step, index_from}

-- No object of `s` was allocated later under the number of `p`.
pub record IsNewest (h : Heap) (s : Ptr → Bool) (d : ℕ) (p : Ptr) : Type 0 where
  pub member : s p ≡ true
  pub number : (h p).di_number ≡ d
  pub newest :
      (q : Ptr)
      → s q ≡ true
      → (h q).di_number ≡ d
      → time_lt (h p).dinode.di_otime (h q).dinode.di_otime ≡ false

-- What a look-up of `d` among the objects of `s` may answer.
abbrev pub Answers : Heap → (Ptr → Bool) → ℕ → Option Ptr → Type 0
Answers h s d none = (q : Ptr) → s q ≡ true → (h q).di_number ≢ d
Answers h s d (some p) = IsNewest h s d p

abbrev pub IsIndex : Heap → (Ptr → Bool) → List (ℕ × Ptr) → Type 0
IsIndex h s m = (d : ℕ) → Answers h s d (lookup d m)

module _ (h : Heap) where
  -- Only the members matter, not how the test finds them.
  pub Answers-congr :
      (s t : Ptr → Bool) (d : ℕ) (o : Option Ptr)
      → ((q : Ptr) → s q ≡ t q)
      → Answers h s d o
      → Answers h t d o
  Answers-congr s t d none same a = λ q e. a q (rw (same q) e)
  Answers-congr s t d (some p) same a = record {
    member = rw (← same p) a.member;
    number = a.number;
    newest = λ q e. a.newest q (rw (same q) e);
  }

  abbrev pub with : Ptr → (Ptr → Bool) → Ptr → Bool
  with p s q = (q == p) || s q

  -- A new member that the answer stands for, or not.
  Answers-with :
      (s : Ptr → Bool) (d : ℕ) (p : Ptr) (o : Option Ptr)
      → Answers h s d o
      → (h p).di_number ≢ d
      → Answers h (with p s) d o
  Answers-with s d p none a n = λ q e f. ground (arith, a q)
  Answers-with s d p (some r) a n = record {
    member = ground (arith, a.member);
    number = a.number;
    newest = λ q e f. ground (arith, a.newest q);
  }

  unfoldable pub after : Ptr → Ptr → Bool
  after q p = time_lt (h q).dinode.di_otime (h p).dinode.di_otime

  -- The new member is the answer if no member is later, ...
  newcomer :
      (s : Ptr → Bool) (p : Ptr)
      → ((r : Ptr) → s r ≡ true → (h r).di_number ≡ (h p).di_number → after p r ≡ false)
      → IsNewest h (with p s) (h p).di_number p
  unfolding after
  newcomer s p none_later = record {
    member = ground arith;
    number = refl;
    newest = λ r e f. elim (Bool-cases (r == p)) [
      | inl same ↦ rw ((==_iff r p).0 same) (time_lt_irrefl (h p).dinode.di_otime)
      | inr other ↦ none_later r (ground arith) f
    ];
  }

  -- ... and otherwise the old answer stays one.
  incumbent :
      (s : Ptr → Bool) (p q : Ptr)
      → IsNewest h s (h p).di_number q
      → after q p ≡ false
      → IsNewest h (with p s) (h p).di_number q
  unfolding after
  incumbent s p q a e = record {
    member = ground (arith, a.member);
    number = a.number;
    newest = λ r f g. elim (Bool-cases (r == p)) [
      | inl same ↦ rw ((==_iff r p).0 same) e
      | inr other ↦ a.newest r (ground arith) g
    ];
  }

  pub insert-IsIndex :
      (s : Ptr → Bool) (m : List (ℕ × Ptr)) (p : Ptr)
      → IsIndex h s m
      → ((r : Ptr) → s r ≡ true → (h r).di_number ≡ (h p).di_number → after p r ≡ false)
      → IsIndex h (with p s) (insert (h p).di_number p m)
  insert-IsIndex s m p old none_later d = elim (Bool-cases (d == (h p).di_number)) [
    | inl same ↦
        rw (lookup-insert d (h p).di_number p m, same, (==_iff _ _).0 same)
          (newcomer s p none_later)
    | inr other ↦
        rw (lookup-insert d (h p).di_number p m, other)
          (Answers-with s d p (lookup d m) (old d) (ground arith))
  ]

  later-false :
      (s : Ptr → Bool) (p q r : Ptr)
      → IsNewest h s (h p).di_number q
      → after q p ≡ true
      → s r ≡ true
      → (h r).di_number ≡ (h p).di_number
      → after p r ≡ false
  unfolding after
  later-false s p q r found later f g = elim (Bool-cases (after p r)) [
    | inr no_later ↦ no_later
    | inl still ↦ absurd (
        false≢true (
          sym (found.newest r f g)
          ∙ time_lt_trans (h q).dinode.di_otime (h p).dinode.di_otime (h r).dinode.di_otime later
              still))
  ]

  kept :
      (s : Ptr → Bool) (m : List (ℕ × Ptr)) (p q : Ptr)
      → IsIndex h s m
      → lookup (h p).di_number m ≡ some q
      → after q p ≡ false
      → IsIndex h (with p s) m
  kept s m p q old e keeps d = elim (Bool-cases (d == (h p).di_number)) [
    | inl same ↦ rw ((==_iff _ _).0 same, e) (incumbent s p q (rw e at (old (h p).di_number)) keeps)
    | inr other ↦ Answers-with s d p (lookup d m) (old d) (ground arith)
  ]

  -- One round of the loop keeps the index right, for one more object.
  index_step-IsIndex :
      (s : Ptr → Bool) (m : List (ℕ × Ptr)) (p : Ptr)
      → IsIndex h s m
      → IsIndex h (with p s) (index_step h m p)
  unfolding index_step after
  index_step-IsIndex s m p old d =
      let k = (h p).di_number in
      let unchanged = λ (q : Ptr) (e : lookup k m ≡ some q) (keeps : after q p ≡ false).
        kept s m p q old e keeps d in
      elim (Option-cases (lookup k m)) [
        | inl e ↦
            let absent : Answers h s k none = rw e at (old k) in
            rw (e, index_step) (insert-IsIndex s m p old (λ r f g. absurd (absent r f g)) d)
        | inr (q, e) ↦
            let found : IsNewest h s k q = rw e at (old k) in
            elim (Bool-cases (after q p)) [
              | inl later ↦
                  rw (e, later, index_step)
                    (insert-IsIndex s m p old (λ r f g. later-false s p q r found later f g) d)
              | inr keeps ↦ rw (e, keeps, index_step) (unchanged q e keeps)
            ]
      ]

  pub index_from-IsIndex :
      (s : Ptr → Bool) (m : List (ℕ × Ptr)) (ps : List Ptr)
      → IsIndex h s m
      → IsIndex h (λ q. has q ps || s q) (index_from h m ps)
  unfolding index_from
  index_from-IsIndex s m [] old d = old d
  index_from-IsIndex s m (p ∷ ps) old d =
      Answers-congr _ _ d _ (λ q. ground arith)
        (index_from-IsIndex (with p s) (index_step h m p) ps (index_step-IsIndex s m p old) d)

  pub index_from-IsSorted :
      (m : List (ℕ × Ptr)) (ps : List Ptr) → IsSorted m → IsSorted (index_from h m ps)
  unfolding index_from index_step
  index_from-IsSorted m [] old = old
  index_from-IsSorted m (p ∷ ps) old =
      index_from-IsSorted (index_step h m p) ps
        (ground (arith, insert-IsSorted (h p).di_number p m))
