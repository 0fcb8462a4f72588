-- ===== src/Recoverer/Unique.antt =====
-- src/recoverer.cpp: `find_roots`: the roots of all inodes, sorted as pointers and made unique.
use jfsrec.Prelude.{
  ℕ, ◌≡◌, ◌<◌, ◌≤◌, refl, ap, ◌∙◌, Bool, true, false, Option, none, some, inl, inr, List, [], ◌∷◌,
  All, has, count, leb, ◌==◌, if◌then◌else◌, arith, length, Option-cases, Bool-cases, ==_iff,
}
use mathlib.Core.Option
use jfsrec.Inode.{Ptr}
use jfsrec.Vector.{Heap, InodeVector}
use jfsrec.Recoverer.{get_root}
use jfsrec.Recoverer.Roots.{Above, IsEnd, IsClosed, get_root-returns}

-- `get_root` where there is a parent; an object without one is its own root.
unfoldable pub root_of : ℕ → Heap → Ptr → Option Ptr
unfolding get_root
root_of fuel h p = elim (h p).parent [ none ↦ some p | some q ↦ get_root fuel h p ]

unfoldable pub roots_of : ℕ → Heap → List Ptr → Option (List Ptr)
unfolding root_of
roots_of fuel h [] = some []
roots_of fuel h (p ∷ ps) = elim (root_of fuel h p) [
  | none ↦ none
  | some r ↦ Option.map (λ rs. r ∷ rs) (roots_of fuel h ps)
]

-- `sort`
unfoldable pub insert_sorted : Ptr → List Ptr → List Ptr
insert_sorted p [] = p ∷ []
insert_sorted p (q ∷ qs) = if leb p q then p ∷ q ∷ qs else q ∷ insert_sorted p qs

unfoldable pub sort : List Ptr → List Ptr
unfolding insert_sorted
sort [] = []
sort (p ∷ ps) = insert_sorted p (sort ps)

-- `unique`: of equal neighbours one is left.
abbrev starts_with : Ptr → List Ptr → Bool
starts_with p [] = false
starts_with p (q ∷ qs) = p == q

unfoldable pub unique : List Ptr → List Ptr
unique [] = []
unique (p ∷ ps) = let rest = unique ps in if starts_with p ps then rest else p ∷ rest

unfoldable pub find_roots : ℕ → Heap → InodeVector → Option (List Ptr)
unfolding roots_of sort unique
find_roots fuel h v = Option.map (λ r. unique (sort r)) (roots_of fuel h v.inodes)

abbrev IsSorted : List Ptr → Type 0
IsSorted [] = Unit
IsSorted (p ∷ ps) = All (λ q. p ≤ q) ps × IsSorted ps

All-insert :
    (a p : Ptr) (ps : List Ptr)
    → a ≤ p
    → All (λ q. a ≤ q) ps
    → All (λ q. a ≤ q) (insert_sorted p ps)
unfolding insert_sorted
All-insert a p [] h all = (h, tt)
All-insert a p (q ∷ qs) h all = ground (arith, All-insert a p qs)

All-weaken : (a b : Ptr) (ps : List Ptr) → a ≤ b → All (λ q. b ≤ q) ps → All (λ q. a ≤ q) ps
All-weaken a b [] h all = tt
All-weaken a b (q ∷ qs) h all = (omega (arith, all.0, h), All-weaken a b qs h all.1)

insert-IsSorted_list : (p : Ptr) (ps : List Ptr) → IsSorted ps → IsSorted (insert_sorted p ps)
unfolding insert_sorted
insert-IsSorted_list p [] s = (tt, tt)
insert-IsSorted_list p (q ∷ qs) s =
    ground (arith, insert-IsSorted_list p qs, All-insert q p qs, All-weaken p q qs)

sort-IsSorted : (ps : List Ptr) → IsSorted (sort ps)
unfolding sort
sort-IsSorted [] = tt
sort-IsSorted (p ∷ ps) = insert-IsSorted_list p (sort ps) (sort-IsSorted ps)

has-insert_sorted : (a p : Ptr) (ps : List Ptr) → has a (insert_sorted p ps) ≡ has a (p ∷ ps)
unfolding insert_sorted
has-insert_sorted a p [] = refl
has-insert_sorted a p (q ∷ qs) = ground (arith, has-insert_sorted a p qs)

has-sort : (a : Ptr) (ps : List Ptr) → has a (sort ps) ≡ has a ps
unfolding sort
has-sort a [] = refl
has-sort a (p ∷ ps) = ground (arith, has-insert_sorted a p (sort ps), has-sort a ps)

has-none : (a : Ptr) (q : Ptr) (ps : List Ptr) → a < q → All (λ b. q ≤ b) ps → has a ps ≡ false
has-none a q [] h all = refl
has-none a q (p ∷ ps) h all = ground (arith, has-none a q ps)

abbrev once : Bool → ℕ
once true = 1
once false = 0

count-unique : (a : Ptr) (ps : List Ptr) → IsSorted ps → count a (unique ps) ≡ once (has a ps)
unfolding unique
count-unique a [] s = refl
count-unique a (p ∷ []) s = ground arith
count-unique a (p ∷ q ∷ ps) s = ground (arith, count-unique a (q ∷ ps), has-none a q ps)

sort-unique : (a : Ptr) (ps : List Ptr) → count a (unique (sort ps)) ≡ once (has a ps)
sort-unique a ps = count-unique a (sort ps) (sort-IsSorted ps) ∙ ap once (has-sort a ps)

-- What stands in the list of roots for an object.
abbrev pub HasRoot : Heap → List Ptr → Ptr → Type 0
HasRoot h rs p = (r : Ptr) × (has r rs ≡ true) × Above h p r × IsEnd h p r

root_of-returns :
    (fuel : ℕ) (h : Heap) (u : List Ptr) (p : Ptr)
    → IsClosed h u
    → has p u ≡ true
    → length u < fuel
    → (r : Ptr) × (root_of fuel h p ≡ some r) × Above h p r × IsEnd h p r
unfolding root_of
root_of-returns fuel h u p closed m lt = elim (Option-cases (h p).parent) [
  | inl e ↦ (p, rw (e, root_of) refl, Above.here, inl e)
  | inr (q, e) ↦
      let (r, f, a, end) = get_root-returns fuel h u p closed m lt in
      (r, rw (e, f, root_of) refl, a, end)
]

HasRoot-behind :
    (h : Heap) (q : Ptr) (rs : List Ptr) (p : Ptr) → HasRoot h rs p → HasRoot h (q ∷ rs) p
HasRoot-behind h q rs p (r, m, a, e) = (r, ground arith, a, e)

has-rest : (p q : Ptr) (ps : List Ptr) → has p ps ≡ true → has p (q ∷ ps) ≡ true
has-rest p q ps m = ground arith

in_rest : (p q : Ptr) (ps : List Ptr) → (p == q) ≡ false → has p (q ∷ ps) ≡ true → has p ps ≡ true
in_rest p q ps e m = ground arith

first_of : (r : Ptr) (rs : List Ptr) → has r (r ∷ rs) ≡ true
first_of r rs = ground arith

roots_of-returns :
    (fuel : ℕ) (h : Heap) (u ps : List Ptr)
    → IsClosed h u
    → ((p : Ptr) → has p ps ≡ true → has p u ≡ true)
    → length u < fuel
    → (rs : List Ptr) × (roots_of fuel h ps ≡ some rs)
      × ((p : Ptr) → has p ps ≡ true → HasRoot h rs p)
unfolding roots_of
roots_of-returns fuel h u [] closed within lt = ([], refl, λ p m. cc)
roots_of-returns fuel h u (q ∷ ps) closed within lt =
    let (r, e, a, end) = root_of-returns fuel h u q closed (within q (ground arith)) lt in
    let (rs, f, all) =
      roots_of-returns fuel h u ps closed (λ p m. within p (has-rest p q ps m)) lt in
    (
      r ∷ rs,
      rw (e, f, roots_of) refl,
      λ p m. elim (Bool-cases (p == q)) [
        | inl same ↦ rw ((==_iff p q).0 same) (r, first_of r rs, a, end)
        | inr other ↦ HasRoot-behind h r rs p (all p (in_rest p q ps other m))
      ],
    )

count-once : (b : Bool) → once b ≤ 1
count-once true = omega arith
count-once false = omega arith

uncounted : (a : Ptr) (rs : List Ptr) → has a rs ≡ false → count a rs ≡ 0
uncounted a [] m = refl
uncounted a (x ∷ xs) m = ground (arith, uncounted a xs)

has-unique : (a : Ptr) (ps : List Ptr) → has a ps ≡ true → has a (unique (sort ps)) ≡ true
has-unique a ps m = elim (Bool-cases (has a (unique (sort ps)))) [
  | inl e ↦ e
  | inr e ↦
      let one = sort-unique a ps ∙ ap once m in
      absurd (omega (arith, one, uncounted a (unique (sort ps)) e))
]

pub find_roots-some :
    (fuel : ℕ) (h : Heap) (u : List Ptr) (v : InodeVector)
    → IsClosed h u
    → ((q : Ptr) → has q v.inodes ≡ true → has q u ≡ true)
    → length u < fuel
    → (rs : List Ptr) × (find_roots fuel h v ≡ some rs)
unfolding find_roots
find_roots-some fuel h u v closed within lt =
    let (rs, e, all) = roots_of-returns fuel h u v.inodes closed within lt in
    (unique (sort rs), rw (e, Option.map) refl)

-- Where every parent is one of finitely many objects, and so is every inode of the vector,
-- `find_roots` ends, with fuel for one more round than there are objects. No pointer stands in its
-- result twice, and for an inode `p` of the vector one stands there that is reached from it by going
-- from object to parent, and that has no parent or one reached from `p`.
pub find_roots-returns :
    (fuel : ℕ) (h : Heap) (u : List Ptr) (v : InodeVector) (a p : Ptr)
    → IsClosed h u
    → ((q : Ptr) → has q v.inodes ≡ true → has q u ≡ true)
    → length u < fuel
    → has p v.inodes ≡ true
    → (rs : List Ptr) × (find_roots fuel h v ≡ some rs) × (count a rs ≤ 1) × HasRoot h rs p
unfolding find_roots
find_roots-returns fuel h u v a p closed within lt m =
    let (rs, e, all) = roots_of-returns fuel h u v.inodes closed within lt in
    let (r, k, above, end) = all p m in
    (
      unique (sort rs),
      rw (e, Option.map) refl,
      rw (sort-unique a rs) (count-once (has a rs)),
      (r, has-unique r rs k, above, end),
    )
