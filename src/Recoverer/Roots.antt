-- ===== src/Recoverer/Roots.antt =====
-- src/inode.cpp: `get_root`, which stops when it comes back to an object.
use jfsrec.Prelude.{
  ℕ, zero, suc, ◌<◌, ◌≡◌, ◌⊎◌, refl, true, false, Option, none, some, inl, inr, List, [], ◌∷◌, All,
  has, length, ◌==◌, arith, Bool-cases, Option-cases, ==_iff,
}
use jfsrec.Prelude.Fresh.{fresh, fresh-lt, fresh-length}
use jfsrec.Inode.{Ptr}
use jfsrec.Vector.{Heap}
use jfsrec.Recoverer.{root_from, get_root}

-- `r` is reached from `p` by going from object to parent.
pub data Above (h : Heap) (p : Ptr) : Ptr → Type 0 where
  here : Above h p p
  up : (q r : Ptr) → Above h p q → (h q).parent ≡ some r → Above h p r

-- Where the walk may stop: at an object with no parent, or at one whose parent it has passed.
abbrev pub IsEnd : Heap → Ptr → Ptr → Type 0
IsEnd h p r = ((h r).parent ≡ none) ⊎ ((q : Ptr) × ((h r).parent ≡ some q) × Above h p q)

-- The parents of the objects of a list stand in the list.
abbrev pub IsClosed : Heap → List Ptr → Type 0
IsClosed h u = (p q : Ptr) → has p u ≡ true → (h p).parent ≡ some q → has q u ≡ true

All-up :
    (h : Heap) (p q : Ptr) (passed : List Ptr)
    → has q passed ≡ true
    → All (Above h p) passed
    → Above h p q
All-up h p q [] e all = absurd (cc)
All-up h p q (x ∷ passed) e (a, all) = elim (Bool-cases (q == x)) [
  | inl same ↦ rw ((==_iff q x).0 same) a
  | inr other ↦ All-up h p q passed (ground arith) all
]

abbrev Returns : Heap → Ptr → Option Ptr → Type 0
Returns h p o = (r : Ptr) × (o ≡ some r) × Above h p r × IsEnd h p r

root_from-none :
    (fuel : ℕ) (h : Heap) (passed : List Ptr) (r : Ptr)
    → (h r).parent ≡ none
    → root_from (suc fuel) h passed r ≡ some r
unfolding root_from
root_from-none fuel h passed r e = rw (e, root_from) refl

root_from_passed :
    (fuel : ℕ) (h : Heap) (passed : List Ptr) (r q : Ptr)
    → (h r).parent ≡ some q
    → has q passed ≡ true
    → root_from (suc fuel) h passed r ≡ some r
unfolding root_from
root_from_passed fuel h passed r q e m = rw (e, m, root_from) refl

root_from_up :
    (fuel : ℕ) (h : Heap) (passed : List Ptr) (r q : Ptr)
    → (h r).parent ≡ some q
    → has q passed ≡ false
    → root_from (suc fuel) h passed r ≡ root_from fuel h (q ∷ passed) q
unfolding root_from
root_from_up fuel h passed r q e m = rw (e, m, root_from) refl

root_from-Returns :
    (fuel : ℕ) (h : Heap) (u passed : List Ptr) (p r : Ptr)
    → IsClosed h u
    → has r u ≡ true
    → All (Above h p) passed
    → Above h p r
    → length (fresh passed u) < fuel
    → Returns h p (root_from fuel h passed r)
root_from-Returns zero h u passed p r closed m all a lt = absurd (omega arith)
root_from-Returns (suc fuel) h u passed p r closed m all a lt = elim (Option-cases (h r).parent) [
  | inl none_above ↦ (r, root_from-none fuel h passed r none_above, a, inl none_above)
  | inr (q, e) ↦ elim (Bool-cases (has q passed)) [
    | inl before ↦ (
      r,
      root_from_passed fuel h passed r q e before,
      a,
      inr (q, e, All-up h p q passed before all),
    )
    | inr new ↦
        let b = Above.up r q a e in
        let less = fresh-lt q passed u (closed r q m e) new in
        rw (root_from_up fuel h passed r q e new) (
          root_from-Returns fuel h u (q ∷ passed) p q closed (closed r q m e) (b, all) b
            (omega (arith, less, lt)))
  ]
]

-- Among finitely many objects, with every parent one of them, `get_root` ends also on a cycle: one
-- round for each object and one more are enough. What it returns is reached from `p` by going from
-- object to parent, and has no parent or one that is itself reached from `p`.
pub get_root-returns :
    (fuel : ℕ) (h : Heap) (u : List Ptr) (p : Ptr)
    → IsClosed h u
    → has p u ≡ true
    → length u < fuel
    → (r : Ptr) × (get_root fuel h p ≡ some r) × Above h p r × IsEnd h p r
unfolding get_root
get_root-returns fuel h u p closed m lt =
    let bound = fresh-length (p ∷ []) u in
    root_from-Returns fuel h u (p ∷ []) p p closed m (Above.here, tt) Above.here
      (omega (arith, bound, lt))
