-- ===== src/Recoverer/Paths.antt =====
-- src/inode.cpp: `get_full_path`, which follows the parents with no memory of where it was.

use jfsrec.Prelude.{
  ℕ, zero, suc, ◌<◌, ◌≡◌, ◌≢◌, refl, Bool, true, false, none, some, inl, inr, List, [], ◌∷◌, ◌++◌,
  ◌==◌, arith, Bool-cases, Option-cases, ==_iff,
}
use jfsrec.Inode.{Ptr, Name}
use jfsrec.Vector.{Heap}
use jfsrec.Recoverer.{get_full_path}

-- Every object of `s` has a parent that is another object of `s`: some objects are their own
-- ancestors, as in a cycle of two or more directories.
abbrev pub IsCyclic : Heap → (Ptr → Bool) → Type 0
IsCyclic h s = (p : Ptr) → s p ≡ true → (q : Ptr) × ((h p).parent ≡ some q) × (s q ≡ true) × (q ≢ p)

-- In a cycle of parents of length two or more no number of calls suffices: the recursion of
-- `get_full_path` does not end, for none of the objects.
pub get_full_path-cyclic :
    (h : Heap) (s : Ptr → Bool) (fuel : ℕ) (p : Ptr)
    → IsCyclic h s
    → s p ≡ true
    → get_full_path fuel h p ≡ none
unfolding get_full_path
get_full_path-cyclic h s zero p cyclic e = refl
get_full_path-cyclic h s (suc fuel) p cyclic e =
    let (q, parent, inside, other) = cyclic p e in
    let differs : (q == p) ≡ false = ground arith in
    rw (parent, differs, get_full_path-cyclic h s fuel q cyclic inside, get_full_path)

-- The rank of a parent that is another object is smaller.
abbrev pub IsRanked : Heap → (Ptr → ℕ) → Type 0
IsRanked h rank = (p q : Ptr) → (h p).parent ≡ some q → q ≢ p → rank q < rank p

-- The components of a path, from the object up.
pub data HasPath (h : Heap) : Ptr → List Name → Type 0 where
  top : (p : Ptr) → (h p).parent ≡ none → HasPath h p ((h p).name ∷ [])
  own : (p : Ptr) → (h p).parent ≡ some p → HasPath h p ((h p).name ∷ [])
  below :
      (p q : Ptr) (names path : List Name)
      → (h p).parent ≡ some q
      → q ≢ p
      → HasPath h q names
      → path ≡ names ++ (h p).name ∷ []
      → HasPath h p path

-- Where the parents go up in some ranking, but for objects that are their own parents, the
-- recursion ends, with fuel above the rank, in the names from the root of the tree down to the
-- object.
pub get_full_path-HasPath :
    (h : Heap) (rank : Ptr → ℕ) (fuel : ℕ) (p : Ptr)
    → IsRanked h rank
    → rank p < fuel
    → (names : List Name) × (get_full_path fuel h p ≡ some names) × HasPath h p names
unfolding get_full_path
get_full_path-HasPath h rank zero p ranked enough = elim enough [ ]
get_full_path-HasPath h rank (suc fuel) p ranked enough = elim (Option-cases (h p).parent) [
  | inl e ↦ ((h p).name ∷ [], rw (e, get_full_path), top p e)
  | inr (q, e) ↦ elim (Bool-cases (q == p)) [
    | inl same ↦
        ((h p).name ∷ [], rw (e, same, get_full_path), own p (rw ((==_iff q p).0 same) at e))
    | inr differs ↦
        let other : q ≢ p = ground arith in
        let less = ranked p q e other in
        let (names, f, path) = get_full_path-HasPath h rank fuel q ranked (omega arith) in
        (
          names ++ (h p).name ∷ [],
          rw (e, differs, f, get_full_path),
          below p q names (names ++ (h p).name ∷ []) e other path refl,
        )
  ]
]
