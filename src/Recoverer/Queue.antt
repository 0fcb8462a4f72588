-- ===== src/Recoverer/Queue.antt =====
-- src/recoverer.cpp: `generate_prio_queue`, which ends where the paths of the objects do.
use jfsrec.Prelude.{
  ℕ, ◌+◌, ◌<◌, ◌≡◌, ◌⊎◌, refl, ap, ◌∙◌, Bool, true, false, not, ◌&&◌, ◌||◌, Option, none, some, inl,
  inr, List, [], ◌∷◌, ◌++◌, All, All-map, select, count, count-append, if◌then◌else◌, arith,
  Bool-cases,
}
use jfsrec.Inode.{Ptr, Name}
use jfsrec.Vector.{Heap, InodeVector}
use jfsrec.Recoverer.{
  Filters, Place, left_out, in_first, in_normal, in_last, put, get_full_path, tested, place_of,
  classify, generate_prio_queue,
}
use jfsrec.Recoverer.Paths.{IsRanked, get_full_path-HasPath}

abbrev found_in : (List Name → Bool) → Option (List Name) → Bool
found_in search none = false
found_in search (some path) = search path

-- What the options ask for: the option is given and finds something in the path of the object.
abbrev pub finds : ℕ → Heap → Bool → (List Name → Bool) → Ptr → Bool
finds fuel h speced search p = speced && found_in search (get_full_path fuel h p)

abbrev pub excluded : ℕ → Heap → Filters → Ptr → Bool
excluded fuel h f p = finds fuel h f.exclude_speced f.exclude p

-- Among the others a match of the first expression counts before one of the last.
abbrev pub goes_first : ℕ → Heap → Filters → Ptr → Bool
goes_first fuel h f p = not (excluded fuel h f p) && finds fuel h f.first_speced f.first p

abbrev pub goes_last : ℕ → Heap → Filters → Ptr → Bool
goes_last fuel h f p =
    not (excluded fuel h f p)
    && (not (goes_first fuel h f p) && finds fuel h f.last_speced f.last p)

abbrev pub goes_between : ℕ → Heap → Filters → Ptr → Bool
goes_between fuel h f p =
    not (excluded fuel h f p) && (not (goes_first fuel h f p) && not (goes_last fuel h f p))

abbrev place : Bool → Bool → Bool → Place
place x a b = if x then left_out else if a then in_first else if b then in_last else in_normal

module _ (fuel : ℕ) (h : Heap) (f : Filters) where
  -- The recursion of `get_full_path` ends.
  abbrev pub HasEnd : Ptr → Type 0
  HasEnd p = (path : List Name) × (get_full_path fuel h p ≡ some path)

  tested_lem :
      (speced : Bool) (search : List Name → Bool) (p : Ptr)
      → HasEnd p
      → tested fuel h speced search p ≡ some (finds fuel h speced search p)
  unfolding tested
  tested_lem false search p ends = refl
  tested_lem true search p (path, e) = rw e refl

  place_of_lem :
      (p : Ptr)
      → HasEnd p
      → place_of fuel h f p
        ≡ some (
            place
              (excluded fuel h f p)
              (finds fuel h f.first_speced f.first p)
              (finds fuel h f.last_speced f.last p))
  unfolding place_of
  place_of_lem p ends =
      let x = finds fuel h f.exclude_speced f.exclude p in
      let a = finds fuel h f.first_speced f.first p in
      let b = finds fuel h f.last_speced f.last p in
      let ex = tested_lem f.exclude_speced f.exclude p ends in
      let ea = tested_lem f.first_speced f.first p ends in
      let eb = tested_lem f.last_speced f.last p ends in
      elim (Bool-cases x) [
        | inl xt ↦ rw (place_of, ex, xt) refl
        | inr xf ↦ elim (Bool-cases a) [
          | inl at_first ↦ rw (place_of, ex, xf, ea, at_first) refl
          | inr af ↦ elim (Bool-cases b) [
            | inl bt ↦ rw (place_of, ex, xf, ea, af, eb, bt) refl
            | inr bf ↦ rw (place_of, ex, xf, ea, af, eb, bf) refl
          ]
        ]
      ]

  classify-step :
      (p : Ptr) (ps first normal last : List Ptr) (q : Place)
      → place_of fuel h f p ≡ some q
      → classify fuel h f ps ≡ some (first, normal, last)
      → classify fuel h f (p ∷ ps) ≡ some (put q p (first, normal, last))
  unfolding classify
  classify-step p ps first normal last q e g = rw (classify, e, g) refl

  put-place :
      (p : Ptr) (ps : List Ptr)
      → put
          (place
            (excluded fuel h f p)
            (finds fuel h f.first_speced f.first p)
            (finds fuel h f.last_speced f.last p))
          p
          (
            select (goes_first fuel h f) ps,
            select (goes_between fuel h f) ps,
            select (goes_last fuel h f) ps,
          )
        ≡ (
          select (goes_first fuel h f) (p ∷ ps),
          select (goes_between fuel h f) (p ∷ ps),
          select (goes_last fuel h f) (p ∷ ps),
        )
  put-place p ps = ground arith

  classify_lem :
      (ps : List Ptr)
      → All HasEnd ps
      → classify fuel h f ps
        ≡ some (
          select (goes_first fuel h f) ps,
          select (goes_between fuel h f) ps,
          select (goes_last fuel h f) ps,
        )
  unfolding classify
  classify_lem [] all = refl
  classify_lem (p ∷ ps) all =
      classify-step p ps (select (goes_first fuel h f) ps) (select (goes_between fuel h f) ps)
        (select (goes_last fuel h f) ps) _ (place_of_lem p all.0) (classify_lem ps all.1)
      ∙ ap (λ x. some x) (put-place p ps)

  -- Where the paths of all objects of the vector end, the queue holds the objects that match the
  -- first expression, then those that match neither, then those that match the last and not the
  -- first, each part in the order of the vector, and no excluded one.
  pub generate_prio_queue-order :
      (v : InodeVector)
      → All HasEnd v.inodes
      → generate_prio_queue fuel h f v
        ≡ some (
            (select (goes_first fuel h f) v.inodes ++ select (goes_between fuel h f) v.inodes)
            ++ select (goes_last fuel h f) v.inodes)
  unfolding generate_prio_queue
  generate_prio_queue-order v all = rw (classify_lem v.inodes all) refl

  count_parts :
      (ps : List Ptr) (p : Ptr)
      → count p (select (goes_first fuel h f) ps)
          + count p (select (goes_between fuel h f) ps)
          + count p (select (goes_last fuel h f) ps)
        ≡ count p (select (λ q. not (excluded fuel h f q)) ps)
  count_parts [] p = refl
  count_parts (q ∷ ps) p = ground (arith, count_parts ps p)

  -- Every object that is not excluded stands in the queue as often as in the vector, and an excluded
  -- one does not.
  pub count-queue :
      (ps : List Ptr) (p : Ptr)
      → count p (
          (select (goes_first fuel h f) ps ++ select (goes_between fuel h f) ps)
          ++ select (goes_last fuel h f) ps)
        ≡ count p (select (λ q. not (excluded fuel h f q)) ps)
  count-queue ps p = simp count-append (omega (arith, count_parts ps p))

  -- No option asks for a path, or the parents go up in some ranking, but for objects that are their
  -- own parents, and the fuel is above the ranks.
  abbrev pub IsSearchable : List Ptr → Type 0
  IsSearchable ps =
      ((f.last_speced || (f.first_speced || f.exclude_speced)) ≡ false)
      ⊎ ((rank : Ptr → ℕ) × IsRanked h rank × All (λ p. rank p < fuel) ps)

  pub ranked-HasEnd :
      (rank : Ptr → ℕ) (ps : List Ptr)
      → IsRanked h rank
      → All (λ p. rank p < fuel) ps
      → All HasEnd ps
  ranked-HasEnd rank ps ranked all =
      All-map (λ p. rank p < fuel) HasEnd ps
        (λ p lt.
          let (path, e, has_path) = get_full_path-HasPath h rank fuel p ranked lt in (path, e))
        all
