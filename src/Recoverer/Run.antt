-- ===== src/Recoverer/Run.antt =====
-- src/recoverer.cpp: `recover`, with the loops of `recover_dirtree` and `recover_iterative` as the
-- list of the calls that they make. What the calls of boost in them do is not modelled.
use mathlib.Core.Option
use jfsrec.Prelude.{
  ℕ, ◌+◌, ◌*◌, ◌<◌, ◌≤◌, ◌≡◌, refl, ap, true, false, not, ◌||◌, Option, none, some, inl, inr, List,
  [], ◌∷◌, ◌++◌, map, has, has-append, select, count, length, length-append, if◌then◌else◌, arith,
  Bool-cases, All,
}
use jfsrec.Inode.{Ptr, Name}
use jfsrec.Vector.{Heap, InodeVector}
use jfsrec.Vector.Lookup.{IsValid}
use jfsrec.DirInode.{Access}
use jfsrec.Recoverer.{Filters, find_directory_parents, generate_prio_queue}
use jfsrec.Recoverer.Names.{find_file_parents_and_names}
use jfsrec.Recoverer.Unique.{find_roots, find_roots-some}
use jfsrec.Recoverer.Roots.{IsClosed}
use jfsrec.Recoverer.Queue.{
  excluded, HasEnd, IsSearchable, ranked-HasEnd, generate_prio_queue-order, count-queue,
}
use jfsrec.Recoverer.Growth.{Grown, Grown-trans, missing-le}
use jfsrec.Recoverer.Parents.{
  At, Parents, NumberedParent, known, known-Inside, Grown-Inside, find_directory_parents-returns,
}
use jfsrec.Recoverer.Children.{
  KnownParent, AllListable, AllListable-Same, find_file_parents_and_names-returns,
}

-- A call of the virtual function on an object.
pub data Call : Type 0 where
  create_dir recover_one : Ptr → Call

unfoldable pub recover_dirtree : List Ptr → List Call
recover_dirtree ps = map (λ p. create_dir p) ps

unfoldable pub recover_iterative : List Ptr → List Call
recover_iterative ps = map (λ p. recover_one p) ps

-- The objects that are recovered, in their order: those of the vector, or the queue if one of the
-- three options is given.
unfoldable pub chosen : ℕ → Heap → Filters → InodeVector → Option (List Ptr)
unfolding generate_prio_queue
chosen fuel h f v =
    if not (f.last_speced || (f.first_speced || f.exclude_speced))
    then some v.inodes
    else generate_prio_queue fuel h f v

-- What `recover` leaves behind: objects, vector, roots, and the calls made.
pub record Recovery : Type 0 where
  pub objects : Heap
  pub vector : InodeVector
  pub roots : List Ptr
  pub calls : List Call

abbrev made : Heap → InodeVector → List Ptr → List Ptr → Recovery
unfolding recover_dirtree recover_iterative
made h v roots order = record {
  objects = h;
  vector = v;
  roots = roots;
  calls = recover_dirtree order ++ recover_iterative order;
}

finish : ℕ → Filters → Heap → InodeVector → Option (List Ptr) → Option Recovery
unfolding chosen made
finish fuel f h v none = none
finish fuel f h v (some roots) = Option.map (made h v roots) (chosen fuel h f v)

-- `recover`, with one fuel for its loops and the paths.
unfoldable pub recover : ℕ → Access → (ℕ → Name) → Filters → Heap → InodeVector → Option Recovery
unfolding find_directory_parents find_file_parents_and_names find_roots finish
recover fuel a print f h v = elim (find_directory_parents fuel h v) [
  | none ↦ none
  | some (h1, v1) ↦ elim (find_file_parents_and_names fuel a print h1 v1) [
    | none ↦ none
    | some (h2, v2) ↦ finish fuel f h2 v2 (find_roots fuel h2 v2)
  ]
]

recover-phases :
    (fuel : ℕ) (a : Access) (print : ℕ → Name) (f : Filters) (h : Heap) (v : InodeVector)
    (h1 : Heap) (v1 : InodeVector) (h2 : Heap) (v2 : InodeVector) (roots order : List Ptr)
    → find_directory_parents fuel h v ≡ some (h1, v1)
    → find_file_parents_and_names fuel a print h1 v1 ≡ some (h2, v2)
    → find_roots fuel h2 v2 ≡ some roots
    → chosen fuel h2 f v2 ≡ some order
    → recover fuel a print f h v ≡ some (made h2 v2 roots order)
unfolding recover finish
recover-phases fuel a print f h v h1 v1 h2 v2 roots order e1 e2 e3 e4 =
    rw (e1, e2, e3, e4, recover) refl

-- The objects and the vector as they are when parents and names have been found.
abbrev pub Named : ℕ → Access → (ℕ → Name) → Heap → InodeVector → Heap → InodeVector → Type 0
Named fuel a print h v h2 v2 =
    (h1 : Heap) × (v1 : InodeVector) × (find_directory_parents fuel h v ≡ some (h1, v1))
    × (find_file_parents_and_names fuel a print h1 v1 ≡ some (h2, v2))

module _ (fuel : ℕ) (h : Heap) (f : Filters) where
  count-all :
      (ps : List Ptr) (p : Ptr)
      → f.exclude_speced ≡ false
      → count p ps ≡ count p (select (λ q. not (excluded fuel h f q)) ps)
  count-all [] p e = refl
  count-all (q ∷ ps) p e = ground (arith, e, count-all ps p e)

  abbrev HasOrder : InodeVector → Type 0
  HasOrder v =
      (order : List Ptr) × (chosen fuel h f v ≡ some order)
      × ((p : Ptr) → count p order ≡ count p (select (λ q. not (excluded fuel h f q)) v.inodes))

  -- Without an option the queue would hold the same.
  chosen-all :
      (v : InodeVector)
      → (f.last_speced || (f.first_speced || f.exclude_speced)) ≡ false
      → HasOrder v
  unfolding chosen
  chosen-all v nothing =
      (v.inodes, rw nothing refl, λ p. count-all v.inodes p (ground (arith, nothing)))

  chosen-queue :
      (v : InodeVector)
      → (f.last_speced || (f.first_speced || f.exclude_speced)) ≡ true
      → All (HasEnd fuel h f) v.inodes
      → HasOrder v
  unfolding chosen
  chosen-queue v given all =
      (_, rw given (generate_prio_queue-order fuel h f v all), λ p. count-queue fuel h f v.inodes p)

  chosen-returns : (v : InodeVector) → IsSearchable fuel h f v.inodes → HasOrder v
  chosen-returns v (inl nothing) = chosen-all v nothing
  chosen-returns v (inr (rank, ranked, low)) =
      elim (Bool-cases (f.last_speced || (f.first_speced || f.exclude_speced))) [
        | inl given ↦ chosen-queue v given (ranked-HasEnd fuel h f rank v.inodes ranked low)
        | inr nothing ↦ chosen-all v nothing
      ]

KnownParent-IsClosed : (h : Heap) (u : List Ptr) → Parents (KnownParent u) h → IsClosed h u
KnownParent-IsClosed h u all p q m e = rw e at (all p)

NumberedParent-KnownParent :
    (o h : Heap) (u w : List Ptr)
    → ((q : Ptr) → has q u ≡ true → has q w ≡ true)
    → (c : Ptr) (i : Option Ptr) → At (NumberedParent o u) c i
    → At (KnownParent w) c i
NumberedParent-KnownParent o h u w within c none a = tt
NumberedParent-KnownParent o h u w within c (some q) a = within q a.0

-- After a growth everything is still known that was before.
Grown-known :
    (h h' : Heap) (v v' : InodeVector)
    → Grown h v h' v'
    → (q : Ptr) → has q (known v) ≡ true
    → has q (known v') ≡ true
Grown-known h h' v v' g q m = ground (
  arith,
  m,
  has-append q v.inodes v.invalidated_inodes,
  has-append q v'.inodes v'.invalidated_inodes,
  has-append q v.inodes g.extra,
  ap (has q) g.grows,
  ap (has q) g.out,
)

known-within :
    (h h' : Heap) (v v' : InodeVector)
    → Grown h v h' v'
    → (q : Ptr) → has q (known v') ≡ true
    → has q (known v) ≡ true
known-within h h' v v' g q m =
    let (members_in, out_in) = Grown-Inside (known v) h h' v v' g (known-Inside v) in
    elim (Bool-cases (has q v'.inodes)) [
      | inl old ↦ members_in q old
      | inr new ↦ out_in q (ground (arith, m, new, has-append q v'.inodes v'.invalidated_inodes))
    ]

Grown-length :
    (h h' : Heap) (v v' : InodeVector)
    → Grown h v h' v'
    → (length v'.inodes ≤ length v.inodes + length v.invalidated_inodes)
      × (length v'.invalidated_inodes ≡ length v.invalidated_inodes)
Grown-length h h' v v' g = (
  omega (
    arith,
    g.bound,
    missing-le h v.inodes v.invalidated_inodes,
    ap length g.grows,
    length-append v.inodes g.extra,
  ),
  ap length g.out,
)

pub recover-returns :
    (fuel : ℕ) (a : Access) (print : ℕ → Name) (f : Filters) (h : Heap) (v : InodeVector)
    → IsValid h v
    → Parents (NumberedParent h (known v)) h
    → AllListable (known v) a h
    → ((h' : Heap) (v' : InodeVector)
        → Named fuel a print h v h' v'
        → IsSearchable fuel h' f v'.inodes)
    → length v.inodes + 2 * length v.invalidated_inodes < fuel
    → (r : Recovery) × (order extra : List Ptr) × (recover fuel a print f h v ≡ some r)
      × (r.vector.inodes ≡ v.inodes ++ extra)
      × (r.calls ≡ map (λ p. create_dir p) order ++ map (λ p. recover_one p) order)
      × ((p : Ptr)
          → count p order
            ≡ count p (select (λ q. not (excluded fuel r.objects f q)) r.vector.inodes))
unfolding recover_dirtree recover_iterative
recover-returns fuel a print f h v valid parents listable searchable lt =
    let (h1, v1, e, g, p1) = find_directory_parents-returns fuel h v valid parents (omega arith) in
    let (longer, same_out) = Grown-length h h1 v v1 g in
    let all1 : Parents (KnownParent (known v1)) h1 = λ c.
      NumberedParent-KnownParent h h1 (known v) (known v1) (Grown-known h h1 v v1 g) c (h1 c).parent
        (p1 c) in
    let listable1 : AllListable (known v1) a h1 =
      λ p m. AllListable-Same (known v) a h h1 g.same listable p (known-within h h1 v v1 g p m) in
    let (h2, v2, e2, g', p2) =
      find_file_parents_and_names-returns fuel a print h1 v1 g.valid all1 listable1
        (omega (arith, longer, same_out, lt)) in
    let (rs, k) =
      find_roots-some fuel h2 (known v1) v2 (KnownParent-IsClosed h2 (known v1) p2)
        (Grown-Inside (known v1) h1 h2 v1 v2 g' (known-Inside v1)).0
        (omega (arith, longer, same_out, lt, length-append v1.inodes v1.invalidated_inodes)) in
    let all = Grown-trans h h1 h2 v v1 v2 g g' in
    let (order, ordered, counts) = chosen-returns fuel h2 f v2 (searchable h2 v2 (h1, v1, e, e2)) in
    (
      made h2 v2 rs order,
      order,
      all.extra,
      recover-phases fuel a print f h v h1 v1 h2 v2 rs order e e2 k ordered,
      all.grows,
      refl,
      counts,
    )
