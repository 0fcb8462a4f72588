-- ===== src/Recoverer/Effects/Prepared.antt =====
-- src/recoverer.cpp: that directories are there before the files in them, and recoveries that never
-- end.
use mathlib.Core.Option
use jfsrec.Prelude.{
  ℕ, zero, suc, ◌<◌, ◌≡◌, ◌≢◌, refl, Bool, true, false, none, some, List, [], ◌∷◌, ◌++◌, map, All,
  All-map, has, ◌==◌, arith, Bool-cases, Option-cases, inl, inr,
}
use jfsrec.Inode.{Ptr, Name, Kind, file, dir, unallocated, symlink, special}
use jfsrec.Vector.{Heap}
use jfsrec.Recoverer.{get_full_path}
use jfsrec.Recoverer.Paths.{
  IsCyclic, IsRanked, HasPath, get_full_path-HasPath, get_full_path-cyclic,
}
use jfsrec.Recoverer.Run.{Call, create_dir, recover_one, recover_dirtree, recover_iterative}
use jfsrec.Recoverer.Effects.{
  Effect, directories_created, file_recovered, write_time_set, dir_created, recovered, carried_out,
  carried_out_each, carried_out_each-append, carried_out_each-In, carried_out_each-stuck, In,
  In-has, In-map, In-left, All-In,
}

module _ (h : Heap) where
  get_full_path-suc :
      (fuel : ℕ) (p : Ptr) (path : List Name)
      → get_full_path fuel h p ≡ some path
      → get_full_path (suc fuel) h p ≡ some path
  unfolding get_full_path
  get_full_path-suc zero p path e = absurd cc
  get_full_path-suc (suc fuel) p path e = elim (Option-cases (h p).parent) [
    | inl top ↦ rw (top, get_full_path) (rw (get_full_path, top) at e)
    | inr (q, up) ↦ elim (Bool-cases (q == p)) [
      | inl own ↦ rw (up, own, get_full_path) (rw (get_full_path, up, own) at e)
      | inr other ↦ elim (Option-cases (get_full_path fuel h q)) [
        | inl stuck ↦ absurd (Option.none-ne-some path (rw (get_full_path, up, other, stuck) at e))
        | inr (above, g) ↦
            rw (up, other, get_full_path-suc fuel q above g, get_full_path)
              (rw (get_full_path, up, other, g) at e)
      ]
    ]
  ]

  dir_created-dir :
      (fuel : ℕ) (p : Ptr) (path : List Name)
      → (h p).kind ≡ dir
      → get_full_path fuel h p ≡ some path
      → carried_out fuel h (create_dir p) ≡ some (directories_created path ∷ [])
  unfolding carried_out dir_created
  dir_created-dir fuel p path e f = rw (e, f)

  recovered-file :
      (fuel : ℕ) (p : Ptr) (path : List Name)
      → (h p).kind ≡ file
      → get_full_path fuel h p ≡ some path
      → carried_out fuel h (recover_one p) ≡ some (file_recovered p path ∷ [])
  unfolding carried_out recovered
  recovered-file fuel p path e f = rw (e, f)

  abbrev Returns : ℕ → Call → Type 0
  Returns fuel c = (es : List Effect) × (carried_out fuel h c ≡ some es)

  create_dir-Returns :
      (fuel : ℕ) (p : Ptr) (path : List Name)
      → get_full_path fuel h p ≡ some path
      → (k : Kind) → (h p).kind ≡ k
      → Returns fuel (create_dir p)
  unfolding carried_out dir_created
  create_dir-Returns fuel p path e dir k = (_, dir_created-dir fuel p path k e)
  create_dir-Returns fuel p path e file k = ([], rw k refl)
  create_dir-Returns fuel p path e unallocated k = ([], rw k refl)
  create_dir-Returns fuel p path e symlink k = ([], rw k refl)
  create_dir-Returns fuel p path e special k = ([], rw k refl)

  recover_one-Returns :
      (fuel : ℕ) (p : Ptr) (path : List Name)
      → get_full_path fuel h p ≡ some path
      → (k : Kind) → (h p).kind ≡ k
      → Returns fuel (recover_one p)
  unfolding carried_out recovered
  recover_one-Returns fuel p path e dir k =
      (write_time_set path (h p).dinode.di_mtime.tv_sec ∷ [], rw (k, e))
  recover_one-Returns fuel p path e file k = (_, recovered-file fuel p path k e)
  recover_one-Returns fuel p path e unallocated k = ([], rw k refl)
  recover_one-Returns fuel p path e symlink k = ([], rw k refl)
  recover_one-Returns fuel p path e special k = ([], rw k refl)

  each-Returns :
      (fuel : ℕ) (call : Ptr → Call) (ps : List Ptr)
      → All (λ p. Returns fuel (call p)) ps
      → (es : List Effect) × (carried_out_each fuel h (map call ps) ≡ some es)
  unfolding carried_out_each
  each-Returns fuel call [] all = ([], refl)
  each-Returns fuel call (p ∷ ps) all =
      let (es, e) = all.0 in
      let (fs, f) = each-Returns fuel call ps all.1 in (es ++ fs, rw (e, f) refl)

  below_parent :
      (fuel : ℕ) (p q : Ptr) (above : List Name)
      → (h p).parent ≡ some q
      → q ≢ p
      → get_full_path fuel h q ≡ some above
      → get_full_path (suc fuel) h p ≡ some (above ++ (h p).name ∷ [])
  unfolding get_full_path
  below_parent fuel p q above up differs e =
      let other : (q == p) ≡ false = ground arith in rw (up, other, e, get_full_path) refl

  All-Returns :
      (rank : Ptr → ℕ) (fuel : ℕ) (call : Ptr → Call) (ps : List Ptr)
      → IsRanked h rank
      → ((p : Ptr) (path : List Name) → get_full_path fuel h p ≡ some path → Returns fuel (call p))
      → All (λ p. rank p < fuel) ps
      → All (λ p. Returns fuel (call p)) ps
  All-Returns rank fuel call ps ranked one all =
      All-map (λ p. rank p < fuel) (λ p. Returns fuel (call p)) ps
        (λ p lt.
          let (path, e, has_path) = get_full_path-HasPath h rank fuel p ranked lt in one p path e)
        all

  -- A file in a directory, where both are recovered.
  pub file_below :
      (rank : Ptr → ℕ) (fuel : ℕ) (order : List Ptr) (p q : Ptr)
      → IsRanked h rank
      → All (λ r. rank r < suc fuel) order
      → In p order
      → In q order
      → (h p).parent ≡ some q
      → q ≢ p
      → (h p).kind ≡ file
      → (h q).kind ≡ dir
      → (made : List Effect) × (done : List Effect) × (path : List Name) × (carried_out_each
            (suc fuel)
            h
            (recover_dirtree order)
          ≡ some made)
        × (carried_out_each (suc fuel) h (recover_dirtree order ++ recover_iterative order)
            ≡ some (made ++ done))
        × HasPath h q path
        × In (directories_created path) made
        × In (file_recovered p (path ++ (h p).name ∷ [])) done
  unfolding recover_dirtree recover_iterative
  file_below rank fuel order p q ranked all inp inq up differs is_file is_dir =
      let low : rank q < fuel =
        omega (arith, ranked p q up differs, All-In (λ r. rank r < suc fuel) p order all inp) in
      let (path, e, has_path) = get_full_path-HasPath h rank fuel q ranked low in
      let (made, f) =
        each-Returns (suc fuel) (λ r. create_dir r) order
          (All-Returns rank (suc fuel) (λ r. create_dir r) order ranked
            (λ r path' g. create_dir-Returns (suc fuel) r path' g (h r).kind refl) all) in
      let (done, g) =
        each-Returns (suc fuel) (λ r. recover_one r) order
          (All-Returns rank (suc fuel) (λ r. recover_one r) order ranked
            (λ r path' g. recover_one-Returns (suc fuel) r path' g (h r).kind refl) all) in
      (
        made,
        done,
        path,
        f,
        rw
            (
              carried_out_each-append (suc fuel) h (map (λ r. create_dir r) order)
                  (map (λ r. recover_one r) order),
              f,
              g,
            )
            refl,
        has_path,
        carried_out_each-In (suc fuel) h (create_dir q) (directories_created path)
            (map (λ r. create_dir r) order) made (In-map (λ r. create_dir r) q order inq)
            (dir_created-dir (suc fuel) q path is_dir (get_full_path-suc fuel q path e)) f,
        carried_out_each-In (suc fuel) h (recover_one p)
            (file_recovered p (path ++ (h p).name ∷ [])) (map (λ r. recover_one r) order) done
            (In-map (λ r. recover_one r) p order inp)
            (recovered-file (suc fuel) p (path ++ (h p).name ∷ []) is_file
              (below_parent fuel p q path up differs e))
            g,
      )

-- Where the parents go up in some ranking, but for objects that are their own parents, and the fuel
-- is above the ranks of the objects that are recovered, all calls of the recovery return. If a file
-- and the directory above it are both among these objects, the path of that directory is created by
-- the calls of `create_dir`, which come first, and the file is recovered below that path by the
-- calls of `recover`.
pub carried_out_each-prepared :
    (h : Heap) (rank : Ptr → ℕ) (fuel : ℕ) (order : List Ptr) (p q : Ptr)
    → IsRanked h rank
    → All (λ r. rank r < fuel) order
    → has p order ≡ true
    → has q order ≡ true
    → (h p).parent ≡ some q
    → q ≢ p
    → (h p).kind ≡ file
    → (h q).kind ≡ dir
    → (made : List Effect) × (done : List Effect) × (path : List Name) × (carried_out_each fuel h
          (recover_dirtree order)
        ≡ some made)
      × (carried_out_each fuel h (recover_dirtree order ++ recover_iterative order)
          ≡ some (made ++ done))
      × HasPath h q path
      × In (directories_created path) made
      × In (file_recovered p (path ++ (h p).name ∷ [])) done
carried_out_each-prepared h rank zero order p q ranked all inp inq up differs is_file is_dir =
    absurd (omega (arith, All-In (λ r. rank r < 0) p order all (In-has p order inp)))
carried_out_each-prepared h rank (suc fuel) order p q ranked all inp inq up differs is_file is_dir =
    file_below h rank fuel order p q ranked all (In-has p order inp) (In-has q order inq) up differs
      is_file is_dir

-- Where a directory on a cycle of two or more parents is among the objects that are recovered, the
-- calls of the recovery do not end, whatever the fuel: already those of `create_dir` do not.
pub carried_out_each-cyclic :
    (h : Heap) (s : Ptr → Bool) (fuel : ℕ) (order : List Ptr) (p : Ptr)
    → IsCyclic h s
    → s p ≡ true
    → (h p).kind ≡ dir
    → has p order ≡ true
    → (carried_out_each fuel h (recover_dirtree order) ≡ none)
      × (carried_out_each fuel h (recover_dirtree order ++ recover_iterative order) ≡ none)
unfolding recover_dirtree carried_out dir_created
carried_out_each-cyclic h s fuel order p cyclic inside is_dir inp =
    let i = In-map (λ r. create_dir r) p order (In-has p order inp) in
    let stuck : carried_out fuel h (create_dir p) ≡ none =
      rw (is_dir, get_full_path-cyclic h s fuel p cyclic inside) refl in
    (
      carried_out_each-stuck fuel h (create_dir p) (map (λ r. create_dir r) order) i stuck,
      carried_out_each-stuck fuel h (create_dir p)
          (map (λ r. create_dir r) order ++ recover_iterative order)
          (In-left (create_dir p) (map (λ r. create_dir r) order) (recover_iterative order) i)
          stuck,
    )
