-- ===== src/Vector/Positions.antt =====
-- src/inodevector.cpp: what saved positions load as.
use jfsrec.Prelude.{
  ℕ, ◌≡◌, ◌≢◌, refl, Option, some, List, [], ◌∷◌, ◌++◌, map, length, false, All, ◌==◌, arith,
}
use jfsrec.Device.{Read, ok}
use jfsrec.Inode.{Ptr, Inode}
use jfsrec.Vector.{
  Heap, InodeVector, save_positions, stream_values, last_or, read_each, load_from_positions,
}

-- The objects that the positions of a list are read back as.
module _ (fetch : ℕ → Read (Option Inode)) (h : Heap) where
  abbrev pub ReadsBack : Ptr → Type 0
  ReadsBack p = fetch (h p).byte_offset ≡ ok (some (h p))

  abbrev pub offsets : List Ptr → List ℕ
  offsets ps = map (λ p. (h p).byte_offset) ps

  abbrev pub objects : List Ptr → List (Option Inode)
  objects ps = map (λ p. some (h p)) ps

  abbrev pub last_of : Ptr → List Ptr → Ptr
  last_of p [] = p
  last_of p (q ∷ qs) = last_of q qs

  -- The objects of a list with the last one once more.
  abbrev pub doubled : List Ptr → List (Option Inode)
  doubled [] = []
  doubled (p ∷ ps) = objects (p ∷ ps) ++ some (h (last_of p ps)) ∷ []

  read_each-rest :
      (p : Ptr) (ps : List Ptr)
      → ReadsBack p
      → All ReadsBack ps
      → read_each fetch (stream_values (h p).byte_offset (offsets ps))
        ≡ ok (objects ps ++ some (h (last_of p ps)) ∷ [])
  unfolding read_each stream_values
  read_each-rest p [] back all = rw back
  read_each-rest p (q ∷ qs) back all = rw (all.0, read_each-rest q qs all.0 all.1)

  pub read_each-doubled :
      (junk : ℕ) (p : Ptr) (ps : List Ptr)
      → All ReadsBack (p ∷ ps)
      → read_each fetch (stream_values junk (offsets (p ∷ ps))) ≡ ok (doubled (p ∷ ps))
  unfolding read_each stream_values
  read_each-doubled junk p ps all = rw (all.0, read_each-rest p ps all.0 all.1)

  load-save_fields :
      (junk : ℕ) (v : InodeVector) (ps out : List Ptr)
      → v.inodes ≡ ps
      → v.invalidated_inodes ≡ out
      → ps ≢ []
      → All ReadsBack ps
      → All ReadsBack out
      → load_from_positions fetch junk (save_positions h v).0 (save_positions h v).1
        ≡ ok (doubled ps, doubled out)
  unfolding load_from_positions save_positions
  load-save_fields junk v [] out e f some_there all all' = absurd (some_there refl)
  load-save_fields junk v (p ∷ ps) [] e f some_there all all' =
      rw (e, f, read_each-doubled junk p ps all)
  load-save_fields junk v (p ∷ ps) (q ∷ qs) e f some_there all all' =
      let written : (length (q ∷ qs) == 0) ≡ false = ground arith in
      rw (
        e,
        f,
        written,
        read_each-doubled junk p ps all,
        read_each-doubled (last_or junk (offsets (p ∷ ps))) q qs all',
      )

  -- Where the vector has an inode, and every inode of both lists reads back from its offset, what
  -- was saved loads as the objects of both lists in their order, but the last object of each list
  -- that is not empty is loaded twice.
  pub load-save :
      (junk : ℕ) (v : InodeVector)
      → v.inodes ≢ []
      → All ReadsBack v.inodes
      → All ReadsBack v.invalidated_inodes
      → load_from_positions fetch junk (save_positions h v).0 (save_positions h v).1
        ≡ ok (doubled v.inodes, doubled v.invalidated_inodes)
  load-save junk v some_there all all' =
      load-save_fields junk v v.inodes v.invalidated_inodes refl refl some_there all all'
