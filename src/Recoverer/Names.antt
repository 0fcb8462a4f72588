-- ===== src/Recoverer/Names.antt =====
-- src/recoverer.cpp: `find_file_parents_and_names`. `print` is the text that a string stream has of a
-- number.
use mathlib.Core.Option
use jfsrec.Prelude.{
  ℕ, ◌≡◌, refl, Bool, true, false, ◌||◌, Option, none, some, inl, inr, List, [], ◌∷◌, has, ◌==◌,
  if◌then◌else◌, arith, Bool-cases, ==_refl, ==_iff,
}
use jfsrec.Inode.{Ptr, Name}
use jfsrec.Vector.{Heap, InodeVector, add_inode, get_by_di_number, get_invalidated_by_di_number}
use jfsrec.DirInode.{InodeName, Access, inode_names}
use jfsrec.Recoverer.{set_name, set_parent, pick_newest, loop_growing}

-- The inode that is validated again and named, if there is one.
unfoldable pub adopt_name : Heap → InodeVector → Ptr → InodeName → Option Ptr → Heap × InodeVector
unfolding set_name set_parent add_inode
adopt_name h v c e none = (h, v)
adopt_name h v c e (some p) = (set_parent (set_name h p e.name) p c, add_inode h v p)

-- What follows the look-up of the number.
unfoldable pub take_name : Heap → InodeVector → Ptr → InodeName → Option Ptr → Heap × InodeVector
unfolding adopt_name pick_newest get_invalidated_by_di_number
take_name h v c e none =
    adopt_name h v c e (pick_newest h (get_invalidated_by_di_number h v e.di_number))
take_name h v c e (some p) = (set_parent (set_name h p e.name) p c, v)

-- The body of the inner loop, for a name in the directory `c`.
unfoldable pub assign_name : Heap → InodeVector → Ptr → InodeName → Heap × InodeVector
unfolding take_name get_by_di_number
assign_name h v c e = let (v', found) = get_by_di_number h v e.di_number in take_name h v' c e found

unfoldable pub assign_names : Heap → InodeVector → Ptr → List InodeName → Heap × InodeVector
unfolding assign_name
assign_names h v c [] = (h, v)
assign_names h v c (e ∷ es) = let (h', v') = assign_name h v c e in assign_names h' v' c es

-- The body of the outer loop. `none`: `extract_inode_names` does not return.
unfoldable pub name_children : Access → Heap → InodeVector → Ptr → Option (Heap × InodeVector)
unfolding assign_names inode_names
name_children a h v c = Option.map (assign_names h v c) (inode_names a (h c))

-- An empty name, or one with a line feed or a carriage return.
unfoldable pub is_illegal : Name → Bool
is_illegal [] = true
is_illegal (b ∷ bs) = has 10 (b ∷ bs) || has 13 (b ∷ bs)

unfoldable pub rename_one : (ℕ → Name) → Heap → Ptr → Heap
unfolding is_illegal set_name
rename_one print h p = if is_illegal (h p).name then set_name h p (print (h p).di_number) else h

unfoldable pub rename_each : (ℕ → Name) → Heap → List Ptr → Heap
unfolding rename_one
rename_each print h [] = h
rename_each print h (p ∷ ps) = rename_each print (rename_one print h p) ps

-- "original_root"
abbrev pub original_root : Name
original_root =
    0x6F ∷ 0x72 ∷ 0x69 ∷ 0x67 ∷ 0x69 ∷ 0x6E ∷ 0x61 ∷ 0x6C ∷ 0x5F ∷ 0x72 ∷ 0x6F ∷ 0x6F ∷ 0x74 ∷ []

abbrev pub name_root : Heap → Option Ptr → Heap
name_root h none = h
name_root h (some p) = set_name h p original_root

-- What follows the outer loop.
unfoldable pub rename_illegal : (ℕ → Name) → Heap → InodeVector → Heap × InodeVector
unfolding rename_each get_by_di_number set_name
rename_illegal print h v =
    let h' = rename_each print h v.inodes in
    let (v', found) = get_by_di_number h' v 2 in (name_root h' found, v')

unfoldable pub find_file_parents_and_names :
    ℕ → Access → (ℕ → Name) → Heap → InodeVector → Option (Heap × InodeVector)
unfolding loop_growing name_children rename_illegal
find_file_parents_and_names fuel a print h v = elim (loop_growing fuel (name_children a) 0 h v) [
  | none ↦ none
  | some (h', v') ↦ some (rename_illegal print h' v')
]

original_root_legal : is_illegal original_root ≡ false
unfolding is_illegal
original_root_legal = refl

module _ (print : ℕ → Name) (prints : (n : ℕ) → is_illegal (print n) ≡ false) where
  set_name_at : (h : Heap) (p : Ptr) (n : Name) → (set_name h p n p).name ≡ n
  unfolding set_name
  set_name_at h p n = rw (==_refl p) refl

  set_name_other : (h : Heap) (p q : Ptr) (n : Name) → (q == p) ≡ false → set_name h p n q ≡ h q
  unfolding set_name
  set_name_other h p q n e = rw e refl

  set_name-legal :
      (h : Heap) (p q : Ptr) (n : Name)
      → is_illegal n ≡ false
      → is_illegal (h q).name ≡ false
      → is_illegal (set_name h p n q).name ≡ false
  set_name-legal h p q n e f = elim (Bool-cases (q == p)) [
    | inl same ↦ rw ((==_iff q p).0 same, set_name_at h p n) e
    | inr other ↦ rw (set_name_other h p q n other) f
  ]

  rename_one_self : (h : Heap) (p : Ptr) → is_illegal (rename_one print h p p).name ≡ false
  unfolding rename_one
  rename_one_self h p = elim (Bool-cases (is_illegal (h p).name)) [
    | inl bad ↦ rw (bad, set_name_at h p (print (h p).di_number)) (prints (h p).di_number)
    | inr fine ↦ rw (fine, fine) refl
  ]

  rename_one-keeps :
      (h : Heap) (p q : Ptr)
      → is_illegal (h q).name ≡ false
      → is_illegal (rename_one print h p q).name ≡ false
  unfolding rename_one
  rename_one-keeps h p q e = elim (Bool-cases (is_illegal (h p).name)) [
    | inl bad ↦ rw bad (set_name-legal h p q (print (h p).di_number) (prints (h p).di_number) e)
    | inr fine ↦ rw fine e
  ]

  at_self : (h : Heap) (p q : Ptr) → q ≡ p → is_illegal (rename_one print h p q).name ≡ false
  at_self h p q e = rw e (rename_one_self h p)

  rename_each-keeps :
      (h : Heap) (ps : List Ptr) (q : Ptr)
      → is_illegal (h q).name ≡ false
      → is_illegal (rename_each print h ps q).name ≡ false
  unfolding rename_each
  rename_each-keeps h [] q e = e
  rename_each-keeps h (p ∷ ps) q e =
      rename_each-keeps (rename_one print h p) ps q (rename_one-keeps h p q e)

  rename_each-legal :
      (h : Heap) (ps : List Ptr) (q : Ptr)
      → has q ps ≡ true
      → is_illegal (rename_each print h ps q).name ≡ false
  unfolding rename_each
  rename_each-legal h [] q e = cc
  rename_each-legal h (p ∷ ps) q e = elim (Bool-cases (q == p)) [
    | inl same ↦ rename_each-keeps (rename_one print h p) ps q (at_self h p q ((==_iff q p).0 same))
    | inr other ↦ rename_each-legal (rename_one print h p) ps q (ground arith)
  ]

  name_root-legal :
      (h : Heap) (o : Option Ptr) (q : Ptr)
      → is_illegal (h q).name ≡ false
      → is_illegal (name_root h o q).name ≡ false
  name_root-legal h none q e = e
  name_root-legal h (some p) q e = set_name-legal h p q original_root original_root_legal e

  -- When a number is printed without line breaks and not as the empty text, every inode of the
  -- vector has a name behind the last loops that is not empty and has no line break.
  pub rename_illegal-legal :
      (h : Heap) (v : InodeVector) (p : Ptr)
      → has p v.inodes ≡ true
      → is_illegal ((rename_illegal print h v).0 p).name ≡ false
  unfolding rename_illegal
  rename_illegal-legal h v p e =
      let h' = rename_each print h v.inodes in
      name_root-legal h' (get_by_di_number h' v 2).1 p (rename_each-legal h v.inodes p e)
