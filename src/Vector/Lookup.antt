-- ===== src/Vector/Lookup.antt =====
-- src/inodevector.cpp: the invariant of the index, and what the operations on it promise.
use jfsrec.Prelude.{
  ℕ, ◌≡◌, inl, inr, refl, Bool, true, false, none, List, [], ◌∷◌, ◌++◌, has, has-append,
  if◌then◌else◌, arith, Option-cases,
}
use jfsrec.Prelude.Map.{lookup, IsSorted, insert-IsSorted}
use jfsrec.Inode.{Ptr}
use jfsrec.Vector.{
  Heap, InodeVector, generate_di_number_index, get_by_di_number, add_inode, remove_marked,
  remove_unmarked,
}
use jfsrec.Vector.Index.{
  Answers, IsIndex, Answers-congr, insert-IsIndex, index_from-IsIndex, index_from-IsSorted,
}

abbrev pub members : InodeVector → Ptr → Bool
members v q = has q v.inodes

-- While the flag is set, the index answers for the inodes of the vector; its keys ascend always.
pub record IsValid (h : Heap) (v : InodeVector) : Type 0 where
  pub indexed : v.di_number_index_ok ≡ true → IsIndex h (members v) v.di_number_index
  pub sorted : IsSorted v.di_number_index

-- After the index is built, a look-up of a number answers the inode of this number that was
-- allocated last, or nothing where no inode has it.
pub generate-IsIndex :
    (h : Heap) (v : InodeVector)
    → IsIndex h (members v) (generate_di_number_index h v).di_number_index
      × IsSorted (generate_di_number_index h v).di_number_index
unfolding generate_di_number_index
generate-IsIndex h v = (
  λ d.
      Answers-congr h _ (members v) d _ (λ q. ground arith)
        (index_from-IsIndex h (λ q. false) [] v.inodes (λ k q e. cc) d),
  index_from-IsSorted h [] v.inodes tt,
)

-- A vector that answers look-ups like `v`, with an index that is fresh.
abbrev Refreshed : Heap → InodeVector → ℕ → InodeVector → Type 0
Refreshed h v d w =
    Answers h (members v) d (lookup d w.di_number_index)
    × (w.inodes ≡ v.inodes)
    × (w.invalidated_inodes ≡ v.invalidated_inodes)
    × IsValid h w

Refreshed-by :
    (h : Heap) (v : InodeVector) (d : ℕ) (b : Bool)
    → IsValid h v
    → v.di_number_index_ok ≡ b
    → Refreshed h v d (if b then v else generate_di_number_index h v)
unfolding generate_di_number_index
Refreshed-by h v d true valid e = (valid.indexed e d, refl, refl, valid)
Refreshed-by h v d false valid e =
    let (right, ascending) = generate-IsIndex h v in
    (right d, refl, refl, record { indexed = λ _. right; sorted = ascending })

-- `get_by_di_number` answers the inode of the number that was allocated last, or nothing exactly
-- where there is none; it leaves the inodes alone and the vector valid.
pub get_by_di_number-Answers :
    (h : Heap) (v : InodeVector) (d : ℕ)
    → IsValid h v
    → Answers h (members v) d (get_by_di_number h v d).1
      × ((get_by_di_number h v d).0.inodes ≡ v.inodes)
      × ((get_by_di_number h v d).0.invalidated_inodes ≡ v.invalidated_inodes)
      × IsValid h (get_by_di_number h v d).0
unfolding get_by_di_number
get_by_di_number-Answers h v d valid = Refreshed-by h v d v.di_number_index_ok valid refl

abbrev vector : List Ptr → List Ptr → List (ℕ × Ptr) → Bool → InodeVector
vector ps out m b = record {
  inodes = ps;
  invalidated_inodes = out;
  di_number_index = m;
  di_number_index_ok = b;
}

-- The cases of `add_inode`, over the fields.
abbrev Added : Heap → Ptr → InodeVector → InodeVector → Type 0
Added h p v w =
    IsValid h w × (w.inodes ≡ v.inodes ++ p ∷ []) × (w.invalidated_inodes ≡ v.invalidated_inodes)

added :
    (h : Heap) (p : Ptr) (ps out : List Ptr) (m : List (ℕ × Ptr)) (b : Bool)
    → IsValid h (vector ps out m b)
    → Added h p (vector ps out m b) (add_inode h (vector ps out m b) p)
unfolding add_inode
added h p ps out m false valid = (record { indexed = λ e. cc; sorted = valid.sorted }, refl, refl)
added h p ps out m true valid = elim (Option-cases (lookup (h p).di_number m)) [
  | inr (q, e) ↦ rw (e, add_inode) (record { indexed = λ e. cc; sorted = valid.sorted }, refl, refl)
  | inl e ↦
      let absent : Answers h (λ q. has q ps) (h p).di_number none =
        rw e at (valid.indexed refl (h p).di_number) in
      rw (e, add_inode)
        (
          record {
            indexed = λ _ d.
                Answers-congr h _ (λ q. has q (ps ++ p ∷ [])) d _
                  (λ q. ground (arith, has-append q ps (p ∷ [])))
                  (insert-IsIndex h (λ q. has q ps) m p (valid.indexed refl)
                    (λ r f g. absurd (absent r f g)) d);
            sorted = insert-IsSorted (h p).di_number p m valid.sorted;
          },
          refl,
          refl,
        )
]

-- Adding an inode keeps the vector valid and puts it last, also where its number is there already.
pub add_inode-IsValid :
    (h : Heap) (v : InodeVector) (p : Ptr)
    → IsValid h v
    → IsValid h (add_inode h v p)
      × ((add_inode h v p).inodes ≡ v.inodes ++ p ∷ [])
      × ((add_inode h v p).invalidated_inodes ≡ v.invalidated_inodes)
add_inode-IsValid h v p valid =
    added h p v.inodes v.invalidated_inodes v.di_number_index v.di_number_index_ok valid

-- Removing inodes keeps the vector valid.
pub remove-IsValid :
    (h : Heap) (v : InodeVector)
    → IsValid h v
    → IsValid h (remove_marked h v) × IsValid h (remove_unmarked h v)
unfolding remove_marked remove_unmarked
remove-IsValid h v valid = (
  record { indexed = λ e. cc; sorted = valid.sorted },
  record { indexed = λ e. cc; sorted = valid.sorted },
)
