-- ===== src/Vector/Remove.antt =====
-- src/inodevector.cpp: `remove_marked` and `remove_unmarked`, and the counters.
use jfsrec.Prelude.{
  ℕ, ◌+◌, ◌≡◌, refl, ap, ◌∙◌, Bool, true, false, not, List, [], ◌∷◌, ◌++◌, has, select, count,
  count-append, count-select, length-select, length-append, arith, length,
}
use jfsrec.Inode.{Ptr, InodeCounter, Kind}
use jfsrec.Inode
use jfsrec.Vector.{
  Heap, InodeVector, null_out, erase_null, remove_where, remove_marked, remove_unmarked, count_from,
  print_stats,
}

erase-null_out :
    (test : Ptr → Bool) (ps : List Ptr)
    → (erase_null (null_out test ps).0 ≡ select (λ p. not (test p)) ps)
      × ((null_out test ps).1 ≡ select test ps)
unfolding null_out erase_null
erase-null_out test [] = (refl, refl)
erase-null_out test (p ∷ ps) = ground (arith, erase-null_out test ps)

-- A vector is split by a test, in order: what passes stays, what fails goes to the end of the
-- invalidated inodes, and the index must be built again.
abbrev pub Splits : (Ptr → Bool) → InodeVector → InodeVector → Type 0
Splits test v v' =
    (v'.inodes ≡ select (λ p. not (test p)) v.inodes)
    × (v'.invalidated_inodes ≡ v.invalidated_inodes ++ select test v.inodes)
    × (v'.di_number_index_ok ≡ false)

remove_where-Splits : (test : Ptr → Bool) (v : InodeVector) → Splits test v (remove_where test v)
unfolding remove_where
remove_where-Splits test v =
    let (kept, out) = erase-null_out test v.inodes in
    (kept, ap (λ ps. v.invalidated_inodes ++ ps) out, refl)

-- `remove_marked` keeps the unmarked inodes in their order and puts the marked ones behind the
-- invalidated ones, and `remove_unmarked` the other way round.
pub remove-Splits :
    (h : Heap) (v : InodeVector)
    → Splits (λ p. (h p).is_marked) v (remove_marked h v)
      × Splits (λ p. not (h p).is_marked) v (remove_unmarked h v)
unfolding remove_marked remove_unmarked
remove-Splits h v = (remove_where-Splits _ v, remove_where-Splits _ v)

select_congr :
    (f g : Ptr → Bool) (ps qs : List Ptr)
    → ((q : Ptr) → has q qs ≡ true → f q ≡ g q)
    → ((q : Ptr) → has q ps ≡ true → has q qs ≡ true)
    → select f ps ≡ select g ps
select_congr f g [] qs same sub = refl
select_congr f g (p ∷ ps) qs same sub =
    let e = same p (sub p (ground arith)) in
    let rest = select_congr f g ps qs same (λ q m. sub q (ground arith)) in rw (e, rest)

-- The split depends on the test only at the inodes of the vector.
pub Splits-congr :
    (f g : Ptr → Bool) (v v' : InodeVector)
    → ((q : Ptr) → has q v.inodes ≡ true → f q ≡ g q)
    → Splits f v v'
    → Splits g v v'
Splits-congr f g v v' same (kept, out, flag) = (
  kept
      ∙ select_congr (λ q. not (f q)) (λ q. not (g q)) v.inodes v.inodes (λ q e. ap not (same q e))
          (λ q e. e),
  out ∙ ap (λ ps. v.invalidated_inodes ++ ps) (select_congr f g v.inodes v.inodes same (λ q e. e)),
  flag,
)

abbrev pub both : InodeVector → List Ptr
both v = v.inodes ++ v.invalidated_inodes

Splits-count :
    (test : Ptr → Bool) (v v' : InodeVector) (p : Ptr)
    → Splits test v v'
    → count p (both v') ≡ count p (both v)
Splits-count test v v' p (kept, out, _) = omega (
  arith,
  count-append p v.inodes v.invalidated_inodes,
  count-append p v'.inodes v'.invalidated_inodes,
  ap (count p) kept,
  ap (count p) out,
  count-append p v.invalidated_inodes (select test v.inodes),
  count-select p test v.inodes,
)

-- No inode is lost or doubled: each stands in the two lists together as often as before.
pub remove-count :
    (h : Heap) (v : InodeVector) (p : Ptr)
    → (count p (both (remove_marked h v)) ≡ count p (both v))
      × (count p (both (remove_unmarked h v)) ≡ count p (both v))
remove-count h v p =
    let (marked, unmarked) = remove-Splits h v in
    (
      Splits-count (λ q. (h q).is_marked) v (remove_marked h v) p marked,
      Splits-count (λ q. not (h q).is_marked) v (remove_unmarked h v) p unmarked,
    )

Splits-length :
    (test : Ptr → Bool) (v v' : InodeVector) → Splits test v v' → length (both v') ≡ length (both v)
Splits-length test v v' (kept, out, _) = omega (
  arith,
  length-append v.inodes v.invalidated_inodes,
  length-append v'.inodes v'.invalidated_inodes,
  ap length kept,
  ap length out,
  length-append v.invalidated_inodes (select test v.inodes),
  length-select test v.inodes,
)

pub remove-length :
    (h : Heap) (v : InodeVector)
    → (length (both (remove_marked h v)) ≡ length (both v))
      × (length (both (remove_unmarked h v)) ≡ length (both v))
remove-length h v =
    let (marked, unmarked) = remove-Splits h v in
    (
      Splits-length (λ q. (h q).is_marked) v (remove_marked h v) marked,
      Splits-length (λ q. not (h q).is_marked) v (remove_unmarked h v) unmarked,
    )

abbrev pub total : InodeCounter → ℕ
total ic = ic.num_unall + ic.num_files + ic.num_dirs + ic.num_symlinks + ic.num_specials

total-count : (k : Kind) (ic : InodeCounter) → total (Inode.count k ic) ≡ total ic + 1
unfolding Inode.count
total-count k ic = ground arith

count_from-total :
    (h : Heap) (ps : List Ptr) (ic : InodeCounter)
    → total (count_from h ps ic) ≡ total ic + length ps
unfolding count_from
count_from-total h [] ic = omega arith
count_from-total h (p ∷ ps) ic =
    omega (arith, total-count (h p).kind ic, count_from-total h ps (Inode.count (h p).kind ic))

-- The counters of the statistics add up to the number of inodes.
pub print_stats-total : (h : Heap) (v : InodeVector) → total (print_stats h v) ≡ length v.inodes
unfolding print_stats
print_stats-total h v = omega (
  arith,
  count_from-total h v.inodes
      (record { num_unall = 0; num_files = 0; num_dirs = 0; num_symlinks = 0; num_specials = 0 }),
)
