-- ===== src/Inode/Cache/Freed.antt =====
-- src/inodevector.cpp: what `free_dinodes` leaves in memory.
use jfsrec.Prelude.{
  ◌≡◌, refl, ◌∙◌, true, false, some, inl, inr, List, [], ◌∷◌, has, ◌==◌, arith, Bool-cases, ==_iff,
}
use jfsrec.Inode.{Ptr}
use jfsrec.Inode.Cache.{Memory, free_dinode, free_dinodes}
use jfsrec.Inode.Cache.Cells.{IsOwned}
use jfsrec.Inode.Cache.Owners.{free_dinode-IsOwned}

step :
    (p : Ptr) (ps : List Ptr) (m m' : Memory)
    → free_dinode p m ≡ some m'
    → free_dinodes (p ∷ ps) m ≡ free_dinodes ps m'
unfolding free_dinodes
step p ps m m' e = rw (e, free_dinodes) refl

free_dinodes-Frees :
    (ps : List Ptr) (m : Memory)
    → IsOwned m
    → (m' : Memory) × (free_dinodes ps m ≡ some m')
      × IsOwned m'
      × ((q : Ptr) → (m.cells q).dinode_available ≡ false → (m'.cells q).dinode_available ≡ false)
      × ((q : Ptr) → has q ps ≡ true → (m'.cells q).dinode_available ≡ false)
unfolding free_dinodes
free_dinodes-Frees [] m o = (m, refl, o, λ q e. e, λ q e. cc)
free_dinodes-Frees (p ∷ ps) m o =
    let (m1, e, o1, keep, (freed, others)) = free_dinode-IsOwned p m o in
    let (m', f, o', stay, all) = free_dinodes-Frees ps m1 o1 in
    (
      m',
      step p ps m m1 e ∙ f,
      o',
      λ q k. stay q (others q k),
      λ q h. elim (Bool-cases (q == p)) [
        | inl same ↦ stay q (rw ((==_iff q p).0 same) freed)
        | inr other ↦ all q (ground (arith, h, other))
      ],
    )

-- Freeing the dinodes of a vector deletes nothing twice, and leaves none of its inodes with one.
pub free_dinodes-returns :
    (ps : List Ptr) (m : Memory) (q : Ptr)
    → IsOwned m
    → has q ps ≡ true
    → (m' : Memory) × (free_dinodes ps m ≡ some m')
      × IsOwned m'
      × ((m'.cells q).dinode_available ≡ false)
free_dinodes-returns ps m q o h =
    let (m', e, o', stay, all) = free_dinodes-Frees ps m o in (m', e, o', all q h)
