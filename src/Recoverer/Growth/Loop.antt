-- ===== src/Recoverer/Growth/Loop.antt =====
-- src/recoverer.cpp: `for (i = 0; i < inovec_.size(); ++i)` ends, though its body adds to the vector.
use jfsrec.Prelude.{
  ℕ, zero, suc, ◌+◌, ◌-◌, ◌<◌, ◌≡◌, refl, ap, ◌∙◌, true, Option, none, some, inl, inr, List, [],
  ◌∷◌, has, length, length-append, get_elem?, arith, Option-cases,
}
use jfsrec.Inode.{Ptr}
use jfsrec.Vector.{Heap, InodeVector}
use jfsrec.Vector.Lookup.{IsValid}
use jfsrec.Recoverer.{loop_growing}
use jfsrec.Vector.Same.{Same-refl}
use jfsrec.Recoverer.Growth.{Grown, Grown-heap, Grown-trans, missing, missing-Same}

has-get_elem? :
    (ps : List Ptr) (i c : ℕ) → get_elem? ps i ≡ some c → (has c ps ≡ true) × (i < length ps)
has-get_elem? [] i c e = cc
has-get_elem? (p ∷ ps) zero c e = ground arith
has-get_elem? (p ∷ ps) (suc i) c e = ground (arith, has-get_elem? ps i c)

module _ (step : Heap → InodeVector → Ptr → Option (Heap × InodeVector)) where
  loop_end :
      (fuel i : ℕ) (h : Heap) (v : InodeVector)
      → get_elem? v.inodes i ≡ none
      → loop_growing (suc fuel) step i h v ≡ some (h, v)
  unfolding loop_growing
  loop_end fuel i h v e = rw (e, loop_growing) refl

  loop_step :
      (fuel i : ℕ) (h : Heap) (v : InodeVector) (c : Ptr) (h' : Heap) (v' : InodeVector)
      → get_elem? v.inodes i ≡ some c
      → step h v c ≡ some (h', v')
      → loop_growing (suc fuel) step i h v ≡ loop_growing fuel step (i + 1) h' v'
  unfolding loop_growing
  loop_step fuel i h v c h' v' e f = rw (e, f, loop_growing) refl

loop_fuel :
    (i fuel : ℕ) (h : Heap) (v : InodeVector) (h' : Heap) (v' : InodeVector)
    → Grown h v h' v'
    → i < length v.inodes
    → length v.inodes - i + missing h v.inodes v.invalidated_inodes < suc fuel
    → length v'.inodes - (i + 1) + missing h' v'.inodes v'.invalidated_inodes < fuel
loop_fuel i fuel h v h' v' g inside lt = omega (
  arith,
  g.bound,
  length-append v.inodes g.extra,
  ap length g.grows,
  ap (λ o. missing h' v'.inodes o) g.out,
  missing-Same h h' v'.inodes v.invalidated_inodes g.same,
)

-- A loop over the growing vector whose step ends and is a growth ends, with fuel for the vector and the
-- invalidated inodes.
pub loop_growing-returns :
    (step : Heap → InodeVector → Ptr → Option (Heap × InodeVector))
    (I : Heap → InodeVector → Type 0)
    → ((h : Heap) (v : InodeVector) (c : Ptr)
        → I h v
        → has c v.inodes ≡ true
        → (h' : Heap) × (v' : InodeVector) × (step h v c ≡ some (h', v'))
          × Grown h v h' v'
          × I h' v')
    → (fuel i : ℕ) (h : Heap) (v : InodeVector) → IsValid h v
    → I h v
    → length v.inodes - i + missing h v.inodes v.invalidated_inodes < fuel
    → (h' : Heap) × (v' : InodeVector) × (loop_growing fuel step i h v ≡ some (h', v'))
      × Grown h v h' v'
      × I h' v'
loop_growing-returns step I keep zero i h v valid inv lt = absurd (omega arith)
loop_growing-returns step I keep (suc fuel) i h v valid inv lt =
    elim (Option-cases (get_elem? v.inodes i)) [
      | inl e ↦
          (h, v, loop_end step fuel i h v e, Grown-heap h h v v (Same-refl h) valid refl refl, inv)
      | inr (c, e) ↦
          let (member, inside) = has-get_elem? v.inodes i c e in
          let (h1, v1, done, grown, inv') = keep h v c inv member in
          let fewer = loop_fuel i fuel h v h1 v1 grown inside lt in
          let (h', v', f, more, inv'') =
            loop_growing-returns step I keep fuel (i + 1) h1 v1 grown.valid inv' fewer in
          (
            h',
            v',
            loop_step step fuel i h v c h1 v1 e done ∙ f,
            Grown-trans h h1 h' v v1 v' grown more,
            inv'',
          )
    ]
