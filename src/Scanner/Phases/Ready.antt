-- ===== src/Scanner/Phases/Ready.antt =====
-- src/inodescanner.cpp: what the recovery needs of the objects and the vector behind the phases.
use mathlib.Core.List.{append-nil, append_assoc}
use jfsrec.Prelude.{
  ℕ, zero, suc, ◌+◌, ◌≡◌, refl, sym, ap, ◌∙◌, Bool, none, List, [], ◌∷◌, ◌++◌, length,
  length-append, get_or, All, All-append, arith,
}
use jfsrec.Prelude.Map.{lookup}
use jfsrec.Disk.{Image}
use jfsrec.Inode.{Ptr, Inode, Kind, new_inode}
use jfsrec.Vector.{Heap, InodeVector, add_inode, remove_dupes}
use jfsrec.Vector.Lookup.{IsValid, add_inode-IsValid}
use jfsrec.Vector.Remove.{both}
use jfsrec.Vector.Same.{Alike-refl}
use jfsrec.Scanner.{remove_unallocated}
use jfsrec.Scanner.Postprocess.{
  Conserves, Conserves-trans, postprocess-Conserves, postprocess-IsValid,
  remove_unallocated-Conserves, remove_dupes-Conserves, remove_dupes-IsValid,
}
use jfsrec.Scanner.Stages.{
  Saved, post_scan, post_extentscan, post_remove_unallocated, post_remove_dupes,
}
use jfsrec.Scanner.Phases.{
  Source, Progress, allocate, addresses, new_vector, add_each, swept, reloaded,
}
use jfsrec.Scanner.Phases.Resumed.{from_stage}

-- Objects that were just made have no parent.
abbrev pub IsOrphan : Inode → Type 0
IsOrphan i = i.parent ≡ none

-- A valid vector with `n` pointers in its two lists, and all objects are as `P` says.
abbrev pub IsReady : (Inode → Type 0) → ℕ → Heap × InodeVector → Type 0
IsReady P n (h, v) = IsValid h v × ((p : Ptr) → P (h p)) × (length (both v) ≡ n)

-- Whatever the flag was, the vector is valid once inodes have been added.
new_vector-IsValid : (h : Heap) (flag : Bool) → IsValid h (new_vector flag)
unfolding new_vector lookup
new_vector-IsValid h flag = record { indexed = λ e d q m k. cc; sorted = tt }

abbrev Added : Heap → InodeVector → List Ptr → InodeVector → Type 0
Added h v ps w =
    IsValid h w × (w.inodes ≡ v.inodes ++ ps) × (w.invalidated_inodes ≡ v.invalidated_inodes)

add_each-Added :
    (h : Heap) (v : InodeVector) (ps : List Ptr) → IsValid h v → Added h v ps (add_each h v ps)
unfolding add_each
add_each-Added h v [] valid = (valid, sym (append-nil v.inodes), refl)
add_each-Added h v (p ∷ ps) valid =
    let (valid', e, f) = add_inode-IsValid h v p valid in
    let (valid'', g, k) = add_each-Added h (add_inode h v p) ps valid' in
    (valid'', g ∙ ap (λ x. x ++ ps) e ∙ append_assoc v.inodes (p ∷ []) ps, k ∙ f)

length-addresses : (from n : ℕ) → length (addresses from n) ≡ n
unfolding addresses
length-addresses from zero = refl
length-addresses from (suc n) = omega (arith, length-addresses (from + 1) n)

from_stage-Conserves : (t : Saved) (h : Heap) (v : InodeVector) → Conserves h v (from_stage t h v)
unfolding from_stage
from_stage-Conserves post_scan h v = postprocess-Conserves h v
from_stage-Conserves post_extentscan h v =
    let (h', v') = remove_unallocated h v in
    Conserves-trans h v h' v' (remove_dupes h' v') (remove_unallocated-Conserves h v)
      (remove_dupes-Conserves h' v')
from_stage-Conserves post_remove_unallocated h v = remove_dupes-Conserves h v
from_stage-Conserves post_remove_dupes h v = (Alike-refl h, λ p. refl, refl)

from_stage-IsValid :
    (t : Saved) (h : Heap) (v : InodeVector)
    → IsValid h v
    → IsValid (from_stage t h v).0 (from_stage t h v).1
unfolding from_stage
from_stage-IsValid post_scan h v valid = postprocess-IsValid h v
from_stage-IsValid post_extentscan h v valid =
    let (h', v') = remove_unallocated h v in remove_dupes-IsValid h' v'
from_stage-IsValid post_remove_unallocated h v valid = remove_dupes-IsValid h v
from_stage-IsValid post_remove_dupes h v valid = valid

-- A predicate that is kept where only marks change.
abbrev pub Keeps : (Inode → Type 0) → Type 0
Keeps P =
    (i j : Inode)
    → j.parent ≡ i.parent
    → j.kind ≡ i.kind
    → j.byte_offset ≡ i.byte_offset
    → P i
    → P j

module _ (P : Inode → Type 0) (empty : (img : Image) → P (new_inode Kind.file img 0))
    (keeps : Keeps P) where
  get_or-all :
      (found : List Inode) (p : ℕ) (other : Inode)
      → All P found
      → P other
      → P (get_or found p other)
  get_or-all [] p other all o = o
  get_or-all (i ∷ is) zero other all o = all.0
  get_or-all (i ∷ is) (suc p) other all o = get_or-all is p other all.1 o

  allocate-all :
      (stale : Image) (found : List Inode) (p : Ptr) → All P found → P (allocate stale found p)
  unfolding allocate
  allocate-all stale found p all =
      get_or-all found p (new_inode Kind.file stale 0) all (empty stale)

  pub swept-IsReady :
      (s : Source) (found : List Inode) (files : Progress)
      → All P found
      → IsReady P (length found) ((swept s found files).objects, (swept s found files).vector)
  unfolding swept new_vector
  swept-IsReady s found files all =
      let h = allocate s.chunk found in
      let v = add_each h (new_vector s.flag) (addresses 0 (length found)) in
      let (valid, e, f) =
        add_each-Added h (new_vector s.flag) (addresses 0 (length found))
          (new_vector-IsValid h s.flag) in
      (
        valid,
        λ p. allocate-all s.chunk found p all,
        omega (
          arith,
          length-append v.inodes v.invalidated_inodes,
          ap length e,
          ap length f,
          length-addresses 0 (length found),
        ),
      )

  pub reloaded-IsReady :
      (s : Source) (is out : List Inode) (files : Progress)
      → All P is
      → All P out
      → IsReady P
          (length is + length out)
          ((reloaded s is out files).objects, (reloaded s is out files).vector)
  unfolding reloaded
  reloaded-IsReady s is out files all all' = (
    record { indexed = λ e. cc; sorted = tt },
    λ p. allocate-all s.chunk (is ++ out) p (All-append P is out all all'),
    omega (
      arith,
      length-append (addresses 0 (length is)) (addresses (length is) (length out)),
      length-addresses 0 (length is),
      length-addresses (length is) (length out),
    ),
  )

  pub from_stage-IsReady :
      (t : Saved) (n : ℕ) (h : Heap) (v : InodeVector)
      → IsReady P n (h, v)
      → IsReady P n (from_stage t h v)
  from_stage-IsReady t n h v (valid, orphans, sizes) =
      let (alike, counts, same) = from_stage-Conserves t h v in
      (
        from_stage-IsValid t h v valid,
        λ p.
            keeps (h p) ((from_stage t h v).0 p) (alike.1 p).0 (alike.0 p).2 (alike.0 p).4
              (orphans p),
        same ∙ sizes,
      )
