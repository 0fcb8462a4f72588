-- ===== src/FileInode/Tree.antt =====
-- src/fileinode.cpp: the tree of pages that holds the extents of a file, and its reading.
use Prim.Native.Nat.{bit_and}
use jfsrec.Prelude.{
  ℕ, zero, suc, true, ◌*◌, ◌≡◌, ◌≢◌, ◌⊎◌, refl, Option, some, inl, inr, List, [], ◌∷◌, ◌++◌, ◌==◌,
  arith,
}
use jfsrec.Device.{Read, ok}
use jfsrec.Disk.{Image, Xad}
use jfsrec.Disk.Extent.{address_xad}
use jfsrec.FileInode.{
  Reader, num_entries, get_leaf_xads, get_internal_xads, page_flag, page_xads, get_internal_xtpage,
  bt_leaf,
}

-- The extents are those below the entries, one after the other.
abbrev pub Below : (Xad → List Xad → Type 0) → List Xad → List Xad → Type 0
Below holds [] xs = xs ≡ []
Below holds (e ∷ es) xs = (ys zs : List Xad) × holds e ys × Below holds es zs × (xs ≡ ys ++ zs)

-- A page that is a leaf has the extents for its entries; any other has pages below it, each of which
-- is read from the address of its entry. The tree is not deeper than the number says.
abbrev pub IsTree : ℕ → Reader → ℕ → Image → Image → List Xad → Type 0
IsTree zero read blocksize stale page xs =
    (bit_and (page_flag page) bt_leaf ≢ 0) × (xs ≡ get_leaf_xads page (num_entries page) 2)
IsTree (suc depth) read blocksize stale page xs =
    ((bit_and (page_flag page) bt_leaf ≢ 0) × (xs ≡ get_leaf_xads page (num_entries page) 2))
    ⊎ ((bit_and (page_flag page) bt_leaf ≡ 0)
        × Below
            (λ e ys.
              (below : Image) × (read (address_xad e * blocksize) 4096 stale ≡ ok below)
              × IsTree depth read blocksize stale below ys)
            (get_leaf_xads page (num_entries page) 2) xs)

page_xads-leaf :
    (visit : Xad → Option (Read (List Xad))) (page : Image) (xs : List Xad)
    → bit_and (page_flag page) bt_leaf ≢ 0
    → xs ≡ get_leaf_xads page (num_entries page) 2
    → page_xads visit page ≡ some (ok xs)
unfolding page_xads
page_xads-leaf visit page xs leaf e = rw e (ground (arith, leaf))

page_xads-inner :
    (visit : Xad → Option (Read (List Xad))) (page : Image) (xs : List Xad)
    → bit_and (page_flag page) bt_leaf ≡ 0
    → get_internal_xads visit (get_leaf_xads page (num_entries page) 2) ≡ some (ok xs)
    → page_xads visit page ≡ some (ok xs)
unfolding page_xads
page_xads-inner visit page xs inner e =
    let test : (bit_and (page_flag page) bt_leaf == 0) ≡ true = ground (arith, inner) in rw test e

visits-step :
    (visit : Xad → Option (Read (List Xad))) (e : Xad) (es ys zs : List Xad)
    → visit e ≡ some (ok ys)
    → get_internal_xads visit es ≡ some (ok zs)
    → get_internal_xads visit (e ∷ es) ≡ some (ok (ys ++ zs))
unfolding get_internal_xads
visits-step visit e es ys zs f g = rw (get_internal_xads, f, g) refl

visits-Below :
    (holds : Xad → List Xad → Type 0) (visit : Xad → Option (Read (List Xad))) (es xs : List Xad)
    → ((e : Xad) (ys : List Xad) → holds e ys → visit e ≡ some (ok ys))
    → Below holds es xs
    → get_internal_xads visit es ≡ some (ok xs)
unfolding get_internal_xads
visits-Below holds visit [] xs sound b = rw b refl
visits-Below holds visit (e ∷ es) xs sound (ys, zs, here, rest, k) =
    rw k
      (visits-step visit e es ys zs (sound e ys here) (visits-Below holds visit es zs sound rest))

get_internal_xtpage-step :
    (depth : ℕ) (read : Reader) (blocksize : ℕ) (stale below : Image) (e : Xad) (ys : List Xad)
    → read (address_xad e * blocksize) 4096 stale ≡ ok below
    → page_xads (get_internal_xtpage depth read blocksize stale) below ≡ some (ok ys)
    → get_internal_xtpage (suc depth) read blocksize stale e ≡ some (ok ys)
unfolding get_internal_xtpage
get_internal_xtpage-step depth read blocksize stale below e ys f g =
    rw (get_internal_xtpage, f, g) refl

-- The extents of a tree of pages are all found, in order, with fuel for its depth.
pub page_xads-IsTree :
    (depth : ℕ) (read : Reader) (blocksize : ℕ) (stale page : Image) (xs : List Xad)
    → IsTree depth read blocksize stale page xs
    → page_xads (get_internal_xtpage depth read blocksize stale) page ≡ some (ok xs)
page_xads-IsTree zero read blocksize stale page xs (leaf, e) =
    page_xads-leaf (get_internal_xtpage 0 read blocksize stale) page xs leaf e
page_xads-IsTree (suc depth) read blocksize stale page xs (inl (leaf, e)) =
    page_xads-leaf (get_internal_xtpage (suc depth) read blocksize stale) page xs leaf e
page_xads-IsTree (suc depth) read blocksize stale page xs (inr (inner, b)) =
    page_xads-inner (get_internal_xtpage (suc depth) read blocksize stale) page xs inner (
      visits-Below
        (λ e ys.
          (below : Image) × (read (address_xad e * blocksize) 4096 stale ≡ ok below)
          × IsTree depth read blocksize stale below ys)
        (get_internal_xtpage (suc depth) read blocksize stale)
        (get_leaf_xads page (num_entries page) 2) xs
        (λ e ys (below, f, t).
          get_internal_xtpage-step depth read blocksize stale below e ys f
            (page_xads-IsTree depth read blocksize stale below ys t))
        b)
