-- ===== src/DirInode/Leaves.antt =====
-- src/dirinode.cpp: the entries of a directory in a chain of leaves, and the names that `next_leaf`
-- finds there.

use jfsrec.Prelude.{
  ℕ, zero, suc, ◌+◌, ◌*◌, ◌%◌, ◌^◌, ◌<◌, ◌≤◌, ◌≡◌, ◌≢◌, refl, sym, ap, ◌∙◌, true, false, some, List,
  [], ◌∷◌, ◌++◌, map, length, take, drop, ltb, ◌==◌, All, arith,
}
use jfsrec.Device.{ok}
use jfsrec.Disk.{Image, shifted, u16, u32, u64}
use jfsrec.Utf8.Text.{IsUnit16, encoding}
use jfsrec.DirInode.{
  Reader, InodeName, get_direntry, entries_from, stbl_of, signed_count, next_leaf,
}
use jfsrec.DirInode.Names.{Spells, Stored, get_direntry-Stored}

-- An entry: the characters of its name, and its number.
pub record Entry : Type 0 where
  pub characters : List ℕ
  pub number : ℕ

-- The slot `p` of a page is the head of the entry.
pub record IsEntry (slot : Image) (p : ℕ) (e : Entry) : Type 0 where
  pub chain : List ℕ
  pub units : All IsUnit16 e.characters
  pub small : length e.characters ≤ 255
  pub short : length chain ≤ 128
  pub namlen : slot (32 * p + 5) ≡ length e.characters
  pub head : Spells (λ i. u16 (shifted slot (32 * p)) (6 + 2 * i)) 0 (take 11 e.characters)
  pub tail : Stored slot [] chain (slot (32 * p + 4)) (drop 11 e.characters)
  pub inumber : u32 (shifted slot (32 * p)) 0 ≡ e.number

-- The sorted entry table names the entries, from the position `i` on.
abbrev pub HasEntries : Image → (ℕ → ℕ) → ℕ → List Entry → Type 0
HasEntries slot stbl i [] = Unit
HasEntries slot stbl i (e ∷ es) = IsEntry slot (stbl i) e × HasEntries slot stbl (i + 1) es

-- The names in UTF-8.
abbrev pub listed : List Entry → List InodeName
listed es = map (λ e. record { name = encoding e.characters; di_number = e.number }) es

-- A page of the chain of leaves.
pub record IsLeaf (dtree : Image) (es : List Entry) : Type 0 where
  pub nextindex : dtree 17 ≡ length es
  pub few : length es < 128
  pub entries : HasEntries dtree (stbl_of dtree) 0 es

-- The leaves behind each other, each read from where the one before it says.
abbrev pub IsChain : Reader → ℕ → Image → List Entry → List (List Entry) → Type 0
IsChain read log2blocksize dtree es [] = IsLeaf dtree es × (u64 dtree 0 ≡ 0)
IsChain read log2blocksize dtree es (fs ∷ more) =
    IsLeaf dtree es
    × (u64 dtree 0 ≢ 0)
    × ((page : Image) × (read (u64 dtree 0 * 2 ^ log2blocksize % 2 ^ 64) 4096 dtree ≡ ok page)
        × IsChain read log2blocksize page fs more)

abbrev pub joined : List Entry → List (List Entry) → List Entry
joined es [] = es
joined es (fs ∷ more) = es ++ joined fs more

listed-append : (es fs : List Entry) → listed (es ++ fs) ≡ listed es ++ listed fs
listed-append [] fs = refl
listed-append (e ∷ es) fs =
    ap (λ ns. record { name = encoding e.characters; di_number = e.number } ∷ ns)
      (listed-append es fs)

get_direntry-IsEntry :
    (heap : List ℕ) (slot : Image) (p : ℕ) (e : Entry)
    → IsEntry slot p e
    → get_direntry 129 heap slot p
      ≡ some (record { name = encoding e.characters; di_number = e.number })
get_direntry-IsEntry heap slot p e i = rw (sym i.inumber) (
    get_direntry-Stored 129 heap slot p e.characters i.chain i.units i.small
      (omega (arith, i.short)) i.namlen i.head i.tail)

pub entries_from-HasEntries :
    (heap : List ℕ) (slot : Image) (stbl : ℕ → ℕ) (i : ℕ) (es : List Entry)
    → HasEntries slot stbl i es
    → entries_from heap slot stbl (length es) i ≡ some (listed es)
unfolding entries_from
entries_from-HasEntries heap slot stbl i [] h = refl
entries_from-HasEntries heap slot stbl i (e ∷ es) h =
    rw
      (
        entries_from,
        get_direntry-IsEntry heap slot (stbl i) e h.0,
        entries_from-HasEntries heap slot stbl (i + 1) es h.1,
      )
      refl

leaf-listed :
    (heap : List ℕ) (dtree : Image) (es : List Entry)
    → IsLeaf dtree es
    → entries_from heap dtree (stbl_of dtree) (signed_count (dtree 17)) 0 ≡ some (listed es)
leaf-listed heap dtree es l =
    let fits : ltb (length es) 128 ≡ true = ground (arith, l.few) in
    rw (l.nextindex, fits) (entries_from-HasEntries heap dtree (stbl_of dtree) 0 es l.entries)

next_leaf-last :
    (fuel : ℕ) (read : Reader) (log2blocksize : ℕ) (heap : List ℕ) (dtree : Image)
    (names : List InodeName)
    → (dtree 17 == 255) ≡ false
    → entries_from heap dtree (stbl_of dtree) (signed_count (dtree 17)) 0 ≡ some names
    → (u64 dtree 0 == 0) ≡ true
    → next_leaf (suc fuel) read log2blocksize heap dtree ≡ some names
unfolding next_leaf
next_leaf-last fuel read log2blocksize heap dtree names e f g = rw (next_leaf, e, f, g) refl

next_leaf-more :
    (fuel : ℕ) (read : Reader) (log2blocksize : ℕ) (heap : List ℕ) (dtree page : Image)
    (names more : List InodeName)
    → (dtree 17 == 255) ≡ false
    → entries_from heap dtree (stbl_of dtree) (signed_count (dtree 17)) 0 ≡ some names
    → (u64 dtree 0 == 0) ≡ false
    → read (u64 dtree 0 * 2 ^ log2blocksize % 2 ^ 64) 4096 dtree ≡ ok page
    → next_leaf fuel read log2blocksize heap page ≡ some more
    → next_leaf (suc fuel) read log2blocksize heap dtree ≡ some (names ++ more)
unfolding next_leaf
next_leaf-more fuel read log2blocksize heap dtree page names more e f g k l =
    rw (next_leaf, e, f, g, k, l) refl

pub next_leaf-IsChain :
    (fuel : ℕ) (read : Reader) (log2blocksize : ℕ) (heap : List ℕ) (dtree : Image) (es : List Entry)
    (more : List (List Entry))
    → IsChain read log2blocksize dtree es more
    → length more < fuel
    → next_leaf fuel read log2blocksize heap dtree ≡ some (listed (joined es more))
next_leaf-IsChain zero read log2blocksize heap dtree es more c lt = absurd (omega arith)
next_leaf-IsChain (suc fuel) read log2blocksize heap dtree es [] (l, last) lt =
    next_leaf-last fuel read log2blocksize heap dtree (listed es)
      (ground (arith, l.nextindex, l.few)) (leaf-listed heap dtree es l) (ground (arith, last))
next_leaf-IsChain (suc fuel) read log2blocksize heap dtree es (fs ∷ more) (l, next, (page, e, c))
      lt =
    next_leaf-more fuel read log2blocksize heap dtree page (listed es) (listed (joined fs more))
      (ground (arith, l.nextindex, l.few)) (leaf-listed heap dtree es l) (ground (arith, next)) e
      (next_leaf-IsChain fuel read log2blocksize heap page fs more c (omega (arith, lt)))
    ∙ ap some (sym (listed-append es (joined fs more)))
