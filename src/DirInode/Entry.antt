-- ===== src/DirInode/Entry.antt =====
-- src/dirinode.cpp: the reading of an entry ends, also where the chain of its slots is a cycle.
use mathlib.Core.Option
use jfsrec.Prelude.{
  ℕ, zero, suc, ◌+◌, ◌-◌, ◌*◌, ◌<◌, ◌≡◌, refl, Bool, true, false, Option, none, some, inl, inr,
  List, [], ◌∷◌, ◌++◌, has, length, leb, if◌then◌else◌, arith, Bool-cases,
}
use jfsrec.Prelude.Fresh.{fresh, fresh-lt, fresh-length, below, has-below, length-below}
use jfsrec.Disk.{Image, shifted, u16, u32}
use jfsrec.Unicode.{uni_strncpy}
use jfsrec.DirInode.{
  InodeName, min, dtslotdatalen, dtlhdrdatalen, slots_from, get_direntry, entries_from,
}

abbrev Returns {ℓ} : {A : Type ℓ} → Option A → Type ℓ
Returns {A = A} o = (a : A) × (o ≡ some a)

map-Returns {ℓ κ} :
    {A : Type ℓ} {B : Type κ} (f : A → B) (o : Option A) → Returns o → Returns (Option.map f o)
map-Returns f none (a, e) = cc
map-Returns f (some b) r = (f b, refl)

rounds-Returns :
    (negative seen : Bool) (part : List ℕ) (more : Option (List ℕ))
    → (seen ≡ false → Returns more)
    → Returns (
        if negative
        then some []
        else if seen
        then some part
        else Option.map (λ rest. part ++ rest) more)
rounds-Returns true seen part more h = ([], refl)
rounds-Returns false true part more h = (part, refl)
rounds-Returns false false part more h = map-Returns (λ rest. part ++ rest) more (h refl)

pub slots_end :
    (fuel : ℕ) (slot : Image) (rec : List ℕ) (next namlen len : ℕ)
    → leb 128 next ≡ true
    → slots_from (suc fuel) slot rec next namlen len ≡ some []
unfolding slots_from
slots_end fuel slot rec next namlen len e = rw (e, slots_from) refl

slots_step :
    (fuel : ℕ) (slot : Image) (rec : List ℕ) (next namlen len : ℕ)
    → (has (slot (32 * next)) (next ∷ rec) ≡ false
        → Returns (
            slots_from fuel slot
              (next ∷ rec)
              (slot (32 * next))
              (namlen - len)
              (min (namlen - len) dtslotdatalen)))
    → Returns (slots_from (suc fuel) slot rec next namlen len)
unfolding slots_from
slots_step fuel slot rec next namlen len more =
    rounds-Returns (leb 128 next) (has (slot (32 * next)) (next ∷ rec))
      (uni_strncpy (λ i. u16 slot (32 * next + 2 + 2 * i)) 0 (min (namlen - len) dtslotdatalen))
      (slots_from fuel slot (next ∷ rec) (slot (32 * next)) (namlen - len)
        (min (namlen - len) dtslotdatalen))
      more

slots_from-Returns :
    (fuel : ℕ) (slot : Image) (rec : List ℕ) (next namlen len : ℕ)
    → has next rec ≡ false
    → length (fresh rec (below 128)) < fuel
    → Returns (slots_from fuel slot rec next namlen len)
slots_from-Returns zero slot rec next namlen len new h = absurd (omega arith)
slots_from-Returns (suc fuel) slot rec next namlen len new h = elim (Bool-cases (leb 128 next)) [
  | inl e ↦ ([], slots_end fuel slot rec next namlen len e)
  | inr e ↦
      let less = fresh-lt next rec (below 128) (has-below 128 next (ground arith)) new in
      slots_step fuel slot rec next namlen len (λ again.
        slots_from-Returns fuel slot (next ∷ rec) (slot (32 * next)) (namlen - len)
          (min (namlen - len) dtslotdatalen) again (omega (arith, less, h)))
]

-- With fuel for the 128 slots that a signed byte can name and one round more, an entry is read
-- whatever the page holds, chains that come back to a slot included. Its number is the one at its
-- head.
pub get_direntry-returns :
    (fuel : ℕ) (heap : List ℕ) (slot : Image) (head_index : ℕ)
    → 128 < fuel
    → (entry : InodeName) × (get_direntry fuel heap slot head_index ≡ some entry)
      × (entry.di_number ≡ u32 (shifted slot (32 * head_index)) 0)
unfolding get_direntry u32 u16
get_direntry-returns fuel heap slot head_index h =
    let bound = fresh-length [] (below 128) in
    let namlen = slot (32 * head_index + 5) in
    let (rest, e) =
      slots_from-Returns fuel slot [] (slot (32 * head_index + 4)) namlen (min namlen dtlhdrdatalen)
        refl (omega (arith, bound, length-below 128, h)) in
    rw (e, Option.map) (_, refl, refl)

-- The loops over the sorted entry table give one entry for each position, whatever the page holds.
pub entries_from-returns :
    (heap : List ℕ) (slot : Image) (stbl : ℕ → ℕ) (count i : ℕ)
    → (names : List InodeName) × (entries_from heap slot stbl count i ≡ some names)
      × (length names ≡ count)
unfolding entries_from
entries_from-returns heap slot stbl zero i = ([], refl, refl)
entries_from-returns heap slot stbl (suc count) i =
    let (entry, e, number) = get_direntry-returns 129 heap slot (stbl i) (omega arith) in
    let (names, f, l) = entries_from-returns heap slot stbl count (i + 1) in
    (entry ∷ names, rw (e, f, entries_from) refl, omega (arith, l))
