-- ===== src/DirInode/Names.antt =====
-- src/dirinode.cpp: the name that `get_direntry` puts together from the slots of an entry.

use mathlib.Core.List.{append-nil}
use jfsrec.Prelude.{
  ℕ, zero, suc, ◌+◌, ◌-◌, ◌*◌, ◌<◌, ◌≤◌, ◌≡◌, refl, sym, ap, ◌∙◌, true, false, some, inl, inr, List,
  [], ◌∷◌, ◌++◌, has, length, take, drop, take-append, take-drop, length-drop, leb, ◌==◌, All,
  arith, Bool-cases,
}
use jfsrec.Disk.{Image, shifted, u16, u32}
use jfsrec.Utf8.{unicode_string_to_utf8_std_string}
use jfsrec.Utf8.Text.{IsUnit16, encoding, std_string-encoding}
use jfsrec.Unicode.{uni_strncpy}
use jfsrec.DirInode.{uni_strncpy, min, dtslotdatalen, dtlhdrdatalen, slots_from, get_direntry}
use jfsrec.DirInode.Entry.{slots_end}

-- The characters stand in a text from a position on.
abbrev pub Spells : (ℕ → ℕ) → ℕ → List ℕ → Type 0
Spells text i [] = Unit
Spells text i (c ∷ cs) = (text i ≡ c) × Spells text (i + 1) cs

-- The characters are stored in a chain of slots, 15 in each but the last, none of them read before;
-- `next` is the first, and the last one names none.
abbrev pub Stored : Image → List ℕ → List ℕ → ℕ → List ℕ → Type 0
Stored slot rec [] next cs = (128 ≤ next) × (cs ≡ [])
Stored slot rec (p ∷ ps) next cs =
    (next ≡ p)
    × (p < 128)
    × (has p rec ≡ false)
    × Spells (λ i. u16 slot (32 * p + 2 + 2 * i)) 0 (take 15 cs)
    × Stored slot (p ∷ rec) ps (slot (32 * p)) (drop 15 cs)

uni_strncpy-Spells :
    (text : ℕ → ℕ) (i : ℕ) (cs : List ℕ)
    → Spells text i cs
    → All IsUnit16 cs
    → uni_strncpy text i (length cs) ≡ cs
unfolding uni_strncpy
uni_strncpy-Spells text i [] here units = refl
uni_strncpy-Spells text i (c ∷ cs) here units =
    let some_char : (text i == 0) ≡ false = ground (arith, here.0, units.0) in
    rw (some_char, here.0, uni_strncpy-Spells text (i + 1) cs here.1 units.1) refl

length-take : (n : ℕ) (cs : List ℕ) → length (take n cs) ≡ min (length cs) n
length-take zero cs = ground arith
length-take (suc n) [] = ground arith
length-take (suc n) (c ∷ cs) = ground (arith, length-take n cs)

All-take : (n : ℕ) (cs : List ℕ) → All IsUnit16 cs → All IsUnit16 (take n cs)
All-take zero cs units = tt
All-take (suc n) [] units = tt
All-take (suc n) (c ∷ cs) units = (units.0, All-take n cs units.1)

All-drop : (n : ℕ) (cs : List ℕ) → All IsUnit16 cs → All IsUnit16 (drop n cs)
All-drop zero cs units = units
All-drop (suc n) [] units = tt
All-drop (suc n) (c ∷ cs) units = All-drop n cs units.1

part-Spells :
    (text : ℕ → ℕ) (n len : ℕ) (cs : List ℕ)
    → Spells text 0 (take n cs)
    → All IsUnit16 cs
    → len ≡ min (length cs) n
    → uni_strncpy text 0 len ≡ take n cs
part-Spells text n len cs here units e =
    rw (e, sym (length-take n cs))
      (uni_strncpy-Spells text 0 (take n cs) here (All-take n cs units))

-- Where the next slot was read before, nothing is behind it.
part-alone :
    (slot : Image) (rec ps : List ℕ) (next : ℕ) (part cs : List ℕ)
    → Stored slot rec ps next cs
    → has next rec ≡ true
    → part ≡ part ++ cs
part-alone slot rec [] next part cs s seen = rw s.1 (sym (append-nil part))
part-alone slot rec (p ∷ ps) next part cs s seen = ground (arith, s.0, s.2, seen)

slots_from-part :
    (fuel : ℕ) (slot : Image) (rec : List ℕ) (p namlen len : ℕ) (part rest : List ℕ)
    → p < 128
    → uni_strncpy (λ i. u16 slot (32 * p + 2 + 2 * i)) 0 (min (namlen - len) dtslotdatalen) ≡ part
    → (has (slot (32 * p)) (p ∷ rec) ≡ true → part ≡ part ++ rest)
    → slots_from fuel slot
        (p ∷ rec)
        (slot (32 * p))
        (namlen - len)
        (min (namlen - len) dtslotdatalen)
      ≡ some rest
    → slots_from (suc fuel) slot rec p namlen len ≡ some (part ++ rest)
unfolding slots_from
slots_from-part fuel slot rec p namlen len part rest small e alone f =
    let positive : leb 128 p ≡ false = ground arith in
    elim (Bool-cases (has (slot (32 * p)) (p ∷ rec))) [
      | inl seen ↦ rw (positive, seen) (ap some (e ∙ alone seen))
      | inr new ↦ rw (positive, new, f) (ap (λ xs. some (xs ++ rest)) e)
    ]

slots_from-Stored :
    (fuel : ℕ) (slot : Image) (rec ps : List ℕ) (next namlen len : ℕ) (cs : List ℕ)
    → Stored slot rec ps next cs
    → All IsUnit16 cs
    → length cs ≡ namlen - len
    → length ps < fuel
    → slots_from fuel slot rec next namlen len ≡ some cs
slots_from-Stored zero slot rec ps next namlen len cs s units e lt = absurd (omega arith)
slots_from-Stored (suc fuel) slot rec [] next namlen len cs s units e lt =
    rw s.1 (slots_end fuel slot rec next namlen len (ground (arith, s.0)))
slots_from-Stored (suc fuel) slot rec (p ∷ ps) next namlen len cs (same, small, new, here, rest)
      units e lt =
    let n = namlen - len in
    let part =
      part-Spells (λ i. u16 slot (32 * p + 2 + 2 * i)) dtslotdatalen (min n dtslotdatalen) cs here
        units (ap (λ k. min k dtslotdatalen) (sym e)) in
    rw same (
      slots_from-part fuel slot rec p namlen len (take 15 cs) (drop 15 cs) small part
        (part-alone slot (p ∷ rec) ps (slot (32 * p)) (take 15 cs) (drop 15 cs) rest)
        (slots_from-Stored fuel slot (p ∷ rec) ps (slot (32 * p)) n (min n dtslotdatalen)
          (drop 15 cs) rest (All-drop 15 cs units) (ground (arith, e, length-drop 15 cs))
          (omega (arith, lt)))
      ∙ ap some (take-drop 15 cs))

entry-text :
    (cs part rest heap : List ℕ)
    → part ++ rest ≡ cs
    → All IsUnit16 cs
    → length cs ≤ 255
    → unicode_string_to_utf8_std_string
        (take (length cs) ((part ++ rest) ++ drop (length (part ++ rest)) heap))
        (length cs)
      ≡ encoding cs
entry-text cs part rest heap e units small =
    rw (e, take-append cs (drop (length cs) heap)) (std_string-encoding cs (length cs) units small)

get_direntry-parts :
    (fuel : ℕ) (heap : List ℕ) (slot : Image) (head_index namlen : ℕ) (part rest name : List ℕ)
    → slot (32 * head_index + 5) ≡ namlen
    → uni_strncpy
        (λ i. u16 (shifted slot (32 * head_index)) (6 + 2 * i))
        0
        (min namlen dtlhdrdatalen)
      ≡ part
    → slots_from fuel slot [] (slot (32 * head_index + 4)) namlen (min namlen dtlhdrdatalen)
      ≡ some rest
    → unicode_string_to_utf8_std_string
        (take namlen ((part ++ rest) ++ drop (length (part ++ rest)) heap))
        namlen
      ≡ name
    → get_direntry fuel heap slot head_index
      ≡ some (record { name = name; di_number = u32 (shifted slot (32 * head_index)) 0 })
unfolding get_direntry u32
get_direntry-parts fuel heap slot head_index namlen part rest name k e f g =
    rw (get_direntry, k, f, e, g) refl

-- An entry whose head names the number of an inode and the length of its name, of up to 255
-- characters of 16 bits other than 0, and that stores 11 of them in the head and the rest in a chain
-- of slots, is read as this number and the UTF-8 encoding of the name, whatever memory held before.
pub get_direntry-Stored :
    (fuel : ℕ) (heap : List ℕ) (slot : Image) (head_index : ℕ) (cs ps : List ℕ)
    → All IsUnit16 cs
    → length cs ≤ 255
    → length ps < fuel
    → slot (32 * head_index + 5) ≡ length cs
    → Spells (λ i. u16 (shifted slot (32 * head_index)) (6 + 2 * i)) 0 (take 11 cs)
    → Stored slot [] ps (slot (32 * head_index + 4)) (drop 11 cs)
    → get_direntry fuel heap slot head_index
      ≡ some (record { name = encoding cs; di_number = u32 (shifted slot (32 * head_index)) 0 })
get_direntry-Stored fuel heap slot head_index cs ps units small lt namlen here stored =
    let n = length cs in
    get_direntry-parts fuel heap slot head_index n (take 11 cs) (drop 11 cs) (encoding cs) namlen
      (part-Spells (λ i. u16 (shifted slot (32 * head_index)) (6 + 2 * i)) dtlhdrdatalen
        (min n dtlhdrdatalen) cs here units refl)
      (slots_from-Stored fuel slot [] ps (slot (32 * head_index + 4)) n (min n dtlhdrdatalen)
        (drop 11 cs) stored (All-drop 11 cs units) (ground (arith, length-drop 11 cs)) lt)
      (entry-text cs (take 11 cs) (drop 11 cs) heap (take-drop 11 cs) units small)
