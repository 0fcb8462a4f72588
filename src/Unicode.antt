-- ===== src/Unicode.antt =====
-- src/jfs_unicode.h: strings of 16-bit characters in memory, each ended by 0. A string is a function
-- from positions to characters; a walk to its end runs on fuel, and `none` is a walk that needs more.
pub mod Compare
use mathlib.Core.Option
use jfsrec.Prelude.{
  ℕ, zero, suc, ◌+◌, ◌-◌, ◌%◌, ◌^◌, Bool, true, false, not, ◌&&◌, Option, none, some, List, [], ◌∷◌,
  ltb, leb, ◌==◌, if◌then◌else◌, get_or, replicate,
}

-- `UniStrcpy`: what it writes, the end included.
unfoldable pub uni_strcpy : ℕ → (ℕ → ℕ) → ℕ → Option (List ℕ)
uni_strcpy zero text i = none
uni_strcpy (suc fuel) text i =
    let rest = uni_strcpy fuel text (i + 1) in
    if text i == 0 then some (0 ∷ []) else Option.map (λ cs. text i ∷ cs) rest

-- `UniStrlen`, with the count so far.
unfoldable pub uni_strlen : ℕ → (ℕ → ℕ) → ℕ → Option ℕ
uni_strlen zero text i = none
uni_strlen (suc fuel) text i =
    let rest = uni_strlen fuel text (i + 1) in if text i == 0 then some i else rest

-- `UniStrncmp` from a position on: the difference, as an `int` of 32 bits.
unfoldable pub uni_strncmp : (ℕ → ℕ) → (ℕ → ℕ) → ℕ → ℕ → ℕ
uni_strncmp ucs1 ucs2 i zero = 0
uni_strncmp ucs1 ucs2 i (suc n) =
    let rest = uni_strncmp ucs1 ucs2 (i + 1) n in
    if (ucs1 i == ucs2 i) && (not (ucs1 i == 0) && not (n == 0))
    then rest
    else (ucs1 i + 2 ^ 32 - ucs2 i) % 2 ^ 32

-- `UniStrncpy` from the position `i` of a text: what it writes.
unfoldable pub uni_strncpy : (ℕ → ℕ) → ℕ → ℕ → List ℕ
uni_strncpy text i zero = []
uni_strncpy text i (suc n) =
    if text i == 0 then 0 ∷ replicate n 0 else text i ∷ uni_strncpy text (i + 1) n

-- `struct UNICASERANGE`. The tables hold signed bytes, here as 16-bit offsets.
pub record UnicaseRange : Type 0 where
  pub start : ℕ
  pub end : ℕ
  pub table : List ℕ

-- The loop of `UniToupper` over the ranges, up to the one that starts with 0.
unfoldable pub range_upper : List UnicaseRange → ℕ → ℕ
range_upper [] uc = uc
range_upper (rp ∷ rps) uc =
    let rest = range_upper rps uc in
    if rp.start == 0
    then uc
    else if ltb uc rp.start
    then uc
    else if leb uc rp.end
    then (uc + get_or rp.table (uc - rp.start) 0) % 2 ^ 16
    else rest

-- `UniToupper`; the tables are defined elsewhere.
unfoldable pub uni_toupper : List ℕ → List UnicaseRange → ℕ → ℕ
unfolding range_upper
uni_toupper upper_table upper_range uc =
    if ltb uc 512 then (uc + get_or upper_table uc 0) % 2 ^ 16 else range_upper upper_range uc

-- `UniStrupr`, over the function for a character: the string that is left in memory.
unfoldable pub uni_strupr : ℕ → (ℕ → ℕ) → (ℕ → ℕ) → ℕ → Option (ℕ → ℕ)
uni_strupr zero upper text i = none
uni_strupr (suc fuel) upper text i =
    let rest = uni_strupr fuel upper (λ k. if k == i then upper (text i) else text k) (i + 1) in
    if text i == 0 then some text else rest
