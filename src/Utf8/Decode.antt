-- ===== src/Utf8/Decode.antt =====
-- src/unicode_to_utf8.cpp: the conversion of a whole string from UTF-8.
use Prim.Native.Nat.{bit_and, bit_or, bit_xor}
use mathlib.Core.Option
use native.Mathlib.Decide.{dec_lt}
use jfsrec.Prelude.{
  ℕ, zero, suc, ◌+◌, ◌-◌, ◌*◌, ◌/◌, ◌%◌, ◌<◌, ◌≤◌, ◌≡◌, refl, ap, true, false, Option, none, some,
  inl, inr, List, [], ◌∷◌, ◌++◌, ◌==◌, length, drop, replicate, arith, All, length-append,
  length-replicate, length-drop, drop-append, Bool-cases, Option-cases,
}
use jfsrec.Utf8.{
  Row, utf8_table, decode_from, head_or_nul, rest_of, utf8_string_loop,
  utf8_string_to_unicode_string, utf8_character_to_unicode_character,
}
use jfsrec.Utf8.Char.{utf8_bytes, decode-utf8_bytes}
use jfsrec.Utf8.Facts.{ascii_bits, lead_two_bits, lead_three_bits}
use jfsrec.Utf8.Text.{IsUnit16, encoding, utf8_bytes_size}

decode_from-size :
    (ts : List Row) (c0 l nc maxlen : ℕ) (s : List ℕ) (c size : ℕ)
    → decode_from ts c0 l nc maxlen s ≡ some (c, size)
    → nc < size
unfolding decode_from
decode_from-size [] c0 l nc maxlen s c size e = cc
decode_from-size (t ∷ ts) c0 l nc maxlen s c size e = ground (
  arith,
  decode_from-size ts c0 (bit_or (l * 64) (bit_and (bit_xor (head_or_nul s) 0x80) 0xFF)) (nc + 1)
      maxlen (rest_of s) c size,
)

decode-size :
    (s : List ℕ) (maxlen c size : ℕ)
    → utf8_character_to_unicode_character s maxlen ≡ some (c, size)
    → 0 < size
unfolding utf8_character_to_unicode_character
decode-size s maxlen =
    decode_from-size utf8_table (head_or_nul s) (head_or_nul s) 0 maxlen (rest_of s)

-- The rounds of the loop that read a character.
loop_ascii :
    (f b : ℕ) (s : List ℕ) (m : ℕ)
    → 0 < b
    → (bit_and b 0x80 == 0) ≡ true
    → utf8_string_loop (suc f) (b ∷ s) (suc m)
      ≡ Option.map (λ out. some b ∷ out) (utf8_string_loop f s (suc m))
unfolding utf8_string_loop
loop_ascii f zero s m pos e = elim pos [ ]
loop_ascii f (suc b) s m pos e = rw (e, utf8_string_loop)

loop_good :
    (f b : ℕ) (s : List ℕ) (m c size : ℕ)
    → 0 < b
    → (bit_and b 0x80 == 0) ≡ false
    → utf8_character_to_unicode_character (b ∷ s) (suc m) ≡ some (c, size)
    → utf8_string_loop (suc f) (b ∷ s) (suc m)
      ≡ Option.map
          (λ out. some c ∷ (replicate (size - 1) none ++ out))
          (utf8_string_loop f (drop size (b ∷ s)) (suc m - size))
unfolding utf8_string_loop
loop_good f zero s m c size pos e g = elim pos [ ]
loop_good f (suc b) s m c size pos e g = rw (e, g, utf8_string_loop)

loop_bad :
    (f b : ℕ) (s : List ℕ) (m : ℕ)
    → 0 < b
    → (bit_and b 0x80 == 0) ≡ false
    → utf8_character_to_unicode_character (b ∷ s) (suc m) ≡ none
    → utf8_string_loop (suc f) (b ∷ s) (suc m) ≡ utf8_string_loop f s m
unfolding utf8_string_loop
loop_bad f zero s m pos e g = elim pos [ ]
loop_bad f (suc b) s m pos e g = rw (e, g, utf8_string_loop)

map-returns :
    {A B : Type 0} (f : A → B) (o : Option A)
    → (a : A) × (o ≡ some a)
    → (b : B) × (Option.map f o ≡ some b)
map-returns f o (a, e) = (f a, rw e)

loop-returns :
    (f : ℕ) (s : List ℕ) (maxlen : ℕ)
    → length s < f
    → (out : List (Option ℕ)) × (utf8_string_loop f s maxlen ≡ some out)
unfolding utf8_string_loop
loop-returns zero s maxlen h = elim h [ ]
loop-returns (suc f) [] maxlen h = ([], refl)
loop-returns (suc f) (zero ∷ s) maxlen h = ([], refl)
loop-returns (suc f) (suc b ∷ s) zero h = ([], refl)
loop-returns (suc f) (suc b ∷ s) (suc m) h = elim (Bool-cases (bit_and (suc b) 0x80 == 0)) [
  | inl e ↦
      rw (loop_ascii f (suc b) s m (omega arith) e)
        (map-returns _ _ (loop-returns f s (suc m) (omega arith)))
  | inr e ↦ elim (Option-cases (utf8_character_to_unicode_character (suc b ∷ s) (suc m))) [
    | inl bad ↦ rw (loop_bad f (suc b) s m (omega arith) e bad) (loop-returns f s m (omega arith))
    | inr ((c, size), good) ↦
        let pos = decode-size (suc b ∷ s) (suc m) c size good in
        rw (loop_good f (suc b) s m c size (omega arith) e good) (
          map-returns _ _ (
            loop-returns f (drop size (suc b ∷ s)) (suc m - size)
              (omega (arith, length-drop size (suc b ∷ s)))))
  ]
]

-- The loop of the conversion from UTF-8 ends, whatever the bytes and `maxlen` are.
pub decode_string-returns :
    (s : List ℕ) (maxlen : ℕ)
    → (out : List (Option ℕ)) × (utf8_string_to_unicode_string s maxlen ≡ some out)
unfolding utf8_string_to_unicode_string
decode_string-returns s maxlen = loop-returns (length s + 1) s maxlen (omega arith)

-- The first byte of an encoding: the character itself, or a leading byte.
data Lead (c : ℕ) : Type 0 where
  ascii : c < 0x80 → utf8_bytes c ≡ c ∷ [] → Lead c
  multi :
      (b : ℕ) (bs : List ℕ) → utf8_bytes c ≡ b ∷ bs → 0 < b → (bit_and b 0x80 == 0) ≡ false → Lead c

Lead-of : (c : ℕ) → c < 65536 → Lead c
unfolding utf8_bytes
Lead-of c h = elim (dec_lt c 0x80) [
  | yes p ↦ ascii p (ground arith)
  | no p ↦ elim (dec_lt c 0x800) [
    | yes q ↦
        multi (192 + c / 64) ((128 + c % 64) ∷ []) (ground arith) (omega arith)
          (lead_two_bits (c / 64) (omega arith)).0
    | no q ↦
        multi (224 + c / 4096) ((128 + c / 64 % 64) ∷ (128 + c % 64) ∷ []) (ground arith)
          (omega arith) (lead_three_bits (c / 4096) (omega arith)).0
  ]
]

-- A character, and the cells behind it that are never written.
abbrev pub spread : List ℕ → List (Option ℕ)
spread [] = []
spread (c ∷ cs) = some c ∷ (replicate (length (utf8_bytes c) - 1) none ++ spread cs)

loop-spread :
    (f : ℕ) (cs : List ℕ) (maxlen : ℕ)
    → All IsUnit16 cs
    → length (encoding cs) ≤ maxlen
    → length (encoding cs) < f
    → utf8_string_loop f (encoding cs) maxlen ≡ some (spread cs)
unfolding utf8_string_loop
loop-spread zero cs maxlen h fits fuel = elim fuel [ ]
loop-spread (suc f) [] maxlen h fits fuel = refl
loop-spread (suc f) (c ∷ cs) zero h fits fuel =
    absurd (omega (arith, utf8_bytes_size c, length-append (utf8_bytes c) (encoding cs)))
loop-spread (suc f) (c ∷ cs) (suc m) h fits fuel =
    let all = length-append (utf8_bytes c) (encoding cs) in
    let size = utf8_bytes_size c in
    elim (Lead-of c h.0.1) [
      | ascii small e ↦
          let one = ap length e in
          rw (
            e,
            loop_ascii f c (encoding cs) m h.0.0 (ascii_bits c small),
            loop-spread f cs (suc m) h.1 (omega arith) (omega arith),
          )
      | multi b bs e pos high ↦
          let good : utf8_character_to_unicode_character (b ∷ bs ++ encoding cs) (suc m)
              ≡ some (c, length (b ∷ bs)) =
            rw e at (decode-utf8_bytes c (suc m) (encoding cs) h.0.1 (omega arith)) in
          let same = ap length e in
          rw (
            e,
            loop_good f b (bs ++ encoding cs) m c (length (b ∷ bs)) pos high good,
            drop-append bs (encoding cs),
            loop-spread f cs (suc m - length (b ∷ bs)) h.1 (omega arith) (omega arith),
          )
    ]

-- Decoding an encoded text of 16-bit characters, none of them 0, with room for it in `maxlen`,
-- leaves behind each character as many unwritten cells as its encoding has bytes beyond the first.
pub decode_string-encoding :
    (cs : List ℕ) (maxlen : ℕ)
    → All IsUnit16 cs
    → length (encoding cs) ≤ maxlen
    → utf8_string_to_unicode_string (encoding cs) maxlen ≡ some (spread cs)
unfolding utf8_string_to_unicode_string
decode_string-encoding cs maxlen h fits =
    loop-spread (length (encoding cs) + 1) cs maxlen h fits (omega arith)

pub length-spread : (cs : List ℕ) → length (spread cs) ≡ length (encoding cs)
length-spread [] = refl
length-spread (c ∷ cs) =
    let gap : Option ℕ = none in
    omega (
      arith,
      utf8_bytes_size c,
      length-append (replicate (length (utf8_bytes c) - 1) gap) (spread cs),
      length-append (utf8_bytes c) (encoding cs),
      length-replicate (length (utf8_bytes c) - 1) gap,
      length-spread cs,
    )
