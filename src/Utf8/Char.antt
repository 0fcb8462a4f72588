-- ===== src/Utf8/Char.antt =====
-- src/unicode_to_utf8.cpp: one character, against the arithmetic of the UTF-8 definition.
use Prim.Native.Nat.{bit_and, bit_or, bit_or-bitwise}
use native.Mathlib.Decide.{dec_lt}
use jfsrec.Prelude.{
  ℕ, zero, suc, ◌+◌, ◌*◌, ◌/◌, ◌%◌, ◌<◌, ◌≤◌, ◌≡◌, refl, ap, ◌∙◌, none, some, List, [], ◌∷◌, ◌++◌,
  ltb, leb, if◌then◌else◌, length, arith,
}
use jfsrec.Prelude.Bits.{bit_and_mask, bit_or_field}
use jfsrec.Utf8.{unicode_character_to_utf8_character, utf8_character_to_unicode_character}
use jfsrec.Utf8.Facts.{continuation_bits, ascii_bits, lead_two_bits, lead_three_bits}

-- The encoding of a 16-bit character, by the ranges of the standard.
unfoldable pub utf8_bytes : ℕ → List ℕ
utf8_bytes c =
    if ltb c 0x80
    then c ∷ []
    else if ltb c 0x800
    then (192 + c / 64) ∷ (128 + c % 64) ∷ []
    else (224 + c / 4096) ∷ (128 + c / 64 % 64) ∷ (128 + c % 64) ∷ []

low_six : (x : ℕ) → bit_or 0x80 (bit_and x 0x3F) ≡ 128 + x % 64
low_six x = ap (bit_or 0x80) (bit_and_mask 6 x 0x3F refl) ∙ bit_or_field 6 2 (x % 64) (omega arith)

-- A character of 16 bits is converted to its UTF-8 bytes, with their number as the size, exactly when
-- they fit in `maxlen`.
pub encode-utf8_bytes :
    (c maxlen : ℕ)
    → c < 65536
    → unicode_character_to_utf8_character c maxlen ≡ (
        if leb (length (utf8_bytes c)) maxlen
        then some (length (utf8_bytes c), utf8_bytes c)
        else none)
unfolding unicode_character_to_utf8_character utf8_bytes
encode-utf8_bytes c zero h = ground arith
encode-utf8_bytes c (suc zero) h =
    ground (arith, bit_or-bitwise 0 (c / 1), bit_or_field 5 6 (c / 64), low_six c)
encode-utf8_bytes c (suc (suc zero)) h =
    ground (arith, bit_or-bitwise 0 (c / 1), bit_or_field 5 6 (c / 64), low_six (c / 1))
encode-utf8_bytes c (suc (suc (suc m))) h = ground (
  arith,
  bit_or-bitwise 0 (c / 1),
  bit_or_field 5 6 (c / 64),
  bit_or_field 5 7 (c / 4096),
  low_six (c / 1),
  low_six (c / 64),
)

-- Decoding the encoding of a character of 16 bits, with room for it in `maxlen` and whatever
-- follows, gives the character back, and the number of its bytes.
pub decode-utf8_bytes :
    (c maxlen : ℕ) (rest : List ℕ)
    → c < 65536
    → length (utf8_bytes c) ≤ maxlen
    → utf8_character_to_unicode_character (utf8_bytes c ++ rest) maxlen
      ≡ some (c, length (utf8_bytes c))
unfolding utf8_character_to_unicode_character utf8_bytes
decode-utf8_bytes c maxlen rest h fits = elim (dec_lt c 0x80) [
  | yes p ↦ ground (arith, ascii_bits c, bit_and_mask 7 c 0x7F refl)
  | no p ↦ elim (dec_lt c 0x800) [
    | yes q ↦ ground (
      arith,
      lead_two_bits (c / 64),
      continuation_bits (c % 64),
      bit_or_field 6 (192 + c / 64) (c % 64),
      bit_and_mask 11 ((192 + c / 64) * 64 + c % 64) 0x7FF refl,
    )
    | no q ↦ ground (
      arith,
      lead_three_bits (c / 4096),
      continuation_bits (c / 64 % 64),
      continuation_bits (c % 64),
      bit_or_field 6 (224 + c / 4096) (c / 64 % 64),
      bit_or_field 6 ((224 + c / 4096) * 64 + c / 64 % 64) (c % 64),
      bit_and_mask 16 (((224 + c / 4096) * 64 + c / 64 % 64) * 64 + c % 64) 0xFFFF refl,
    )
  ]
]
