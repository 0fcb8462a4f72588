-- ===== src/Utf8/Facts.antt =====
-- The bits of leading and continuation bytes.
use Prim.Native.Nat.{bit_and, bit_xor}
use jfsrec.Prelude.{ℕ, ◌+◌, ◌<◌, ◌≡◌, refl, true, false, not, ◌&&◌, ◌==◌, arith}
use jfsrec.Prelude.Bits.{all_below, all_below_at}

continuation_table :
    all_below 64 (λ y. (bit_and (bit_xor (128 + y) 0x80) 0xFF == y) && (bit_and y 0xC0 == 0)) ≡ true
unfolding all_below
continuation_table = refl

pub continuation_bits :
    (y : ℕ) → y < 64 → (bit_and (bit_xor (128 + y) 0x80) 0xFF ≡ y) × ((bit_and y 0xC0 == 0) ≡ true)
continuation_bits y h = ground (arith, all_below_at 64 _ y continuation_table h)

ascii_table : all_below 128 (λ x. bit_and x 0x80 == 0) ≡ true
unfolding all_below
ascii_table = refl

pub ascii_bits : (x : ℕ) → x < 128 → (bit_and x 0x80 == 0) ≡ true
ascii_bits x h = all_below_at 128 _ x ascii_table h

lead_two_table :
    all_below 32 (λ x. not (bit_and (192 + x) 0x80 == 0) && (bit_and (192 + x) 0xE0 == 0xC0)) ≡ true
unfolding all_below
lead_two_table = refl

pub lead_two_bits :
    (x : ℕ)
    → x < 32
    → ((bit_and (192 + x) 0x80 == 0) ≡ false) × ((bit_and (192 + x) 0xE0 == 0xC0) ≡ true)
lead_two_bits x h = ground (arith, all_below_at 32 _ x lead_two_table h)

lead_three_table :
    all_below 16 (λ x.
      not (bit_and (224 + x) 0x80 == 0)
      && (not (bit_and (224 + x) 0xE0 == 0xC0) && (bit_and (224 + x) 0xF0 == 0xE0)))
    ≡ true
unfolding all_below
lead_three_table = refl

pub lead_three_bits :
    (x : ℕ)
    → x < 16
    → ((bit_and (224 + x) 0x80 == 0) ≡ false)
      × ((bit_and (224 + x) 0xE0 == 0xC0) ≡ false)
      × ((bit_and (224 + x) 0xF0 == 0xE0) ≡ true)
lead_three_bits x h = ground (arith, all_below_at 16 _ x lead_three_table h)
