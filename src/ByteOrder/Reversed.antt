-- ===== src/ByteOrder/Reversed.antt =====
-- src/jfs_byteorder.h: what the macros that exchange bytes make of each byte.
use Prim.Native.Nat.{bit_and}
use jfsrec.Prelude.{ℕ, ◌+◌, ◌*◌, ◌/◌, ◌%◌, ◌^◌, ◌<◌, ◌≡◌, refl, arith}
use jfsrec.Prelude.Bits.{bit_and-byte, bit_or-byte}
use jfsrec.ByteOrder.{swab16, swab24, swab32, swab64}

pub swab16_lem :
    (value a b : ℕ)
    → value % 2 ^ 16 ≡ a + b * 2 ^ 8
    → a < 256
    → b < 256
    → swab16 value ≡ a * 2 ^ 8 + b
unfolding swab16
swab16_lem value a b bytes la lb =
    let x : ℕ = value % 2 ^ 16 in
    let e0 : bit_and x 0x00FF * 2 ^ 8 ≡ a * 2 ^ 8 =
      omega (arith, bytes, bit_and-byte 0 x 0x00FF refl, la, lb) in
    let e1 : bit_and x 0xFF00 / 2 ^ 8 ≡ b * 2 ^ 0 =
      omega (arith, bytes, bit_and-byte 8 x 0xFF00 refl, la, lb) in
    let s1 = bit_or-byte 0 a b _ _ e0 e1 lb in omega (arith, s1, la, lb)

pub swab24_lem :
    (value a b c : ℕ)
    → value % 2 ^ 24 ≡ a + b * 2 ^ 8 + c * 2 ^ 16
    → a < 256
    → b < 256
    → c < 256
    → swab24 value ≡ a * 2 ^ 16 + b * 2 ^ 8 + c
unfolding swab24
swab24_lem value a b c bytes la lb lc =
    let x : ℕ = value % 2 ^ 32 in
    let e0 : bit_and x 0x000000FF * 2 ^ 16 % 2 ^ 32 ≡ a * 2 ^ 16 =
      omega (arith, bytes, bit_and-byte 0 x 0x000000FF refl, la, lb, lc) in
    let e1 : bit_and x 0x0000FF00 ≡ b * 2 ^ 8 =
      omega (arith, bytes, bit_and-byte 8 x 0x0000FF00 refl, la, lb, lc) in
    let e2 : bit_and x 0x00FF0000 / 2 ^ 16 ≡ c * 2 ^ 0 =
      omega (arith, bytes, bit_and-byte 16 x 0x00FF0000 refl, la, lb, lc) in
    let s1 = bit_or-byte 8 a b _ _ e0 e1 lb in
    let s2 = bit_or-byte 0 (a * 256 + b) c _ _ s1 e2 lc in omega (arith, s2, la, lb, lc)

pub swab32_lem :
    (value a b c d : ℕ)
    → value % 2 ^ 32 ≡ a + b * 2 ^ 8 + c * 2 ^ 16 + d * 2 ^ 24
    → a < 256
    → b < 256
    → c < 256
    → d < 256
    → swab32 value ≡ a * 2 ^ 24 + b * 2 ^ 16 + c * 2 ^ 8 + d
unfolding swab32
swab32_lem value a b c d bytes la lb lc ld =
    let x : ℕ = value % 2 ^ 32 in
    let e0 : bit_and x 0x000000FF * 2 ^ 24 % 2 ^ 32 ≡ a * 2 ^ 24 =
      omega (arith, bytes, bit_and-byte 0 x 0x000000FF refl, la, lb, lc, ld) in
    let e1 : bit_and x 0x0000FF00 * 2 ^ 8 % 2 ^ 32 ≡ b * 2 ^ 16 =
      omega (arith, bytes, bit_and-byte 8 x 0x0000FF00 refl, la, lb, lc, ld) in
    let e2 : bit_and x 0x00FF0000 / 2 ^ 8 ≡ c * 2 ^ 8 =
      omega (arith, bytes, bit_and-byte 16 x 0x00FF0000 refl, la, lb, lc, ld) in
    let e3 : bit_and x 0xFF000000 / 2 ^ 24 ≡ d * 2 ^ 0 =
      omega (arith, bytes, bit_and-byte 24 x 0xFF000000 refl, la, lb, lc, ld) in
    let s1 = bit_or-byte 16 a b _ _ e0 e1 lb in
    let s2 = bit_or-byte 8 (a * 256 + b) c _ _ s1 e2 lc in
    let s3 = bit_or-byte 0 ((a * 256 + b) * 256 + c) d _ _ s2 e3 ld in
    omega (arith, s3, la, lb, lc, ld)

pub swab64_lem :
    (value a b c d e f g h : ℕ)
    → value % 2 ^ 64
      ≡ a + b * 2 ^ 8 + c * 2 ^ 16 + d * 2 ^ 24 + e * 2 ^ 32 + f * 2 ^ 40 + g * 2 ^ 48 + h * 2 ^ 56
    → a < 256
    → b < 256
    → c < 256
    → d < 256
    → e < 256
    → f < 256
    → g < 256
    → h < 256
    → swab64 value
      ≡ a * 2 ^ 56 + b * 2 ^ 48 + c * 2 ^ 40 + d * 2 ^ 32 + e * 2 ^ 24 + f * 2 ^ 16 + g * 2 ^ 8 + h
unfolding swab64
swab64_lem value a b c d e f g h bytes la lb lc ld le lf lg lh =
    let x : ℕ = value % 2 ^ 64 in
    let e0 : bit_and x 0x00000000000000FF * 2 ^ 56 % 2 ^ 64 ≡ a * 2 ^ 56 =
      omega
        (arith, bytes, bit_and-byte 0 x 0x00000000000000FF refl, la, lb, lc, ld, le, lf, lg, lh) in
    let e1 : bit_and x 0x000000000000FF00 * 2 ^ 40 % 2 ^ 64 ≡ b * 2 ^ 48 =
      omega
        (arith, bytes, bit_and-byte 8 x 0x000000000000FF00 refl, la, lb, lc, ld, le, lf, lg, lh) in
    let e2 : bit_and x 0x0000000000FF0000 * 2 ^ 24 % 2 ^ 64 ≡ c * 2 ^ 40 =
      omega
        (arith, bytes, bit_and-byte 16 x 0x0000000000FF0000 refl, la, lb, lc, ld, le, lf, lg, lh) in
    let e3 : bit_and x 0x00000000FF000000 * 2 ^ 8 % 2 ^ 64 ≡ d * 2 ^ 32 =
      omega
        (arith, bytes, bit_and-byte 24 x 0x00000000FF000000 refl, la, lb, lc, ld, le, lf, lg, lh) in
    let e4 : bit_and x 0x000000FF00000000 / 2 ^ 8 ≡ e * 2 ^ 24 =
      omega
        (arith, bytes, bit_and-byte 32 x 0x000000FF00000000 refl, la, lb, lc, ld, le, lf, lg, lh) in
    let e5 : bit_and x 0x0000FF0000000000 / 2 ^ 24 ≡ f * 2 ^ 16 =
      omega
        (arith, bytes, bit_and-byte 40 x 0x0000FF0000000000 refl, la, lb, lc, ld, le, lf, lg, lh) in
    let e6 : bit_and x 0x00FF000000000000 / 2 ^ 40 ≡ g * 2 ^ 8 =
      omega
        (arith, bytes, bit_and-byte 48 x 0x00FF000000000000 refl, la, lb, lc, ld, le, lf, lg, lh) in
    let e7 : bit_and x 0xFF00000000000000 / 2 ^ 56 ≡ h * 2 ^ 0 =
      omega
        (arith, bytes, bit_and-byte 56 x 0xFF00000000000000 refl, la, lb, lc, ld, le, lf, lg, lh) in
    let s1 = bit_or-byte 48 a b _ _ e0 e1 lb in
    let s2 = bit_or-byte 40 (a * 256 + b) c _ _ s1 e2 lc in
    let s3 = bit_or-byte 32 ((a * 256 + b) * 256 + c) d _ _ s2 e3 ld in
    let s4 = bit_or-byte 24 (((a * 256 + b) * 256 + c) * 256 + d) e _ _ s3 e4 le in
    let s5 = bit_or-byte 16 ((((a * 256 + b) * 256 + c) * 256 + d) * 256 + e) f _ _ s4 e5 lf in
    let s6 =
      bit_or-byte 8 (((((a * 256 + b) * 256 + c) * 256 + d) * 256 + e) * 256 + f) g _ _ s5 e6 lg in
    let s7 =
      bit_or-byte 0 ((((((a * 256 + b) * 256 + c) * 256 + d) * 256 + e) * 256 + f) * 256 + g) h _ _
        s6 e7 lh in
    omega (arith, s7, la, lb, lc, ld, le, lf, lg, lh)
