-- ===== src/ByteOrder/Conversions.antt =====
-- src/jfs_byteorder.h: the conversions on machines of both byte orders.
use jfsrec.Prelude.{ℕ, ◌+◌, ◌*◌, ◌/◌, ◌%◌, ◌^◌, ◌<◌, ◌≡◌, ap, List, [], ◌∷◌, arith}
use jfsrec.Disk.{Image, u16, u24, u32, u64}
use jfsrec.ByteOrder.{
  ByteOrder, little_endian, big_endian, cpu_to_le16, cpu_to_le24, cpu_to_le32, cpu_to_le64,
  le16_to_cpu, le24_to_cpu, le32_to_cpu, le64_to_cpu, swab16, swab24, swab32, swab64,
}
use jfsrec.ByteOrder.Reversed.{swab16_lem, swab24_lem, swab32_lem, swab64_lem}

abbrev little : List ℕ → ℕ
little [] = 0
little (b ∷ bs) = b + 256 * little bs

abbrev big : ℕ → List ℕ → ℕ
big n [] = n
big n (b ∷ bs) = big (n * 256 + b) bs

-- The integer that a machine has for these bytes in its memory.
abbrev pub read_as : ByteOrder → List ℕ → ℕ
read_as little_endian bs = little bs
read_as big_endian bs = big 0 bs

le16_to_cpu-read_as :
    (order : ByteOrder) (img : Image) (o : ℕ)
    → ((i : ℕ) → img i < 256)
    → le16_to_cpu order (read_as order (img o ∷ img (o + 1) ∷ [])) ≡ u16 img o
unfolding le16_to_cpu u16
le16_to_cpu-read_as little_endian img o bytes = omega (arith, bytes o, bytes (o + 1))
le16_to_cpu-read_as big_endian img o bytes = omega (
  arith,
  swab16_lem (big 0 (img o ∷ img (o + 1) ∷ [])) (img (o + 1)) (img o)
      (omega (arith, bytes o, bytes (o + 1))) (bytes (o + 1)) (bytes o),
  bytes o,
  bytes (o + 1),
)

le24_to_cpu-read_as :
    (order : ByteOrder) (img : Image) (o : ℕ)
    → ((i : ℕ) → img i < 256)
    → le24_to_cpu order (read_as order (img o ∷ img (o + 1) ∷ img (o + 2) ∷ [])) ≡ u24 img o
unfolding le24_to_cpu u24
le24_to_cpu-read_as little_endian img o bytes = omega (arith, bytes o, bytes (o + 1), bytes (o + 2))
le24_to_cpu-read_as big_endian img o bytes = omega (
  arith,
  swab24_lem (big 0 (img o ∷ img (o + 1) ∷ img (o + 2) ∷ [])) (img (o + 2)) (img (o + 1)) (img o)
      (omega (arith, bytes o, bytes (o + 1), bytes (o + 2))) (bytes (o + 2)) (bytes (o + 1))
      (bytes o),
  bytes o,
  bytes (o + 1),
  bytes (o + 2),
)

le32_to_cpu-read_as :
    (order : ByteOrder) (img : Image) (o : ℕ)
    → ((i : ℕ) → img i < 256)
    → le32_to_cpu order (read_as order (img o ∷ img (o + 1) ∷ img (o + 2) ∷ img (o + 3) ∷ []))
      ≡ u32 img o
unfolding le32_to_cpu u16 u32
le32_to_cpu-read_as little_endian img o bytes =
    let o0 : o + 2 + 1 ≡ o + 3 = omega arith in
    omega (arith, bytes o, bytes (o + 1), bytes (o + 2), bytes (o + 3), ap img o0)
le32_to_cpu-read_as big_endian img o bytes =
    let o0 : o + 2 + 1 ≡ o + 3 = omega arith in
    omega (
      arith,
      swab32_lem (big 0 (img o ∷ img (o + 1) ∷ img (o + 2) ∷ img (o + 3) ∷ [])) (img (o + 3))
          (img (o + 2)) (img (o + 1)) (img o)
          (omega (arith, bytes o, bytes (o + 1), bytes (o + 2), bytes (o + 3))) (bytes (o + 3))
          (bytes (o + 2)) (bytes (o + 1)) (bytes o),
      bytes o,
      bytes (o + 1),
      bytes (o + 2),
      bytes (o + 3),
      ap img o0,
    )

le64_to_cpu-read_as :
    (order : ByteOrder) (img : Image) (o : ℕ)
    → ((i : ℕ) → img i < 256)
    → le64_to_cpu order (
        read_as order (
          img o
          ∷ img (o + 1)
          ∷ img (o + 2)
          ∷ img (o + 3)
          ∷ img (o + 4)
          ∷ img (o + 5)
          ∷ img (o + 6)
          ∷ img (o + 7)
          ∷ []))
      ≡ u64 img o
unfolding le64_to_cpu u16 u32 u64
le64_to_cpu-read_as little_endian img o bytes =
    let o0 : o + 2 + 1 ≡ o + 3 = omega arith in
    let o1 : o + 4 + 1 ≡ o + 5 = omega arith in
    let o2 : o + 4 + 2 ≡ o + 6 = omega arith in
    let o3 : o + 4 + 2 + 1 ≡ o + 7 = omega arith in
    omega (
      arith,
      bytes o,
      bytes (o + 1),
      bytes (o + 2),
      bytes (o + 3),
      bytes (o + 4),
      bytes (o + 5),
      bytes (o + 6),
      bytes (o + 7),
      ap img o0,
      ap img o1,
      ap img o2,
      ap img o3,
    )
le64_to_cpu-read_as big_endian img o bytes =
    let o0 : o + 2 + 1 ≡ o + 3 = omega arith in
    let o1 : o + 4 + 1 ≡ o + 5 = omega arith in
    let o2 : o + 4 + 2 ≡ o + 6 = omega arith in
    let o3 : o + 4 + 2 + 1 ≡ o + 7 = omega arith in
    omega (
      arith,
      swab64_lem
          (big 0 (
            img o
            ∷ img (o + 1)
            ∷ img (o + 2)
            ∷ img (o + 3)
            ∷ img (o + 4)
            ∷ img (o + 5)
            ∷ img (o + 6)
            ∷ img (o + 7)
            ∷ []))
          (img (o + 7)) (img (o + 6)) (img (o + 5)) (img (o + 4)) (img (o + 3)) (img (o + 2))
          (img (o + 1)) (img o)
          (omega (
            arith,
            bytes o,
            bytes (o + 1),
            bytes (o + 2),
            bytes (o + 3),
            bytes (o + 4),
            bytes (o + 5),
            bytes (o + 6),
            bytes (o + 7),
          ))
          (bytes (o + 7)) (bytes (o + 6)) (bytes (o + 5)) (bytes (o + 4)) (bytes (o + 3))
          (bytes (o + 2)) (bytes (o + 1)) (bytes o),
      bytes o,
      bytes (o + 1),
      bytes (o + 2),
      bytes (o + 3),
      bytes (o + 4),
      bytes (o + 5),
      bytes (o + 6),
      bytes (o + 7),
      ap img o0,
      ap img o1,
      ap img o2,
      ap img o3,
    )

-- On machines of both byte orders the conversions make of the bytes that the machine reads at an
-- offset, two, three, four or eight, the number that they are on the disk, the low byte first.
pub le_to_cpu-read_as :
    (order : ByteOrder) (img : Image) (o : ℕ)
    → ((i : ℕ) → img i < 256)
    → (le16_to_cpu order (read_as order (img o ∷ img (o + 1) ∷ [])) ≡ u16 img o)
      × (le24_to_cpu order (read_as order (img o ∷ img (o + 1) ∷ img (o + 2) ∷ [])) ≡ u24 img o)
      × (le32_to_cpu order (read_as order (img o ∷ img (o + 1) ∷ img (o + 2) ∷ img (o + 3) ∷ []))
          ≡ u32 img o)
      × (le64_to_cpu order (
            read_as order (
              img o
              ∷ img (o + 1)
              ∷ img (o + 2)
              ∷ img (o + 3)
              ∷ img (o + 4)
              ∷ img (o + 5)
              ∷ img (o + 6)
              ∷ img (o + 7)
              ∷ []))
          ≡ u64 img o)
le_to_cpu-read_as order img o bytes = (
  le16_to_cpu-read_as order img o bytes,
  le24_to_cpu-read_as order img o bytes,
  le32_to_cpu-read_as order img o bytes,
  le64_to_cpu-read_as order img o bytes,
)

swab16-swab16 : (x : ℕ) → swab16 (swab16 x) ≡ x % 2 ^ 16
swab16-swab16 x =
    let once = swab16_lem x (x % 256) (x / 2 ^ 8 % 256) (omega arith) (omega arith) (omega arith) in
    let twice =
      swab16_lem (swab16 x) (x / 2 ^ 8 % 256) (x % 256) (omega (arith, once)) (omega arith)
        (omega arith) in
    omega (arith, twice)

le16_to_cpu-cpu_to_le16 :
    (order : ByteOrder) (x : ℕ) → le16_to_cpu order (cpu_to_le16 order x) ≡ x % 2 ^ 16
unfolding cpu_to_le16 le16_to_cpu
le16_to_cpu-cpu_to_le16 little_endian x = omega arith
le16_to_cpu-cpu_to_le16 big_endian x = swab16-swab16 x

swab24-swab24 : (x : ℕ) → swab24 (swab24 (x % 2 ^ 24)) ≡ x % 2 ^ 24
swab24-swab24 x =
    let once =
      swab24_lem (x % 2 ^ 24) (x % 256) (x / 2 ^ 8 % 256) (x / 2 ^ 16 % 256) (omega arith)
        (omega arith) (omega arith) (omega arith) in
    let twice =
      swab24_lem (swab24 (x % 2 ^ 24)) (x / 2 ^ 16 % 256) (x / 2 ^ 8 % 256) (x % 256)
        (omega (arith, once)) (omega arith) (omega arith) (omega arith) in
    omega (arith, twice)

le24_to_cpu-cpu_to_le24 :
    (order : ByteOrder) (x : ℕ) → le24_to_cpu order (cpu_to_le24 order (x % 2 ^ 24)) ≡ x % 2 ^ 24
unfolding cpu_to_le24 le24_to_cpu
le24_to_cpu-cpu_to_le24 little_endian x = omega arith
le24_to_cpu-cpu_to_le24 big_endian x = swab24-swab24 x

swab32-swab32 : (x : ℕ) → swab32 (swab32 x) ≡ x % 2 ^ 32
swab32-swab32 x =
    let once =
      swab32_lem x (x % 256) (x / 2 ^ 8 % 256) (x / 2 ^ 16 % 256) (x / 2 ^ 24 % 256) (omega arith)
        (omega arith) (omega arith) (omega arith) (omega arith) in
    let twice =
      swab32_lem (swab32 x) (x / 2 ^ 24 % 256) (x / 2 ^ 16 % 256) (x / 2 ^ 8 % 256) (x % 256)
        (omega (arith, once)) (omega arith) (omega arith) (omega arith) (omega arith) in
    omega (arith, twice)

le32_to_cpu-cpu_to_le32 :
    (order : ByteOrder) (x : ℕ) → le32_to_cpu order (cpu_to_le32 order x) ≡ x % 2 ^ 32
unfolding cpu_to_le32 le32_to_cpu
le32_to_cpu-cpu_to_le32 little_endian x = omega arith
le32_to_cpu-cpu_to_le32 big_endian x = swab32-swab32 x

swab64-swab64 : (x : ℕ) → swab64 (swab64 x) ≡ x % 2 ^ 64
swab64-swab64 x =
    let once =
      swab64_lem x (x % 256) (x / 2 ^ 8 % 256) (x / 2 ^ 16 % 256) (x / 2 ^ 24 % 256)
        (x / 2 ^ 32 % 256) (x / 2 ^ 40 % 256) (x / 2 ^ 48 % 256) (x / 2 ^ 56 % 256) (omega arith)
        (omega arith) (omega arith) (omega arith) (omega arith) (omega arith) (omega arith)
        (omega arith) (omega arith) in
    let twice =
      swab64_lem (swab64 x) (x / 2 ^ 56 % 256) (x / 2 ^ 48 % 256) (x / 2 ^ 40 % 256)
        (x / 2 ^ 32 % 256) (x / 2 ^ 24 % 256) (x / 2 ^ 16 % 256) (x / 2 ^ 8 % 256) (x % 256)
        (omega (arith, once)) (omega arith) (omega arith) (omega arith) (omega arith) (omega arith)
        (omega arith) (omega arith) (omega arith) in
    omega (arith, twice)

le64_to_cpu-cpu_to_le64 :
    (order : ByteOrder) (x : ℕ) → le64_to_cpu order (cpu_to_le64 order x) ≡ x % 2 ^ 64
unfolding cpu_to_le64 le64_to_cpu
le64_to_cpu-cpu_to_le64 little_endian x = omega arith
le64_to_cpu-cpu_to_le64 big_endian x = swab64-swab64 x

-- What was converted to the order of the disk is converted back to itself, on machines of both byte
-- orders, as an integer of 16, 24, 32 or 64 bits; the conversions of 24 bits take one that fits.
pub le_to_cpu-cpu_to_le :
    (order : ByteOrder) (x : ℕ)
    → (le16_to_cpu order (cpu_to_le16 order x) ≡ x % 2 ^ 16)
      × (le24_to_cpu order (cpu_to_le24 order (x % 2 ^ 24)) ≡ x % 2 ^ 24)
      × (le32_to_cpu order (cpu_to_le32 order x) ≡ x % 2 ^ 32)
      × (le64_to_cpu order (cpu_to_le64 order x) ≡ x % 2 ^ 64)
le_to_cpu-cpu_to_le order x = (
  le16_to_cpu-cpu_to_le16 order x,
  le24_to_cpu-cpu_to_le24 order x,
  le32_to_cpu-cpu_to_le32 order x,
  le64_to_cpu-cpu_to_le64 order x,
)
