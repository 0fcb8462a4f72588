-- ===== src/Examples/Bytes.antt =====
-- The theorems on src/jfs_byteorder.h, at examples.
use jfsrec.Prelude.{◌%◌, ◌^◌, ◌≡◌, [], ◌∷◌, arith}
use jfsrec.Disk.{u16, u24, u32, u64}
use jfsrec.ByteOrder.{
  big_endian, cpu_to_le16, cpu_to_le24, cpu_to_le32, cpu_to_le64, le16_to_cpu, le24_to_cpu,
  le32_to_cpu, le64_to_cpu,
}
use jfsrec.ByteOrder.Conversions.{read_as, le_to_cpu-read_as, le_to_cpu-cpu_to_le}
use jfsrec.Examples.{striped}

le_to_cpu-read_as_example :
    (le16_to_cpu big_endian (read_as big_endian (100 ∷ 101 ∷ [])) ≡ u16 striped 100)
    × (le24_to_cpu big_endian (read_as big_endian (100 ∷ 101 ∷ 102 ∷ [])) ≡ u24 striped 100)
    × (le32_to_cpu big_endian (read_as big_endian (100 ∷ 101 ∷ 102 ∷ 103 ∷ [])) ≡ u32 striped 100)
    × (le64_to_cpu big_endian
          (read_as big_endian (100 ∷ 101 ∷ 102 ∷ 103 ∷ 104 ∷ 105 ∷ 106 ∷ 107 ∷ []))
        ≡ u64 striped 100)
le_to_cpu-read_as_example = le_to_cpu-read_as big_endian striped 100 (λ i. omega arith)

le_to_cpu-cpu_to_le_example :
    (le16_to_cpu big_endian (cpu_to_le16 big_endian 0x123456789) ≡ 0x123456789 % 2 ^ 16)
    × (le24_to_cpu big_endian (cpu_to_le24 big_endian (0x123456789 % 2 ^ 24))
        ≡ 0x123456789 % 2 ^ 24)
    × (le32_to_cpu big_endian (cpu_to_le32 big_endian 0x123456789) ≡ 0x123456789 % 2 ^ 32)
    × (le64_to_cpu big_endian (cpu_to_le64 big_endian 0x123456789) ≡ 0x123456789 % 2 ^ 64)
le_to_cpu-cpu_to_le_example = le_to_cpu-cpu_to_le big_endian 0x123456789
