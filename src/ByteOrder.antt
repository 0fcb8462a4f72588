-- ===== src/ByteOrder.antt =====
-- src/jfs_byteorder.h: the macros that exchange bytes, and the conversions between the order of the
-- machine and that of the disk, which has the low byte first.
pub mod Reversed
pub mod Conversions
use Prim.Native.Nat.{bit_and, bit_or}
use jfsrec.Prelude.{ℕ, ◌+◌, ◌*◌, ◌/◌, ◌%◌, ◌^◌}

unfoldable pub swab16 : ℕ → ℕ
swab16 value =
    let x = value % 2 ^ 16 in bit_or (bit_and x 0x00FF * 2 ^ 8) (bit_and x 0xFF00 / 2 ^ 8) % 2 ^ 16

unfoldable pub swab24 : ℕ → ℕ
swab24 value =
    let x = value % 2 ^ 32 in
    bit_or (bit_or (bit_and x 0x000000FF * 2 ^ 16 % 2 ^ 32) (bit_and x 0x0000FF00))
      (bit_and x 0x00FF0000 / 2 ^ 16)
    % 2 ^ 32

unfoldable pub swab32 : ℕ → ℕ
swab32 value =
    let x = value % 2 ^ 32 in
    bit_or
      (bit_or
        (bit_or (bit_and x 0x000000FF * 2 ^ 24 % 2 ^ 32) (bit_and x 0x0000FF00 * 2 ^ 8 % 2 ^ 32))
        (bit_and x 0x00FF0000 / 2 ^ 8))
      (bit_and x 0xFF000000 / 2 ^ 24)
    % 2 ^ 32

unfoldable pub swab64 : ℕ → ℕ
swab64 value =
    let x = value % 2 ^ 64 in
    let high =
      bit_or
        (bit_or
          (bit_or (bit_and x 0x00000000000000FF * 2 ^ 56 % 2 ^ 64)
            (bit_and x 0x000000000000FF00 * 2 ^ 40 % 2 ^ 64))
          (bit_and x 0x0000000000FF0000 * 2 ^ 24 % 2 ^ 64))
        (bit_and x 0x00000000FF000000 * 2 ^ 8 % 2 ^ 64) in
    bit_or
      (bit_or
        (bit_or (bit_or high (bit_and x 0x000000FF00000000 / 2 ^ 8))
          (bit_and x 0x0000FF0000000000 / 2 ^ 24))
        (bit_and x 0x00FF000000000000 / 2 ^ 40))
      (bit_and x 0xFF00000000000000 / 2 ^ 56)
    % 2 ^ 64

-- BYTE_ORDER of the machine.
pub data ByteOrder : Type 0 where
  little_endian big_endian : ByteOrder

unfoldable pub cpu_to_le16 : ByteOrder → ℕ → ℕ
unfolding swab16
cpu_to_le16 little_endian x = x % 2 ^ 16
cpu_to_le16 big_endian x = swab16 x

unfoldable pub cpu_to_le24 : ByteOrder → ℕ → ℕ
unfolding swab24
cpu_to_le24 little_endian x = x % 2 ^ 32
cpu_to_le24 big_endian x = swab24 x

unfoldable pub cpu_to_le32 : ByteOrder → ℕ → ℕ
unfolding swab32
cpu_to_le32 little_endian x = x % 2 ^ 32
cpu_to_le32 big_endian x = swab32 x

unfoldable pub cpu_to_le64 : ByteOrder → ℕ → ℕ
unfolding swab64
cpu_to_le64 little_endian x = x % 2 ^ 64
cpu_to_le64 big_endian x = swab64 x

unfoldable pub le16_to_cpu : ByteOrder → ℕ → ℕ
unfolding swab16
le16_to_cpu little_endian x = x % 2 ^ 16
le16_to_cpu big_endian x = swab16 x

unfoldable pub le24_to_cpu : ByteOrder → ℕ → ℕ
unfolding swab24
le24_to_cpu little_endian x = x % 2 ^ 32
le24_to_cpu big_endian x = swab24 x

unfoldable pub le32_to_cpu : ByteOrder → ℕ → ℕ
unfolding swab32
le32_to_cpu little_endian x = x % 2 ^ 32
le32_to_cpu big_endian x = swab32 x

unfoldable pub le64_to_cpu : ByteOrder → ℕ → ℕ
unfolding swab64
le64_to_cpu little_endian x = x % 2 ^ 64
le64_to_cpu big_endian x = swab64 x
