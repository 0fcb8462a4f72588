-- ===== src/Disk/Extent.antt =====
-- The macros of src/jfs_types.h and src/jfs_xtree.h that build and read extent descriptors, on a
-- little-endian machine, and the round trips between them.
use Prim.Native.Nat.{bit_and, bit_or}
use jfsrec.Prelude.{ℕ, ◌+◌, ◌*◌, ◌/◌, ◌%◌, ◌^◌, ◌<◌, ◌≡◌, refl, arith}
use jfsrec.Prelude.Bits.{bit_and_mask, bit_or_field}
use jfsrec.Disk.{Pxd, Dxd, Xad}

-- `((int64_t)addr1) << 32 | addr2`
unfoldable pub address40 : ℕ → ℕ → ℕ
address40 hi lo = bit_or (hi * 2 ^ 32) lo

unfoldable pub address_pxd : Pxd → ℕ
unfolding address40
address_pxd p = address40 p.addr1 p.addr2

unfoldable pub length_pxd : Pxd → ℕ
length_pxd p = p.len

unfoldable pub address_dxd : Dxd → ℕ
unfolding address40
address_dxd d = address40 d.addr1 d.addr2

unfoldable pub offset_xad : Xad → ℕ
unfolding address40
offset_xad x = address40 x.off1 x.off2

unfoldable pub address_xad : Xad → ℕ
unfolding address40
address_xad x = address40 x.addr1 x.addr2

unfoldable pub length_xad : Xad → ℕ
length_xad x = x.len

-- Assignments to a bit field of 8 bits, of 24 bits, and the low word.
abbrev high_byte : ℕ → ℕ
high_byte a = a / 2 ^ 32 % 2 ^ 8

abbrev low_word : ℕ → ℕ
low_word a = bit_and a 0xFFFFFFFF % 2 ^ 32

unfoldable pub pxd_address : Pxd → ℕ → Pxd
pxd_address p a = record p { addr1 = high_byte a; addr2 = low_word a }

unfoldable pub pxd_length : Pxd → ℕ → Pxd
pxd_length p n = record p { len = n % 2 ^ 24 }

unfoldable pub xad_offset : Xad → ℕ → Xad
xad_offset x a = record x { off1 = high_byte a; off2 = low_word a }

unfoldable pub xad_address : Xad → ℕ → Xad
xad_address x a = record x { addr1 = high_byte a; addr2 = low_word a }

unfoldable pub xad_length : Xad → ℕ → Xad
xad_length x n = record x { len = n % 2 ^ 24 }

address40-sum : (hi lo : ℕ) → lo < 2 ^ 32 → address40 hi lo ≡ hi * 2 ^ 32 + lo
unfolding address40
address40-sum hi lo h = bit_or_field 32 hi lo h

address40_split : (a : ℕ) → a < 2 ^ 40 → address40 (high_byte a) (low_word a) ≡ a
address40_split a h = omega (
  arith,
  address40-sum (high_byte a) (low_word a) (omega arith),
  bit_and_mask 32 a 0xFFFFFFFF refl,
)

-- What is stored in a descriptor of a physical extent is read back, an address of 40 bits and a
-- length of 24 bits, and neither disturbs the other.
pub pxd_roundtrip :
    (p : Pxd) (a n : ℕ)
    → a < 2 ^ 40
    → n < 2 ^ 24
    → (address_pxd (pxd_length (pxd_address p a) n) ≡ a)
      × (length_pxd (pxd_length (pxd_address p a) n) ≡ n)
unfolding address_pxd length_pxd pxd_address pxd_length
pxd_roundtrip p a n h k = (address40_split a h, omega arith)

-- What is stored in an extent descriptor of a file is read back: offset and address of 40 bits, and
-- a length of 24 bits, in fields that do not disturb one another.
pub xad_roundtrip :
    (x : Xad) (o a n : ℕ)
    → o < 2 ^ 40
    → a < 2 ^ 40
    → n < 2 ^ 24
    → (offset_xad (xad_length (xad_address (xad_offset x o) a) n) ≡ o)
      × (address_xad (xad_length (xad_address (xad_offset x o) a) n) ≡ a)
      × (length_xad (xad_length (xad_address (xad_offset x o) a) n) ≡ n)
unfolding offset_xad address_xad length_xad xad_offset xad_address xad_length
xad_roundtrip x o a n h k l = (address40_split o h, address40_split a k, omega arith)

pub address_xad-lt : (x : Xad) → x.addr1 < 2 ^ 8 → x.addr2 < 2 ^ 32 → address_xad x < 2 ^ 40
unfolding address_xad
address_xad-lt x h k = omega (arith, address40-sum x.addr1 x.addr2 k)
