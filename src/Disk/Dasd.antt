-- ===== src/Disk/Dasd.antt =====
-- src/jfs_types.h and src/jfs_dtree.h: the limits that are stored in a directory inode, and the slots
-- of the directory table, with their macros on a little-endian machine.
use Prim.Native.Nat.{bit_and, bit_or}
use jfsrec.Prelude.{ℕ, ◌+◌, ◌*◌, ◌/◌, ◌%◌, ◌^◌, ◌<◌, ◌≡◌, refl, arith}
use jfsrec.Prelude.Bits.{bit_and_mask, bit_or_field}

pub record Dasd : Type 0 where
  pub thresh : ℕ
  pub delta : ℕ
  pub limit_hi : ℕ
  pub limit_lo : ℕ
  pub used_hi : ℕ
  pub used_lo : ℕ

unfoldable pub dasd_limit : Dasd → ℕ
dasd_limit d = d.limit_hi * 2 ^ 32 + d.limit_lo

unfoldable pub set_dasd_limit : Dasd → ℕ → Dasd
set_dasd_limit d limit = record d { limit_hi = limit / 2 ^ 32 % 2 ^ 8; limit_lo = limit % 2 ^ 32 }

unfoldable pub dasd_used : Dasd → ℕ
dasd_used d = d.used_hi * 2 ^ 32 + d.used_lo

unfoldable pub set_dasd_used : Dasd → ℕ → Dasd
set_dasd_used d used = record d { used_hi = used / 2 ^ 32 % 2 ^ 8; used_lo = used % 2 ^ 32 }

pub record DirTableSlot : Type 0 where
  pub flag : ℕ
  pub leaf_slot : ℕ
  pub addr1 : ℕ
  pub addr2 : ℕ

unfoldable pub dts_address : DirTableSlot → ℕ → DirTableSlot
dts_address t a = record t { addr1 = a / 2 ^ 32 % 2 ^ 8; addr2 = bit_and a 0xFFFFFFFF % 2 ^ 32 }

unfoldable pub address_dts : DirTableSlot → ℕ
address_dts t = bit_or (t.addr1 * 2 ^ 32) t.addr2

-- Limit and usage, of 40 bits, are read back as stored, and neither disturbs the other.
pub dasd_roundtrip :
    (d : Dasd) (limit used : ℕ)
    → limit < 2 ^ 40
    → used < 2 ^ 40
    → (dasd_limit (set_dasd_used (set_dasd_limit d limit) used) ≡ limit)
      × (dasd_used (set_dasd_used (set_dasd_limit d limit) used) ≡ used)
unfolding dasd_limit set_dasd_limit dasd_used set_dasd_used
dasd_roundtrip d limit used h k = (omega arith, omega arith)

-- An address of 40 bits is read back from a slot of the directory table as stored.
pub dts_roundtrip : (t : DirTableSlot) (a : ℕ) → a < 2 ^ 40 → address_dts (dts_address t a) ≡ a
unfolding dts_address address_dts
dts_roundtrip t a h =
    let mask = bit_and_mask 32 a 0xFFFFFFFF refl in
    omega (
      arith,
      mask,
      bit_or_field 32 (a / 2 ^ 32 % 2 ^ 8) (bit_and a 0xFFFFFFFF % 2 ^ 32) (omega arith),
    )
