-- ===== src/Device/Suffix.antt =====
-- src/device.cpp: the size with a unit that is printed.
use jfsrec.Prelude.{ℕ, ◌+◌, ◌*◌, ◌/◌, ◌%◌, ◌^◌, ◌<◌, ◌≤◌, ltb, if◌then◌else◌, arith}

pub data Suffix : Type 0 where
  bytes kilo mega giga tera : Suffix

-- `bytes_suffixed`: the number before the suffix, in hundredths for all but bytes. The product by
-- 100 is of 64 bits.
unfoldable pub bytes_suffixed : ℕ → ℕ × Suffix
bytes_suffixed f =
    let hundred = f * 100 % 2 ^ 64 in
    if ltb f (2 ^ 10)
    then (f, bytes)
    else if ltb f (2 ^ 20)
    then (hundred / 2 ^ 10, kilo)
    else if ltb f (2 ^ 30)
    then (hundred / 2 ^ 20, mega)
    else if ltb f (2 ^ 40)
    then (hundred / 2 ^ 30, giga)
    else (hundred / 2 ^ 40, tera)

abbrev pub unit : Suffix → ℕ
unit bytes = 100
unit kilo = 2 ^ 10
unit mega = 2 ^ 20
unit giga = 2 ^ 30
unit tera = 2 ^ 40

-- Below 2^57 bytes the number printed is the size rounded down to hundredths of its unit.
pub bytes_suffixed-rounds :
    (f : ℕ)
    → f < 2 ^ 57
    → ((bytes_suffixed f).0 * unit (bytes_suffixed f).1 ≤ 100 * f)
      × (100 * f < ((bytes_suffixed f).0 + 1) * unit (bytes_suffixed f).1)
unfolding bytes_suffixed
bytes_suffixed-rounds f h = ground arith
