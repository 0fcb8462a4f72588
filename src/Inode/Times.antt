-- ===== src/Inode/Times.antt =====
-- src/inode.cpp: the order of creation times.
use jfsrec.Prelude.{◌≡◌, true, false, arith}
use jfsrec.Disk.{Timestruc}
use jfsrec.Inode.{time_lt}

-- Neither time is before the other exactly when they are equal, and the order is transitive, also
-- in the form that a time not before another leaves all earlier ones behind.
pub time_lt_irrefl : (a : Timestruc) → time_lt a a ≡ false
unfolding time_lt
time_lt_irrefl a = ground arith

pub time_lt_trans :
    (a b c : Timestruc) → time_lt a b ≡ true → time_lt b c ≡ true → time_lt a c ≡ true
unfolding time_lt
time_lt_trans a b c h k = ground arith

pub time_lt_asymm : (a b : Timestruc) → time_lt a b ≡ true → time_lt b a ≡ false
unfolding time_lt
time_lt_asymm a b h = ground arith

pub time_lt_weak :
    (a b c : Timestruc) → time_lt a b ≡ false → time_lt b c ≡ false → time_lt a c ≡ false
unfolding time_lt
time_lt_weak a b c h k = ground arith

pub time_lt_total : (a b : Timestruc) → time_lt a b ≡ false → time_lt b a ≡ false → a ≡ b
unfolding time_lt
time_lt_total a b h k = ground arith
