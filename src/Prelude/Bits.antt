-- ===== src/Prelude/Bits.antt =====
-- Masks and shifted fields of machine words, as arithmetic, and tables over small ranges.
use Prim.Native.Nat.{ℕ, zero, suc, ◌+◌, ◌*◌, ◌/◌, ◌%◌, ◌^◌, ◌≤◌, ◌<◌, min, max}
use Prim.Native.Nat.{bit_and, bit_or, digits, bit_and-bitwise, bit_or-bitwise}
use mathlib.Core.Path.{◌≡◌, refl, ap, ◌∙◌}
use mathlib.Core.Bool.{Bool, true, ◌&&◌}
use native.Mathlib.Nat.{pow-suc, mul-lt-mul_of_pos_right}
use native.Mathlib.Omega.{arith}

-- The digit recursion behind `&`, at any count that reaches the first operand. The mask is one
-- less than the power, and the operand is a quotient and a remainder by it.
mask_digits :
    (n k a q r m : ℕ)
    → a ≤ n
    → m + 1 ≡ 2 ^ k
    → a ≡ q * 2 ^ k + r
    → r < 2 ^ k
    → digits (λ b. 0) min n a m ≡ r
mask_digits zero k zero q r m h e f g = omega arith
mask_digits zero k (suc a) q r m h e f g = absurd (omega arith)
mask_digits (suc n) k zero q r m h e f g = omega arith
mask_digits (suc n) zero (suc a) q r m h e f g = omega (
  arith,
  mask_digits n 0 (suc a / 2) (suc a / 2) 0 (m / 2) (omega arith) (omega arith) (omega arith)
      (omega arith),
)
mask_digits (suc n) (suc k) (suc a) q r m h e f g =
    let double = pow-suc 2 k in
    let product = ap (λ (t : ℕ). q * t) double in
    omega (
      arith,
      mask_digits n k (suc a / 2) q (r / 2) (m / 2) (omega arith) (omega arith) (omega arith)
          (omega arith),
    )

field_digits :
    (n k a q r : ℕ) → a ≤ n → a ≡ q * 2 ^ k → r < 2 ^ k → digits (λ b. b) max n a r ≡ a + r
field_digits zero k zero q r h e g = omega arith
field_digits zero k (suc a) q r h e g = absurd (omega arith)
field_digits (suc n) k zero q r h e g = omega arith
field_digits (suc n) zero (suc a) q r h e g = omega (
  arith,
  field_digits n 0 (suc a / 2) (suc a / 2) (r / 2) (omega arith) (omega arith) (omega arith),
)
field_digits (suc n) (suc k) (suc a) q r h e g =
    let double = pow-suc 2 k in
    let product = ap (λ (t : ℕ). q * t) double in
    omega (arith, field_digits n k (suc a / 2) q (r / 2) (omega arith) (omega arith) (omega arith))

-- `x & (2^k - 1)` is the remainder by `2^k`.
pub bit_and_mask : (k x m : ℕ) → m + 1 ≡ 2 ^ k → bit_and x m ≡ x % 2 ^ k
bit_and_mask k x m e =
    bit_and-bitwise x m
    ∙ mask_digits x k x (x / 2 ^ k) (x % 2 ^ k) m (omega arith) e (omega arith) (omega arith)

-- `(q << k) | r` is a sum where `r` has `k` bits.
pub bit_or_field : (k q r : ℕ) → r < 2 ^ k → bit_or (q * 2 ^ k) r ≡ q * 2 ^ k + r
bit_or_field k q r g =
    bit_or-bitwise (q * 2 ^ k) r ∙ field_digits (q * 2 ^ k) k (q * 2 ^ k) q r (omega arith) refl g

-- The same with a mask of one byte, where the operand has the byte `c` above `k` digits.
byte_digits :
    (n k a q c r m : ℕ)
    → a ≤ n
    → m ≡ 255 * 2 ^ k
    → a ≡ (q * 256 + c) * 2 ^ k + r
    → c < 256
    → r < 2 ^ k
    → digits (λ b. 0) min n a m ≡ c * 2 ^ k
byte_digits n zero a q c r m h e f g l =
    mask_digits n 8 a q c m h (omega (arith, e)) (omega (arith, f, l)) g ∙ omega arith
byte_digits zero (suc k) zero q c r m h e f g l = omega arith
byte_digits zero (suc k) (suc a) q c r m h e f g l = absurd (omega arith)
byte_digits (suc n) (suc k) zero q c r m h e f g l = omega arith
byte_digits (suc n) (suc k) (suc a) q c r m h e f g l =
    let double = pow-suc 2 k in
    let product = ap (λ (t : ℕ). (q * 256 + c) * t) double in
    let place = ap (λ (t : ℕ). c * t) double in
    omega (
      arith,
      byte_digits n k (suc a / 2) q c (r / 2) (m / 2) (omega arith) (omega arith) (omega arith) g
          (omega arith),
    )

pow_pos : (k : ℕ) → 0 < 2 ^ k
pow_pos zero = omega arith
pow_pos (suc k) = omega (arith, pow-suc 2 k, pow_pos k)

-- One byte of a number, where it stands.
pub bit_and-byte : (k a m : ℕ) → m ≡ 255 * 2 ^ k → bit_and a m ≡ a / 2 ^ k % 256 * 2 ^ k
bit_and-byte k a m e =
    let t = a / 2 ^ k in
    let parts : t ≡ t / 256 * 256 + t % 256 = omega arith in
    let split = ap (λ (u : ℕ). u * 2 ^ k) parts in
    bit_and-bitwise a m
    ∙ byte_digits a k a (t / 256) (t % 256) (a % 2 ^ k) m (omega arith) e (omega (arith, split))
        (omega arith) (omega (arith, pow_pos k))

pow_add_eight : (k : ℕ) → 2 ^ (k + 8) ≡ 2 ^ k * 256
pow_add_eight zero = refl
pow_add_eight (suc k) =
    let moved : suc k + 8 ≡ suc (k + 8) = omega arith in
    ap (λ (t : ℕ). 2 ^ t) moved ∙ omega (arith, pow-suc 2 (k + 8), pow-suc 2 k, pow_add_eight k)

-- A byte below all that stands already.
pub bit_or-byte :
    (k q c x y : ℕ)
    → x ≡ q * 2 ^ (k + 8)
    → y ≡ c * 2 ^ k
    → c < 256
    → bit_or x y ≡ (q * 256 + c) * 2 ^ k
bit_or-byte k q c x y e f lt =
    let wide : y < 2 ^ (k + 8) =
      omega (arith, f, pow_add_eight k, mul-lt-mul_of_pos_right lt (pow_pos k)) in
    ap (λ t. bit_or t y) e
    ∙ bit_or_field (k + 8) q y wide
    ∙ omega (arith, f, ap (λ (t : ℕ). q * t) (pow_add_eight k))

-- A test at every number below a bound, by evaluation.
unfoldable pub all_below : ℕ → (ℕ → Bool) → Bool
all_below zero p = true
all_below (suc n) p = p n && all_below n p

pub all_below_at : (n : ℕ) (p : ℕ → Bool) (x : ℕ) → all_below n p ≡ true → x < n → p x ≡ true
unfolding all_below
all_below_at zero p x h g = elim g [ ]
all_below_at (suc n) p x h g = ground (arith, all_below_at n p x)
