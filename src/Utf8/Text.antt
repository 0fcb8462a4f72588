-- ===== src/Utf8/Text.antt =====
-- src/unicode_to_utf8.cpp: the conversions of whole strings.

use jfsrec.Prelude.{
  ℕ, zero, suc, ◌-◌, ◌*◌, ◌<◌, ◌≤◌, ◌≡◌, refl, inl, inr, List, [], ◌∷◌, ◌++◌, leb, if◌then◌else◌,
  length, arith, All, All-append, length-append, Bool-cases,
}
use jfsrec.Utf8.{
  encode_step, unicode_string_to_utf8_string, until_nul, unicode_string_to_utf8_std_string,
}
use jfsrec.Utf8.Char.{utf8_bytes, encode-utf8_bytes}

-- A 16-bit character other than the terminator.
abbrev pub IsUnit16 : ℕ → Type 0
IsUnit16 c = (0 < c) × (c < 65536)

abbrev pub encoding : List ℕ → List ℕ
encoding [] = []
encoding (c ∷ cs) = utf8_bytes c ++ encoding cs

pub utf8_bytes_size : (c : ℕ) → (1 ≤ length (utf8_bytes c)) × (length (utf8_bytes c) ≤ 3)
unfolding utf8_bytes
utf8_bytes_size c = ground arith

utf8_bytes-IsByte : (c : ℕ) → IsUnit16 c → All (λ b. (0 < b) × (b < 256)) (utf8_bytes c)
unfolding utf8_bytes
utf8_bytes-IsByte c h = ground arith

encode_step_lem :
    (c m : ℕ)
    → c < 65536
    → encode_step c (suc m) ≡ (
        if leb (length (utf8_bytes c)) (suc m)
        then (utf8_bytes c, length (utf8_bytes c))
        else ([], 1))
unfolding encode_step utf8_bytes
encode_step_lem c m h = ground (arith, encode-utf8_bytes c (suc m))

encoding-IsByte : (cs : List ℕ) → All IsUnit16 cs → All (λ b. (0 < b) × (b < 256)) (encoding cs)
encoding-IsByte [] h = tt
encoding-IsByte (c ∷ cs) h =
    All-append _ (utf8_bytes c) (encoding cs) (utf8_bytes-IsByte c h.0) (encoding-IsByte cs h.1)

pub length-encoding-le : (cs : List ℕ) → length (encoding cs) ≤ 3 * length cs
length-encoding-le [] = omega arith
length-encoding-le (c ∷ cs) =
    omega
      (arith, utf8_bytes_size c, length-append (utf8_bytes c) (encoding cs), length-encoding-le cs)

-- Where the buffer has room, every character is encoded.
pub string-encoding :
    (cs : List ℕ) (maxlen : ℕ)
    → All IsUnit16 cs
    → length (encoding cs) ≤ maxlen
    → unicode_string_to_utf8_string cs maxlen ≡ encoding cs
unfolding unicode_string_to_utf8_string
string-encoding [] maxlen h fits = refl
string-encoding (zero ∷ cs) maxlen h fits = absurd (omega arith)
string-encoding (suc c ∷ cs) zero h fits =
    absurd
      (omega (arith, utf8_bytes_size (suc c), length-append (utf8_bytes (suc c)) (encoding cs)))
string-encoding (suc c ∷ cs) (suc m) h fits =
    let n = length (utf8_bytes (suc c)) in
    let split = length-append (utf8_bytes (suc c)) (encoding cs) in
    let small : n ≤ suc m = omega arith in
    let step : encode_step (suc c) (suc m) ≡ (utf8_bytes (suc c), n) =
      ground (arith, encode_step_lem (suc c) m h.0.1) in
    rw (step, string-encoding cs (suc m - n) h.1 (omega arith))

-- The conversion of 16-bit characters to UTF-8 never writes more than `maxlen` bytes, and only
-- bytes other than 0.
pub string-bounds :
    (cs : List ℕ) (maxlen : ℕ)
    → All (λ c. c < 65536) cs
    → (length (unicode_string_to_utf8_string cs maxlen) ≤ maxlen)
      × All (λ b. (0 < b) × (b < 256)) (unicode_string_to_utf8_string cs maxlen)
unfolding unicode_string_to_utf8_string
string-bounds [] maxlen h = (omega arith, tt)
string-bounds (zero ∷ cs) maxlen h = (omega arith, tt)
string-bounds (suc c ∷ cs) zero h = (omega arith, tt)
string-bounds (suc c ∷ cs) (suc m) h =
    rw (encode_step_lem (suc c) m h.0)
      (elim (Bool-cases (leb (length (utf8_bytes (suc c))) (suc m))) [
        | inl e ↦
            let n = length (utf8_bytes (suc c)) in
            let (len, ok) = string-bounds cs (suc m - n) h.1 in
            let small : n ≤ suc m = ground arith in
            rw e (
              omega (
                arith,
                len,
                length-append (utf8_bytes (suc c)) (unicode_string_to_utf8_string cs (suc m - n)),
              ),
              All-append _ (utf8_bytes (suc c)) _ (utf8_bytes-IsByte (suc c) (omega arith, h.0)) ok,
            )
        | inr e ↦ let (len, ok) = string-bounds cs (suc m - 1) h.1 in rw e (omega (arith, len), ok)
      ])

until_nul_self : (bs : List ℕ) → All (λ b. (0 < b) × (b < 256)) bs → until_nul bs ≡ bs
unfolding until_nul
until_nul_self [] h = refl
until_nul_self (zero ∷ bs) h = absurd (omega arith)
until_nul_self (suc b ∷ bs) h = rw (until_nul_self bs h.1)

-- A name of up to 255 characters of 16 bits, none of them 0, is converted whole, whatever `maxlen`
-- is passed.
pub std_string-encoding :
    (cs : List ℕ) (maxlen : ℕ)
    → All IsUnit16 cs
    → length cs ≤ 255
    → unicode_string_to_utf8_std_string cs maxlen ≡ encoding cs
unfolding unicode_string_to_utf8_std_string
std_string-encoding cs maxlen h small =
    rw (string-encoding cs 32767 h (omega (arith, length-encoding-le cs)))
      (until_nul_self (encoding cs) (encoding-IsByte cs h))
