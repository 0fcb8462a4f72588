-- ===== src/Examples/Streams.antt =====
-- For src/device.cpp: files that hold the bytes of a disk, and what `read_bytes` reads of them.
use mathlib.Core.Path.{fun_ext}
use jfsrec.Prelude.{
  ℕ, zero, suc, ◌+◌, ◌<◌, ◌≤◌, ◌==◌, ◌≡◌, refl, ap, ◌∙◌, true, false, List, [], ◌∷◌, get_or, length,
  ltb, arith, Bool-cases, inl, inr,
}
use jfsrec.Device.{Device, Stream, ok, filled, read_bytes}
use jfsrec.Device.Reads.{IsReadable}
use jfsrec.Disk.{Image, shifted, first_bytes}
use jfsrec.Examples.{zeros}

bytes_from : Image → ℕ → ℕ → List ℕ
bytes_from disk o zero = []
bytes_from disk o (suc n) = disk o ∷ bytes_from disk (o + 1) n

length-bytes_from : (disk : Image) (o n : ℕ) → length (bytes_from disk o n) ≡ n
unfolding bytes_from
length-bytes_from disk o zero = refl
length-bytes_from disk o (suc n) = omega (arith, length-bytes_from disk (o + 1) n)

get_or-bytes_from :
    (disk : Image) (o n i : ℕ) → i < n → get_or (bytes_from disk o n) i 0 ≡ disk (o + i)
unfolding bytes_from
get_or-bytes_from disk o zero i lt = absurd (omega (arith, lt))
get_or-bytes_from disk o (suc n) zero lt = let same : o ≡ o + 0 = omega arith in ap disk same
get_or-bytes_from disk o (suc n) (suc i) lt =
    let same : o + 1 + i ≡ o + suc i = omega arith in
    get_or-bytes_from disk (o + 1) n i (omega (arith, lt)) ∙ ap disk same

pub stream_of : Image → Stream
unfolding bytes_from
stream_of disk = record { seek = λ o. true; fread = bytes_from disk }

pub stream_of-IsReadable : (disk : Image) (n : ℕ) → IsReadable (stream_of disk) disk n
unfolding stream_of
stream_of-IsReadable disk n = record {
  seeks = λ o. refl;
  full = λ o k le. length-bytes_from disk o k;
  bytes = λ o k i le lt. get_or-bytes_from disk o k i lt;
}

filled-bytes_from :
    (disk : Image) (o n : ℕ) → filled (bytes_from disk o n) zeros ≡ first_bytes n (shifted disk o)
unfolding first_bytes
filled-bytes_from disk o n = fun_ext λ i. elim (Bool-cases (ltb i n)) [
  | inl inside ↦
      rw (length-bytes_from disk o n, inside) (get_or-bytes_from disk o n i (ground arith))
  | inr outside ↦ rw (length-bytes_from disk o n, outside) refl
]

-- A read over a buffer of zeros, at this place and of so many bytes.
pub read_bytes-stream_of :
    (disk : Image) (d : Device) (o n : ℕ)
    → o ≤ d.fssize
    → 0 < n
    → read_bytes (stream_of disk) d o n zeros ≡ ok (first_bytes n (shifted disk o))
unfolding read_bytes stream_of
read_bytes-stream_of disk d o n le pos =
    let inside : ltb d.fssize o ≡ false = ground arith in
    let count : (n == 0) ≡ false = ground arith in
    rw (inside, count) (ap (λ b. ok b) (filled-bytes_from disk o n))
