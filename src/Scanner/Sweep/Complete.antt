-- ===== src/Scanner/Sweep/Complete.antt =====
-- src/inodescanner.cpp: `do_scan` finds what stands in any of the places of 512 bytes.
use mathlib.Core.Path.{fun_ext}
use native.Mathlib.Nat.{zero-add, add-zero}
use jfsrec.Prelude.{
  ℕ, zero, suc, ◌+◌, ◌-◌, ◌*◌, ◌/◌, ◌%◌, ◌^◌, ◌<◌, ◌≤◌, ◌≡◌, refl, ap, ◌∙◌, sym, true, false,
  Option, none, some, ◌⊎◌, inl, inr, List, [], ◌∷◌, ◌++◌, ltb, arith, Bool-cases, Option-cases,
}
use jfsrec.Device.{ok}
use jfsrec.Device.Reads.{ReadsDisk}
use jfsrec.Disk.{Image, first_bytes, shifted}
use jfsrec.Inode.{Inode, create_if_sane}
use jfsrec.Scanner.{Reader, keep, slot, scan_chunk, scan_from, do_scan, chunk_blocks}

slot_shifted :
    (img disk : Image) (b k n : ℕ)
    → ((i : ℕ) → i < n → img i ≡ disk (b * 512 + i))
    → (k + 1) * 512 ≤ n
    → slot img k ≡ slot disk (b + k)
unfolding slot
slot_shifted img disk b k n same le = fun_ext λ i. elim (Bool-cases (ltb i 512)) [
  | inr out ↦ rw out
  | inl inside ↦
      let place : b * 512 + (k * 512 + i) ≡ (b + k) * 512 + i = omega arith in
      let low : i < 512 = ground arith in
      rw inside (same (k * 512 + i) (omega arith) ∙ ap disk place)
]

scan_chunk_shifted :
    (img disk : Image) (b count k n : ℕ)
    → ((i : ℕ) → i < n → img i ≡ disk (b * 512 + i))
    → (k + count) * 512 ≤ n
    → scan_chunk img (b * 512) count k ≡ scan_chunk disk 0 count (b + k)
unfolding scan_chunk
scan_chunk_shifted img disk b zero k n same le = refl
scan_chunk_shifted img disk b (suc count) k n same le =
    let here = slot_shifted img disk b k n same (omega arith) in
    let place : b * 512 + k * 512 ≡ 0 + (b + k) * 512 = omega arith in
    let next : b + (k + 1) ≡ b + k + 1 = omega arith in
    let rest = scan_chunk_shifted img disk b count (k + 1) n same (omega arith) in
    rw (here, place, rest, next)

keep-append : (o : Option Inode) (xs ys : List Inode) → keep o (xs ++ ys) ≡ keep o xs ++ ys
keep-append none xs ys = refl
keep-append (some i) xs ys = refl

scan_chunk-append :
    (disk : Image) (n m k : ℕ)
    → scan_chunk disk 0 (n + m) k ≡ scan_chunk disk 0 n k ++ scan_chunk disk 0 m (k + n)
unfolding scan_chunk
scan_chunk-append disk zero m k = rw (zero-add, add-zero)
scan_chunk-append disk (suc n) m k =
    let longer : suc n + m ≡ suc (n + m) = omega arith in
    let next : k + 1 + n ≡ k + suc n = omega arith in
    rw (longer, scan_chunk-append disk n m (k + 1), next)
      (keep-append (create_if_sane (slot disk k) (0 + k * 512)) (scan_chunk disk 0 n (k + 1))
        (scan_chunk disk 0 m (k + suc n)))

module _ (read : Reader) (disk : Image) (devsize c : ℕ) (faithful : ReadsDisk read disk devsize)
    (some_slots : 0 < c) (small : c * 512 < 2 ^ 32) (room : c * 512 ≤ devsize)
    (fits : devsize < 2 ^ 63) where
  -- A round of the loop, and what follows it.
  round_more :
      (fuel b : ℕ) (chunk img : Image) (rest : List Inode)
      → b * 512 < devsize - c * 512
      → read (b * 512) (c * 512) chunk ≡ ok img
      → scan_from fuel read devsize (c * 512) img ((b + c) * 512) ≡ some (ok rest)
      → scan_from (suc fuel) read devsize (c * 512) chunk (b * 512)
        ≡ some (ok (scan_chunk img (b * 512) c 0 ++ rest))
  unfolding scan_from
  round_more fuel b chunk img rest less e f =
      let bound : (devsize + 2 ^ 64 - c * 512) % 2 ^ 64 ≡ devsize - c * 512 = omega arith in
      let more : ltb (b * 512) (devsize - c * 512) ≡ true = ground arith in
      let count : c * 512 % 2 ^ 32 ≡ c * 512 = omega arith in
      let next : (b * 512 + c * 512) % 2 ^ 64 ≡ (b + c) * 512 = omega arith in
      let slots : c * 512 / 512 ≡ c = omega arith in
      rw (bound, more, count, e, next, f, scan_from) (rw slots)

  round_last :
      (fuel b : ℕ) (chunk img : Image)
      → b * 512 < devsize
      → devsize - c * 512 ≤ b * 512
      → read (b * 512) (devsize - b * 512) chunk ≡ ok img
      → scan_from (suc fuel) read devsize (c * 512) chunk (b * 512)
        ≡ some (ok (scan_chunk img (b * 512) (devsize / 512 - b) 0))
  unfolding scan_from
  round_last fuel b chunk img inside ge e =
      let bound : (devsize + 2 ^ 64 - c * 512) % 2 ^ 64 ≡ devsize - c * 512 = omega arith in
      let last : ltb (b * 512) (devsize - c * 512) ≡ false = ground arith in
      let left : (devsize + 2 ^ 64 - b * 512) % 2 ^ 64 ≡ devsize - b * 512 = omega arith in
      let count : (devsize - b * 512) % 2 ^ 32 ≡ devsize - b * 512 = omega arith in
      let slots : (devsize - b * 512) / 512 ≡ devsize / 512 - b = omega arith in
      rw (bound, last, left, count, e, scan_from) (rw (left, slots))

  shifted_here :
      (b count n : ℕ) (img : Image)
      → ((i : ℕ) → i < n → img i ≡ disk (b * 512 + i))
      → count * 512 ≤ n
      → scan_chunk img (b * 512) count 0 ≡ scan_chunk disk 0 count b
  shifted_here b count n img same le =
      scan_chunk_shifted img disk b count 0 n same (omega arith)
      ∙ ap (scan_chunk disk 0 count) (add-zero b)

  -- From any place on, the sweep finds what stands in the places that are left.
  scan_from_complete :
      (fuel b : ℕ) (chunk : Image)
      → b * 512 < devsize
      → devsize - b * 512 < fuel
      → scan_from fuel read devsize (c * 512) chunk (b * 512)
        ≡ some (ok (scan_chunk disk 0 (devsize / 512 - b) b))
  scan_from_complete zero b chunk inside enough = elim enough [ ]
  scan_from_complete (suc fuel) b chunk inside enough =
      elim (Bool-cases (ltb (b * 512) (devsize - c * 512))) [
        | inl more ↦
            let less : b * 512 < devsize - c * 512 = ground arith in
            let (img, e, same) = faithful (b * 512) (c * 512) chunk (omega arith) (omega arith) in
            let n : ℕ = devsize / 512 - (b + c) in
            let all : c + n ≡ devsize / 512 - b = omega arith in
            round_more fuel b chunk img (scan_chunk disk 0 n (b + c)) less e
              (scan_from_complete fuel (b + c) img (omega arith) (omega arith))
            ∙ ap (λ found. some (ok (found ++ scan_chunk disk 0 n (b + c))))
                (shifted_here b c (c * 512) img same (omega arith))
            ∙ ap (λ found. some (ok found)) (sym (scan_chunk-append disk c n b))
            ∙ ap (λ (k : ℕ). some (ok (scan_chunk disk 0 k b))) all
        | inr last ↦
            let ge : devsize - c * 512 ≤ b * 512 = ground arith in
            let (img, e, same) =
              faithful (b * 512) (devsize - b * 512) chunk (omega arith) (omega arith) in
            round_last fuel b chunk img inside ge e
            ∙ ap (λ found. some (ok found))
                (shifted_here b (devsize / 512 - b) (devsize - b * 512) img same (omega arith))
      ]

-- The inodes of so many places of 512 bytes, from a place on: each place holds a sane inode, which
-- comes next in the list, or none.
abbrev pub AllSane : Image → ℕ → ℕ → List Inode → Type 0
AllSane disk zero from is = is ≡ []
AllSane disk (suc count) from is =
    let here = create_if_sane (first_bytes 512 (shifted disk (from * 512))) (from * 512) in
    ((here ≡ none) × AllSane disk count (from + 1) is)
    ⊎ ((i : Inode) × (rest : List Inode) × (here ≡ some i)
        × (is ≡ i ∷ rest)
        × AllSane disk count (from + 1) rest)

slot-sector : (disk : Image) (k : ℕ) → slot disk k ≡ first_bytes 512 (shifted disk (k * 512))
unfolding slot first_bytes
slot-sector disk k = refl

scan_chunk-next :
    (disk : Image) (count from : ℕ) (o : Option Inode)
    → create_if_sane (first_bytes 512 (shifted disk (from * 512))) (from * 512) ≡ o
    → scan_chunk disk 0 (suc count) from ≡ keep o (scan_chunk disk 0 count (from + 1))
unfolding scan_chunk
scan_chunk-next disk count from o e =
    let place : 0 + from * 512 ≡ from * 512 = omega arith in
    rw (slot-sector disk from, place, e) refl

pub scan_chunk-AllSane :
    (disk : Image) (count from : ℕ) → AllSane disk count from (scan_chunk disk 0 count from)
unfolding scan_chunk
scan_chunk-AllSane disk zero from = refl
scan_chunk-AllSane disk (suc count) from =
    let rest = scan_chunk disk 0 count (from + 1) in
    elim (Option-cases
      (create_if_sane (first_bytes 512 (shifted disk (from * 512))) (from * 512))) [
        | inl e ↦ inl (
          e,
          rw (scan_chunk-next disk count from none e) (scan_chunk-AllSane disk count (from + 1)),
        )
        | inr (i, e) ↦ inr (
          i,
          rest,
          e,
          scan_chunk-next disk count from (some i) e,
          scan_chunk-AllSane disk count (from + 1),
        )
      ]

-- The sweep's list is the only one.
pub AllSane-scan_chunk :
    (disk : Image) (count from : ℕ) (is : List Inode)
    → AllSane disk count from is
    → scan_chunk disk 0 count from ≡ is
unfolding scan_chunk
AllSane-scan_chunk disk zero from is e = sym e
AllSane-scan_chunk disk (suc count) from is (inl (e, all)) =
    scan_chunk-next disk count from none e ∙ AllSane-scan_chunk disk count (from + 1) is all
AllSane-scan_chunk disk (suc count) from is (inr (i, rest, e, f, all)) =
    scan_chunk-next disk count from (some i) e
    ∙ ap (λ x. i ∷ x) (AllSane-scan_chunk disk count (from + 1) rest all)
    ∙ sym f

pub do_scan-scan_chunk :
    (read : Reader) (disk : Image) (devsize blocksize b fuel : ℕ) (chunk : Image)
    → ReadsDisk read disk devsize
    → 0 < blocksize
    → blocksize ≤ 4096
    → chunk_blocks * blocksize ≤ devsize
    → devsize < 2 ^ 63
    → b * 512 < devsize
    → devsize < fuel
    → do_scan fuel read devsize blocksize chunk (b * 512)
      ≡ some (ok (scan_chunk disk 0 (devsize / 512 - b) b))
unfolding do_scan
do_scan-scan_chunk read disk devsize blocksize b fuel chunk faithful pos le room fits inside
      enough =
    let bytes : chunk_blocks * blocksize ≡ 64 * blocksize * 512 = omega arith in
    rw bytes (
      scan_from_complete read disk devsize (64 * blocksize) faithful (omega arith) (omega arith)
        (omega arith) fits fuel b chunk inside (omega arith))

-- On a device of at least one chunk and less than 2^63 bytes, with blocks of 1 to 4096 bytes, whose
-- reads within its size all return the bytes of the disk, a scan that starts at a multiple of 512
-- inside it ends, with fuel for one more round than it has bytes. It finds the inode of every
-- following place of 512 bytes that holds a sane one, in order and once, and nothing else.
pub do_scan_complete :
    (read : Reader) (disk : Image) (devsize blocksize b fuel : ℕ) (chunk : Image)
    → ReadsDisk read disk devsize
    → 0 < blocksize
    → blocksize ≤ 4096
    → chunk_blocks * blocksize ≤ devsize
    → devsize < 2 ^ 63
    → b * 512 < devsize
    → devsize < fuel
    → (found : List Inode) × (do_scan fuel read devsize blocksize chunk (b * 512) ≡ some (ok found))
      × AllSane disk (devsize / 512 - b) b found
do_scan_complete read disk devsize blocksize b fuel chunk faithful pos le room fits inside enough =
    (
      scan_chunk disk 0 (devsize / 512 - b) b,
      do_scan-scan_chunk read disk devsize blocksize b fuel chunk faithful pos le room fits inside
          enough,
      scan_chunk-AllSane disk (devsize / 512 - b) b,
    )
