-- ===== src/Scanner/Sweep.antt =====
-- src/inodescanner.cpp: `do_scan`, on devices of at least one chunk and on smaller ones.
pub mod Complete
pub mod Found
use mathlib.Core.Path.{fun_ext}
use mathlib.Core.List.{append_assoc}
use native.Mathlib.Numerals.{add-one}
use native.Mathlib.Nat.{zero-add, add-zero}
use jfsrec.Prelude.{
  ℕ, zero, suc, ◌+◌, ◌-◌, ◌*◌, ◌/◌, ◌%◌, ◌^◌, ◌<◌, ◌≤◌, ◌≡◌, refl, ap, ◌∙◌, sym, Bool, true, false,
  Option, none, some, ◌⊎◌, inl, inr, List, [], ◌∷◌, ◌++◌, ltb, ◌==◌, if◌then◌else◌, arith,
  Option-cases, Bool-cases,
}
use jfsrec.Device.{Read, Reason, ok, invalid_read}
use jfsrec.Disk.{Image}
use jfsrec.Inode.{Inode, create_if_sane}
use jfsrec.Scanner.{Reader, slot, inode_size, scan_chunk, scan_from, do_scan, chunk_blocks}

Read-cases :
    {A : Type 0} (r : Read A) → ((a : A) × (r ≡ ok a)) ⊎ ((why : Reason) × (r ≡ invalid_read why))
Read-cases (ok a) = inl (a, refl)
Read-cases (invalid_read why) = inr (why, refl)

-- A read beyond the size is refused.
abbrev pub RefusesBeyond : Reader → ℕ → Type 0
RefusesBeyond read devsize =
    (o n : ℕ) (buffer : Image) → devsize < o → (why : Reason) × (read o n buffer ≡ invalid_read why)

-- On a device smaller than a chunk, 128 MiB with blocks of 4096 bytes, and with blocks of at most
-- that size, where reads beyond the size are refused, a scan from the start ends by `exit(1)`, for
-- at the latest the second read is refused.
pub do_scan-small :
    (fuel : ℕ) (read : Reader) (devsize blocksize : ℕ) (chunk : Image)
    → RefusesBeyond read devsize
    → devsize < chunk_blocks * blocksize
    → blocksize ≤ 4096
    → (why : Reason) × (do_scan (suc (suc fuel)) read devsize blocksize chunk 0
        ≡ some (invalid_read why))
unfolding do_scan
do_scan-small fuel read devsize blocksize chunk refuses small le =
    let chunk_bytes : ℕ = chunk_blocks * blocksize in
    let first : ltb 0 ((devsize + 2 ^ 64 - chunk_bytes) % 2 ^ 64) ≡ true = ground arith in
    let moved : (0 + chunk_bytes) % 2 ^ 64 ≡ chunk_bytes = omega arith in
    let second : ltb chunk_bytes ((devsize + 2 ^ 64 - chunk_bytes) % 2 ^ 64) ≡ true =
      ground arith in
    elim (Read-cases (read 0 (chunk_bytes % 2 ^ 32) chunk)) [
      | inr (why, e) ↦ (why, rw (first, e, scan_from))
      | inl (chunk', e) ↦
          let (why, f) = refuses chunk_bytes (chunk_bytes % 2 ^ 32) chunk' small in
          (why, rw (first, e, moved, second, scan_from) (rw (moved, f)))
    ]

-- From the end of the device on nothing is left to read, and a read of 0 bytes is refused.
pub do_scan-end :
    (fuel : ℕ) (read : Reader) (devsize blocksize : ℕ) (chunk : Image) (why : Reason)
    → read devsize 0 chunk ≡ invalid_read why
    → 0 < chunk_blocks * blocksize
    → chunk_blocks * blocksize ≤ devsize
    → devsize < 2 ^ 63
    → do_scan (suc fuel) read devsize blocksize chunk devsize ≡ some (invalid_read why)
unfolding do_scan
do_scan-end fuel read devsize blocksize chunk why e pos le fits =
    let last : ltb devsize ((devsize + 2 ^ 64 - chunk_blocks * blocksize) % 2 ^ 64) ≡ false =
      ground arith in
    let left : (devsize + 2 ^ 64 - devsize) % 2 ^ 64 % 2 ^ 32 ≡ 0 = omega arith in
    rw (scan_from, last, left, e) refl
