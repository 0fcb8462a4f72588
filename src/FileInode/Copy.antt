-- ===== src/FileInode/Copy.antt =====
-- src/fileinode.cpp: what the copy of an extent holds.
use jfsrec.Prelude.{
  ℕ, zero, suc, ◌+◌, ◌-◌, ◌*◌, ◌^◌, ◌<◌, ◌≤◌, ◌≡◌, ◌⊎◌, refl, sym, ap, ◌∙◌, true, false, some, inl,
  inr, ltb, if◌then◌else◌, arith, Bool-cases,
}
use jfsrec.Device.{ok}
use jfsrec.Device.Reads.{ReadsDisk}
use jfsrec.Disk.{Image, Xad, shifted}
use jfsrec.Disk.Extent.{address_xad, offset_xad, length_xad}
use jfsrec.FileInode.{Reader, buffsize, extent_bytes, fwrite, write_from, write_extent_to_file}

-- `new` is `old` with the bytes from `done` up to `total`, behind `position`, from the disk.
abbrev pub IsCopy : Image → Image → Image → ℕ → ℕ → ℕ → ℕ → Type 0
IsCopy disk old new address position done total =
    ((k : ℕ) → done ≤ k → k < total → new (position + k) ≡ disk (address + k))
    × ((i : ℕ) → i < position + done → new i ≡ old i)
    × ((i : ℕ) → position + total ≤ i → new i ≡ old i)

abbrev part : ℕ → ℕ
part left = if ltb buffsize left then buffsize else left

written : (p n : ℕ) (b f : Image) (i : ℕ) → p ≤ i → i < p + n → fwrite p n b f i ≡ b (i - p)
written p n b f i h g = ground arith

kept_before : (p n : ℕ) (b f : Image) (i : ℕ) → i < p → fwrite p n b f i ≡ f i
kept_before p n b f i h = ground arith

kept_behind : (p n : ℕ) (b f : Image) (i : ℕ) → p + n ≤ i → fwrite p n b f i ≡ f i
kept_behind p n b f i h = ground arith

below_or_not : (a b : ℕ) → (a < b) ⊎ (b ≤ a)
below_or_not a b = elim (Bool-cases (ltb a b)) [
  | inl e ↦ inl (ground arith)
  | inr e ↦ inr (ground arith)
]

-- A part that is read and written, and the copy of the rest.
IsCopy-part :
    (disk old got new : Image) (address position done count total : ℕ)
    → ((k : ℕ) → k < count → got k ≡ disk (address + done + k))
    → done + count ≤ total
    → IsCopy disk (fwrite (position + done) count got old) new address position (done + count) total
    → IsCopy disk old new address position done total
IsCopy-part disk old got new address position done count total read le (copy, before, behind) = (
  λ k ge lt. elim (below_or_not k (done + count)) [
    | inl in_part ↦
        let same : address + done + (k - done) ≡ address + k = omega arith in
        let place : position + k - (position + done) ≡ k - done = omega arith in
        before (position + k) (omega arith)
        ∙ written (position + done) count got old (position + k) (omega arith) (omega arith)
        ∙ ap got place
        ∙ read (k - done) (omega arith)
        ∙ ap disk same
    | inr in_rest ↦ copy k (omega arith) lt
  ],
  λ i lt. before i (omega arith) ∙ kept_before (position + done) count got old i lt,
  λ i le_i. behind i le_i ∙ kept_behind (position + done) count got old i (omega arith),
)

IsCopy-nothing :
    (disk file : Image) (address position done total : ℕ)
    → total ≤ done
    → IsCopy disk file file address position done total
IsCopy-nothing disk file address position done total h =
    (λ k ge lt. absurd (omega arith), λ i lt. refl, λ i le. refl)

nothing_left :
    (x : Xad) (blocksize k : ℕ)
    → length_xad x * blocksize ≡ k * 2 ^ 32
    → ltb 0 (extent_bytes blocksize x) ≡ false
unfolding extent_bytes
nothing_left x blocksize k e = ground arith

write_done :
    (fuel : ℕ) (read : Reader) (blocksize : ℕ) (x : Xad) (buffer file : Image) (done : ℕ)
    → ltb done (extent_bytes blocksize x) ≡ false
    → write_from (suc fuel) read blocksize x buffer file done ≡ some (ok (buffer, file))
unfolding write_from
write_done fuel read blocksize x buffer file done e = rw (e, write_from) refl

write_part :
    (fuel : ℕ) (read : Reader) (blocksize : ℕ) (x : Xad) (buffer file got : Image) (done : ℕ)
    → ltb done (extent_bytes blocksize x) ≡ true
    → read (address_xad x * blocksize + done) (part (extent_bytes blocksize x - done)) buffer
      ≡ ok got
    → write_from (suc fuel) read blocksize x buffer file done
      ≡ write_from fuel read blocksize x got
          (fwrite
            (offset_xad x * blocksize + done)
            (part (extent_bytes blocksize x - done))
            got
            file)
          (done + part (extent_bytes blocksize x - done))
unfolding write_from
write_part fuel read blocksize x buffer file got done e r = rw (e, r, write_from) refl

part-bounds : (left : ℕ) → 0 < left → (0 < part left) × (part left ≤ left)
part-bounds left h = ground arith

part-fuel : (left n : ℕ) → left ≤ suc n * 65536 → left - part left ≤ n * 65536
part-fuel left n h = ground arith

write_from-copies :
    (rounds : ℕ) (read : Reader) (disk : Image) (devsize blocksize : ℕ) (x : Xad)
    (buffer file : Image) (done : ℕ)
    → ReadsDisk read disk devsize
    → address_xad x * blocksize + extent_bytes blocksize x ≤ devsize
    → done ≤ extent_bytes blocksize x
    → extent_bytes blocksize x - done ≤ rounds * 65536
    → (b new : Image) × (write_from (suc rounds) read blocksize x buffer file done
        ≡ some (ok (b, new)))
      × IsCopy disk file new
          (address_xad x * blocksize)
          (offset_xad x * blocksize)
          done
          (extent_bytes blocksize x)
write_from-copies zero read disk devsize blocksize x buffer file done reads on_device le h = (
  buffer,
  file,
  write_done 0 read blocksize x buffer file done (ground arith),
  IsCopy-nothing disk file (address_xad x * blocksize) (offset_xad x * blocksize) done
      (extent_bytes blocksize x) (omega arith),
)
write_from-copies (suc rounds) read disk devsize blocksize x buffer file done reads on_device le h =
    elim (Bool-cases (ltb done (extent_bytes blocksize x))) [
      | inr ended ↦ (
        buffer,
        file,
        write_done (suc rounds) read blocksize x buffer file done ended,
        IsCopy-nothing disk file (address_xad x * blocksize) (offset_xad x * blocksize) done
            (extent_bytes blocksize x) (ground arith),
      )
      | inl more ↦
          let left = extent_bytes blocksize x - done in
          let (some_part, whole) = part-bounds left (ground arith) in
          let (got, e, same) =
            reads (address_xad x * blocksize + done) (part left) buffer some_part
              (omega (arith, whole, le, on_device)) in
          let fewer = part-fuel left rounds h in
          let file' = fwrite (offset_xad x * blocksize + done) (part left) got file in
          let (b, new, f, copy) =
            write_from-copies rounds read disk devsize blocksize x got file' (done + part left)
              reads on_device (omega (arith, whole, le)) (omega (arith, fewer, whole)) in
          (
            b,
            new,
            write_part (suc rounds) read blocksize x buffer file got done more e ∙ f,
            IsCopy-part disk file got new (address_xad x * blocksize) (offset_xad x * blocksize)
                done (part left) (extent_bytes blocksize x) same (omega (arith, whole, le)) copy,
          )
    ]

IsCopy-fwrite :
    (disk old new : Image) (address position total i : ℕ)
    → IsCopy disk old new address position 0 total
    → new i ≡ fwrite position total (shifted disk address) old i
IsCopy-fwrite disk old new address position total i (copy, before, behind) =
    elim (below_or_not i position) [
      | inl lt ↦
          before i (omega arith) ∙ sym (kept_before position total (shifted disk address) old i lt)
      | inr ge ↦ elim (below_or_not i (position + total)) [
        | inl lt ↦
            let place : i ≡ position + (i - position) = omega arith in
            ap new place
            ∙ copy (i - position) (omega arith) (omega arith)
            ∙ sym (written position total (shifted disk address) old i ge lt)
        | inr end ↦ behind i end ∙ sym (kept_behind position total (shifted disk address) old i end)
      ]
    ]

-- On a device whose reads within its size return the bytes of the disk, the copy of an extent that
-- lies within the size ends, with a round for each 65536 bytes and one more. The file is then what one write of the disk's bytes from the
-- extent's address on would make of it, at the extent's offset, and of as many bytes as the product
-- of length and block size is in 32 bits.
pub write_extent_to_file-copies :
    (rounds : ℕ) (read : Reader) (disk : Image) (devsize blocksize : ℕ) (x : Xad)
    (buffer file : Image)
    → ReadsDisk read disk devsize
    → address_xad x * blocksize + extent_bytes blocksize x ≤ devsize
    → extent_bytes blocksize x ≤ rounds * 65536
    → (b new : Image) × (write_extent_to_file (suc rounds) read blocksize x buffer file
        ≡ some (ok (b, new)))
      × ((i : ℕ)
          → new i
            ≡ fwrite
                (offset_xad x * blocksize)
                (extent_bytes blocksize x)
                (shifted disk (address_xad x * blocksize))
                file
                i)
unfolding write_extent_to_file
write_extent_to_file-copies rounds read disk devsize blocksize x buffer file reads on_device h =
    let (b, new, e, copy) =
      write_from-copies rounds read disk devsize blocksize x buffer file 0 reads on_device
        (omega arith) (omega arith) in
    (
      b,
      new,
      e,
      λ i.
          IsCopy-fwrite disk file new (address_xad x * blocksize) (offset_xad x * blocksize)
            (extent_bytes blocksize x) i copy,
    )

-- Of an extent whose length in bytes is a multiple of 2^32, as 2^20 blocks of 4096 bytes, nothing is
-- copied: the file stays as it is.
pub write_extent_to_file-wraps :
    (fuel : ℕ) (read : Reader) (blocksize k : ℕ) (x : Xad) (buffer file : Image)
    → length_xad x * blocksize ≡ k * 2 ^ 32
    → write_extent_to_file (suc fuel) read blocksize x buffer file ≡ some (ok (buffer, file))
unfolding write_extent_to_file
write_extent_to_file-wraps fuel read blocksize k x buffer file e =
    write_done fuel read blocksize x buffer file 0 (nothing_left x blocksize k e)
