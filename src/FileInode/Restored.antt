-- ===== src/FileInode/Restored.antt =====
-- src/fileinode.cpp: what the file that `save_file` writes holds.
use native.Mathlib.Nat.{mul-le-mul_left}
use jfsrec.Prelude.{
  ℕ, suc, ◌+◌, ◌-◌, ◌*◌, ◌^◌, ◌≤◌, ◌<◌, ◌≡◌, ◌≢◌, refl, ◌∙◌, true, false, some, inl, inr, List, [],
  ◌∷◌, All, ltb, leb, ◌&&◌, ◌==◌, if◌then◌else◌, arith, Bool-cases,
}
use jfsrec.Device.{ok}
use jfsrec.Device.Reads.{ReadsDisk}
use jfsrec.Disk.{Image, Xad, shifted}
use jfsrec.Disk.Extent.{address_xad, offset_xad, length_xad}
use jfsrec.FileInode.{
  Reader, extent_bytes, fwrite, write_extent_to_file, write_each, num_entries, page_xads, save_file,
  get_internal_xtpage,
}
use jfsrec.FileInode.Copy.{write_extent_to_file-copies}
use jfsrec.FileInode.Tree.{IsTree, page_xads-IsTree}
use jfsrec.FileInode.Sane.{Apart, xads_sane, xads_sane-Apart}

-- The byte that belongs at `i`: that of the disk in the extent which holds it, or else that of `old`.
unfoldable pub content : Image → ℕ → List Xad → Image → Image
content disk blocksize [] old i = old i
content disk blocksize (x ∷ xs) old i =
    let start = offset_xad x * blocksize in
    if leb start i && ltb i (start + length_xad x * blocksize)
    then disk (address_xad x * blocksize + (i - start))
    else content disk blocksize xs old i

-- An extent of less than 4 GiB that lies within the device and can be copied in so many rounds.
pub record IsCopied (rounds blocksize devsize : ℕ) (x : Xad) : Type 0 where
  pub on_device : address_xad x * blocksize + length_xad x * blocksize ≤ devsize
  pub narrow : length_xad x * blocksize < 2 ^ 32
  pub short : length_xad x * blocksize ≤ rounds * 65536

content-behind :
    (disk : Image) (blocksize e : ℕ) (xs : List Xad) (old : Image) (i : ℕ)
    → All (λ y. e ≤ offset_xad y) xs
    → i < e * blocksize
    → content disk blocksize xs old i ≡ old i
unfolding content
content-behind disk blocksize e [] old i all lt = refl
content-behind disk blocksize e (y ∷ ys) old i all lt =
    let le : blocksize * e ≤ blocksize * offset_xad y = mul-le-mul_left blocksize all.0 in
    let out : leb (offset_xad y * blocksize) i ≡ false = ground (arith, le, lt) in
    rw out (content-behind disk blocksize e ys old i all.1 lt)

content-ap :
    (disk : Image) (blocksize : ℕ) (xs : List Xad) (old other : Image) (i : ℕ)
    → old i ≡ other i
    → content disk blocksize xs old i ≡ content disk blocksize xs other i
unfolding content
content-ap disk blocksize [] old other i e = e
content-ap disk blocksize (x ∷ xs) old other i e =
    ground (arith, content-ap disk blocksize xs old other i e)

fwrite-inside :
    (p n m : ℕ) (b f : Image) (i : ℕ)
    → m ≡ n
    → (leb p i && ltb i (p + n)) ≡ true
    → fwrite p m b f i ≡ b (i - p)
fwrite-inside p n m b f i same e = rw same (ground arith)

fwrite-outside :
    (p n m : ℕ) (b f : Image) (i : ℕ)
    → m ≡ n
    → (leb p i && ltb i (p + n)) ≡ false
    → fwrite p m b f i ≡ f i
fwrite-outside p n m b f i same e = rw same (ground arith)

-- What the first extent writes is not overwritten by those behind it.
content-first :
    (disk : Image) (blocksize : ℕ) (x : Xad) (xs : List Xad) (old file : Image) (i : ℕ)
    → length_xad x * blocksize < 2 ^ 32
    → Apart (x ∷ xs)
    → file i
      ≡ fwrite
          (offset_xad x * blocksize)
          (extent_bytes blocksize x)
          (shifted disk (address_xad x * blocksize))
          old
          i
    → content disk blocksize xs file i ≡ content disk blocksize (x ∷ xs) old i
unfolding content extent_bytes
content-first disk blocksize x xs old file i narrow apart e =
    let start = offset_xad x * blocksize in
    let whole : extent_bytes blocksize x ≡ length_xad x * blocksize = omega (arith, narrow) in
    elim (Bool-cases (leb start i && ltb i (start + length_xad x * blocksize))) [
      | inl inside ↦ rw inside (
          content-behind disk blocksize (offset_xad x + length_xad x) xs file i apart.0
            (ground arith)
          ∙ e
          ∙ fwrite-inside start (length_xad x * blocksize) (extent_bytes blocksize x)
              (shifted disk (address_xad x * blocksize)) old i whole inside)
      | inr outside ↦ rw outside (
          content-ap disk blocksize xs file old i (
            e
            ∙ fwrite-outside start (length_xad x * blocksize) (extent_bytes blocksize x)
                (shifted disk (address_xad x * blocksize)) old i whole outside))
    ]

rounds-suffice :
    (rounds blocksize devsize : ℕ) (x : Xad)
    → IsCopied rounds blocksize devsize x
    → (extent_bytes blocksize x ≤ rounds * 65536)
      × (address_xad x * blocksize + extent_bytes blocksize x ≤ devsize)
unfolding extent_bytes
rounds-suffice rounds blocksize devsize x c =
    (omega (arith, c.narrow, c.short), omega (arith, c.narrow, c.on_device))

write_each-step :
    (fuel : ℕ) (read : Reader) (blocksize : ℕ) (x : Xad) (xs : List Xad)
    (buffer file b file' : Image)
    → write_extent_to_file fuel read blocksize x buffer file ≡ some (ok (b, file'))
    → write_each fuel read blocksize (x ∷ xs) buffer file
      ≡ write_each fuel read blocksize xs b file'
unfolding write_each
write_each-step fuel read blocksize x xs buffer file b file' e = rw (e, write_each) refl

write_each-content :
    (rounds : ℕ) (read : Reader) (disk : Image) (devsize blocksize : ℕ) (xs : List Xad)
    (buffer file : Image)
    → ReadsDisk read disk devsize
    → All (IsCopied rounds blocksize devsize) xs
    → Apart xs
    → (b new : Image) × (write_each (suc rounds) read blocksize xs buffer file ≡ some (ok (b, new)))
      × ((i : ℕ) → new i ≡ content disk blocksize xs file i)
unfolding write_each content
write_each-content rounds read disk devsize blocksize [] buffer file reads all apart =
    (buffer, file, refl, λ i. refl)
write_each-content rounds read disk devsize blocksize (x ∷ xs) buffer file reads all apart =
    let one = all.0 in
    let (b, file', e, copied) =
      write_extent_to_file-copies rounds read disk devsize blocksize x buffer file reads
        (rounds-suffice rounds blocksize devsize x one).1
        (rounds-suffice rounds blocksize devsize x one).0 in
    let (b', new, f, same) =
      write_each-content rounds read disk devsize blocksize xs b file' reads all.1 apart.1 in
    (
      b',
      new,
      write_each-step (suc rounds) read blocksize x xs buffer file b file' e ∙ f,
      λ i. same i ∙ content-first disk blocksize x xs file file' i one.narrow apart (copied i),
    )

save_file-step :
    (depth fuel : ℕ) (read : Reader) (blocksize di_size : ℕ) (stale buffer root b file : Image)
    {xs : List Xad}
    → num_entries root ≢ 0
    → page_xads (get_internal_xtpage depth read blocksize stale) root ≡ some (ok xs)
    → write_each fuel read blocksize xs buffer (λ i. 0) ≡ some (ok (b, file))
    → save_file depth fuel read blocksize stale buffer di_size root ≡ some (ok (file, di_size))
unfolding save_file
save_file-step depth fuel read blocksize di_size stale buffer root b file some_entry e f =
    let more : (num_entries root == 0) ≡ false = ground (arith, some_entry) in
    rw (more, e, f, save_file) refl

-- On a device whose reads within its size return the bytes of the disk, of a file whose extents are
-- in a tree of pages, and are sane, of less than 4 GiB, within the size and in reach of the fuel,
-- `save_file` writes every extent's bytes of the disk to its offset, and ends the file at
-- its size. What no extent holds is zero.
pub save_file-restores :
    (depth rounds : ℕ) (read : Reader) (disk : Image) (devsize blocksize di_size : ℕ)
    (stale buffer root : Image) (xs : List Xad)
    → ReadsDisk read disk devsize
    → num_entries root ≢ 0
    → IsTree depth read blocksize stale root xs
    → All (IsCopied rounds blocksize devsize) xs
    → xads_sane blocksize di_size xs ≡ some true
    → (file : Image) × (save_file depth (suc rounds) read blocksize stale buffer di_size root
        ≡ some (ok (file, di_size)))
      × ((i : ℕ) → file i ≡ content disk blocksize xs (λ k. 0) i)
save_file-restores depth rounds read disk devsize blocksize di_size stale buffer root xs reads
      some_entry tree all sane =
    let (b, file, e, same) =
      write_each-content rounds read disk devsize blocksize xs buffer (λ k. 0) reads all
        (xads_sane-Apart blocksize di_size xs sane) in
    (
      file,
      save_file-step depth (suc rounds) read blocksize di_size stale buffer root b file some_entry
          (page_xads-IsTree depth read blocksize stale root xs tree) e,
      same,
    )
