-- ===== src/Scanner/Sweep/Found.antt =====
-- src/inodescanner.cpp: where the inodes stand that a sweep finds, and how it goes on behind one.
use jfsrec.Prelude.{
  ℕ, zero, suc, ◌+◌, ◌-◌, ◌*◌, ◌<◌, ◌≤◌, ◌≡◌, refl, sym, ap, ◌∙◌, Option, none, some, List, [], ◌∷◌,
  ◌++◌, All, arith,
}
use jfsrec.Disk.{Image}
use jfsrec.Inode.{Inode, create_if_sane}
use jfsrec.Inode.Factory.{create_if_sane-offset}
use jfsrec.Scanner.{slot, keep, scan_chunk}

-- The inode was made from a place of the disk below a bound.
abbrev pub IsFound : Image → ℕ → Inode → Type 0
IsFound disk n i =
    (k : ℕ) × (k < n)
    × (i.byte_offset ≡ k * 512)
    × (create_if_sane (slot disk k) (k * 512) ≡ some i)

pub keep-All :
    (P : Inode → Type 0) (o : Option Inode) (rest : List Inode)
    → ((i : Inode) → o ≡ some i → P i)
    → All P rest
    → All P (keep o rest)
keep-All P none rest one all = all
keep-All P (some i) rest one all = (one i refl, all)

pub scan_chunk-IsFound :
    (disk : Image) (count from n : ℕ)
    → from + count ≤ n
    → All (IsFound disk n) (scan_chunk disk 0 count from)
unfolding scan_chunk
scan_chunk-IsFound disk zero from n le = tt
scan_chunk-IsFound disk (suc count) from n le =
    keep-All (IsFound disk n) (create_if_sane (slot disk from) (0 + from * 512))
      (scan_chunk disk 0 count (from + 1))
      (λ i e.
        let same : 0 + from * 512 ≡ from * 512 = omega arith in
        (
          from,
          omega (arith, le),
          create_if_sane-offset (slot disk from) (0 + from * 512) i e ∙ same,
          ap (create_if_sane (slot disk from)) (sym same) ∙ e,
        ))
      (scan_chunk-IsFound disk count (from + 1) n (omega (arith, le)))

abbrev pub last_of : Inode → List Inode → Inode
last_of i [] = i
last_of i (j ∷ is) = last_of j is

-- The place behind the last of the first inodes found, and what the sweep finds from there on.
abbrev pub GoesOn : Image → ℕ → ℕ → Inode → List Inode → Type 0
GoesOn disk from n i post =
    (b : ℕ) × (i.byte_offset + 512 ≡ b * 512)
    × (b ≤ from + n)
    × (post ≡ scan_chunk disk 0 (from + n - b) b)

GoesOn-suc :
    (disk : Image) (from n : ℕ) (i : Inode) (post : List Inode)
    → GoesOn disk (from + 1) n i post
    → GoesOn disk from (suc n) i post
GoesOn-suc disk from n i post (b, e, le, f) =
    let same : from + 1 + n - b ≡ from + suc n - b = omega arith in
    (b, e, omega (arith, le), f ∙ ap (λ (k : ℕ). scan_chunk disk 0 k b) same)

keep-GoesOn :
    (disk : Image) (from n : ℕ) (o : Option Inode) (i : Inode) (is post : List Inode)
    → ((j : Inode) → o ≡ some j → j.byte_offset ≡ from * 512)
    → ((j : Inode) (js : List Inode)
        → scan_chunk disk 0 n (from + 1) ≡ j ∷ js ++ post
        → GoesOn disk (from + 1) n (last_of j js) post)
    → keep o (scan_chunk disk 0 n (from + 1)) ≡ i ∷ is ++ post
    → GoesOn disk from (suc n) (last_of i is) post
keep-GoesOn disk from n none i is post place rest e =
    GoesOn-suc disk from n (last_of i is) post (rest i is e)
keep-GoesOn disk from n (some j) i [] post place rest e =
    let same : j ≡ i = cc in
    let behind : scan_chunk disk 0 n (from + 1) ≡ post = cc in
    let here : i.byte_offset ≡ from * 512 = ap (λ x. x.byte_offset) (sym same) ∙ place j refl in
    let whole : n ≡ from + suc n - (from + 1) = omega arith in
    (
      from + 1,
      omega (arith, here),
      omega arith,
      sym behind ∙ ap (λ (m : ℕ). scan_chunk disk 0 m (from + 1)) whole,
    )
keep-GoesOn disk from n (some j) i (k ∷ is) post place rest e =
    GoesOn-suc disk from n (last_of k is) post (rest k is cc)

pub scan_chunk-GoesOn :
    (disk : Image) (n from : ℕ) (i : Inode) (is post : List Inode)
    → scan_chunk disk 0 n from ≡ i ∷ is ++ post
    → GoesOn disk from n (last_of i is) post
unfolding scan_chunk
scan_chunk-GoesOn disk zero from i is post e = absurd cc
scan_chunk-GoesOn disk (suc n) from i is post e =
    keep-GoesOn disk from n (create_if_sane (slot disk from) (0 + from * 512)) i is post
      (λ j f. create_if_sane-offset (slot disk from) (0 + from * 512) j f ∙ omega arith)
      (λ j js f. scan_chunk-GoesOn disk n (from + 1) j js post f) e
