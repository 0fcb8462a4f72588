-- ===== src/Unicode/Compare.antt =====
-- src/jfs_unicode.h: the length and the comparison of strings.
use jfsrec.Prelude.{
  ℕ, zero, suc, ◌+◌, ◌<◌, ◌≡◌, ◌↔◌, refl, sym, ap, ◌∙◌, true, false, some, inl, inr, List, [], ◌∷◌,
  length, take, ◌==◌, arith, Bool-cases, ==_iff,
}
use jfsrec.Unicode.{uni_strlen, uni_strncmp}

-- A string at a position, of 16-bit characters other than 0, and its end.
abbrev pub IsText : (ℕ → ℕ) → ℕ → List ℕ → Type 0
IsText text i [] = text i ≡ 0
IsText text i (c ∷ cs) = (text i ≡ c) × (0 < c) × (c < 65536) × IsText text (i + 1) cs

pub uni_strlen-IsText :
    (fuel : ℕ) (text : ℕ → ℕ) (i : ℕ) (cs : List ℕ)
    → IsText text i cs
    → length cs < fuel
    → uni_strlen fuel text i ≡ some (i + length cs)
unfolding uni_strlen
uni_strlen-IsText zero text i cs t lt = absurd (omega arith)
uni_strlen-IsText (suc fuel) text i [] t lt = ground (arith, t)
uni_strlen-IsText (suc fuel) text i (c ∷ cs) t lt =
    let some_char : (text i == 0) ≡ false = ground (arith, t.0, t.1) in
    let add : i + 1 + length cs ≡ i + suc (length cs) = omega arith in
    rw some_char (uni_strlen-IsText fuel text (i + 1) cs t.3 (omega (arith, lt)) ∙ ap some add)

differ :
    (text other : ℕ → ℕ) (i n : ℕ)
    → text i < 65536
    → other i < 65536
    → (text i == other i) ≡ false
    → (uni_strncmp text other i (suc n) == 0) ≡ false
unfolding uni_strncmp
differ text other i n h k e = rw e (ground arith)

both_end :
    (text other : ℕ → ℕ) (i n : ℕ) → text i ≡ 0 → other i ≡ 0 → uni_strncmp text other i (suc n) ≡ 0
unfolding uni_strncmp
both_end text other i n e f = rw (e, f) refl

same_character :
    (text other : ℕ → ℕ) (i n c : ℕ)
    → text i ≡ c
    → other i ≡ c
    → 0 < c
    → uni_strncmp text other i (suc n) ≡ uni_strncmp text other (i + 1) n
unfolding uni_strncmp
same_character text other i zero c e f pos = rw (e, f) (ground arith)
same_character text other i (suc n) c e f pos =
    let some_char : (c == 0) ≡ false = ground (arith, pos) in
    let same : (c == c) ≡ true = ground arith in
    let more : (suc n == 0) ≡ false = ground arith in rw (e, f, some_char, same, more) refl

no_characters : (text other : ℕ → ℕ) (i : ℕ) → uni_strncmp text other i 0 ≡ 0
unfolding uni_strncmp
no_characters text other i = refl

cons_iff : (c d : ℕ) (cs ds : List ℕ) → c ≡ d → ((cs ≡ ds) ↔ (c ∷ cs ≡ d ∷ ds))
cons_iff c d cs ds e = (λ f. cc, λ f. cc)

-- `UniStrncmp` answers 0 exactly for strings that agree in their first `n` characters, up to where
-- both end.
pub uni_strncmp_iff :
    (text other : ℕ → ℕ) (i n : ℕ) (cs ds : List ℕ)
    → IsText text i cs
    → IsText other i ds
    → (uni_strncmp text other i n ≡ 0) ↔ (take n cs ≡ take n ds)
uni_strncmp_iff text other i zero cs ds t u = (λ e. refl, λ e. no_characters text other i)
uni_strncmp_iff text other i (suc n) [] [] t u = (λ e. refl, λ e. both_end text other i n t u)
uni_strncmp_iff text other i (suc n) [] (d ∷ ds) t u =
    let no = differ text other i n (ground (arith, t)) (ground (arith, u)) (ground (arith, t, u)) in
    (λ e. absurd (ground (arith, no, e)), λ e. cc)
uni_strncmp_iff text other i (suc n) (c ∷ cs) [] t u =
    let no = differ text other i n (ground (arith, t)) (ground (arith, u)) (ground (arith, t, u)) in
    (λ e. absurd (ground (arith, no, e)), λ e. cc)
uni_strncmp_iff text other i (suc n) (c ∷ cs) (d ∷ ds) t u = elim (Bool-cases (c == d)) [
  | inl same ↦
      let eq = (==_iff c d).0 same in
      let (to, back) = uni_strncmp_iff text other (i + 1) n cs ds t.3 u.3 in
      let (cons, uncons) = cons_iff c d (take n cs) (take n ds) eq in
      let step = same_character text other i n c t.0 (u.0 ∙ sym eq) t.1 in
      (λ e. cons (to (sym step ∙ e)), λ e. step ∙ back (uncons e))
  | inr other_char ↦
      let no =
        differ text other i n (ground (arith, t)) (ground (arith, u))
          (ground (arith, t, u, other_char)) in
      (λ e. absurd (ground (arith, no, e)), λ e. absurd (ground (arith, other_char, e)))
]
