-- ===== src/Device/Probe.antt =====
-- src/device.cpp: `get_size_bytes` on systems that are neither Linux nor DragonFly, which looks for
-- the last readable byte. The answers of fseeko64 and fgetc at a position are an argument.
use jfsrec.Prelude.{
  ℕ, zero, suc, ◌+◌, ◌-◌, ◌*◌, ◌/◌, ◌<◌, ◌≤◌, ◌≡◌, ◌≢◌, refl, Bool, true, false, Option, none, some,
  ltb, ◌==◌, ◌⊎◌, inl, inr, Bool-cases, if◌then◌else◌, arith,
}

pub data Answer : Type 0 where
  no_seek eof : Answer
  got : ℕ → Answer

abbrev pub Positions : Type 0
Positions = ℕ → Answer

-- `Read_Result == 1`, for the result of fgetc held in a `size_t`.
abbrev reads_one : Answer → Bool
reads_one no_seek = false
reads_one eof = false
reads_one (got b) = b == 1

-- The do-while loop that doubles the position, with fuel: the last valid position and the current
-- one behind it.
unfoldable pub doubling : ℕ → Positions → ℕ → ℕ → Option (ℕ × ℕ)
doubling zero at last current = none
doubling (suc fuel) at last current = elim (at current) [
  | no_seek ↦ some (last, current)
  | eof ↦ some (last, current)
  | got b ↦
      let next = (current + 1) * 2 - 1 in
      let again = doubling fuel at current next in if b == 1 then again else some (current, next)
]

-- The loop that halves the gap: `last`, `first_invalid` and `current` as its three positions.
unfoldable pub halving : ℕ → Positions → ℕ → ℕ → ℕ → Option ℕ
halving zero at last first_invalid current = none
halving (suc fuel) at last first_invalid current = elim (ltb 2 (first_invalid - last)) [
  | false ↦ some (last + 1)
  | true ↦
      let missed = halving fuel at last current (last + (current - last) / 2) in
      elim (at current) [
        | no_seek ↦ missed
        | eof ↦ missed
        | got b ↦
            let next = current + (first_invalid - current) / 2 in
            elim (b == 1) [
              | true ↦ halving fuel at current first_invalid next
              | false ↦ halving fuel at current next (current + (next - current) / 2)
            ]
      ]
]

abbrev pub first_position : ℕ
first_position = 16777215

-- From the first loop to the size. The last argument says whether the position 0 can be read.
unfoldable pub size_by_probing : ℕ → ℕ → Positions → Option ℕ
unfolding doubling halving
size_by_probing fuel fuel' at = elim (doubling fuel at 0 first_position) [
  | none ↦ none
  | some (last, current) ↦
      if last == 0
      then some (elim (at 0) [ no_seek ↦ 0 | eof ↦ 0 | got b ↦ 1 ])
      else halving fuel' at last current (last + (current - last) / 2)
]

-- Where the halving loop is entered: the position to test lies between the other two, strictly
-- while they are more than two apart.
record IsBracket (last first_invalid current : ℕ) : Type 0 where
  low : last ≤ current
  high : current ≤ first_invalid
  inside : last + 2 < first_invalid → (last < current) × (current < first_invalid)

Answer-cases : (a : Answer) → (a ≡ no_seek) ⊎ (a ≡ eof) ⊎ ((b : ℕ) × (a ≡ got b))
Answer-cases no_seek = inl refl
Answer-cases eof = inr (inl refl)
Answer-cases (got b) = inr (inr (b, refl))

-- The loop ends in a size that lies between the bounds.
abbrev pub EndsIn : Option ℕ → ℕ → ℕ → Type 0
EndsIn o low high = (size : ℕ) × (o ≡ some size) × (low < size) × (size ≤ high + 1)

widen :
    {o : Option ℕ} {low high low' high' : ℕ}
    → EndsIn o low high
    → low' ≤ low
    → high ≤ high'
    → EndsIn o low' high'
widen (n, e, p, q) h k = (n, e, omega arith, omega arith)

halving-returns :
    (fuel : ℕ) (at : Positions) (last first_invalid current : ℕ)
    → IsBracket last first_invalid current
    → first_invalid - last < fuel
    → EndsIn (halving fuel at last first_invalid current) last first_invalid
unfolding halving
halving-returns zero at l f c b h = elim h [ ]
halving-returns (suc fuel) at l f c b h = elim (Bool-cases (ltb 2 (f - l))) [
  | inr near ↦ (l + 1, rw (near, halving), omega arith, omega (arith, b.low, b.high))
  | inl far ↦
      let wide : l + 2 < f = ground arith in
      let (above, below) = b.inside wide in
      let missed =
        halving-returns fuel at l c (l + (c - l) / 2)
          (record { low = omega arith; high = omega arith; inside = λ w. omega arith })
          (omega arith) in
      elim (Answer-cases (at c)) [
        | inl e ↦ rw (far, e, halving) (widen missed (omega arith) (omega arith))
        | inr (inl e) ↦ rw (far, e, halving) (widen missed (omega arith) (omega arith))
        | inr (inr (v, e)) ↦ elim (Bool-cases (v == 1)) [
          | inl one ↦
              rw (far, e, one, halving)
                (widen
                  (halving-returns fuel at c f (c + (f - c) / 2)
                    (record { low = omega arith; high = omega arith; inside = λ w. omega arith })
                    (omega arith))
                  (omega arith) (omega arith))
          | inr other ↦
              let next = c + (f - c) / 2 in
              rw (far, e, other, halving)
                (widen
                  (halving-returns fuel at c next (c + (next - c) / 2)
                    (record { low = omega arith; high = omega arith; inside = λ w. omega arith })
                    (omega arith))
                  (omega arith) (omega arith))
        ]
      ]
]

-- Where the byte at offset 16777215 can be read and is not 1, the first loop stops after one round,
-- and the size found is above 16777215 and at most 33554432, however large the partition is. One
-- round of fuel is enough for the first loop, and one more than 16777216 for the second.
pub size_by_probing-small :
    (fuel fuel' : ℕ) (at : Positions) (b : ℕ)
    → 0 < fuel
    → 16777216 < fuel'
    → at first_position ≡ got b
    → b ≢ 1
    → EndsIn (size_by_probing fuel fuel' at) first_position 33554431
unfolding size_by_probing
size_by_probing-small zero fuel' at b f g e n = elim f [ ]
size_by_probing-small (suc fuel) fuel' at b f g e n =
    let other : (b == 1) ≡ false = ground arith in
    rw (e, other, doubling, size_by_probing)
      (halving-returns fuel' at 16777215 33554431 25165823
        (record { low = omega arith; high = omega arith; inside = λ w. omega arith }) (omega arith))
