-- ===== src/Inode/Cache/Cells.antt =====
-- src/inode.cpp: which object a dinode in memory belongs to, and what it takes to change a cell.
use jfsrec.Prelude.{
  ℕ, ◌≡◌, ◌≢◌, ◌⊎◌, sym, ap, ◌∙◌, true, false, Option, none, some, inl, inr, List, has, ◌==◌,
  if◌then◌else◌, arith, Bool-cases, ==_iff,
}
use jfsrec.Inode.{Ptr}
use jfsrec.Inode.Cache.{Cell, Memory, put}

-- The address that an object's pointer holds while its dinode is available.
abbrev pub owned : Cell → Option ℕ
owned c = if c.dinode_available then c.dinode else none

-- Available dinodes are live, and no two objects have the same.
pub record IsOwned (m : Memory) : Type 0 where
  pub set :
      (p : Ptr) → (m.cells p).dinode_available ≡ true → (a : ℕ) × ((m.cells p).dinode ≡ some a)
  pub alive : (p : Ptr) (a : ℕ) → owned (m.cells p) ≡ some a → has a m.live ≡ true
  pub apart : (p q : Ptr) (a : ℕ) → owned (m.cells p) ≡ some a → owned (m.cells q) ≡ some a → p ≡ q

put-cases :
    (cells : Ptr → Cell) (p : Ptr) (c : Cell) (q : Ptr)
    → ((q ≡ p) × (put cells p c q ≡ c)) ⊎ (((q == p) ≡ false) × (put cells p c q ≡ cells q))
unfolding put
put-cases cells p c q = elim (Bool-cases (q == p)) [
  | inl same ↦ inl ((==_iff q p).0 same, ground arith)
  | inr other ↦ inr (other, ground arith)
]

-- A cell and the live addresses change; the other objects keep theirs, and the new cell has an
-- address of its own, if it has one.
pub put-IsOwned :
    (m : Memory) (p : Ptr) (c : Cell) (live : List ℕ)
    → IsOwned m
    → (c.dinode_available ≡ true → (a : ℕ) × (c.dinode ≡ some a))
    → ((a : ℕ) → owned c ≡ some a → has a live ≡ true)
    → ((q : Ptr) (a : ℕ) → (q == p) ≡ false → owned (m.cells q) ≡ some a → has a live ≡ true)
    → ((q : Ptr) (a : ℕ) → (q == p) ≡ false → owned c ≡ some a → owned (m.cells q) ≢ some a)
    → IsOwned (record { cells = put m.cells p c; live = live })
put-IsOwned m p c live o set alive others distinct = record {
  set = λ q e. elim (put-cases m.cells p c q) [
    | inl (same, k) ↦ rw k (set (sym (ap (λ x. x.dinode_available) k) ∙ e))
    | inr (other, k) ↦ rw k (o.set q (sym (ap (λ x. x.dinode_available) k) ∙ e))
  ];
  alive = λ q a e. elim (put-cases m.cells p c q) [
    | inl (same, k) ↦ alive a (sym (ap owned k) ∙ e)
    | inr (other, k) ↦ others q a other (sym (ap owned k) ∙ e)
  ];
  apart = λ q r a e f. elim (put-cases m.cells p c q) [
    | inl (same, k) ↦ elim (put-cases m.cells p c r) [
      | inl (also, l) ↦ same ∙ sym also
      | inr (other, l) ↦ absurd (distinct r a other (sym (ap owned k) ∙ e) (sym (ap owned l) ∙ f))
    ]
    | inr (other, k) ↦ elim (put-cases m.cells p c r) [
      | inl (also, l) ↦ absurd (distinct q a other (sym (ap owned l) ∙ f) (sym (ap owned k) ∙ e))
      | inr (another, l) ↦ o.apart q r a (sym (ap owned k) ∙ e) (sym (ap owned l) ∙ f)
    ]
  ];
}

-- What `operator new` promises: the address is not one of a live object.
abbrev pub IsAllocator : (List ℕ → ℕ) → Type 0
IsAllocator alloc = (live : List ℕ) → has (alloc live) live ≡ false

-- Memory that is allocated and that no object will delete.
pub record IsLost (a : ℕ) (m : Memory) : Type 0 where
  pub alive : has a m.live ≡ true
  pub orphan : (q : Ptr) → owned (m.cells q) ≢ some a

pub put-IsLost :
    (a : ℕ) (m : Memory) (p : Ptr) (c : Cell) (live : List ℕ)
    → ((q : Ptr) → owned (m.cells q) ≢ some a)
    → has a live ≡ true
    → owned c ≢ some a
    → IsLost a (record { cells = put m.cells p c; live = live })
put-IsLost a m p c live others h n = record {
  alive = h;
  orphan = λ q e. elim (put-cases m.cells p c q) [
    | inl (same, k) ↦ n (sym (ap owned k) ∙ e)
    | inr (other, k) ↦ others q (sym (ap owned k) ∙ e)
  ];
}

-- What is lost stays lost.
abbrev pub Keeps : Memory → Memory → Type 0
Keeps m m' = (a : ℕ) → IsLost a m → IsLost a m'

-- No dinode becomes available, and that of `p` is not.
abbrev pub Frees : Ptr → Memory → Memory → Type 0
Frees p m m' =
    ((m'.cells p).dinode_available ≡ false)
    × ((q : Ptr) → (m.cells q).dinode_available ≡ false → (m'.cells q).dinode_available ≡ false)

pub put-Frees :
    (m : Memory) (p : Ptr) (c : Cell) (live : List ℕ)
    → c.dinode_available ≡ false
    → Frees p m (record { cells = put m.cells p c; live = live })
put-Frees m p c live h = (
  elim (put-cases m.cells p c p) [
    | inl (same, k) ↦ ap (λ x. x.dinode_available) k ∙ h
    | inr (other, k) ↦ absurd (ground (arith, other))
  ],
  λ q e. elim (put-cases m.cells p c q) [
    | inl (same, k) ↦ ap (λ x. x.dinode_available) k ∙ h
    | inr (other, k) ↦ ap (λ x. x.dinode_available) k ∙ e
  ],
)
