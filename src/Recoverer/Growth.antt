-- ===== src/Recoverer/Growth.antt =====
-- src/recoverer.cpp: what the two loops share that validate invalidated inodes while they run: the
-- vector grows, by inodes whose numbers it did not have, so that it can only grow so far.
pub mod Loop
use jfsrec.Prelude.{
  ℕ, zero, suc, ◌+◌, ◌<◌, ◌≤◌, ◌≡◌, ◌≢◌, refl, sym, ap, ◌∙◌, Bool, true, false, ◌||◌, Option, none,
  some, inl, inr, List, [], ◌∷◌, ◌++◌, map, All, All-append, has, has-append, length, length-append,
  ◌==◌, if◌then◌else◌, arith, Bool-cases, ==_iff,
}
use mathlib.Core.List.{append_assoc}
use jfsrec.Inode.{Ptr, Inode}
use jfsrec.Vector.{Heap, InodeVector, invalidated_from, add_inode}
use jfsrec.Vector.Index.{Answers, IsIndex}
use jfsrec.Vector.Same.{Same, Same-refl, Same-trans, IsValid-Same}
use jfsrec.Vector.Lookup.{IsValid, members, add_inode-IsValid}

abbrev numbers : Heap → List Ptr → List ℕ
numbers h ps = map (λ p. (h p).di_number) ps

-- How many objects of `out` have a number that no object of `ps` has.
unfoldable pub missing : Heap → List Ptr → List Ptr → ℕ
missing h ps [] = 0
missing h ps (p ∷ out) =
    if has (h p).di_number (numbers h ps) then missing h ps out else suc (missing h ps out)

pub missing-le : (h : Heap) (ps out : List Ptr) → missing h ps out ≤ length out
unfolding missing
missing-le h ps [] = omega arith
missing-le h ps (p ∷ out) = ground (arith, missing-le h ps out)

numbers-Same : (h h' : Heap) (ps : List Ptr) → Same h h' → numbers h' ps ≡ numbers h ps
numbers-Same h h' [] same = refl
numbers-Same h h' (p ∷ ps) same = rw ((same p).0, numbers-Same h h' ps same) refl

pub missing-Same :
    (h h' : Heap) (ps out : List Ptr) → Same h h' → missing h' ps out ≡ missing h ps out
unfolding missing
missing-Same h h' ps [] same = refl
missing-Same h h' ps (p ∷ out) same =
    rw ((same p).0, numbers-Same h h' ps same, missing-Same h h' ps out same) refl

has-numbers :
    (h : Heap) (d : ℕ) (ps : List Ptr) (p : Ptr)
    → has d (numbers h (ps ++ p ∷ [])) ≡ (has d (numbers h ps) || (d == (h p).di_number))
has-numbers h d [] p = ground arith
has-numbers h d (q ∷ ps) p = ground (arith, has-numbers h d ps p)

missing-append-le :
    (h : Heap) (ps : List Ptr) (p : Ptr) (out : List Ptr)
    → missing h (ps ++ p ∷ []) out ≤ missing h ps out
unfolding missing
missing-append-le h ps p [] = omega arith
missing-append-le h ps p (q ∷ out) =
    ground (arith, has-numbers h (h q).di_number ps p, missing-append-le h ps p out)

missing-head :
    (h : Heap) (ps : List Ptr) (q : Ptr) (out : List Ptr)
    → has (h q).di_number (numbers h ps) ≡ false
    → missing h (ps ++ q ∷ []) (q ∷ out) < missing h ps (q ∷ out)
unfolding missing
missing-head h ps q out e =
    ground (arith, has-numbers h (h q).di_number ps q, missing-append-le h ps q out)

missing-same :
    (h : Heap) (ps : List Ptr) (p q : Ptr) (out : List Ptr)
    → p ≡ q
    → has (h p).di_number (numbers h ps) ≡ false
    → missing h (ps ++ p ∷ []) (q ∷ out) < missing h ps (q ∷ out)
missing-same h ps p q out same e =
    let at_q : has (h q).di_number (numbers h ps) ≡ false = rw same at e in
    rw same (missing-head h ps q out at_q)

-- An object with a new number makes fewer objects miss.
missing-append-lt :
    (h : Heap) (ps : List Ptr) (p : Ptr) (out : List Ptr)
    → has p out ≡ true
    → has (h p).di_number (numbers h ps) ≡ false
    → missing h (ps ++ p ∷ []) out < missing h ps out
unfolding missing
missing-append-lt h ps p [] m e = cc
missing-append-lt h ps p (q ∷ out) m e = elim (Bool-cases (p == q)) [
  | inl same ↦ missing-same h ps p q out ((==_iff p q).0 same) e
  | inr other ↦ ground (arith, has-numbers h (h q).di_number ps p, missing-append-lt h ps p out)
]

-- A number that a look-up does not find is no member's.
has-numbers-none :
    (h : Heap) (d : ℕ) (ps : List Ptr)
    → ((q : Ptr) → has q ps ≡ true → (h q).di_number ≢ d)
    → has d (numbers h ps) ≡ false
has-numbers-none h d [] a = refl
has-numbers-none h d (p ∷ ps) a =
    let first = a p (ground arith) in
    ground (arith, has-numbers-none h d ps (λ q e. a q (ground arith)), first)

pub has-invalidated :
    (h : Heap) (out : List Ptr) (d : ℕ) (p : Ptr)
    → has p (invalidated_from h out d) ≡ true
    → (has p out ≡ true) × ((h p).di_number ≡ d)
unfolding invalidated_from
has-invalidated h [] d p m = cc
has-invalidated h (q ∷ out) d p m =
    ground (arith, has-invalidated h out d p, ==_iff p q, ap (λ x. (h x).di_number))

-- What a step of the loops does to the objects and the vector: numbers and dinodes stay, the
-- invalidated inodes too, and the vector grows by some of them, with numbers it did not have.
pub record Grown (h : Heap) (v : InodeVector) (h' : Heap) (v' : InodeVector) : Type 0 where
  pub same : Same h h'
  pub valid : IsValid h' v'
  pub out : v'.invalidated_inodes ≡ v.invalidated_inodes
  pub extra : List Ptr
  pub grows : v'.inodes ≡ v.inodes ++ extra
  pub from_out : All (λ p. has p v.invalidated_inodes ≡ true) extra
  pub bound :
      length extra + missing h v'.inodes v.invalidated_inodes
      ≤ missing h v.inodes v.invalidated_inodes

append_nil : (ps : List Ptr) → ps ++ [] ≡ ps
append_nil [] = refl
append_nil (p ∷ ps) = ap (λ x. p ∷ x) (append_nil ps)

-- Only the objects change.
pub Grown-heap :
    (h h' : Heap) (v v' : InodeVector)
    → Same h h'
    → IsValid h v'
    → v'.inodes ≡ v.inodes
    → v'.invalidated_inodes ≡ v.invalidated_inodes
    → Grown h v h' v'
Grown-heap h h' v v' same valid e f = record {
  same = same;
  valid = IsValid-Same h h' v' same valid;
  out = f;
  extra = [];
  grows = e ∙ sym (append_nil v.inodes);
  from_out = tt;
  bound = rw e (omega arith);
}

-- An invalidated inode is added whose number no member has.
pub Grown-add :
    (h : Heap) (v : InodeVector) (d : ℕ) (p : Ptr)
    → IsValid h v
    → ((q : Ptr) → has q v.inodes ≡ true → (h q).di_number ≢ d)
    → has p (invalidated_from h v.invalidated_inodes d) ≡ true
    → Grown h v h (add_inode h v p)
Grown-add h v d p valid absent m =
    let (valid', e, f) = add_inode-IsValid h v p valid in
    let (in_out, number) = has-invalidated h v.invalidated_inodes d p m in
    let new : has (h p).di_number (numbers h v.inodes) ≡ false =
      rw number (has-numbers-none h d v.inodes absent) in
    record {
      same = Same-refl h;
      valid = valid';
      out = f;
      extra = p ∷ [];
      grows = e;
      from_out = (in_out, tt);
      bound = rw e (omega (arith, missing-append-lt h v.inodes p v.invalidated_inodes in_out new));
    }

All-along :
    (o o' : List Ptr) (xs : List Ptr)
    → o ≡ o'
    → All (λ p. has p o ≡ true) xs
    → All (λ p. has p o' ≡ true) xs
All-along o o' [] e all = tt
All-along o o' (x ∷ xs) e all = (ap (has x) (sym e) ∙ all.0, All-along o o' xs e all.1)

pub Grown-trans :
    (h h' h'' : Heap) (v v' v'' : InodeVector)
    → Grown h v h' v'
    → Grown h' v' h'' v''
    → Grown h v h'' v''
Grown-trans h h' h'' v v' v'' a b = record {
  same = Same-trans h h' h'' a.same b.same;
  valid = b.valid;
  out = b.out ∙ a.out;
  extra = a.extra ++ b.extra;
  grows = b.grows ∙ ap (λ x. x ++ b.extra) a.grows ∙ append_assoc v.inodes a.extra b.extra;
  from_out =
      All-append (λ p. has p v.invalidated_inodes ≡ true) a.extra b.extra a.from_out
        (All-along v'.invalidated_inodes v.invalidated_inodes b.extra a.out b.from_out);
  bound = omega (
    arith,
    length-append a.extra b.extra,
    a.bound,
    b.bound,
    ap (λ o. missing h' v''.inodes o) a.out,
    ap (λ o. missing h' v'.inodes o) a.out,
    missing-Same h h' v''.inodes v.invalidated_inodes a.same,
    missing-Same h h' v'.inodes v.invalidated_inodes a.same,
  );
}
