-- ===== src/Recoverer/Effects.antt =====
-- src/recoverer.cpp, src/dirinode.cpp, src/fileinode.cpp: what the calls of the recovery come to for
-- each class of objects, as the paths that boost and the file streams are given.
pub mod Prepared
use mathlib.Core.Option
use mathlib.Core.List.{append_assoc}
use jfsrec.Prelude.{
  ℕ, ◌<◌, ◌≡◌, ◌≢◌, refl, sym, ap, ◌∙◌, Bool, true, false, Option, none, some, List, [], ◌∷◌, ◌++◌,
  map, All, has, ◌==◌, ◌||◌, arith, Bool-cases, inl, inr, ==_iff,
}
use jfsrec.Inode.{Ptr, Name, Kind, file, dir, unallocated, symlink, special}
use jfsrec.Vector.{Heap}
use jfsrec.Recoverer.{get_full_path}
use jfsrec.Recoverer.Paths.{
  IsCyclic, IsRanked, HasPath, get_full_path-HasPath, get_full_path-cyclic,
}
use jfsrec.Recoverer.Run.{Call, create_dir, recover_one, recover_dirtree, recover_iterative}

-- `create_directories` of a path, the recovery of a file behind its path, and `last_write_time`.
pub data Effect : Type 0 where
  directories_created : List Name → Effect
  file_recovered : Ptr → List Name → Effect
  write_time_set : List Name → ℕ → Effect

-- `create_dir` of each class.
unfoldable pub dir_created : ℕ → Heap → Ptr → Kind → Option (List Effect)
unfolding get_full_path
dir_created fuel h p dir =
    Option.map (λ path. directories_created path ∷ []) (get_full_path fuel h p)
dir_created fuel h p file = some []
dir_created fuel h p unallocated = some []
dir_created fuel h p symlink = some []
dir_created fuel h p special = some []

-- `recover` of each class; `set_mode` and the other times do nothing.
unfoldable pub recovered : ℕ → Heap → Ptr → Kind → Option (List Effect)
unfolding get_full_path
recovered fuel h p dir =
    Option.map (λ path. write_time_set path (h p).dinode.di_mtime.tv_sec ∷ [])
      (get_full_path fuel h p)
recovered fuel h p file = Option.map (λ path. file_recovered p path ∷ []) (get_full_path fuel h p)
recovered fuel h p unallocated = some []
recovered fuel h p symlink = some []
recovered fuel h p special = some []

unfoldable pub carried_out : ℕ → Heap → Call → Option (List Effect)
unfolding dir_created recovered
carried_out fuel h (create_dir p) = dir_created fuel h p (h p).kind
carried_out fuel h (recover_one p) = recovered fuel h p (h p).kind

abbrev behind : List Effect → Option (List Effect) → Option (List Effect)
behind es none = none
behind es (some rest) = some (es ++ rest)

abbrev then : Option (List Effect) → Option (List Effect) → Option (List Effect)
then none rest = none
then (some es) rest = behind es rest

nothing : (rest : Option (List Effect)) → rest ≡ behind [] rest
nothing none = refl
nothing (some es) = refl

-- Calls one after the other; `none` is a call that does not return.
unfoldable pub carried_out_each : ℕ → Heap → List Call → Option (List Effect)
unfolding carried_out
carried_out_each fuel h [] = some []
carried_out_each fuel h (c ∷ cs) = then (carried_out fuel h c) (carried_out_each fuel h cs)

-- An element stands in a list.
pub data In {A : Type 0} (x : A) : List A → Type 0 where
  here : (xs : List A) → In x (x ∷ xs)
  there : (y : A) (xs : List A) → In x xs → In x (y ∷ xs)

In-left : {A : Type 0} (x : A) (xs ys : List A) → In x xs → In x (xs ++ ys)
In-left x xs ys (here xs') = here (xs' ++ ys)
In-left x xs ys (there y xs' i) = there y (xs' ++ ys) (In-left x xs' ys i)

In-right : {A : Type 0} (x : A) (xs ys : List A) → In x ys → In x (xs ++ ys)
In-right x [] ys i = i
In-right x (y ∷ xs) ys i = there y (xs ++ ys) (In-right x xs ys i)

In-map : {A B : Type 0} (f : A → B) (x : A) (xs : List A) → In x xs → In (f x) (map f xs)
In-map f x xs (here xs') = here (map f xs')
In-map f x xs (there y xs' i) = there (f y) (map f xs') (In-map f x xs' i)

In-has : (p : Ptr) (ps : List Ptr) → has p ps ≡ true → In p ps
In-has p [] e = absurd cc
In-has p (q ∷ ps) e = elim (Bool-cases (p == q)) [
  | inl same ↦ let eq = (==_iff p q).0 same in rw (sym eq) (here ps)
  | inr other ↦ there q ps (In-has p ps (ground (arith, e, other)))
]

All-In : {A : Type 0} (P : A → Type 0) (x : A) (xs : List A) → All P xs → In x xs → P x
All-In P x xs all (here xs') = all.0
All-In P x xs all (there y xs' i) = All-In P x xs' all.1 i

-- The first of two lists of calls ends, and so does the other.
abbrev Parts : Option (List Effect) → Option (List Effect) → List Effect → Type 0
Parts o rest es =
    (fs : List Effect) × (gs : List Effect) × (o ≡ some fs) × (rest ≡ some gs) × (es ≡ fs ++ gs)

then-Parts :
    (o rest : Option (List Effect)) (es : List Effect) → then o rest ≡ some es → Parts o rest es
then-Parts none rest es e = absurd cc
then-Parts (some fs) none es e = absurd cc
then-Parts (some fs) (some gs) es e = let same : es ≡ fs ++ gs = cc in (fs, gs, refl, refl, same)

then-none : (o : Option (List Effect)) → then o none ≡ none
then-none none = refl
then-none (some es) = refl

then-then : (o rest last : Option (List Effect)) → then (then o rest) last ≡ then o (then rest last)
then-then none rest last = refl
then-then (some es) none last = refl
then-then (some es) (some fs) none = refl
then-then (some es) (some fs) (some gs) = ap (λ x. some x) (append_assoc es fs gs)

carried_out_each-append :
    (fuel : ℕ) (h : Heap) (cs ds : List Call)
    → carried_out_each fuel h (cs ++ ds)
      ≡ then (carried_out_each fuel h cs) (carried_out_each fuel h ds)
unfolding carried_out_each
carried_out_each-append fuel h [] ds = nothing (carried_out_each fuel h ds)
carried_out_each-append fuel h (c ∷ cs) ds =
    ap (then (carried_out fuel h c)) (carried_out_each-append fuel h cs ds)
    ∙ sym
        (then-then (carried_out fuel h c) (carried_out_each fuel h cs) (carried_out_each fuel h ds))

-- The effect of a call stands among those of the list.
carried_out_each-In :
    (fuel : ℕ) (h : Heap) (c : Call) (e : Effect) (cs : List Call) (es : List Effect)
    → In c cs
    → carried_out fuel h c ≡ some (e ∷ [])
    → carried_out_each fuel h cs ≡ some es
    → In e es
unfolding carried_out_each
carried_out_each-In fuel h c e cs es (here cs') one all =
    let (fs, gs, f, g, same) =
      then-Parts (carried_out fuel h c) (carried_out_each fuel h cs') es all in
    let first : fs ≡ e ∷ [] = cc in rw (same, first) (here gs)
carried_out_each-In fuel h c e cs es (there d cs' i) one all =
    let (fs, gs, f, g, same) =
      then-Parts (carried_out fuel h d) (carried_out_each fuel h cs') es all in
    rw same (In-right e fs gs (carried_out_each-In fuel h c e cs' gs i one g))

-- A call that does not return ends everything.
carried_out_each-stuck :
    (fuel : ℕ) (h : Heap) (c : Call) (cs : List Call)
    → In c cs
    → carried_out fuel h c ≡ none
    → carried_out_each fuel h cs ≡ none
unfolding carried_out_each
carried_out_each-stuck fuel h c cs (here cs') e = ap (λ o. then o (carried_out_each fuel h cs')) e
carried_out_each-stuck fuel h c cs (there d cs' i) e =
    ap (then (carried_out fuel h d)) (carried_out_each-stuck fuel h c cs' i e)
    ∙ then-none (carried_out fuel h d)
