-- ===== src/Inode/Cache.antt =====
-- src/inode.cpp: the dinodes that `get_dinode` reads into memory and `free_dinode` deletes, for all
-- objects together. The allocator is an argument.
pub mod Cells
pub mod Owners
pub mod Freed
use jfsrec.Prelude.{
  ℕ, Bool, true, false, not, Option, none, some, List, [], ◌∷◌, has, select, ◌==◌, if◌then◌else◌,
}
use jfsrec.Device.{Read, ok, invalid_read}
use jfsrec.Disk.{Image}
use jfsrec.Inode.{Ptr}

-- The two mutable members; `none` is a pointer that was not set.
pub record Cell : Type 0 where
  pub dinode_available : Bool
  pub dinode : Option ℕ

-- The cells of the objects, and the addresses that were allocated and not deleted.
pub record Memory : Type 0 where
  pub cells : Ptr → Cell
  pub live : List ℕ

unfoldable pub put : (Ptr → Cell) → Ptr → Cell → Ptr → Cell
put cells p c q = if q == p then c else cells q

-- As `delete`: an address that is not live is undefined behaviour, and so is a pointer that was not
-- set.
unfoldable pub delete : Option ℕ → List ℕ → Option (List ℕ)
delete none live = none
delete (some a) live = if has a live then some (select (λ b. not (b == a)) live) else none

-- When the read fails, the new dinode stays where `dinode_` points.
unfoldable pub read_dinode : (List ℕ → ℕ) → Ptr → Read Image → Memory → Memory
unfolding put
read_dinode alloc p (ok bytes) m =
    let a = alloc m.live in
    record {
      cells = put m.cells p (record { dinode_available = true; dinode = some a });
      live = a ∷ m.live;
    }
read_dinode alloc p (invalid_read why) m =
    let a = alloc m.live in
    record {
      cells =
          put m.cells p
            (record { dinode_available = (m.cells p).dinode_available; dinode = some a });
      live = a ∷ m.live;
    }

-- `result` is what the device answers if it is read.
unfoldable pub get_dinode : (List ℕ → ℕ) → Ptr → Read Image → Memory → Memory
unfolding read_dinode
get_dinode alloc p result m =
    if (m.cells p).dinode_available then m else read_dinode alloc p result m

-- The memory without the dinode, with the members as given.
abbrev without : Memory → Ptr → Cell → Option (List ℕ) → Option Memory
without m p c none = none
without m p c (some live) = some (record { cells = put m.cells p c; live = live })

unfoldable pub free_dinode : Ptr → Memory → Option Memory
unfolding delete put
free_dinode p m =
    if (m.cells p).dinode_available
    then without m p (record { dinode_available = false; dinode = none })
        (delete (m.cells p).dinode m.live)
    else some m

-- The destructor leaves the members as they are.
unfoldable pub destroy : Ptr → Memory → Option Memory
unfolding delete put
destroy p m =
    if (m.cells p).dinode_available
    then without m p (m.cells p) (delete (m.cells p).dinode m.live)
    else some m

pub data Call : Type 0 where
  get : Ptr → Read Image → Call
  free : Ptr → Call

unfoldable pub call : (List ℕ → ℕ) → Call → Memory → Option Memory
unfolding get_dinode free_dinode
call alloc (get p result) m = some (get_dinode alloc p result m)
call alloc (free p) m = free_dinode p m

-- Calls one after the other, on any of the objects.
unfoldable pub run : (List ℕ → ℕ) → List Call → Memory → Option Memory
unfolding call
run alloc [] m = some m
run alloc (c ∷ cs) m = elim (call alloc c m) [ none ↦ none | some m' ↦ run alloc cs m' ]

-- `InodeVector::free_dinodes`, over the inodes of the vector.
unfoldable pub free_dinodes : List Ptr → Memory → Option Memory
unfolding free_dinode
free_dinodes [] m = some m
free_dinodes (p ∷ ps) m = elim (free_dinode p m) [ none ↦ none | some m' ↦ free_dinodes ps m' ]
