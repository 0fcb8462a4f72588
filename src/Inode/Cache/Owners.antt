-- ===== src/Inode/Cache/Owners.antt =====
-- src/inode.cpp: no call deletes a dinode twice, and what a failed read allocated stays.
use jfsrec.Prelude.{
  ℕ, ◌≡◌, ◌≢◌, refl, sym, ap, ◌∙◌, true, false, not, none, some, inl, inr, List, [], ◌∷◌, has,
  has-select, select, ◌==◌, arith, Bool-cases,
}
use jfsrec.Device.{Read, Reason, ok, invalid_read}
use jfsrec.Disk.{Image}
use jfsrec.Inode.{Ptr}
use jfsrec.Inode.Cache.{
  Cell, Memory, put, delete, read_dinode, get_dinode, free_dinode, destroy, Call, get, free, call,
  run,
}
use jfsrec.Inode.Cache.Cells.{
  owned, IsOwned, put-IsOwned, IsAllocator, IsLost, put-IsLost, Keeps, Frees, put-Frees,
}

has-delete :
    (a b : ℕ) (live : List ℕ)
    → has b live ≡ true
    → b ≢ a
    → has b (select (λ x. not (x == a)) live) ≡ true
has-delete a b live h n = ground (arith, has-select b (λ x. not (x == a)) live, h, n)

read_dinode-IsOwned :
    (alloc : List ℕ → ℕ) (p : Ptr) (result : Read Image) (m : Memory)
    → IsAllocator alloc
    → IsOwned m
    → (m.cells p).dinode_available ≡ false
    → IsOwned (read_dinode alloc p result m)
unfolding read_dinode
read_dinode-IsOwned alloc p (ok bytes) m new o missing =
    let a = alloc m.live in
    put-IsOwned m p (record { dinode_available = true; dinode = some a }) (a ∷ m.live) o
      (λ e. (a, refl)) (λ b e. ground arith) (λ q b other e. ground (arith, o.alive q b e))
      (λ q b other e f. ground (arith, o.alive q b f, new m.live, e))
read_dinode-IsOwned alloc p (invalid_read why) m new o missing =
    let a = alloc m.live in
    put-IsOwned m p (record { dinode_available = (m.cells p).dinode_available; dinode = some a })
      (a ∷ m.live) o (λ e. cc) (λ b e. ground (arith, e, missing))
      (λ q b other e. ground (arith, o.alive q b e)) (λ q b other e f. ground (arith, e, missing))

read_dinode-IsLost :
    (a : ℕ) (alloc : List ℕ → ℕ) (p : Ptr) (result : Read Image) (m : Memory)
    → IsAllocator alloc
    → IsLost a m
    → (m.cells p).dinode_available ≡ false
    → IsLost a (read_dinode alloc p result m)
unfolding read_dinode
read_dinode-IsLost a alloc p (ok bytes) m new l missing =
    let b = alloc m.live in
    put-IsLost a m p (record { dinode_available = true; dinode = some b }) (b ∷ m.live) l.orphan
      (ground (arith, l.alive)) (λ e. ground (arith, l.alive, new m.live, e))
read_dinode-IsLost a alloc p (invalid_read why) m new l missing =
    let b = alloc m.live in
    put-IsLost a m p (record { dinode_available = (m.cells p).dinode_available; dinode = some b })
      (b ∷ m.live) l.orphan (ground (arith, l.alive)) (λ e. ground (arith, e, missing))

-- The deletion of an available dinode succeeds.
deletes :
    (p : Ptr) (m : Memory)
    → IsOwned m
    → (m.cells p).dinode_available ≡ true
    → (a : ℕ) × (owned (m.cells p) ≡ some a)
      × (delete (m.cells p).dinode m.live ≡ some (select (λ b. not (b == a)) m.live))
unfolding delete
deletes p m o e =
    let (a, k) = o.set p e in
    let own : owned (m.cells p) ≡ some a = rw e k in (a, own, rw (k, o.alive p a own) refl)

pub free_dinode-IsOwned :
    (p : Ptr) (m : Memory)
    → IsOwned m
    → (m' : Memory) × (free_dinode p m ≡ some m') × IsOwned m' × Keeps m m' × Frees p m m'
unfolding free_dinode
free_dinode-IsOwned p m o = elim (Bool-cases (m.cells p).dinode_available) [
  | inr not_there ↦ (m, rw not_there refl, o, λ b l. l, (not_there, λ q e. e))
  | inl there ↦
      let (a, own, k) = deletes p m o there in
      let c : Cell = record { dinode_available = false; dinode = none } in
      let live = select (λ b. not (b == a)) m.live in
      (
        record { cells = put m.cells p c; live = live },
        rw (there, k) refl,
        put-IsOwned m p c live o (λ e. cc) (λ b e. cc)
            (λ q b other e.
              has-delete a b m.live (o.alive q b e)
                (λ same. ground (arith, other, o.apart q p b e (own ∙ ap some (sym same)))))
            (λ q b other e f. cc),
        λ b l.
            put-IsLost b m p c live l.orphan
              (has-delete a b m.live l.alive (λ same. l.orphan p (own ∙ ap some (sym same))))
              (λ e. cc),
        put-Frees m p c live refl,
      )
]

pub get_dinode-IsOwned :
    (alloc : List ℕ → ℕ) (p : Ptr) (result : Read Image) (m : Memory)
    → IsAllocator alloc
    → IsOwned m
    → IsOwned (get_dinode alloc p result m)
unfolding get_dinode
get_dinode-IsOwned alloc p result m new o = elim (Bool-cases (m.cells p).dinode_available) [
  | inl there ↦ rw there o
  | inr not_there ↦ rw not_there (read_dinode-IsOwned alloc p result m new o not_there)
]

get_dinode-Keeps :
    (alloc : List ℕ → ℕ) (p : Ptr) (result : Read Image) (m : Memory)
    → IsAllocator alloc
    → Keeps m (get_dinode alloc p result m)
unfolding get_dinode
get_dinode-Keeps alloc p result m new a l = elim (Bool-cases (m.cells p).dinode_available) [
  | inl there ↦ rw there l
  | inr not_there ↦ rw not_there (read_dinode-IsLost a alloc p result m new l not_there)
]

call-IsOwned :
    (alloc : List ℕ → ℕ) (c : Call) (m : Memory)
    → IsAllocator alloc
    → IsOwned m
    → (m' : Memory) × (call alloc c m ≡ some m') × IsOwned m' × Keeps m m'
unfolding call
call-IsOwned alloc (get p result) m new o = (
  get_dinode alloc p result m,
  refl,
  get_dinode-IsOwned alloc p result m new o,
  get_dinode-Keeps alloc p result m new,
)
call-IsOwned alloc (free p) m new o =
    let (m', e, o', keep, frees) = free_dinode-IsOwned p m o in (m', e, o', keep)

run-step :
    (alloc : List ℕ → ℕ) (c : Call) (cs : List Call) (m m' : Memory)
    → call alloc c m ≡ some m'
    → run alloc (c ∷ cs) m ≡ run alloc cs m'
unfolding run
run-step alloc c cs m m' e = rw (e, run) refl

run-Keeps :
    (alloc : List ℕ → ℕ) (cs : List Call) (m : Memory)
    → IsAllocator alloc
    → IsOwned m
    → (m' : Memory) × (run alloc cs m ≡ some m') × IsOwned m' × Keeps m m'
unfolding run
run-Keeps alloc [] m new o = (m, refl, o, λ a l. l)
run-Keeps alloc (c ∷ cs) m new o =
    let (m1, e, o1, keep) = call-IsOwned alloc c m new o in
    let (m', f, o', more) = run-Keeps alloc cs m1 new o1 in
    (m', run-step alloc c cs m m1 e ∙ f, o', λ a l. more a (keep a l))

destroy-returns : (p : Ptr) (m : Memory) → IsOwned m → (m' : Memory) × (destroy p m ≡ some m')
unfolding destroy
destroy-returns p m o = elim (Bool-cases (m.cells p).dinode_available) [
  | inr not_there ↦ (m, rw not_there refl)
  | inl there ↦
      let (a, own, k) = deletes p m o there in
      let live = select (λ b. not (b == a)) m.live in
      (record { cells = put m.cells p (m.cells p); live = live }, rw (there, k) refl)
]

-- Whatever is read and freed, of whatever objects and in whatever order, and whatever the device
-- answers: no `delete` is of memory that is not allocated, and afterwards every available dinode is
-- allocated, no two objects share one, and the destructor of each object can delete it.
pub run-IsOwned :
    (alloc : List ℕ → ℕ) (cs : List Call) (m : Memory) (p : Ptr)
    → IsAllocator alloc
    → IsOwned m
    → (m' m'' : Memory) × (run alloc cs m ≡ some m') × IsOwned m' × (destroy p m' ≡ some m'')
run-IsOwned alloc cs m p new o =
    let (m', e, o', keep) = run-Keeps alloc cs m new o in
    let (m'', f) = destroy-returns p m' o' in (m', m'', e, o', f)

failed-IsLost :
    (alloc : List ℕ → ℕ) (p : Ptr) (why : Reason) (m : Memory)
    → IsAllocator alloc
    → IsOwned m
    → (m.cells p).dinode_available ≡ false
    → IsLost (alloc m.live) (get_dinode alloc p (invalid_read why) m)
unfolding get_dinode read_dinode
failed-IsLost alloc p why m new o missing =
    let a = alloc m.live in
    rw missing (
      put-IsLost a m p (record { dinode_available = false; dinode = some a }) (a ∷ m.live)
        (λ q e. ground (arith, o.alive q a e, new m.live)) (ground arith) (λ e. cc))

-- What a read that failed has allocated is never deleted, whatever is called then.
pub run-leaks :
    (alloc : List ℕ → ℕ) (cs : List Call) (p : Ptr) (why : Reason) (m : Memory)
    → IsAllocator alloc
    → IsOwned m
    → (m.cells p).dinode_available ≡ false
    → (m' : Memory) × (run alloc (get p (invalid_read why) ∷ cs) m ≡ some m')
      × IsLost (alloc m.live) m'
unfolding call
run-leaks alloc cs p why m new o missing =
    let m1 = get_dinode alloc p (invalid_read why) m in
    let (m', f, o', keep) =
      run-Keeps alloc cs m1 new (get_dinode-IsOwned alloc p (invalid_read why) m new o) in
    (
      m',
      run-step alloc (get p (invalid_read why)) cs m m1 refl ∙ f,
      keep (alloc m.live) (failed-IsLost alloc p why m new o missing),
    )
