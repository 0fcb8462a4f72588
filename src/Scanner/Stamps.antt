-- ===== src/Scanner/Stamps.antt =====
-- src/inodescanner.cpp: `filter_inostamps`.
use jfsrec.Prelude.{
  ℕ, ◌/◌, ◌<◌, ◌≤◌, ◌≡◌, refl, ◌∙◌, Bool, true, false, not, ◌&&◌, List, [], ◌∷◌, has, ltb, ◌==◌,
  if◌then◌else◌, arith, All,
}
use jfsrec.Inode.{Ptr}
use jfsrec.Vector.{Heap, InodeVector, set_marked, unmark_all, remove_marked}
use jfsrec.Vector.Marks.{set_marked_each_lem}
use jfsrec.Vector.Remove.{remove-Splits, Splits, Splits-congr}
use jfsrec.Scanner.{Common, most_common, count_stamps, mark_other_stamps, filter_inostamps}

most_common-stays :
    (c : Common) (m : List (ℕ × ℕ)) → All (λ e. e.1 ≤ c.ismn) m → most_common c m ≡ c
unfolding most_common
most_common-stays c [] all = refl
most_common-stays c ((s, n) ∷ m) all =
    let less : ltb c.ismn n ≡ false = ground arith in rw less (most_common-stays c m all.1)

-- Where the stamp with the smallest number is the most common one, the second largest count comes
-- out as 0, whatever the counts of the other stamps are.
pub most_common-first :
    (s n : ℕ) (m : List (ℕ × ℕ))
    → 0 < n
    → All (λ e. e.1 ≤ n) m
    → most_common (record { ismn = 0; issmn = 0; stamp = s }) ((s, n) ∷ m)
      ≡ record { ismn = n; issmn = 0; stamp = s }
unfolding most_common
most_common-first s n m pos all =
    let more : ltb 0 n ≡ true = ground arith in
    rw more (most_common-stays (record { ismn = n; issmn = 0; stamp = s }) m all)

abbrev pub other_stamp : ℕ → Heap → Ptr → Bool
other_stamp s h p = not ((h p).dinode.di_inostamp == s)

mark_one : ℕ → Heap → Ptr → Heap
mark_one s h p = if (h p).dinode.di_inostamp == s then h else set_marked true h p

mark_one_lem :
    (s : ℕ) (h : Heap) (p q : Ptr)
    → (other_stamp s (mark_one s h p) q ≡ other_stamp s h q)
      × ((mark_one s h p q).is_marked
          ≡ (if (q == p) && other_stamp s h q then true else (h q).is_marked))
unfolding mark_one set_marked
mark_one_lem s h p q = (ground arith, ground arith)

mark_other_stamps_lem :
    (s : ℕ) (h : Heap) (ps : List Ptr) (q : Ptr)
    → (mark_other_stamps s h ps q).is_marked
      ≡ (if has q ps && other_stamp s h q then true else (h q).is_marked)
unfolding mark_other_stamps mark_one
mark_other_stamps_lem s h [] q = refl
mark_other_stamps_lem s h (p ∷ ps) q =
    ground (arith, mark_other_stamps_lem s (mark_one s h p) ps q, mark_one_lem s h p q)

unmark_all_lem :
    (h : Heap) (v : InodeVector) (s : ℕ) (q : Ptr)
    → has q v.inodes ≡ true
    → ((unmark_all h v q).is_marked ≡ false)
      × (other_stamp s (unmark_all h v) q ≡ other_stamp s h q)
unfolding unmark_all
unmark_all_lem h v s q e = (
  ground (arith, set_marked_each_lem false h v.inodes q),
  rw (set_marked_each_lem false h v.inodes q, e),
)

rest_removed :
    (h : Heap) (v : InodeVector) (s : ℕ)
    → Splits (other_stamp s h) v (remove_marked (mark_other_stamps s (unmark_all h v) v.inodes) v)
rest_removed h v s =
    let h' = mark_other_stamps s (unmark_all h v) v.inodes in
    Splits-congr (λ q. (h' q).is_marked) (other_stamp s h) v (remove_marked h' v)
      (λ q e.
        let (clean, same) = unmark_all_lem h v s q e in
        mark_other_stamps_lem s (unmark_all h v) v.inodes q ∙ ground arith)
      (remove-Splits h' v).0

-- Where the smallest stamp is counted most often, and at least 100 times, every inode with another
-- stamp is moved to the invalidated ones and the others stay, however many of these there are: the
-- second most common stamp plays no part.
pub filter_inostamps-first :
    (h : Heap) (v : InodeVector) (s n : ℕ) (m : List (ℕ × ℕ))
    → count_stamps h [] v.inodes ≡ (s, n) ∷ m
    → 100 ≤ n
    → All (λ e. e.1 ≤ n) m
    → Splits (other_stamp s h) v (filter_inostamps h v).1
unfolding filter_inostamps
filter_inostamps-first h v s n m counted many all =
    let passes : ltb 0 (n / 100) ≡ true = ground arith in
    rw (counted, most_common-first s n m (omega arith) all, passes, filter_inostamps)
      (rest_removed h v s)
