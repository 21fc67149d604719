-- ===== src/Messaging/Heapq/Down.antt =====
-- heapq._siftup restores the order around an entry, heapify and heappop with it
-- (messaging/account_queue.py, heapq).
use teleautomation_messaging.Prelude.{
  ℕ, zero, suc, ◌+◌, ◌*◌, ◌/◌, ◌<◌, ◌≤◌, ◌≡◌, ◌≢◌, List, length, arith, true, ltb, Bool-cases, inl,
  inr, ◌⊎◌,
}
use teleautomation_messaging.Messaging.Heapq.{
  HeapEntry, entry_at, swap_at, parent, smaller_child, sink, sift_up, heapify_from, heapify,
}
use teleautomation_messaging.Messaging.Heapq.Array.{length-swap_at, entry_at-swap_at}
use teleautomation_messaging.Messaging.Heapq.Holds.{
  Holds-length, sink-Holds, sift_up-Holds, smaller_child-lt,
}
use teleautomation_messaging.Messaging.Heapq.Order.{
  before, before_refl, before_of_less, before_of_not_less, IsHeapFrom, IsHeap, IsBridged, Under,
  top, child,
}
use teleautomation_messaging.Messaging.Heapq.Up.{UpInv, sift_down-IsHeapFrom}

-- From `lo` on, only the edges at `i` may be out of order.
pub record DownInv (lo : ℕ) (h : List HeapEntry) (i : ℕ) : Type 0 where
  pub inside : i < length h
  pub edges :
      (c : ℕ)
      → 0 < c
      → c < length h
      → lo ≤ parent c
      → c ≢ i
      → parent c ≢ i
      → before (entry_at h (parent c)) (entry_at h c) ≡ true
  pub bridged : IsBridged lo h i

-- `m` is the child of `i` that is served first.
record IsSmallerChild (h : List HeapEntry) (i m : ℕ) : Type 0 where
  inside : m < length h
  below : (m ≡ 2 * i + 1) ⊎ (m ≡ 2 * i + 2)
  least :
      (c : ℕ) → 0 < c → c < length h → parent c ≡ i → before (entry_at h m) (entry_at h c) ≡ true

children : (c i : ℕ) → 0 < c → parent c ≡ i → (c ≡ 2 * i + 1) ⊎ (c ≡ 2 * i + 2)
children c i pos e = ground arith

smaller_child-IsSmallerChild :
    (h : List HeapEntry) (i : ℕ)
    → ltb (2 * i + 1) (length h) ≡ true
    → IsSmallerChild h i (smaller_child h i)
unfolding smaller_child
smaller_child-IsSmallerChild h i more = record {
  inside = unfold smaller_child in smaller_child-lt h i more;
  below = ground arith;
  least = λ c p q r. ground (
    arith,
    before_refl (entry_at h c),
    before_of_less (entry_at h (2 * i + 1)) (entry_at h (2 * i + 2)),
    before_of_not_less (entry_at h (2 * i + 1)) (entry_at h (2 * i + 2)),
  );
}

swap_at-DownInv :
    (lo : ℕ) (h : List HeapEntry) (i m : ℕ)
    → DownInv lo h i
    → IsSmallerChild h i m
    → DownInv lo (swap_at h i m) m
swap_at-DownInv lo h i m v s =
    let size = length-swap_at h i m in
    let at = λ (c : ℕ). entry_at-swap_at h i m c v.inside s.inside in
    record {
      inside = omega (arith, size, s.inside);
      edges = λ c q r t u w.
          ground (arith, at c, at (parent c), v.edges c, v.bridged m, s.least c, s.below);
      bridged = λ c q r t u w. ground (arith, at c, at (parent m), v.edges c, s.below);
    }

sink-UpInv :
    (lo fuel i : ℕ) (h : List HeapEntry)
    → length h ≤ i + fuel
    → Under lo i
    → DownInv lo h i
    → UpInv lo (sink fuel i h).0 (sink fuel i h).1 × Under lo (sink fuel i h).1
unfolding sink
sink-UpInv lo zero i h f u v = absurd (omega (arith, v.inside))
sink-UpInv lo (suc fuel) i h f u v = elim (Bool-cases (ltb (2 * i + 1) (length h))) [
  | inl more ↦
      let m = smaller_child h i in
      let s = smaller_child-IsSmallerChild h i more in
      let p : parent m ≡ i = ground (arith, s.below) in
      let pos : 0 < m = ground (arith, s.below) in
      let under : Under lo m = child m pos (rw p u) in
      rw (more, sink)
        (sink-UpInv lo fuel m (swap_at h i m) (ground (arith, length-swap_at h i m, s.below)) under
          (swap_at-DownInv lo h i m v s))
  | inr leaf ↦
      rw (leaf, sink)
        (
          record {
            inside = v.inside;
            edges = λ c p q r t. ground (arith, v.edges c);
            bridged = v.bridged;
          },
          u,
        )
]

-- Restoring the edges from `i` on, where those past `i` are in order.
pub sift_up-IsHeapFrom :
    (h : List HeapEntry) (i : ℕ) → i < length h → IsHeapFrom (suc i) h → IsHeapFrom i (sift_up h i)
unfolding sift_up
sift_up-IsHeapFrom h i lt v =
    let start : DownInv i h i = record {
      inside = lt;
      edges = λ c p q r t u. v c p q (omega arith);
      bridged = λ c p q r t u. absurd (omega arith);
    } in
    let s = sink-UpInv i (length h) i h (omega arith) top start in
    let held = sink-Holds (length h) i h lt in
    sift_down-IsHeapFrom i (length h) _ _ (omega (arith, held.1, Holds-length held.0)) s.1 s.0

heapify_from-IsHeap :
    (i : ℕ) (h : List HeapEntry) → i ≤ length h → IsHeapFrom i h → IsHeap (heapify_from i h)
unfolding heapify_from
heapify_from-IsHeap zero h lt v = record { edges = v }
heapify_from-IsHeap (suc i) h lt v =
    heapify_from-IsHeap i (sift_up h i)
      (omega (arith, Holds-length (sift_up-Holds h i (omega arith))))
      (sift_up-IsHeapFrom h i (omega arith) v)

pub heapify-IsHeap : (h : List HeapEntry) → IsHeap (heapify h)
unfolding heapify
heapify-IsHeap h =
    heapify_from-IsHeap (length h / 2) h (omega arith) (λ c p q r. absurd (omega arith))
