-- ===== src/Messaging/Heapq/Up.antt =====
-- heapq._siftdown restores the order above an entry (messaging/account_queue.py, heapq).
use teleautomation_messaging.Prelude.{
  ℕ, zero, suc, ◌<◌, ◌≤◌, ◌≡◌, ◌≢◌, List, length, arith, true, false, ltb, ◌&&◌, Bool-cases, inl,
  inr,
}
use teleautomation_messaging.Messaging.Heapq.{HeapEntry, less, entry_at, swap_at, parent, sift_down}
use teleautomation_messaging.Messaging.Heapq.Array.{length-swap_at, entry_at-swap_at}
use teleautomation_messaging.Messaging.Heapq.Order.{
  before, before_trans, before_of_less, before_of_not_less, IsHeapFrom, IsBridged, Under, top,
  child, Under-le,
}

-- From `lo` on, only the edge above `i` may be out of order.
pub record UpInv (lo : ℕ) (h : List HeapEntry) (i : ℕ) : Type 0 where
  pub inside : i < length h
  pub edges :
      (c : ℕ)
      → 0 < c
      → c < length h
      → lo ≤ parent c
      → c ≢ i
      → before (entry_at h (parent c)) (entry_at h c) ≡ true
  pub bridged : IsBridged lo h i

swap_at-UpInv :
    (lo : ℕ) (h : List HeapEntry) (i : ℕ)
    → UpInv lo h i
    → 0 < i
    → lo ≤ parent i
    → less (entry_at h i) (entry_at h (parent i)) ≡ true
    → UpInv lo (swap_at h i (parent i)) (parent i)
swap_at-UpInv lo h i v pos above below =
    let p = parent i in
    let size = length-swap_at h i p in
    let at = λ (c : ℕ). entry_at-swap_at h i p c v.inside (omega (arith, v.inside)) in
    let le = before_of_less (entry_at h i) (entry_at h p) below in
    record {
      inside = omega (arith, size, v.inside);
      edges = λ c q r t u. ground (
        arith,
        at c,
        at (parent c),
        v.edges c,
        v.bridged c,
        le,
        before_trans (entry_at h i) (entry_at h p) (entry_at h c),
      );
      bridged = λ c q r t u w. ground (
        arith,
        at c,
        at (parent p),
        v.edges c,
        v.edges p,
        le,
        before_trans (entry_at h (parent p)) (entry_at h p) (entry_at h c),
      );
    }

module _ (lo : ℕ) where
  pub sift_down-IsHeapFrom :
      (fuel : ℕ) (h : List HeapEntry) (i : ℕ)
      → i < fuel
      → Under lo i
      → UpInv lo h i
      → IsHeapFrom lo (sift_down fuel lo i h)
  unfolding sift_down
  sift_down-IsHeapFrom zero h i f u v = absurd (omega arith)
  sift_down-IsHeapFrom (suc fuel) h i f top v =
      let e : (ltb lo i && less (entry_at h i) (entry_at h (parent i))) ≡ false = ground arith in
      rw (e, sift_down) (λ c p q r. ground (arith, v.edges c))
  sift_down-IsHeapFrom (suc fuel) h i f (child c pos u) v =
      elim (Bool-cases (less (entry_at h i) (entry_at h (parent i)))) [
        | inl below ↦
            let above = Under-le u in
            let e : (ltb lo i && less (entry_at h i) (entry_at h (parent i))) ≡ true =
              ground arith in
            rw (e, sift_down)
              (sift_down-IsHeapFrom fuel (swap_at h i (parent i)) (parent i) (omega arith) u
                (swap_at-UpInv lo h i v pos above below))
        | inr settled ↦
            let e : (ltb lo i && less (entry_at h i) (entry_at h (parent i))) ≡ false =
              ground arith in
            let le = before_of_not_less (entry_at h i) (entry_at h (parent i)) settled in
            rw (e, sift_down) (λ c p q r. ground (arith, v.edges c, le))
      ]
