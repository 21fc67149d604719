-- ===== src/Messaging/Heapq/Order.antt =====
-- The order of an account's heap (messaging/account_queue.py, heapq): a parent is served no later than
-- its children.
use teleautomation_messaging.Prelude.{
  ℕ, zero, suc, ◌<◌, ◌≤◌, ◌≡◌, List, length, arith, Bool, true, false, not,
}
use teleautomation_messaging.Messaging.Heapq.{HeapEntry, less, entry_at, parent}

-- `a` is served no later than `b`.
unfoldable pub before : HeapEntry → HeapEntry → Bool
before a b = not (less b a)

pub before_refl : (a : HeapEntry) → before a a ≡ true
unfolding before less
before_refl a = ground arith

pub before_trans : (a b c : HeapEntry) → before a b ≡ true → before b c ≡ true → before a c ≡ true
unfolding before less
before_trans a b c h k = ground arith

pub before_of_less : (a b : HeapEntry) → less a b ≡ true → before a b ≡ true
unfolding before less
before_of_less a b h = ground arith

pub before_of_not_less : (a b : HeapEntry) → less a b ≡ false → before b a ≡ true
unfolding before less
before_of_not_less a b h = ground arith

-- Every edge whose parent is at `lo` or later is in order.
abbrev pub IsHeapFrom : ℕ → List HeapEntry → Type 0
IsHeapFrom lo h =
    (c : ℕ)
    → 0 < c
    → c < length h
    → lo ≤ parent c
    → before (entry_at h (parent c)) (entry_at h c) ≡ true

pub record IsHeap (h : List HeapEntry) : Type 0 where
  pub edges : IsHeapFrom 0 h

-- The edges past `i`, from its parent to its children, are in order.
abbrev pub IsBridged : ℕ → List HeapEntry → ℕ → Type 0
IsBridged lo h i =
    (c : ℕ)
    → 0 < c
    → c < length h
    → parent c ≡ i
    → 0 < i
    → lo ≤ parent i
    → before (entry_at h (parent i)) (entry_at h c) ≡ true

-- The index `i` lies in the part of the tree below `lo`.
pub data Under (lo : ℕ) : ℕ → Type 0 where
  top : Under lo lo
  child : (c : ℕ) → 0 < c → Under lo (parent c) → Under lo c

pub Under-le : {lo i : ℕ} → Under lo i → lo ≤ i
Under-le top = omega arith
Under-le (child c pos u) = omega (arith, Under-le u)

pub Under-root : (fuel i : ℕ) → i < fuel → Under 0 i
Under-root zero i h = absurd (omega arith)
Under-root (suc fuel) zero h = top
Under-root (suc fuel) (suc i) h =
    child (suc i) (omega arith) (Under-root fuel (parent (suc i)) (omega arith))

root_least_below :
    (fuel : ℕ) (h : List HeapEntry) (i : ℕ)
    → IsHeap h
    → i < fuel
    → i < length h
    → before (entry_at h 0) (entry_at h i) ≡ true
root_least_below zero h i v f p = absurd (omega arith)
root_least_below (suc fuel) h zero v f p = before_refl (entry_at h 0)
root_least_below (suc fuel) h (suc i) v f p =
    before_trans (entry_at h 0) (entry_at h (parent (suc i))) (entry_at h (suc i))
      (root_least_below fuel h (parent (suc i)) v (omega arith) (omega arith))
      (v.edges (suc i) (omega arith) p (omega arith))

-- The root of a heap is served first.
pub root_least :
    (h : List HeapEntry) (i : ℕ)
    → IsHeap h
    → i < length h
    → before (entry_at h 0) (entry_at h i) ≡ true
root_least h i v p = root_least_below (suc i) h i v (omega arith) p
