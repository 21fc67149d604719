-- ===== src/Messaging/Heapq/Array.antt =====
-- Reads of the heap's array (messaging/account_queue.py, heapq) after a swap or an append.
use teleautomation_messaging.Prelude.{
  ℕ, zero, suc, ◌<◌, ◌≡◌, refl, ◌∙◌, List, [], ◌∷◌, ◌++◌, ◌==◌, if◌then◌else◌, length, set,
  length-set, arith, All,
}
use teleautomation_messaging.Messaging.Heapq.{HeapEntry, entry_at, swap_at}

entry_at-set :
    (heap : List HeapEntry) (i j : ℕ) (e : HeapEntry)
    → i < length heap
    → entry_at (set heap i e) j ≡ (if i == j then e else entry_at heap j)
unfolding entry_at
entry_at-set [] i j e h = absurd (omega arith)
entry_at-set (x ∷ xs) zero zero e h = refl
entry_at-set (x ∷ xs) zero (suc j) e h = ground arith
entry_at-set (x ∷ xs) (suc i) zero e h = ground arith
entry_at-set (x ∷ xs) (suc i) (suc j) e h = ground (arith, entry_at-set xs i j e)

pub length-swap_at : (heap : List HeapEntry) (i j : ℕ) → length (swap_at heap i j) ≡ length heap
unfolding swap_at
length-swap_at heap i j = length-set (set heap i _) j _ ∙ length-set heap i _

pub entry_at-swap_at :
    (heap : List HeapEntry) (i j c : ℕ)
    → i < length heap
    → j < length heap
    → entry_at (swap_at heap i j) c
      ≡ (if j == c then entry_at heap i else if i == c then entry_at heap j else entry_at heap c)
unfolding swap_at
entry_at-swap_at heap i j c hi hj =
    rw
      (
        entry_at-set (set heap i (entry_at heap j)) j c (entry_at heap i) (rw length-set hj),
        entry_at-set heap i c (entry_at heap j) hi,
      )
      refl

pub entry_at-append :
    (xs ys : List HeapEntry) (i : ℕ) → i < length xs → entry_at (xs ++ ys) i ≡ entry_at xs i
unfolding entry_at
entry_at-append [] ys i h = absurd (omega arith)
entry_at-append (x ∷ xs) ys zero h = refl
entry_at-append (x ∷ xs) ys (suc i) h = entry_at-append xs ys i (omega arith)

-- A property of all entries, read at an index and built from the indices.
module _ (P : HeapEntry → Type 0) where
  pub All-entry_at :
      (heap : List HeapEntry) → ((i : ℕ) → i < length heap → P (entry_at heap i)) → All P heap
  unfolding entry_at
  All-entry_at [] h = tt
  All-entry_at (x ∷ xs) h = (h 0 (omega arith), All-entry_at xs (λ i lt. h (suc i) (omega arith)))
