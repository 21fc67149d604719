-- ===== src/Messaging/Heapq/Laws.antt =====
-- What the queue relies on of its heap (messaging/account_queue.py, heapq): a push and a pop keep the
-- order, and each way to take an entry takes a first one and keeps the others.
use mathlib.Core.List.{Permᴰ}
use teleautomation_messaging.Prelude.{
  ℕ, zero, suc, ◌<◌, ◌≤◌, ◌≡◌, refl, true, List, [], ◌∷◌, ◌++◌, ltb, if◌then◌else◌, length,
  length-append, All, arith,
}
use teleautomation_messaging.Messaging.Heapq.{
  HeapEntry, entry_at, parent, heappush, last_entry, but_last, rest_of, worst_from, remove,
}
use teleautomation_messaging.Messaging.Heapq.Array.{entry_at-append, All-entry_at}
use teleautomation_messaging.Messaging.Heapq.Holds.{Holds, Holds-sym, Holds-All, rest_of-Holds}
use teleautomation_messaging.Messaging.Heapq.Order.{before, IsHeap, Under-root, root_least}
use teleautomation_messaging.Messaging.Heapq.Up.{UpInv, sift_down-IsHeapFrom}
use teleautomation_messaging.Messaging.Heapq.Down.{sift_up-IsHeapFrom}

pub heappush-IsHeap : (h : List HeapEntry) (e : HeapEntry) → IsHeap h → IsHeap (heappush h e)
unfolding heappush
heappush-IsHeap h e v =
    let n = length h in
    let size = length-append {0} h (e ∷ []) in
    let start : UpInv 0 (h ++ e ∷ []) n = record {
      inside = omega (arith, size);
      edges = λ c p q r t. ground (
        arith,
        size,
        v.edges c,
        entry_at-append h (e ∷ []) c,
        entry_at-append h (e ∷ []) (parent c),
      );
      bridged = λ c p q r t u. absurd (omega (arith, size));
    } in
    record {
      edges =
          sift_down-IsHeapFrom 0 (suc n) (h ++ e ∷ []) n (omega arith)
            (Under-root (suc n) n (omega arith)) start;
    }

length-but_last : (x : HeapEntry) (xs : List HeapEntry) → length (but_last x xs) ≡ length xs
unfolding but_last
length-but_last x [] = refl
length-but_last x (y ∷ ys) = omega (arith, length-but_last y ys)

entry_at-but_last :
    (x : HeapEntry) (xs : List HeapEntry) (i : ℕ)
    → i < length xs
    → entry_at (but_last x xs) i ≡ entry_at (x ∷ xs) i
unfolding but_last entry_at
entry_at-but_last x [] i h = absurd (omega arith)
entry_at-but_last x (y ∷ ys) zero h = refl
entry_at-but_last x (y ∷ ys) (suc i) h = entry_at-but_last y ys i (omega arith)

-- Every entry but the root is where it was.
moved :
    (x y : HeapEntry) (ys : List HeapEntry) (c : ℕ)
    → 0 < c
    → c < suc (length ys)
    → entry_at (last_entry y ys ∷ but_last y ys) c ≡ entry_at (x ∷ y ∷ ys) c
unfolding entry_at
moved x y ys zero p h = absurd (omega arith)
moved x y ys (suc c) p h = unfold entry_at in entry_at-but_last y ys c (omega arith)

rest_of-IsHeap : (x : HeapEntry) (xs : List HeapEntry) → IsHeap (x ∷ xs) → IsHeap (rest_of xs)
unfolding rest_of
rest_of-IsHeap x [] v = record { edges = λ c p q r. absurd (omega arith) }
rest_of-IsHeap x (y ∷ ys) v =
    let size = length-but_last y ys in
    record {
      edges =
          sift_up-IsHeapFrom (last_entry y ys ∷ but_last y ys) 0 (omega arith)
            (λ c p q r. ground (arith, size, v.edges c, moved x y ys c, moved x y ys (parent c)));
    }

-- `best` was taken of a heap, and left `rest`.
pub record Takes (h : List HeapEntry) (best : HeapEntry) (rest : List HeapEntry) : Type 0 where
  pub split : Holds h (best ∷ rest)
  pub first : All (λ e. before best e ≡ true) h
  pub ordered : IsHeap rest

pub heappop-Takes :
    (x : HeapEntry) (xs : List HeapEntry) → IsHeap (x ∷ xs) → Takes (x ∷ xs) x (rest_of xs)
heappop-Takes x xs v = record {
  split = Permᴰ.cons refl (Holds-sym (rest_of-Holds xs));
  first =
      All-entry_at (λ e. before x e ≡ true) (x ∷ xs)
        (λ i lt. unfold entry_at in root_least (x ∷ xs) i v lt);
  ordered = rest_of-IsHeap x xs v;
}

module _ (P : HeapEntry → Type 0) where
  pub Takes-All :
      {h rest : List HeapEntry} {best : HeapEntry} → Takes h best rest → All P h → All P rest
  Takes-All t v = (Holds-All P t.split v).1

  pub remove-All : (e : HeapEntry) (heap : List HeapEntry) → All P heap → All P (remove e heap)
  unfolding remove
  remove-All e [] h = tt
  remove-All e (x ∷ xs) h = ground (arith, remove-All e xs h.1)

-- Nothing in the heap has a larger priority than what `worst_from` picks.
pub worst_from-max :
    (w : HeapEntry) (heap : List HeapEntry)
    → (w.priority ≤ (worst_from w heap).priority)
      × All (λ e. e.priority ≤ (worst_from w heap).priority) heap
unfolding worst_from
worst_from-max w [] = (omega arith, tt)
worst_from-max w (x ∷ xs) =
    ground (arith, worst_from-max (if ltb w.priority x.priority then x else w) xs)
