-- ===== src/Messaging/Heapq.antt =====
-- The heap of an account's queue (messaging/account_queue.py, _HeapEntry): the array that Python's
-- heapq keeps, and what the queue does with it by `max`, `min` and `remove`. Where heapq holds an
-- entry in its hand and writes it once at the end, here it is swapped along, which leaves the same
-- array.
pub mod Array
pub mod Holds
pub mod Order
pub mod Up
pub mod Down
pub mod Laws
pub mod Least
pub mod Worst
use teleautomation_messaging.Prelude.{
  ℕ, zero, suc, ◌+◌, ◌-◌, ◌*◌, ◌/◌, ◌<◌, Bool, true, false, not, ◌&&◌, ◌||◌, Option, none, some,
  List, [], ◌∷◌, ◌++◌, ltb, ◌==◌, if◌then◌else◌, length, set,
}
use teleautomation_messaging.Messaging.Task.{QueueTask, TaskType, Payload, TaskPriority}

-- `order=True` compares the fields `priority` and `sequence`; `task` has `compare=False`.
pub record HeapEntry : Type 0 where
  pub priority : ℕ
  pub sequence : ℕ
  pub task : QueueTask

-- `a < b` of the dataclass.
unfoldable pub less : HeapEntry → HeapEntry → Bool
less a b = ltb a.priority b.priority || (a.priority == b.priority && ltb a.sequence b.sequence)

-- `a == b` of the dataclass.
unfoldable pub same : HeapEntry → HeapEntry → Bool
same a b = a.priority == b.priority && a.sequence == b.sequence

-- What a read past the end gives; no read of the code is.
abbrev no_entry : HeapEntry
no_entry = record {
  priority = 0;
  sequence = 0;
  task = record {
    account_id = "";
    task_type = TaskType.run_cycle;
    payload = Payload.empty;
    task_id = "";
    retry_count = 0;
    wait_result = false;
    priority = TaskPriority.low;
  };
}

-- `heap[i]`
unfoldable pub entry_at : List HeapEntry → ℕ → HeapEntry
entry_at [] i = no_entry
entry_at (x ∷ xs) zero = x
entry_at (x ∷ xs) (suc i) = entry_at xs i

unfoldable pub swap_at : List HeapEntry → ℕ → ℕ → List HeapEntry
unfolding entry_at
swap_at heap i j = set (set heap i (entry_at heap j)) j (entry_at heap i)

-- `(pos - 1) >> 1`
abbrev pub parent : ℕ → ℕ
parent pos = (pos - 1) / 2

-- `heapq._siftdown`: towards the root, down to the index `start`.
unfoldable pub sift_down : ℕ → ℕ → ℕ → List HeapEntry → List HeapEntry
unfolding entry_at less swap_at
sift_down zero start pos heap = heap
sift_down (suc fuel) start pos heap =
    elim (ltb start pos && less (entry_at heap pos) (entry_at heap (parent pos))) [
      | true ↦ sift_down fuel start (parent pos) (swap_at heap pos (parent pos))
      | false ↦ heap
    ]

-- The right child, if there is one and the left child is not less.
unfoldable pub smaller_child : List HeapEntry → ℕ → ℕ
unfolding entry_at less
smaller_child heap pos =
    if ltb (2 * pos + 2) (length heap)
      && not (less (entry_at heap (2 * pos + 1)) (entry_at heap (2 * pos + 2)))
    then 2 * pos + 2
    else 2 * pos + 1

-- The loop of `heapq._siftup`: the entry goes down to a leaf, past the smaller child each time.
unfoldable pub sink : ℕ → ℕ → List HeapEntry → List HeapEntry × ℕ
unfolding swap_at smaller_child
sink zero pos heap = (heap, pos)
sink (suc fuel) pos heap = elim (ltb (2 * pos + 1) (length heap)) [
  | true ↦ sink fuel (smaller_child heap pos) (swap_at heap pos (smaller_child heap pos))
  | false ↦ (heap, pos)
]

-- `heapq._siftup`
unfoldable pub sift_up : List HeapEntry → ℕ → List HeapEntry
unfolding sift_down sink
sift_up heap pos =
    let (heap', leaf) = sink (length heap) pos heap in sift_down (length heap) pos leaf heap'

-- `heapq.heappush`
unfoldable pub heappush : List HeapEntry → HeapEntry → List HeapEntry
unfolding sift_down
heappush heap e = sift_down (suc (length heap)) 0 (length heap) (heap ++ e ∷ [])

-- `heap.pop()`: the last entry, and those before it.
unfoldable pub last_entry : HeapEntry → List HeapEntry → HeapEntry
last_entry x [] = x
last_entry x (y ∷ ys) = last_entry y ys

unfoldable pub but_last : HeapEntry → List HeapEntry → List HeapEntry
but_last x [] = []
but_last x (y ∷ ys) = x ∷ but_last y ys

unfoldable pub rest_of : List HeapEntry → List HeapEntry
unfolding sift_up last_entry but_last
rest_of [] = []
rest_of (y ∷ ys) = sift_up (last_entry y ys ∷ but_last y ys) 0

-- `heapq.heappop`; `none` on an empty heap.
unfoldable pub heappop : List HeapEntry → Option (HeapEntry × List HeapEntry)
unfolding rest_of
heappop [] = none
heappop (x ∷ xs) = some (x, rest_of xs)

unfoldable pub heapify_from : ℕ → List HeapEntry → List HeapEntry
unfolding sift_up
heapify_from zero heap = heap
heapify_from (suc i) heap = heapify_from i (sift_up heap i)

-- `heapq.heapify`
unfoldable pub heapify : List HeapEntry → List HeapEntry
unfolding heapify_from
heapify heap = heapify_from (length heap / 2) heap

-- `max(heap, key=priority)`: the first of those with the largest priority.
unfoldable pub worst_from : HeapEntry → List HeapEntry → HeapEntry
worst_from w [] = w
worst_from w (x ∷ xs) = worst_from (if ltb w.priority x.priority then x else w) xs

-- `min(heap, key=(priority, sequence))`: the first of the least.
unfoldable pub best_from : HeapEntry → List HeapEntry → HeapEntry
unfolding less
best_from b [] = b
best_from b (x ∷ xs) = best_from (if less x b then x else b) xs

-- `heap.remove(e)`: the first entry that is equal to `e`.
unfoldable pub remove : HeapEntry → List HeapEntry → List HeapEntry
unfolding same
remove e [] = []
remove e (x ∷ xs) = if same x e then xs else x ∷ remove e xs
