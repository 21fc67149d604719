-- ===== src/Messaging/Queue/Eviction.antt =====
-- Which task backpressure evicts (messaging/account_queue.py, _drop_lowest_priority_task).
use mathlib.Core.List.{Permᴰ}
use teleautomation_messaging.Prelude.{
  ℕ, ◌+◌, ◌≤◌, ◌<◌, ◌≡◌, ◌↔◌, refl, none, some, List, [], ◌∷◌, All, arith, ltb, if◌then◌else◌,
}
use teleautomation_messaging.Messaging.Task.{priority_value, high}
use teleautomation_messaging.Messaging.Heapq.{HeapEntry, remove, worst_from}
use teleautomation_messaging.Messaging.Heapq.Holds.{Holds, Holds-sym, heapify-Holds}
use teleautomation_messaging.Messaging.Heapq.Laws.{worst_from-max}
use teleautomation_messaging.Messaging.Queue.{
  Queue, drop_worst, drop_from, drop_lowest_priority_task,
}
use teleautomation_messaging.Messaging.Queue.Room.{Drops, drop-Drops}

-- The entry `w` went, and all the others stayed.
pub record Evicts (q q' : Queue) (w : HeapEntry) : Type 0 where
  pub low : priority_value high < w.priority
  pub worst : All (λ e. e.priority ≤ w.priority) q.heap
  pub split : Holds q.heap (w ∷ q'.heap)
  pub counted : q'.dropped_total ≡ q.dropped_total + 1

All-le_trans :
    (m n : ℕ) (heap : List HeapEntry)
    → m ≤ n
    → All (λ e. e.priority ≤ m) heap
    → All (λ e. e.priority ≤ n) heap
All-le_trans m n [] h hs = tt
All-le_trans m n (x ∷ xs) h hs = (omega arith, All-le_trans m n xs h hs.1)

worst_from-le :
    (n : ℕ) (w : HeapEntry) (heap : List HeapEntry)
    → w.priority ≤ n
    → All (λ e. e.priority ≤ n) heap
    → (worst_from w heap).priority ≤ n
unfolding worst_from
worst_from-le n w [] h hs = h
worst_from-le n w (x ∷ xs) h hs =
    worst_from-le n (if ltb w.priority x.priority then x else w) xs (ground arith) hs.1

drop_from-none :
    (es : List HeapEntry) (q : Queue)
    → (drop_from es q ≡ none) ↔ All (λ e. e.priority ≤ priority_value high) es
unfolding drop_from drop_worst
drop_from-none [] q = (λ _. tt, λ _. refl)
drop_from-none (x ∷ xs) q = (
  λ e.
      let small : (worst_from x xs).priority ≤ 1 = ground arith in
      let m = worst_from-max x xs in
      (omega (arith, m.0), All-le_trans (worst_from x xs).priority 1 xs small m.1),
  λ h. ground (arith, worst_from-le 1 x xs h.0 h.1),
)

pub Drops-Evicts : (q q' : Queue) (w : HeapEntry) → Drops q q' w → Evicts q q' w
Drops-Evicts q q' w d = record {
  low = d.low;
  worst = d.worst;
  split =
      Permᴰ.trans d.split
        (Permᴰ.cons refl (rw d.heap (Holds-sym (heapify-Holds (remove w q.heap)))));
  counted = d.counted;
}

-- Backpressure evicts nothing exactly when every waiting task is a direct message or a retry.
-- Otherwise it takes exactly one entry off the queue, one of the largest priority, and counts it: it
-- is no direct message and no retry, and all the other entries stay.
pub drop_lowest_priority_task-Evicts :
    (q : Queue)
    → ((drop_lowest_priority_task q ≡ none) ↔ All (λ e. e.priority ≤ priority_value high) q.heap)
      × ((q' : Queue) → drop_lowest_priority_task q ≡ some q' → (w : HeapEntry) × Evicts q q' w)
unfolding drop_lowest_priority_task
drop_lowest_priority_task-Evicts q =
    (drop_from-none q.heap q, λ q' e. let (w, d) = drop-Drops q q' e in (w, Drops-Evicts q q' w d))
