-- ===== src/Messaging/Queue/Room.antt =====
-- What an eviction leaves of an account's queue, and the attempts of `put` with it
-- (messaging/account_queue.py: _drop_lowest_priority_task, put).
use teleautomation_messaging.Prelude.{
  suc, ◌+◌, ◌≤◌, ◌<◌, ◌≡◌, refl, true, some, List, [], ◌∷◌, ltb, leb, if◌then◌else◌, length,
  exists_in, All, Option-cases, inl, inr, ◌∙◌, Bool-cases, arith, sym,
}
use teleautomation_messaging.Messaging.Task.{priority_value, high, QueueTask}
use teleautomation_messaging.Messaging.Heapq.{HeapEntry, heapify, worst_from, remove, same}
use teleautomation_messaging.Messaging.Heapq.Holds.{
  Holds, Holds-sym, Holds-length, Holds-All, heapify-Holds,
}
use teleautomation_messaging.Messaging.Heapq.Down.{heapify-IsHeap}
use teleautomation_messaging.Messaging.Heapq.Laws.{remove-All, worst_from-max}
use teleautomation_messaging.Messaging.Heapq.Worst.{worst_from-Holds}
use teleautomation_messaging.Messaging.Queue.{
  Alert, Queue, depth, drop_worst, drop_from, drop_lowest_priority_task, put_attempt, put_reject,
}
use teleautomation_messaging.Messaging.Queue.Invariant.{IsEntry, IsValid, enqueue_unlocked-IsValid}

-- `w` went off the heap, and `heapify` put the others in order.
pub record Drops (q q' : Queue) (w : HeapEntry) : Type 0 where
  pub low : priority_value high < w.priority
  pub heap : q'.heap ≡ heapify (remove w q.heap)
  pub max_size : q'.max_size ≡ q.max_size
  pub account_id : q'.account_id ≡ q.account_id
  pub sequence : q'.sequence ≡ q.sequence
  pub futures : q'.futures ≡ q.futures
  pub counted : q'.dropped_total ≡ q.dropped_total + 1
  pub found : exists_in (λ x. same x w) q.heap ≡ true
  pub split : Holds q.heap (w ∷ remove w q.heap)
  pub worst : All (λ e. e.priority ≤ w.priority) q.heap

worst_from-mem :
    (w : HeapEntry) (heap : List HeapEntry)
    → exists_in (λ x. same x (worst_from w heap)) (w ∷ heap) ≡ true
unfolding worst_from same
worst_from-mem w [] = ground arith
worst_from-mem w (x ∷ xs) =
    ground (arith, worst_from-mem (if ltb w.priority x.priority then x else w) xs)

drop_from-Drops :
    (es : List HeapEntry) (q q' : Queue)
    → q.heap ≡ es
    → drop_from es q ≡ some q'
    → (w : HeapEntry) × Drops q q' w
unfolding drop_from drop_worst
drop_from-Drops [] q q' h e = cc
drop_from-Drops (x ∷ xs) q q' h e =
    let w = worst_from x xs in
    let m = worst_from-max x xs in
    (
      w,
      record {
        low = ground arith;
        heap = ground arith;
        max_size = ground arith;
        account_id = ground arith;
        sequence = ground arith;
        futures = ground arith;
        counted = ground arith;
        found = rw h (worst_from-mem x xs);
        split = rw h (worst_from-Holds x xs);
        worst = rw h m;
      },
    )

pub drop-Drops :
    (q q' : Queue) → drop_lowest_priority_task q ≡ some q' → (w : HeapEntry) × Drops q q' w
unfolding drop_lowest_priority_task
drop-Drops q q' e = drop_from-Drops q.heap q q' refl e

length-remove :
    (e : HeapEntry) (heap : List HeapEntry)
    → exists_in (λ x. same x e) heap ≡ true
    → suc (length (remove e heap)) ≡ length heap
unfolding remove
length-remove e [] h = cc
length-remove e (x ∷ xs) h = ground (arith, length-remove e xs)

-- An eviction makes room for one entry, and leaves entries of this queue, in order.
Drops-room : (q q' : Queue) (w : HeapEntry) → Drops q q' w → suc (depth q') ≡ depth q
Drops-room q q' w d =
    rw d.heap (
      omega (arith, Holds-length (heapify-Holds (remove w q.heap)), length-remove w q.heap d.found))

Drops-IsEntry :
    (q q' : Queue) (w : HeapEntry)
    → All (IsEntry q.account_id q.sequence) q.heap
    → Drops q q' w
    → All (IsEntry q'.account_id q'.sequence) q'.heap
Drops-IsEntry q q' w v d =
    let P = IsEntry q.account_id q.sequence in
    rw (d.heap, d.account_id, d.sequence)
      (Holds-All P (Holds-sym (heapify-Holds (remove w q.heap))) (remove-All P w q.heap v))

pub put_attempt-IsValid :
    (q q' : Queue) (task : QueueTask) (alerts : List Alert)
    → IsValid q
    → task.account_id ≡ q.account_id
    → put_attempt q task ≡ some (q', alerts)
    → IsValid q'
unfolding put_attempt
put_attempt-IsValid q q' task alerts v own e = elim (Bool-cases (ltb (depth q) q.max_size)) [
  | inl room ↦
      let ok = enqueue_unlocked-IsValid q task v.entries v.ordered own (ground arith) in
      ground (arith, ok)
  | inr full ↦ elim (Option-cases (drop_lowest_priority_task q)) [
    | inl no_drop ↦ ground arith
    | inr (q₁, dropped) ↦
        let (w, d) = drop-Drops q q₁ dropped in
        let room = Drops-room q q₁ w d in
        let ok =
          enqueue_unlocked-IsValid q₁ task (Drops-IsEntry q q₁ w v.entries d)
            (rw d.heap (heapify-IsHeap (remove w q.heap))) (own ∙ sym d.account_id)
            (omega (arith, v.bounded, d.max_size)) in
        ground (arith, ok)
  ]
]

pub put_reject-IsValid :
    (q : Queue) (task : QueueTask)
    → IsValid q
    → task.account_id ≡ q.account_id
    → IsValid (put_reject q task).0
unfolding put_reject
put_reject-IsValid q task v own = elim (Bool-cases (leb q.max_size (depth q))) [
  | inl full ↦ ground arith
  | inr room ↦
      let ok = enqueue_unlocked-IsValid q task v.entries v.ordered own (ground arith) in
      ground (arith, ok)
]
