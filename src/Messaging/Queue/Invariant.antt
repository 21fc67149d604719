-- ===== src/Messaging/Queue/Invariant.antt =====
-- What holds of an account's queue between any two awaits (messaging/account_queue.py).
use teleautomation_messaging.Prelude.{
  ℕ, ◌+◌, ◌≤◌, ◌<◌, ◌≡◌, refl, String, Option, List, [], ◌∷◌, ltb, length, All, All-map, arith,
}
use teleautomation_messaging.Messaging.Task.{priority_value, QueueTask}
use teleautomation_messaging.Messaging.Heapq.{HeapEntry, heappush}
use teleautomation_messaging.Messaging.Heapq.Holds.{
  Holds-sym, Holds-length, Holds-All, heappush-Holds,
}
use teleautomation_messaging.Messaging.Heapq.Order.{IsHeap}
use teleautomation_messaging.Messaging.Heapq.Laws.{heappush-IsHeap}
use teleautomation_messaging.Messaging.Future.{Error, Reply, Future}
use teleautomation_messaging.Messaging.Queue.{
  Queue, depth, pushed, enqueue_unlocked, register, finish, give_up, complete_task, nonempty,
}

-- An entry that this queue may hold.
pub record IsEntry (account_id : String) (sequence : ℕ) (e : HeapEntry) : Type 0 where
  pub own : e.task.account_id ≡ account_id
  pub labelled : e.priority ≡ priority_value e.task.priority
  pub numbered : e.sequence ≤ sequence

pub record IsValid (q : Queue) : Type 0 where
  pub bounded : depth q ≤ q.max_size
  pub entries : All (IsEntry q.account_id q.sequence) q.heap
  pub ordered : IsHeap q.heap
  pub signalled : q.not_empty ≡ nonempty q.heap

-- `register`, `finish` and the bookkeeping operations change none of these.
pub record SameHeap (q q' : Queue) : Type 0 where
  pub heap : q'.heap ≡ q.heap
  pub max_size : q'.max_size ≡ q.max_size
  pub account_id : q'.account_id ≡ q.account_id
  pub sequence : q'.sequence ≡ q.sequence
  pub not_empty : q'.not_empty ≡ q.not_empty

pub SameHeap-IsValid : (q q' : Queue) → SameHeap q q' → IsValid q → IsValid q'
SameHeap-IsValid q q' s v = record {
  bounded = rw (s.heap, s.max_size) v.bounded;
  entries = rw (s.heap, s.account_id, s.sequence) v.entries;
  ordered = rw s.heap v.ordered;
  signalled = rw (s.heap, s.not_empty) v.signalled;
}

pub register-SameHeap : (q : Queue) (task : QueueTask) → SameHeap q (register q task)
unfolding register
register-SameHeap q task = ground arith

pub finish-SameHeap : (q : Queue) (id : String) (new : Future) → SameHeap q (finish q id new)
unfolding finish
finish-SameHeap q id new = ground arith

pub give_up-SameHeap : (q : Queue) (task : QueueTask) → SameHeap q (give_up q task)
unfolding give_up finish
give_up-SameHeap q task = ground arith

pub complete_task-SameHeap :
    (q : Queue) (id : String) (reply : Reply) (e : Option Error)
    → SameHeap q (complete_task q id reply e)
unfolding complete_task finish
complete_task-SameHeap q id reply e = ground arith

IsEntry-mono : (a : String) (n : ℕ) (e : HeapEntry) → IsEntry a n e → IsEntry a (n + 1) e
IsEntry-mono a n e h = ground arith

pub nonempty-length {ℓ} : {A : Type ℓ} (xs : List A) → nonempty xs ≡ ltb 0 (length xs)
nonempty-length [] = ground arith
nonempty-length (x ∷ xs) = ground arith

pushed-IsValid :
    (q : Queue) (task : QueueTask)
    → All (IsEntry q.account_id q.sequence) q.heap
    → IsHeap q.heap
    → task.account_id ≡ q.account_id
    → depth q < q.max_size
    → IsValid (pushed q task)
unfolding pushed
pushed-IsValid q task v order own room =
    let e : HeapEntry = record {
      priority = priority_value task.priority;
      sequence = q.sequence + 1;
      task = task;
    } in
    let held = heappush-Holds q.heap e in
    let fresh : IsEntry q.account_id (q.sequence + 1) e = record {
      own = own;
      labelled = refl;
      numbered = omega arith;
    } in
    let old = All-map (λ x. IsEntry-mono q.account_id q.sequence x) q.heap v in
    record {
      bounded = omega (arith, Holds-length held);
      entries = Holds-All (IsEntry q.account_id (q.sequence + 1)) (Holds-sym held) (fresh, old);
      ordered = heappush-IsHeap q.heap e order;
      signalled = ground (arith, nonempty-length (heappush q.heap e), Holds-length held);
    }

pub enqueue_unlocked-IsValid :
    (q : Queue) (task : QueueTask)
    → All (IsEntry q.account_id q.sequence) q.heap
    → IsHeap q.heap
    → task.account_id ≡ q.account_id
    → depth q < q.max_size
    → IsValid (enqueue_unlocked q task).0
unfolding enqueue_unlocked
enqueue_unlocked-IsValid q task v order own room =
    ground (arith, pushed-IsValid q task v order own room)
