-- ===== src/Messaging/Queue/Taking.antt =====
-- What the operations that take tasks off an account's queue leave (messaging/account_queue.py:
-- get, pop_highest_priority, drain, cancel_ai_auto_reply_for_user).
use teleautomation_messaging.Prelude.{
  ℕ, ◌≡◌, refl, Bool, not, none, some, List, [], ◌∷◌, if◌then◌else◌, keep, All-keep, count_if,
  subst, false, ◌==◌, ◌⊎◌, length-keep, count_if-le, inl, inr, Bool-cases, arith, sym,
}
use teleautomation_messaging.Messaging.Heapq.{
  HeapEntry, heappop, heapify, rest_of, best_from, remove,
}
use teleautomation_messaging.Messaging.Heapq.Holds.{
  Holds-sym, Holds-length, Holds-All, heapify-Holds,
}
use teleautomation_messaging.Messaging.Heapq.Order.{IsHeap}
use teleautomation_messaging.Messaging.Heapq.Down.{heapify-IsHeap}
use teleautomation_messaging.Messaging.Heapq.Laws.{Takes, Takes-All, heappop-Takes}
use teleautomation_messaging.Messaging.Heapq.Least.{min-Takes}
use teleautomation_messaging.Messaging.Future.{result, auto_reply_cancelled}
use teleautomation_messaging.Messaging.Queue.{
  Queue, finish, pop_highest_priority, pop_best, get_attempt, drain, is_reply_to, finish_replies,
  cancel_ai_auto_reply_for_user, nonempty, dequeued,
}
use teleautomation_messaging.Messaging.Queue.Invariant.{
  IsEntry, IsValid, SameHeap, SameHeap-IsValid, finish-SameHeap, nonempty-length,
}

-- What is left after `best` was taken.
dequeued-IsValid :
    (q : Queue) (now : ℕ) (best : HeapEntry) (rest : List HeapEntry)
    → IsValid q
    → Takes q.heap best rest
    → IsValid (dequeued q now rest)
unfolding dequeued
dequeued-IsValid q now best rest v t =
    let size = Holds-length t.split in
    record {
      bounded = omega (arith, v.bounded, size);
      entries = Takes-All (IsEntry q.account_id q.sequence) t v.entries;
      ordered = t.ordered;
      signalled = ground (arith, v.signalled, nonempty-length q.heap, nonempty-length rest, size);
    }

pop_best-IsValid :
    (q : Queue) (now : ℕ) (es : List HeapEntry)
    → q.heap ≡ es
    → IsValid q
    → IsValid (pop_best q now es).0
unfolding pop_best
pop_best-IsValid q now [] e v = v
pop_best-IsValid q now (x ∷ xs) e v =
    let rest = heapify (remove (best_from x xs) (x ∷ xs)) in
    dequeued-IsValid q now (best_from x xs) rest v
      (subst (λ h. Takes h (best_from x xs) rest) (sym e) (min-Takes x xs))

pub pop-IsValid : (q : Queue) (now : ℕ) → IsValid q → IsValid (pop_highest_priority q now).0
unfolding pop_highest_priority
pop-IsValid q now v = pop_best-IsValid q now q.heap refl v

-- `heappop` takes a first entry of a heap that is in order.
pub heappop-cases :
    (h : List HeapEntry)
    → IsHeap h
    → ((h ≡ []) × (heappop h ≡ none))
      ⊎ ((best : HeapEntry) × (rest : List HeapEntry) × (heappop h ≡ some (best, rest))
          × Takes h best rest)
unfolding heappop
heappop-cases [] o = inl (refl, refl)
heappop-cases (x ∷ xs) o = inr (x, rest_of xs, refl, heappop-Takes x xs o)

pub get_attempt-IsValid : (q : Queue) (now : ℕ) → IsValid q → IsValid (get_attempt q now).0
unfolding get_attempt
get_attempt-IsValid q now v = elim (heappop-cases q.heap v.ordered) [
  | inl (empty, e) ↦ rw (e, get_attempt) v
  | inr (best, rest, e, t) ↦ rw (e, get_attempt) (dequeued-IsValid q now best rest v t)
]

pub drain-IsValid : (q : Queue) → IsValid (drain q).0
unfolding drain
drain-IsValid q = ground arith

pub finish_replies-SameHeap :
    (uid : ℕ) (es : List HeapEntry) (q : Queue) → SameHeap q (finish_replies uid es q)
unfolding finish_replies
finish_replies-SameHeap uid [] q = ground arith
finish_replies-SameHeap uid (e ∷ es) q = ground (
  arith,
  finish_replies-SameHeap uid es
      (if is_reply_to uid e then finish q e.task.task_id (result auto_reply_cancelled) else q),
  finish-SameHeap q e.task.task_id (result auto_reply_cancelled),
)

nonempty-keep :
    (p : HeapEntry → Bool) (h : List HeapEntry) (b : Bool)
    → b ≡ nonempty h
    → (if nonempty (heapify (keep p h)) then b else false) ≡ nonempty (heapify (keep p h))
nonempty-keep p h b e = ground (
  arith,
  nonempty-length h,
  nonempty-length (heapify (keep p h)),
  Holds-length (heapify-Holds (keep p h)),
  length-keep p h,
  count_if-le p h,
)

kept-IsValid :
    (q : Queue) (p : HeapEntry → Bool)
    → IsValid q
    → IsValid (record q {
      heap = heapify (keep p q.heap);
      not_empty = if nonempty (heapify (keep p q.heap)) then q.not_empty else false;
    })
kept-IsValid q p v =
    let held = heapify-Holds (keep p q.heap) in
    let P = IsEntry q.account_id q.sequence in
    record {
      bounded =
          omega (arith, v.bounded, Holds-length held, length-keep p q.heap, count_if-le p q.heap);
      entries = Holds-All P (Holds-sym held) (All-keep P p q.heap v.entries);
      ordered = heapify-IsHeap (keep p q.heap);
      signalled = nonempty-keep p q.heap q.not_empty v.signalled;
    }

pub cancel-IsValid :
    (q : Queue) (uid : ℕ) → IsValid q → IsValid (cancel_ai_auto_reply_for_user q uid).0
unfolding cancel_ai_auto_reply_for_user
cancel-IsValid q uid v =
    let same = finish_replies-SameHeap uid q.heap q in
    let v' = SameHeap-IsValid q (finish_replies uid q.heap q) same v in
    let kept = kept-IsValid (finish_replies uid q.heap q) (λ e. not (is_reply_to uid e)) v' in
    elim (Bool-cases (count_if (is_reply_to uid) q.heap == 0)) [
      | inl none' ↦ rw (none', cancel_ai_auto_reply_for_user) v'
      | inr some' ↦ rw (some', cancel_ai_auto_reply_for_user) (rw same.heap at kept)
    ]
