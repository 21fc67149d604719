-- ===== src/Messaging/Queue/Order.antt =====
-- The order in which `get` and `pop_highest_priority` serve the tasks of an account
-- (messaging/account_queue.py).
use teleautomation_messaging.Prelude.{
  ℕ, suc, ◌≡◌, refl, true, subst, ap, sym, none, some, List, [], ◌∷◌, All, inl, inr, ◌⊎◌, arith,
  length,
}
use teleautomation_messaging.Messaging.Task.{QueueTask}
use teleautomation_messaging.Messaging.Heapq.{HeapEntry, less, same, heapify, best_from, remove}
use teleautomation_messaging.Messaging.Heapq.Holds.{Holds, Holds-length, Holds-All}
use teleautomation_messaging.Messaging.Heapq.Order.{IsHeap, before}
use teleautomation_messaging.Messaging.Heapq.Laws.{Takes}
use teleautomation_messaging.Messaging.Heapq.Least.{min-Takes}
use teleautomation_messaging.Messaging.Queue.{
  Queue, depth, pop_best, pop_highest_priority, dequeued, get_attempt, get, Wait, woken, timed_out,
  got, gave_up,
}
use teleautomation_messaging.Messaging.Queue.Invariant.{IsValid}
use teleautomation_messaging.Messaging.Queue.Taking.{heappop-cases}

-- A pop serves `best` and leaves `q'`.
pub record Serves (q q' : Queue) (best : HeapEntry) : Type 0 where
  pub split : Holds q.heap (best ∷ q'.heap)
  pub least : All (λ e. before best e ≡ true) q.heap
  pub smaller : depth q ≡ suc (depth q')
  pub ordered : IsHeap q'.heap

dequeued-Serves :
    (q : Queue) (now : ℕ) (best : HeapEntry) (rest : List HeapEntry)
    → Takes q.heap best rest
    → Serves q (dequeued q now rest) best
unfolding dequeued
dequeued-Serves q now best rest t = record {
  split = t.split;
  least = t.first;
  smaller = Holds-length t.split;
  ordered = t.ordered;
}

pop_best-Serves :
    (q : Queue) (now : ℕ) (es : List HeapEntry)
    → q.heap ≡ es
    → ((es ≡ []) × (pop_best q now es ≡ (q, none)))
      ⊎ ((best : HeapEntry) × ((pop_best q now es).1 ≡ some best.task)
          × Serves q (pop_best q now es).0 best)
unfolding pop_best
pop_best-Serves q now [] e = inl (refl, refl)
pop_best-Serves q now (x ∷ xs) e =
    let best = best_from x xs in
    let rest = heapify (remove best (x ∷ xs)) in
    inr (
      best,
      refl,
      dequeued-Serves q now best rest (subst (λ h. Takes h best rest) (sym e) (min-Takes x xs)),
    )

-- A pop gives no task exactly when the queue is empty, and then changes nothing. Otherwise it serves
-- the task of an entry that comes before every entry of the queue, by priority and then by arrival,
-- all the other entries stay, and their array is in heap order, whatever order it had before.
pub pop-Serves :
    (q : Queue) (now : ℕ)
    → ((q.heap ≡ []) × (pop_highest_priority q now ≡ (q, none)))
      ⊎ ((best : HeapEntry) × ((pop_highest_priority q now).1 ≡ some best.task)
          × Serves q (pop_highest_priority q now).0 best)
unfolding pop_highest_priority
pop-Serves q now = pop_best-Serves q now q.heap refl

pub get_attempt-Serves :
    (q : Queue) (now : ℕ)
    → IsValid q
    → ((q.heap ≡ []) × (get_attempt q now ≡ (q, none)))
      ⊎ ((best : HeapEntry) × (q' : Queue) × (get_attempt q now ≡ (q', some best.task))
          × Serves q q' best)
unfolding get_attempt
get_attempt-Serves q now v = elim (heappop-cases q.heap v.ordered) [
  | inl (empty, e) ↦ inl (empty, rw (e, get_attempt) refl)
  | inr (best, rest, e, t) ↦
      inr (best, dequeued q now rest, rw (e, get_attempt) refl, dequeued-Serves q now best rest t)
]

get-got :
    (q : Queue) (now : ℕ) (task : QueueTask) (q' : Queue) (ws : List Wait)
    → get_attempt q now ≡ (q', some task)
    → get q now ws ≡ (q', got task)
unfolding get
get-got q now task q' [] e = rw e refl
get-got q now task q' (timed_out ∷ ws) e = rw e refl
get-got q now task q' (woken later others ∷ ws) e = rw e refl

-- `get` on a queue in order, however its waits end: where a task waits, it returns at once, and serves
-- the task of an entry that comes before every entry of the queue, while all the others stay. On an
-- empty queue it returns nothing when its timeout passes, and after a waking tries again on the queue
-- as the other coroutines have left it.
pub get-Serves :
    (q : Queue) (now : ℕ)
    → IsValid q
    → ((q.heap ≡ [])
        × ((ws : List Wait) → get q now (timed_out ∷ ws) ≡ (q, gave_up))
        × ((later : ℕ) (others : Queue → Queue) (ws : List Wait)
            → get q now (woken later others ∷ ws) ≡ get (others q) later ws))
      ⊎ ((best : HeapEntry) × (q' : Queue) × ((ws : List Wait) → get q now ws ≡ (q', got best.task))
          × Serves q q' best)
get-Serves q now v = elim (get_attempt-Serves q now v) [
  | inl (empty, e) ↦
      inl (empty, λ ws. unfold get in rw e refl, λ later others ws. unfold get in rw e refl)
  | inr (best, q', e, s) ↦ inr (best, q', λ ws. get-got q now best.task q' ws e, s)
]

before-same : (a b : HeapEntry) → before a b ≡ true → before b a ≡ true → same a b ≡ true
unfolding before less same
before-same a b h k = ground arith

Serves-head :
    (q q' : Queue) (best : HeapEntry) (P : HeapEntry → Type 0)
    → Serves q q' best
    → All P q.heap
    → P best
Serves-head q q' best P s h = (Holds-All P s.split h).0

-- `get` and `pop_highest_priority`, which take the root of the heap and the least entry of the array,
-- serve entries of the same priority and sequence number, each an entry of the queue that comes
-- before every other, and leave all the others; one finds no task exactly when the other finds none.
-- The queue is in order.
pub get_attempt-pop :
    (q : Queue) (now : ℕ)
    → IsValid q
    → let g = get_attempt q now in
      let p = pop_highest_priority q now in
      ((g ≡ (q, none)) × (p ≡ (q, none)))
      ⊎ ((a : HeapEntry) × (b : HeapEntry) × (g.1 ≡ some a.task)
          × Serves q g.0 a
          × (p.1 ≡ some b.task)
          × Serves q p.0 b
          × (same a b ≡ true))
get_attempt-pop q now v = elim (get_attempt-Serves q now v) [
  | inl (empty, e) ↦ elim (pop-Serves q now) [
    | inl (empty', e') ↦ inl (e, e')
    | inr (b, e', s) ↦ absurd (omega (arith, s.smaller, ap length empty))
  ]
  | inr (a, q', e, s) ↦ elim (pop-Serves q now) [
    | inl (empty, e') ↦ absurd (omega (arith, s.smaller, ap length empty))
    | inr (b, e', s') ↦
        let ab = Serves-head q _ b (λ x. before a x ≡ true) s' s.least in
        let ba = Serves-head q q' a (λ x. before b x ≡ true) s s'.least in
        inr (
          a,
          b,
          ap (λ r. r.1) e,
          subst (λ r. Serves q r.0 a) (sym e) s,
          e',
          s',
          before-same a b ab ba,
        )
  ]
]
