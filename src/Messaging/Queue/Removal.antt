-- ===== src/Messaging/Queue/Removal.antt =====
-- Taking tasks off an account's queue: cancelling AI auto-replies, and draining
-- (messaging/account_queue.py: cancel_ai_auto_reply_for_user, drain).
use teleautomation_messaging.Prelude.{
  ℕ, zero, suc, ◌≡◌, refl, Bool, true, false, not, List, [], ◌∷◌, exists_in, keep, count_if, All,
  arith, Dict, Bool-cases, inl, inr, ◌==◌, ◌∙◌,
}
use teleautomation_messaging.Messaging.Heapq.{HeapEntry}
use teleautomation_messaging.Messaging.Heapq.Holds.{
  Holds, Holds-refl, Holds-exists_in, heapify-Holds,
}
use teleautomation_messaging.Messaging.Future.{Future, cancelled, done, settle_at}
use teleautomation_messaging.Messaging.Queue.{
  Queue, depth, cancel_all, drain, is_reply_to, has_pending_ai_auto_reply_for_user,
  cancel_ai_auto_reply_for_user,
}
use teleautomation_messaging.Messaging.Queue.Taking.{finish_replies-SameHeap}

exists_in-keep-not :
    (uid : ℕ) (heap : List HeapEntry)
    → exists_in (is_reply_to uid) (keep (λ e. not (is_reply_to uid e)) heap) ≡ false
exists_in-keep-not uid [] = refl
exists_in-keep-not uid (e ∷ es) = ground (arith, exists_in-keep-not uid es)

keep-none :
    (uid : ℕ) (heap : List HeapEntry)
    → count_if (is_reply_to uid) heap ≡ 0
    → keep (λ e. not (is_reply_to uid e)) heap ≡ heap
keep-none uid [] h = refl
keep-none uid (e ∷ es) h = ground (arith, keep-none uid es)

-- Cancelling changes neither the bound nor the owner of the queue.
pub cancel-frame :
    (q : Queue) (uid : ℕ)
    → ((cancel_ai_auto_reply_for_user q uid).0.max_size ≡ q.max_size)
      × ((cancel_ai_auto_reply_for_user q uid).0.account_id ≡ q.account_id)
unfolding cancel_ai_auto_reply_for_user
cancel-frame q uid = ground (arith, finish_replies-SameHeap uid q.heap q)

-- Cancelling a chat's AI auto-replies takes exactly those tasks off the queue and keeps the others,
-- counts them, and leaves none of them pending.
pub cancel_ai_auto_reply_for_user-heap :
    (q : Queue) (uid : ℕ)
    → let r = cancel_ai_auto_reply_for_user q uid in
      Holds r.0.heap (keep (λ e. not (is_reply_to uid e)) q.heap)
      × (r.1 ≡ count_if (is_reply_to uid) q.heap)
      × (has_pending_ai_auto_reply_for_user r.0 uid ≡ false)
unfolding cancel_ai_auto_reply_for_user has_pending_ai_auto_reply_for_user
cancel_ai_auto_reply_for_user-heap q uid =
    let kept = keep (λ e. not (is_reply_to uid e)) q.heap in
    let clear = exists_in-keep-not uid q.heap in
    let frame = (finish_replies-SameHeap uid q.heap q).heap in
    elim (Bool-cases (count_if (is_reply_to uid) q.heap == 0)) [
      | inl nothing ↦
          let whole = keep-none uid q.heap (ground arith) in
          rw (nothing, cancel_ai_auto_reply_for_user, frame, whole)
            (Holds-refl q.heap, ground arith, rw whole at clear)
      | inr something ↦
          rw (something, cancel_ai_auto_reply_for_user)
            (
              heapify-Holds kept,
              refl,
              Holds-exists_in (is_reply_to uid) (heapify-Holds kept) ∙ clear,
            )
    ]

-- Whether a future is done; an index that names no future has nobody waiting.
abbrev pub is_settled : List Future → ℕ → Bool
is_settled [] i = true
is_settled (f ∷ fs) zero = done f
is_settled (f ∷ fs) (suc i) = is_settled fs i

settle_at-is_settled :
    (fs : List Future) (i j : ℕ)
    → is_settled fs i ≡ true
    → is_settled (settle_at fs j cancelled) i ≡ true
settle_at-is_settled [] i j h = refl
settle_at-is_settled (f ∷ fs) zero zero h = ground arith
settle_at-is_settled (f ∷ fs) zero (suc j) h = h
settle_at-is_settled (f ∷ fs) (suc i) zero h = h
settle_at-is_settled (f ∷ fs) (suc i) (suc j) h = settle_at-is_settled fs i j h

settle_at_self : (fs : List Future) (i : ℕ) → is_settled (settle_at fs i cancelled) i ≡ true
settle_at_self [] i = refl
settle_at_self (f ∷ fs) zero = ground arith
settle_at_self (f ∷ fs) (suc i) = settle_at_self fs i

cancel_all-is_settled :
    (ps : Dict ℕ) (fs : List Future) (i : ℕ)
    → is_settled fs i ≡ true
    → is_settled (cancel_all ps fs) i ≡ true
unfolding cancel_all
cancel_all-is_settled [] fs i h = h
cancel_all-is_settled ((id, j) ∷ ps) fs i h =
    cancel_all-is_settled ps (settle_at fs j cancelled) i (settle_at-is_settled fs i j h)

cancel_all-All :
    (ps : Dict ℕ) (fs : List Future) → All (λ p. is_settled (cancel_all ps fs) p.1 ≡ true) ps
unfolding cancel_all
cancel_all-All [] fs = tt
cancel_all-All ((id, i) ∷ ps) fs = (
  cancel_all-is_settled ps (settle_at fs i cancelled) i (settle_at_self fs i),
  cancel_all-All ps (settle_at fs i cancelled),
)

-- Draining empties the queue, says how many tasks it dropped, forgets every future, and leaves none of
-- those that were registered waiting.
pub drain_lem :
    (q : Queue)
    → let r = drain q in
      (r.0.heap ≡ [])
      × (r.1 ≡ depth q)
      × (r.0.pending ≡ [])
      × All (λ p. is_settled r.0.futures p.1 ≡ true) q.pending
unfolding drain
drain_lem q = (refl, refl, refl, cancel_all-All q.pending q.futures)
