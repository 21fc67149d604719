-- ===== src/Messaging/Heapq/Worst.antt =====
-- Taking the entry of the largest priority by `max` and `remove` (messaging/account_queue.py,
-- _drop_lowest_priority_task).
use teleautomation_messaging.Prelude.{
  ◌<◌, ◌≡◌, ◌⊎◌, refl, sym, subst, true, false, List, [], ◌∷◌, ltb, inl, inr, arith, Bool-cases,
  ◌≤◌,
}
use teleautomation_messaging.Messaging.Heapq.{HeapEntry, same, worst_from, remove}
use teleautomation_messaging.Messaging.Heapq.Holds.{Holds}
use teleautomation_messaging.Messaging.Heapq.Least.{remove-other, remove_self}

-- `m` is `w`, or it has a larger priority than `w` and `remove` finds it and no other.
abbrev RemovesWorst : HeapEntry → List HeapEntry → HeapEntry → Type 0
RemovesWorst w xs m = (m ≡ w) ⊎ ((w.priority < m.priority) × Holds xs (m ∷ remove m xs))

same_of_lt : (x m : HeapEntry) → x.priority < m.priority → same x m ≡ false
unfolding same
same_of_lt x m h = ground arith

worse :
    (w x : HeapEntry) (xs : List HeapEntry) (m : HeapEntry)
    → w.priority < x.priority
    → RemovesWorst x xs m
    → RemovesWorst w (x ∷ xs) m
worse w x xs m lt (inl e) =
    inr (rw e lt, subst (λ k. Holds (x ∷ xs) (k ∷ remove k (x ∷ xs))) (sym e) (remove_self x xs))
worse w x xs m lt (inr (l, p)) = inr (omega arith, remove-other m x xs (same_of_lt x m l) p)

not_worse :
    (w x : HeapEntry) (xs : List HeapEntry) (m : HeapEntry)
    → x.priority ≤ w.priority
    → RemovesWorst w xs m
    → RemovesWorst w (x ∷ xs) m
not_worse w x xs m ge (inl e) = inl e
not_worse w x xs m ge (inr (l, p)) = inr (l, remove-other m x xs (same_of_lt x m (omega arith)) p)

worst_from-lt :
    (w x : HeapEntry) (xs : List HeapEntry)
    → ltb w.priority x.priority ≡ true
    → worst_from w (x ∷ xs) ≡ worst_from x xs
unfolding worst_from
worst_from-lt w x xs lt = rw lt refl

worst_from-ge :
    (w x : HeapEntry) (xs : List HeapEntry)
    → ltb w.priority x.priority ≡ false
    → worst_from w (x ∷ xs) ≡ worst_from w xs
unfolding worst_from
worst_from-ge w x xs ge = rw ge refl

worst_from-RemovesWorst :
    (w : HeapEntry) (xs : List HeapEntry) → RemovesWorst w xs (worst_from w xs)
worst_from-RemovesWorst w [] = inl (unfold worst_from in refl)
worst_from-RemovesWorst w (x ∷ xs) = elim (Bool-cases (ltb w.priority x.priority)) [
  | inl lt ↦
      subst (RemovesWorst w (x ∷ xs)) (sym (worst_from-lt w x xs lt))
        (worse w x xs (worst_from x xs) (ground arith) (worst_from-RemovesWorst x xs))
  | inr ge ↦
      subst (RemovesWorst w (x ∷ xs)) (sym (worst_from-ge w x xs ge))
        (not_worse w x xs (worst_from w xs) (ground arith) (worst_from-RemovesWorst w xs))
]

-- What `max` picks is what `remove` takes, and it takes no other.
pub worst_from-Holds :
    (w : HeapEntry) (xs : List HeapEntry)
    → Holds (w ∷ xs) (worst_from w xs ∷ remove (worst_from w xs) (w ∷ xs))
worst_from-Holds w xs = elim (worst_from-RemovesWorst w xs) [
  | inl e ↦ subst (λ k. Holds (w ∷ xs) (k ∷ remove k (w ∷ xs))) (sym e) (remove_self w xs)
  | inr (l, p) ↦ remove-other (worst_from w xs) w xs (same_of_lt w (worst_from w xs) l) p
]
