-- ===== src/Messaging/Heapq/Least.antt =====
-- Taking the least entry by `min`, `remove` and `heapify` (messaging/account_queue.py,
-- pop_highest_priority).
use mathlib.Core.List.{Permᴰ}
use teleautomation_messaging.Prelude.{
  ◌≡◌, ◌⊎◌, refl, sym, subst, true, false, List, [], ◌∷◌, All, inl, inr, arith, Bool-cases,
}
use teleautomation_messaging.Messaging.Heapq.{HeapEntry, less, same, heapify, best_from, remove}
use teleautomation_messaging.Messaging.Heapq.Holds.{Holds, Holds-refl, Holds-sym, heapify-Holds}
use teleautomation_messaging.Messaging.Heapq.Order.{
  before, before_refl, before_trans, before_of_less, before_of_not_less,
}
use teleautomation_messaging.Messaging.Heapq.Down.{heapify-IsHeap}
use teleautomation_messaging.Messaging.Heapq.Laws.{Takes}

same_self : (e : HeapEntry) → same e e ≡ true
unfolding same
same_self e = ground arith

less_trans : (a b c : HeapEntry) → less a b ≡ true → less b c ≡ true → less a c ≡ true
unfolding less
less_trans a b c h k = ground arith

same_of_less : (m x : HeapEntry) → less m x ≡ true → same x m ≡ false
unfolding less same
same_of_less m x h = ground arith

-- An entry less than `b` is not the same as one that is not.
same_of_not_less : (m x b : HeapEntry) → less x b ≡ false → less m b ≡ true → same x m ≡ false
unfolding less same
same_of_not_less m x b h k = ground arith

pub remove-other :
    (m x : HeapEntry) (xs : List HeapEntry)
    → same x m ≡ false
    → Holds xs (m ∷ remove m xs)
    → Holds (x ∷ xs) (m ∷ remove m (x ∷ xs))
unfolding remove
remove-other m x xs e p = rw e (Permᴰ.trans (Permᴰ.cons refl p) (Permᴰ.swap refl refl))

pub remove_self : (m : HeapEntry) (xs : List HeapEntry) → Holds (m ∷ xs) (m ∷ remove m (m ∷ xs))
unfolding remove
remove_self m xs = rw (same_self m) (Holds-refl (m ∷ xs))

-- `m` is `b`, or it is less than `b` and `remove` finds it and no other.
abbrev Removes : HeapEntry → List HeapEntry → HeapEntry → Type 0
Removes b xs m = (m ≡ b) ⊎ ((less m b ≡ true) × Holds xs (m ∷ remove m xs))

Removes-less :
    (b x : HeapEntry) (xs : List HeapEntry) (m : HeapEntry)
    → less x b ≡ true
    → Removes x xs m
    → Removes b (x ∷ xs) m
Removes-less b x xs m lt (inl e) =
    inr (rw e lt, subst (λ k. Holds (x ∷ xs) (k ∷ remove k (x ∷ xs))) (sym e) (remove_self x xs))
Removes-less b x xs m lt (inr (l, p)) =
    inr (less_trans m x b l lt, remove-other m x xs (same_of_less m x l) p)

Removes-not_less :
    (b x : HeapEntry) (xs : List HeapEntry) (m : HeapEntry)
    → less x b ≡ false
    → Removes b xs m
    → Removes b (x ∷ xs) m
Removes-not_less b x xs m ge (inl e) = inl e
Removes-not_less b x xs m ge (inr (l, p)) =
    inr (l, remove-other m x xs (same_of_not_less m x b ge l) p)

best_from-less :
    (b x : HeapEntry) (xs : List HeapEntry)
    → less x b ≡ true
    → best_from b (x ∷ xs) ≡ best_from x xs
unfolding best_from
best_from-less b x xs lt = rw lt refl

best_from-not_less :
    (b x : HeapEntry) (xs : List HeapEntry)
    → less x b ≡ false
    → best_from b (x ∷ xs) ≡ best_from b xs
unfolding best_from
best_from-not_less b x xs ge = rw ge refl

best_from-Removes : (b : HeapEntry) (xs : List HeapEntry) → Removes b xs (best_from b xs)
best_from-Removes b [] = inl (unfold best_from in refl)
best_from-Removes b (x ∷ xs) = elim (Bool-cases (less x b)) [
  | inl lt ↦
      subst (Removes b (x ∷ xs)) (sym (best_from-less b x xs lt))
        (Removes-less b x xs (best_from x xs) lt (best_from-Removes x xs))
  | inr ge ↦
      subst (Removes b (x ∷ xs)) (sym (best_from-not_less b x xs ge))
        (Removes-not_less b x xs (best_from b xs) ge (best_from-Removes b xs))
]

remove-Holds :
    (b : HeapEntry) (xs : List HeapEntry) (m : HeapEntry)
    → Removes b xs m
    → Holds (b ∷ xs) (m ∷ remove m (b ∷ xs))
remove-Holds b xs m (inl e) =
    subst (λ k. Holds (b ∷ xs) (k ∷ remove k (b ∷ xs))) (sym e) (remove_self b xs)
remove-Holds b xs m (inr (l, p)) = remove-other m b xs (same_of_less m b l) p

abbrev IsFirst : HeapEntry → List HeapEntry → HeapEntry → Type 0
IsFirst b xs m = (before m b ≡ true) × All (λ e. before m e ≡ true) xs

best_from-IsFirst : (b : HeapEntry) (xs : List HeapEntry) → IsFirst b xs (best_from b xs)
best_from-IsFirst b [] = (unfold best_from in before_refl b, tt)
best_from-IsFirst b (x ∷ xs) = elim (Bool-cases (less x b)) [
  | inl lt ↦
      let r = best_from-IsFirst x xs in
      subst (IsFirst b (x ∷ xs)) (sym (best_from-less b x xs lt))
        (before_trans (best_from x xs) x b r.0 (before_of_less x b lt), (r.0, r.1))
  | inr ge ↦
      let r = best_from-IsFirst b xs in
      subst (IsFirst b (x ∷ xs)) (sym (best_from-not_less b x xs ge))
        (r.0, (before_trans (best_from b xs) b x r.0 (before_of_not_less x b ge), r.1))
]

-- `min`, `remove` and `heapify`, on any array.
pub min-Takes :
    (x : HeapEntry) (xs : List HeapEntry)
    → Takes (x ∷ xs) (best_from x xs) (heapify (remove (best_from x xs) (x ∷ xs)))
min-Takes x xs =
    let m = best_from x xs in
    let f = best_from-IsFirst x xs in
    record {
      split =
          Permᴰ.trans (remove-Holds x xs m (best_from-Removes x xs))
            (Permᴰ.cons refl (Holds-sym (heapify-Holds (remove m (x ∷ xs)))));
      first = (f.0, f.1);
      ordered = heapify-IsHeap (remove m (x ∷ xs));
    }
