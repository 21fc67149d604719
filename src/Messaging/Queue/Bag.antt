-- ===== src/Messaging/Queue/Bag.antt =====
-- What an account's queue promises (messaging/account_queue.py): a bag of entries, from which an entry
-- goes that no other comes before, or that no other has a larger priority than. The bag forgets the
-- arrangement of heapq's array.
use mathlib.Core.Quot
use mathlib.Core.Quot.{Quot, Quot-set}
use native.Mathlib.Nat.{ℕ_set}
use teleautomation_messaging.Prelude.{
  ℕ, ◌<◌, ◌≡◌, refl, Bool, not, ◌&&◌, List, [], ◌∷◌, ltb, ◌⊎◌, count_if, keep, arith,
}
use teleautomation_messaging.Messaging.Task.{priority_value, high, QueueTask}
use teleautomation_messaging.Messaging.Heapq.{HeapEntry, less}
use teleautomation_messaging.Messaging.Queue.{is_reply_to}
use teleautomation_messaging.Messaging.Queue.Ops.{
  QueueOp, put_registers, put_tries, put_tries_once, put_times_out, pops, gets, processes,
  completes, drains, cancels,
}

-- Whatever is counted, the two lists hold as many of it.
abbrev pub SameEntries : List HeapEntry → List HeapEntry → Type 0
SameEntries xs ys = (p : HeapEntry → Bool) → count_if p xs ≡ count_if p ys

abbrev pub Bag : Type 0
Bag = Quot SameEntries

pub bag_of : List HeapEntry → Bag
bag_of xs = Quot.mk xs

pub bag_of_same : (xs ys : List HeapEntry) → SameEntries xs ys → bag_of xs ≡ bag_of ys
unfolding bag_of
bag_of_same xs ys h = Quot.sound h

-- How many entries of the bag pass a test.
pub holding : (HeapEntry → Bool) → Bag → ℕ
holding p = Quot.lift ℕ_set (count_if p) (λ xs ys h. h p)

SameEntries-cons :
    (e : HeapEntry) (xs ys : List HeapEntry) → SameEntries xs ys → SameEntries (e ∷ xs) (e ∷ ys)
SameEntries-cons e xs ys h p = ground (arith, h p)

pub put_in : HeapEntry → Bag → Bag
put_in e =
    Quot.lift Quot-set (λ xs. Quot.mk (e ∷ xs)) (λ xs ys h. Quot.sound (SameEntries-cons e xs ys h))

count_if-keep :
    (p q : HeapEntry → Bool) (xs : List HeapEntry)
    → count_if p (keep q xs) ≡ count_if (λ e. q e && p e) xs
count_if-keep p q [] = refl
count_if-keep p q (x ∷ xs) = ground (arith, count_if-keep p q xs)

SameEntries-keep :
    (q : HeapEntry → Bool) (xs ys : List HeapEntry)
    → SameEntries xs ys
    → SameEntries (keep q xs) (keep q ys)
SameEntries-keep q xs ys h p =
    ground (arith, count_if-keep p q xs, count_if-keep p q ys, h (λ e. q e && p e))

pub kept_by : (HeapEntry → Bool) → Bag → Bag
kept_by q =
    Quot.lift Quot-set (λ xs. Quot.mk (keep q xs))
      (λ xs ys h. Quot.sound (SameEntries-keep q xs ys h))

pub put_in-bag_of : (e : HeapEntry) (xs : List HeapEntry) → put_in e (bag_of xs) ≡ bag_of (e ∷ xs)
unfolding put_in bag_of
put_in-bag_of e xs = refl

pub kept_by-bag_of :
    (q : HeapEntry → Bool) (xs : List HeapEntry) → kept_by q (bag_of xs) ≡ bag_of (keep q xs)
unfolding kept_by bag_of
kept_by-bag_of q xs = refl

pub holding-bag_of :
    (p : HeapEntry → Bool) (xs : List HeapEntry) → holding p (bag_of xs) ≡ count_if p xs
unfolding holding bag_of
holding-bag_of p xs = refl

-- The bag gets a task, under its priority and some number.
abbrev pub Stores : QueueTask → Bag → Bag → Type 0
Stores task b c =
    (n : ℕ) × (c
      ≡ put_in (record { priority = priority_value task.priority; sequence = n; task = task }) b)

-- An entry goes that no other comes before.
abbrev pub TakesFirst : Bag → Bag → Type 0
TakesFirst b c = (e : HeapEntry) × (b ≡ put_in e c) × (holding (λ x. less x e) b ≡ 0)

-- An entry goes that is neither a direct message nor a retry, and has the largest priority; all the
-- others stay.
abbrev pub TakesWorst : Bag → Bag → Type 0
TakesWorst b c =
    (e : HeapEntry) × (priority_value high < e.priority)
    × (b ≡ put_in e c)
    × (holding (λ x. ltb e.priority x.priority) b ≡ 0)

-- What an operation may do to the bag.
abbrev pub Allowed : QueueOp → Bag → Bag → Type 0
Allowed (put_registers task) b c = c ≡ b
Allowed (put_tries task) b c =
    (c ≡ b) ⊎ Stores task b c ⊎ ((m : Bag) × TakesWorst b m × Stores task m c)
Allowed (put_tries_once task) b c = (c ≡ b) ⊎ Stores task b c
Allowed (put_times_out task) b c = c ≡ b
Allowed (pops now) b c = ((b ≡ bag_of []) × (c ≡ b)) ⊎ TakesFirst b c
Allowed (gets now) b c = ((b ≡ bag_of []) × (c ≡ b)) ⊎ TakesFirst b c
Allowed (processes active) b c = c ≡ b
Allowed (completes id reply e) b c = c ≡ b
Allowed drains b c = c ≡ bag_of []
Allowed (cancels uid) b c = c ≡ kept_by (λ e. not (is_reply_to uid e)) b

-- Operations one after the other.
abbrev pub Behaves : List QueueOp → Bag → Bag → Type 0
Behaves [] b d = d ≡ b
Behaves (op ∷ ops) b d = (c : Bag) × Allowed op b c × Behaves ops c d
