-- ===== src/Fleet/Assignment/Partition.antt =====
-- The accounts that are logged in share the master list out (core/group_assignment.py).
use native.Mathlib.Nat.{mod-lt}
use teleautomation_messaging.Prelude.{
  ℕ, zero, suc, ◌+◌, ◌%◌, ◌<◌, ◌≡◌, ◌⊎◌, max, refl, ◌∙◌, String, Bool, true, false, List, [], ◌∷◌,
  ◌==◌, str_eq, if◌then◌else◌, length, exists_in, keep, count_if, All, All-keep, All-map,
  Bool-cases, inl, inr, arith, eq_iff,
}
use teleautomation_messaging.Fleet.Assignment.{
  index_of, active_slots, or_all, partition_slots, share, groups_for_slot,
}

-- The sum of `f` over a list, and over the numbers below `n`.
abbrev pub total : (String → ℕ) → List String → ℕ
total f [] = 0
total f (x ∷ xs) = f x + total f xs

abbrev sum_below : (ℕ → ℕ) → ℕ → ℕ
sum_below c zero = 0
sum_below c (suc n) = c 0 + sum_below (λ i. c (suc i)) n

-- No text stands twice in the list.
abbrev pub IsDistinct : List String → Type 0
IsDistinct [] = Unit
IsDistinct (x ∷ xs) = All (λ y. str_eq x y ≡ false) xs × IsDistinct xs

sum_below-add : (c d : ℕ → ℕ) (n : ℕ) → sum_below (λ i. c i + d i) n ≡ sum_below c n + sum_below d n
sum_below-add c d zero = omega arith
sum_below-add c d (suc n) = omega (arith, sum_below-add (λ i. c (suc i)) (λ i. d (suc i)) n)

sum_below-zero : (n : ℕ) → sum_below (λ i. 0) n ≡ 0
sum_below-zero zero = refl
sum_below-zero (suc n) = omega (arith, sum_below-zero n)

sum_below-cong : (c d : ℕ → ℕ) (n : ℕ) → ((i : ℕ) → c i ≡ d i) → sum_below c n ≡ sum_below d n
sum_below-cong c d zero h = refl
sum_below-cong c d (suc n) h =
    omega (arith, h 0, sum_below-cong (λ i. c (suc i)) (λ i. d (suc i)) n (λ i. h (suc i)))

-- One number below `n` is `m`.
sum_below-one : (m a n : ℕ) → m < n → sum_below (λ i. if m == i then a else 0) n ≡ a
sum_below-one m a zero h = omega arith
sum_below-one zero a (suc n) h = omega (
  arith,
  sum_below-cong (λ i. if 0 == suc i then a else 0) (λ i. 0) n (λ i. ground arith),
  sum_below-zero n,
)
sum_below-one (suc m) a (suc n) h =
    let shift : (i : ℕ) → (if suc m == suc i then a else 0) ≡ (if m == i then a else 0) =
      λ i. ground arith in
    ground (
      arith,
      sum_below-cong (λ i. if suc m == suc i then a else 0) (λ i. if m == i then a else 0) n shift,
      sum_below-one m a n (omega arith),
    )

-- The shares of `n` accounts have each group as often as the list.
sum_below-share :
    (p : String → Bool) (n i : ℕ) (gs : List String)
    → 0 < n
    → sum_below (λ idx. count_if p (share n idx i gs)) n ≡ count_if p gs
unfolding share
sum_below-share p n i [] h = sum_below-zero n
sum_below-share p n i (g ∷ gs) h =
    let one = if p g then 1 else 0 in
    let split : (idx : ℕ)
        → count_if p (share n idx i (g ∷ gs))
          ≡ (if i % n == idx then one else 0) + count_if p (share n idx (suc i) gs) =
      λ idx. ground arith in
    sum_below-cong _ _ n split
    ∙ sum_below-add (λ idx. if i % n == idx then one else 0) _ n
    ∙ ground (arith, sum_below-one (i % n) one n (mod-lt i h), sum_below-share p n (suc i) gs h)

total-cong :
    (f g : String → ℕ) (xs : List String) → All (λ x. f x ≡ g x) xs → total f xs ≡ total g xs
total-cong f g [] h = refl
total-cong f g (x ∷ xs) h = omega (arith, h.0, total-cong f g xs h.1)

index_of-later :
    (c : ℕ → ℕ) (x : String) (ys zs : List String)
    → All (λ y. str_eq x y ≡ false) ys
    → All (λ y. c (index_of y (x ∷ zs)) ≡ c (suc (index_of y zs))) ys
index_of-later c x [] zs h = tt
index_of-later c x (y ∷ ys) zs h = (rw h.0 refl, index_of-later c x ys zs h.1)

-- Each index below the length is the index of one text.
total-index_of :
    (c : ℕ → ℕ) (xs : List String)
    → IsDistinct xs
    → total (λ x. c (index_of x xs)) xs ≡ sum_below c (length xs)
total-index_of c [] h = refl
total-index_of c (x ∷ xs) h =
    let first : c (index_of x (x ∷ xs)) ≡ c 0 = ground (arith, eq_iff x x) in
    omega (
      arith,
      first,
      total-cong (λ y. c (index_of y (x ∷ xs))) (λ y. c (suc (index_of y xs))) xs
          (index_of-later c x xs xs h.0),
      total-index_of (λ i. c (suc i)) xs h.1,
    )

keep-IsDistinct : (p : String → Bool) (xs : List String) → IsDistinct xs → IsDistinct (keep p xs)
keep-IsDistinct p [] h = tt
keep-IsDistinct p (x ∷ xs) h = elim (Bool-cases (p x)) [
  | inl e ↦ rw (e, keep) (All-keep (λ y. str_eq x y ≡ false) p xs h.0, keep-IsDistinct p xs h.1)
  | inr e ↦ rw (e, keep) (keep-IsDistinct p xs h.1)
]

-- What no kept text adds is nothing.
total-keep :
    (p : String → Bool) (f : String → ℕ) (xs : List String)
    → All (λ x. (p x ≡ true) ⊎ (f x ≡ 0)) xs
    → total f xs ≡ total f (keep p xs)
total-keep p f [] h = refl
total-keep p f (x ∷ xs) h = ground (arith, h.0, total-keep p f xs h.1)

members : (xs : List String) → All (λ x. exists_in (str_eq x) xs ≡ true) xs
members [] = tt
members (x ∷ xs) = (
  ground (arith, eq_iff x x),
  All-map {P = λ y. exists_in (str_eq y) xs ≡ true} (λ y h. ground arith) xs (members xs),
)

keep-All : (p : String → Bool) (xs : List String) → All (λ x. p x ≡ true) (keep p xs)
keep-All p [] = tt
keep-All p (x ∷ xs) = ground (arith, keep-All p xs)

pub or_all_lem : (slots actives : List String) → 0 < length actives → or_all slots actives ≡ actives
or_all_lem slots [] h = elim h [ ]
or_all_lem slots (s ∷ actives) h = refl

keep-exists_in :
    (p : String → Bool) (xs : List String) → exists_in p xs ≡ true → 0 < length (keep p xs)
keep-exists_in p [] h = ground arith
keep-exists_in p (x ∷ xs) h = elim (Bool-cases (p x)) [
  | inl e ↦ rw (e, keep) (omega arith)
  | inr e ↦ rw (e, keep) (keep-exists_in p xs (ground arith))
]

All-both :
    (P Q R : String → Type 0) (xs : List String)
    → ((x : String) → P x → Q x → R x)
    → All P xs
    → All Q xs
    → All R xs
All-both P Q R [] f h k = tt
All-both P Q R (x ∷ xs) f h k = (f x h.0 k.0, All-both P Q R xs f h.1 k.1)

All-every : (P : String → Type 0) (xs : List String) → ((x : String) → P x) → All P xs
All-every P [] f = tt
All-every P (x ∷ xs) f = (f x, All-every P xs f)

module _ (slots : List String) (logged_in : String → Bool) (p : String → Bool) (g : String)
    (gs : List String) (some_active : exists_in logged_in slots ≡ true) where
  -- How often a slot gets a group that `p` asks for.
  abbrev given : String → ℕ
  given slot = count_if p (groups_for_slot slots logged_in slot (g ∷ gs))

  abbrev actives : List String
  actives = keep logged_in slots

  partition_slots_lem : partition_slots slots logged_in ≡ actives
  unfolding partition_slots active_slots
  partition_slots_lem = or_all_lem slots actives (keep-exists_in logged_in slots some_active)

  given-inactive : (slot : String) → (logged_in slot ≡ true) ⊎ (given slot ≡ 0)
  unfolding groups_for_slot
  given-inactive slot = ground arith

  given-active :
      (slot : String)
      → logged_in slot ≡ true
      → exists_in (str_eq slot) actives ≡ true
      → given slot ≡ count_if p (share (length actives) (index_of slot actives) 0 (g ∷ gs))
  unfolding groups_for_slot
  given-active slot here there =
      let positive : max 1 (length actives) ≡ length actives =
        omega (arith, keep-exists_in logged_in slots some_active) in
      rw (partition_slots_lem, here, there, positive) refl

  total-given : IsDistinct slots → total given slots ≡ count_if p (g ∷ gs)
  total-given distinct =
      let n = length actives in
      let c : ℕ → ℕ = λ idx. count_if p (share n idx 0 (g ∷ gs)) in
      total-keep logged_in given slots
        (All-every (λ s. (logged_in s ≡ true) ⊎ (given s ≡ 0)) slots given-inactive)
      ∙ total-cong given (λ s. c (index_of s actives)) actives
          (All-both (λ s. logged_in s ≡ true) (λ s. exists_in (str_eq s) actives ≡ true)
            (λ s. given s ≡ c (index_of s actives)) actives given-active (keep-All logged_in slots)
            (members actives))
      ∙ total-index_of c actives (keep-IsDistinct logged_in slots distinct)
      ∙ sum_below-share p n 0 (g ∷ gs) (keep-exists_in logged_in slots some_active)

nothing_given :
    (slots all : List String) (logged_in : String → Bool) (p : String → Bool)
    → total (λ slot. count_if p (groups_for_slot all logged_in slot [])) slots ≡ 0
unfolding groups_for_slot
nothing_given [] all logged_in p = refl
nothing_given (s ∷ slots) all logged_in p = omega (arith, nothing_given slots all logged_in p)

-- Whatever accounts are logged in, of which there is one at least, each group of the master list is
-- given to the accounts exactly as often as the list has it, over all the configured accounts, of which
-- none is configured twice. So a group that the list has once is given to one account and no other.
pub groups_for_slot-total :
    (slots : List String) (logged_in : String → Bool) (group : String) (master : List String)
    → IsDistinct slots
    → exists_in logged_in slots ≡ true
    → total (λ slot. count_if (str_eq group) (groups_for_slot slots logged_in slot master)) slots
      ≡ count_if (str_eq group) master
groups_for_slot-total slots logged_in group [] distinct some_active =
    nothing_given slots slots logged_in (str_eq group)
groups_for_slot-total slots logged_in group (g ∷ gs) distinct some_active =
    total-given slots logged_in (str_eq group) g gs some_active distinct
