-- ===== src/Fleet/Assignment/Balance.antt =====
-- The shares of the accounts are even (core/group_assignment.py).
use native.Mathlib.Nat.{mod-lt, suc-mod, mod-eq_of_lt, mod_self}
use teleautomation_messaging.Prelude.{
  ℕ, suc, ◌+◌, ◌-◌, ◌%◌, ◌≤◌, ◌<◌, ◌≡◌, max, refl, ap, sym, subst, ◌∙◌, String, Bool, true, List,
  [], ◌∷◌, leb, ◌==◌, str_eq, if◌then◌else◌, length, exists_in, keep, Bool-cases, inl, inr, arith,
  eq_iff,
}
use teleautomation_messaging.Fleet.Assignment.{
  index_of, active_slots, partition_slots, share, groups_for_slot,
}
use teleautomation_messaging.Fleet.Assignment.Partition.{or_all_lem}

next_turn : (n i : ℕ) → 0 < n → suc i % n ≡ (if suc (i % n) == n then 0 else suc (i % n))
next_turn n i h = elim (Bool-cases (suc (i % n) == n)) [
  | inl e ↦
      let last : suc (i % n) ≡ n = ground arith in
      rw e (suc-mod i n ∙ ap (λ t. t % n) last ∙ mod_self n)
  | inr e ↦ rw e (suc-mod i n ∙ mod-eq_of_lt (ground (arith, mod-lt i h)))
]

-- How many turns from turn `r` on until index `idx`.
abbrev wait : ℕ → ℕ → ℕ → ℕ
wait n r idx = if leb r idx then idx - r else idx + n - r

-- One turn: the index `r` gets a group, and the order of turns is rotated.
turn-even :
    (n r r' idx idx' a a' : ℕ)
    → r < n
    → r' ≡ (if suc r == n then 0 else suc r)
    → idx < n
    → idx' < n
    → wait n r idx ≤ wait n r idx'
    → (wait n r' idx ≤ wait n r' idx' → (a' ≤ a) × (a ≤ a' + 1))
    → (wait n r' idx' ≤ wait n r' idx → (a ≤ a') × (a' ≤ a + 1))
    → ((if r == idx' then suc a' else a') ≤ (if r == idx then suc a else a))
      × ((if r == idx then suc a else a) ≤ (if r == idx' then suc a' else a') + 1)
turn-even n r r' idx idx' a a' hr hr' h h' w ih ih' = ground arith

length-share :
    (n idx i : ℕ) (g : String) (gs : List String)
    → length (share n idx i (g ∷ gs)) ≡ (
        if i % n == idx
        then suc (length (share n idx (suc i) gs))
        else length (share n idx (suc i) gs))
unfolding share
length-share n idx i g gs = ground arith

module _ (n : ℕ) (some_parts : 0 < n) where
  abbrev size : ℕ → ℕ → List String → ℕ
  size idx i gs = length (share n idx i gs)

  -- The index whose turn comes first has as many groups as the other, or one more.
  share-even :
      (idx idx' i : ℕ) (gs : List String)
      → idx < n
      → idx' < n
      → wait n (i % n) idx ≤ wait n (i % n) idx'
      → (size idx' i gs ≤ size idx i gs) × (size idx i gs ≤ size idx' i gs + 1)
  unfolding share
  share-even idx idx' i [] h h' w = omega arith
  share-even idx idx' i (g ∷ gs) h h' w =
      rw (length-share n idx i g gs, length-share n idx' i g gs)
        (turn-even n (i % n) (suc i % n) idx idx' (size idx (suc i) gs) (size idx' (suc i) gs)
          (mod-lt i some_parts) (next_turn n i some_parts) h h' w
          (share-even idx idx' (suc i) gs h h') (share-even idx' idx (suc i) gs h' h))

  -- So any two shares differ by one group at most.
  share-balanced :
      (idx idx' i : ℕ) (gs : List String) → idx < n → idx' < n → size idx i gs ≤ size idx' i gs + 1
  share-balanced idx idx' i gs h h' =
      ground (arith, share-even idx idx' i gs h h', share-even idx' idx i gs h' h)

index_of-lt :
    (x : String) (xs : List String) → exists_in (str_eq x) xs ≡ true → index_of x xs < length xs
index_of-lt x [] h = ground arith
index_of-lt x (y ∷ ys) h = ground (arith, eq_iff x y, eq_iff y x, index_of-lt x ys)

keep-member :
    (p : String → Bool) (x : String) (xs : List String)
    → exists_in (str_eq x) (keep p xs) ≡ true
    → p x ≡ true
keep-member p x [] h = ground arith
keep-member p x (y ∷ ys) h = elim (Bool-cases (p y)) [
  | inl e ↦ elim (Bool-cases (str_eq x y)) [
    | inl same ↦ subst (λ z. p z ≡ true) (sym ((eq_iff x y).0 same)) e
    | inr other ↦ keep-member p x ys (ground arith)
  ]
  | inr e ↦ keep-member p x ys (ground arith)
]

groups_for_slot-share :
    (slots : List String) (logged_in : String → Bool) (slot g : String) (gs : List String)
    → exists_in (str_eq slot) (active_slots slots logged_in) ≡ true
    → let actives = active_slots slots logged_in in
      (0 < length actives)
      × (index_of slot actives < length actives)
      × (groups_for_slot slots logged_in slot (g ∷ gs)
          ≡ share (length actives) (index_of slot actives) 0 (g ∷ gs))
unfolding groups_for_slot partition_slots active_slots
groups_for_slot-share slots logged_in slot g gs there =
    let actives = keep logged_in slots in
    let below = index_of-lt slot actives there in
    let positive : max 1 (length actives) ≡ length actives = omega (arith, below) in
    (
      omega (arith, below),
      below,
      rw
          (
            or_all_lem slots actives (omega (arith, below)),
            keep-member logged_in slot slots there,
            there,
            positive,
          )
          refl,
    )

-- The master list is shared out evenly: of two accounts that are configured and logged in, none gets
-- more groups than the other and one.
pub groups_for_slot-even :
    (slots : List String) (logged_in : String → Bool) (slot other : String) (master : List String)
    → exists_in (str_eq slot) (active_slots slots logged_in) ≡ true
    → exists_in (str_eq other) (active_slots slots logged_in) ≡ true
    → length (groups_for_slot slots logged_in slot master)
      ≤ length (groups_for_slot slots logged_in other master) + 1
unfolding groups_for_slot
groups_for_slot-even slots logged_in slot other [] h h' = omega arith
groups_for_slot-even slots logged_in slot other (g ∷ gs) h h' =
    let (some_active, below, e) = groups_for_slot-share slots logged_in slot g gs h in
    let (_, below', e') = groups_for_slot-share slots logged_in other g gs h' in
    let n = length (active_slots slots logged_in) in
    rw (e, e')
      (share-balanced n some_active (index_of slot (active_slots slots logged_in))
        (index_of other (active_slots slots logged_in)) 0 (g ∷ gs) below below')
