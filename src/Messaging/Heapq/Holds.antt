-- ===== src/Messaging/Heapq/Holds.antt =====
-- What the operations of the heap keep: the entries (messaging/account_queue.py, heapq).
use mathlib.Core.List.{Permᴰ}
use teleautomation_messaging.Prelude.{
  ℕ, zero, suc, ◌+◌, ◌*◌, ◌/◌, ◌<◌, ◌≤◌, ◌≡◌, refl, ap, ◌∙◌, sym, subst, List, [], ◌∷◌, ◌++◌, ltb,
  length, set, arith, All, count_if, exists_in, Bool, true, Bool-cases, inl, inr, ◌&&◌,
}
use teleautomation_messaging.Messaging.Heapq.{
  HeapEntry, less, entry_at, swap_at, parent, sift_down, smaller_child, sink, sift_up, heappush,
  last_entry, but_last, rest_of, heapify_from, heapify,
}
use teleautomation_messaging.Messaging.Heapq.Array.{length-swap_at}

-- The two heaps hold the same entries, as often.
abbrev pub Holds : List HeapEntry → List HeapEntry → Type 0
Holds xs ys = Permᴰ xs ys

pub Holds-refl : (xs : List HeapEntry) → Holds xs xs
Holds-refl [] = Permᴰ.nil
Holds-refl (x ∷ xs) = Permᴰ.cons refl (Holds-refl xs)

pub Holds-sym : {xs ys : List HeapEntry} → Holds xs ys → Holds ys xs
Holds-sym Permᴰ.nil = Permᴰ.nil
Holds-sym (Permᴰ.cons e p) = Permᴰ.cons (sym e) (Holds-sym p)
Holds-sym (Permᴰ.swap e e') = Permᴰ.swap (sym e') (sym e)
Holds-sym (Permᴰ.trans p q) = Permᴰ.trans (Holds-sym q) (Holds-sym p)

pub Holds-length : {xs ys : List HeapEntry} → Holds xs ys → length xs ≡ length ys
Holds-length Permᴰ.nil = refl
Holds-length (Permᴰ.cons e p) = ap suc (Holds-length p)
Holds-length (Permᴰ.swap e e') = refl
Holds-length (Permᴰ.trans p q) = Holds-length p ∙ Holds-length q

pub Holds-All :
    (P : HeapEntry → Type 0) {xs ys : List HeapEntry} → Holds xs ys → All P xs → All P ys
Holds-All P Permᴰ.nil h = tt
Holds-All P (Permᴰ.cons e p) h = (subst P e h.0, Holds-All P p h.1)
Holds-All P (Permᴰ.swap e e') h = (subst P e' h.1.0, (subst P e h.0, h.1.1))
Holds-All P (Permᴰ.trans p q) h = Holds-All P q (Holds-All P p h)

pub Holds-count_if :
    (p : HeapEntry → Bool) {xs ys : List HeapEntry} → Holds xs ys → count_if p xs ≡ count_if p ys
Holds-count_if p Permᴰ.nil = refl
Holds-count_if p (Permᴰ.cons {a = a} {b = b} e d) = ground (arith, Holds-count_if p d, ap p e)
Holds-count_if p (Permᴰ.swap {a = a} {b = b} e e') = ground (arith, ap p e, ap p e')
Holds-count_if p (Permᴰ.trans d d') = Holds-count_if p d ∙ Holds-count_if p d'

pub exists_in-count_if :
    (p : HeapEntry → Bool) (xs : List HeapEntry) → exists_in p xs ≡ ltb 0 (count_if p xs)
exists_in-count_if p [] = ground arith
exists_in-count_if p (x ∷ xs) = ground (arith, exists_in-count_if p xs)

pub Holds-exists_in :
    (p : HeapEntry → Bool) {xs ys : List HeapEntry} → Holds xs ys → exists_in p xs ≡ exists_in p ys
Holds-exists_in p {xs} {ys} d =
    ground (arith, exists_in-count_if p xs, exists_in-count_if p ys, Holds-count_if p d)

-- The entry at an index changes places with the one before the array.
trade :
    (x : HeapEntry) (xs : List HeapEntry) (i : ℕ)
    → i < length xs
    → Holds (entry_at xs i ∷ set xs i x) (x ∷ xs)
unfolding entry_at
trade x [] i h = absurd (omega arith)
trade x (y ∷ ys) zero h = Permᴰ.swap refl refl
trade x (y ∷ ys) (suc i) h =
    Permᴰ.trans (Permᴰ.swap refl refl)
      (Permᴰ.trans (Permᴰ.cons refl (trade x ys i (omega arith))) (Permᴰ.swap refl refl))

pub swap_at-Holds :
    (heap : List HeapEntry) (i j : ℕ)
    → i < length heap
    → j < length heap
    → Holds (swap_at heap i j) heap
unfolding swap_at entry_at
swap_at-Holds [] i j h k = absurd (omega arith)
swap_at-Holds (x ∷ xs) zero zero h k = Holds-refl (x ∷ xs)
swap_at-Holds (x ∷ xs) zero (suc j) h k = trade x xs j (omega arith)
swap_at-Holds (x ∷ xs) (suc i) zero h k = trade x xs i (omega arith)
swap_at-Holds (x ∷ xs) (suc i) (suc j) h k =
    Permᴰ.cons refl (swap_at-Holds xs i j (omega arith) (omega arith))

pub sift_down-Holds :
    (fuel start pos : ℕ) (heap : List HeapEntry)
    → pos < length heap
    → Holds (sift_down fuel start pos heap) heap
unfolding sift_down
sift_down-Holds zero start pos heap h = Holds-refl heap
sift_down-Holds (suc fuel) start pos heap h =
    elim (Bool-cases (ltb start pos && less (entry_at heap pos) (entry_at heap (parent pos)))) [
      | inl up ↦
          rw (up, sift_down)
            (Permᴰ.trans
              (sift_down-Holds fuel start (parent pos) (swap_at heap pos (parent pos))
                (omega (arith, length-swap_at heap pos (parent pos))))
              (swap_at-Holds heap pos (parent pos) h (omega arith)))
      | inr stop ↦ rw (stop, sift_down) (Holds-refl heap)
    ]

pub smaller_child-lt :
    (heap : List HeapEntry) (pos : ℕ)
    → ltb (2 * pos + 1) (length heap) ≡ true
    → smaller_child heap pos < length heap
unfolding smaller_child
smaller_child-lt heap pos h = ground arith

pub sink-Holds :
    (fuel pos : ℕ) (heap : List HeapEntry)
    → pos < length heap
    → Holds (sink fuel pos heap).0 heap × ((sink fuel pos heap).1 < length heap)
unfolding sink
sink-Holds zero pos heap h = (Holds-refl heap, h)
sink-Holds (suc fuel) pos heap h = elim (Bool-cases (ltb (2 * pos + 1) (length heap))) [
  | inl more ↦
      let m = smaller_child heap pos in
      let lt = smaller_child-lt heap pos more in
      let size = length-swap_at heap pos m in
      let rest = sink-Holds fuel m (swap_at heap pos m) (omega (arith, lt, size)) in
      rw (more, sink)
        (Permᴰ.trans rest.0 (swap_at-Holds heap pos m h lt), omega (arith, rest.1, size))
  | inr leaf ↦ rw (leaf, sink) (Holds-refl heap, h)
]

pub sift_up-Holds :
    (heap : List HeapEntry) (pos : ℕ) → pos < length heap → Holds (sift_up heap pos) heap
unfolding sift_up
sift_up-Holds heap pos h =
    let s = sink-Holds (length heap) pos heap h in
    let size = Holds-length s.0 in
    Permᴰ.trans (sift_down-Holds (length heap) pos _ _ (omega (arith, s.1, size))) s.0

append_one-Holds : (heap : List HeapEntry) (e : HeapEntry) → Holds (heap ++ e ∷ []) (e ∷ heap)
append_one-Holds [] e = Holds-refl (e ∷ [])
append_one-Holds (x ∷ xs) e =
    Permᴰ.trans (Permᴰ.cons refl (append_one-Holds xs e)) (Permᴰ.swap refl refl)

pub heappush-Holds : (heap : List HeapEntry) (e : HeapEntry) → Holds (heappush heap e) (e ∷ heap)
unfolding heappush
heappush-Holds heap e =
    let p = append_one-Holds heap e in
    Permᴰ.trans
      (sift_down-Holds (suc (length heap)) 0 (length heap) _ (omega (arith, Holds-length p))) p

last_entry-Holds :
    (x : HeapEntry) (xs : List HeapEntry) → Holds (last_entry x xs ∷ but_last x xs) (x ∷ xs)
unfolding last_entry but_last
last_entry-Holds x [] = Holds-refl (x ∷ [])
last_entry-Holds x (y ∷ ys) =
    Permᴰ.trans (Permᴰ.swap refl refl) (Permᴰ.cons refl (last_entry-Holds y ys))

pub rest_of-Holds : (xs : List HeapEntry) → Holds (rest_of xs) xs
unfolding rest_of
rest_of-Holds [] = Permᴰ.nil
rest_of-Holds (y ∷ ys) =
    Permᴰ.trans (sift_up-Holds (last_entry y ys ∷ but_last y ys) 0 (omega arith))
      (last_entry-Holds y ys)

heapify_from-Holds :
    (i : ℕ) (heap : List HeapEntry) → i ≤ length heap → Holds (heapify_from i heap) heap
unfolding heapify_from
heapify_from-Holds zero heap h = Holds-refl heap
heapify_from-Holds (suc i) heap h =
    let s = sift_up-Holds heap i (omega arith) in
    Permᴰ.trans (heapify_from-Holds i (sift_up heap i) (omega (arith, Holds-length s))) s

pub heapify-Holds : (heap : List HeapEntry) → Holds (heapify heap) heap
unfolding heapify
heapify-Holds heap = heapify_from-Holds (length heap / 2) heap (omega arith)
