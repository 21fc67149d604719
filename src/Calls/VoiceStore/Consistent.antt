-- ===== src/Calls/VoiceStore/Consistent.antt =====
-- What a consistent store of calls is, and that a written session keeps it (core/voice_call_store.py).
use teleautomation_messaging.Prelude.{
  ℕ, zero, suc, ◌-◌, ◌≤◌, ◌≡◌, refl, subst, String, true, false, some, List, [], ◌∷◌, ◌++◌, str_eq,
  length, drop, length-take_last, All, All-append, All-map, Dict, lookup, insert, lookup-insert,
  Bool-cases, inl, inr, arith, eq_iff,
}
use teleautomation_messaging.Calls.VoiceStore.{
  Event, Session, LeadIndex, Store, is_call_status, add_to_lead, same_lead,
}

-- The last event of the list has the status.
abbrev pub EndsIn : String → List Event → Type 0
EndsIn status events =
    (before : List Event) × (e : Event) × (events ≡ before ++ e ∷ []) × (e.status ≡ status)

-- A session stands under its own id, and its status is a known one, the one of its last event.
pub record IsConsistent (key : String) (s : Session) : Type 0 where
  pub own_key : s.id ≡ key
  pub known_status : is_call_status s.status ≡ true
  pub logged : EndsIn s.status s.events

-- The store has a session under the id.
abbrev pub HasSession : Dict Session → String → Type 0
HasSession sessions id = (s : Session) × (lookup id sessions ≡ some s)

abbrev pub IsIndexed : Dict Session → LeadIndex → Type 0
IsIndexed sessions index = All (λ e. (length e.1 ≤ 100) × All (HasSession sessions) e.1) index

-- No key stands twice.
abbrev pub HasUniqueKeys : Dict Session → Type 0
HasUniqueKeys [] = Unit
HasUniqueKeys ((k, s) ∷ d) = All (λ e. str_eq k e.0 ≡ false) d × HasUniqueKeys d

abbrev pub IsValid : Store → Type 0
IsValid st =
    All (λ e. IsConsistent e.0 e.1) st.sessions
    × IsIndexed st.sessions st.by_lead
    × HasUniqueKeys st.sessions

pub insert-All :
    (P : String → Session → Type 0) (key : String) (s : Session) (d : Dict Session)
    → P key s
    → All (λ e. P e.0 e.1) d
    → All (λ e. P e.0 e.1) (insert key s d)
unfolding insert
insert-All P key s [] p h = (p, tt)
insert-All P key s ((k, old) ∷ d) p h = elim (Bool-cases (str_eq k key)) [
  | inl e ↦ rw (e, insert) (rw ((eq_iff k key).0 e) p, h.1)
  | inr e ↦ rw (e, insert) (h.0, insert-All P key s d p h.1)
]

pub insert-HasUniqueKeys :
    (key : String) (s : Session) (d : Dict Session)
    → HasUniqueKeys d
    → HasUniqueKeys (insert key s d)
unfolding insert
insert-HasUniqueKeys key s [] h = (tt, tt)
insert-HasUniqueKeys key s ((k, old) ∷ d) h = elim (Bool-cases (str_eq k key)) [
  | inl e ↦ rw (e, insert) h
  | inr e ↦
      rw (e, insert)
        (insert-All (λ j x. str_eq k j ≡ false) key s d e h.0, insert-HasUniqueKeys key s d h.1)
]

pub lookup-All :
    (P : String → Session → Type 0) (key : String) (s : Session) (d : Dict Session)
    → All (λ e. P e.0 e.1) d
    → lookup key d ≡ some s
    → P key s
unfolding lookup
lookup-All P key s [] h found = cc
lookup-All P key s ((k, x) ∷ d) h found = elim (Bool-cases (str_eq k key)) [
  | inl e ↦
      let same : x ≡ s = ground arith in
      subst (P key) same (subst (λ j. P j x) ((eq_iff k key).0 e) h.0)
  | inr e ↦ lookup-All P key s d h.1 (ground arith)
]

pub insert-HasSession :
    (key id : String) (s : Session) (d : Dict Session)
    → HasSession d id
    → HasSession (insert key s d) id
insert-HasSession key id s d (x, found) = elim (Bool-cases (str_eq key id)) [
  | inl e ↦ (s, rw (lookup-insert key id s d, e) refl)
  | inr e ↦ (x, rw (lookup-insert key id s d, e) found)
]

pub insert-HasSession_own :
    (key : String) (s : Session) (d : Dict Session) → HasSession (insert key s d) key
insert-HasSession_own key s d = (s, ground (arith, lookup-insert key key s d, eq_iff key key))

pub insert-IsIndexed :
    (key : String) (s : Session) (d : Dict Session) (index : LeadIndex)
    → IsIndexed d index
    → IsIndexed (insert key s d) index
insert-IsIndexed key s d [] h = tt
insert-IsIndexed key s d (e ∷ index) h = (
  (h.0.0, All-map {P = HasSession d} (λ id. insert-HasSession key id s d) e.1 h.0.1),
  insert-IsIndexed key s d index h.1,
)

drop-All : (P : String → Type 0) (n : ℕ) (xs : List String) → All P xs → All P (drop n xs)
drop-All P zero xs h = h
drop-All P (suc n) [] h = tt
drop-All P (suc n) (x ∷ xs) h = drop-All P n xs h.1

pub add_to_lead-IsIndexed :
    (lead : String × ℕ) (id : String) (d : Dict Session) (index : LeadIndex)
    → HasSession d id
    → IsIndexed d index
    → IsIndexed d (add_to_lead lead id index)
unfolding add_to_lead
add_to_lead-IsIndexed lead id d [] has h = ((omega arith, (has, tt)), tt)
add_to_lead-IsIndexed lead id d ((k, ids) ∷ index) has h = elim (Bool-cases (same_lead k lead)) [
  | inl e ↦
      rw (e, add_to_lead)
        (
          (
            length-take_last 100 (ids ++ id ∷ []),
            drop-All (HasSession d) (length (ids ++ id ∷ []) - 100) (ids ++ id ∷ [])
                (All-append (HasSession d) ids (id ∷ []) h.0.1 (has, tt)),
          ),
          h.1,
        )
  | inr e ↦ rw (e, add_to_lead) (h.0, add_to_lead-IsIndexed lead id d index has h.1)
]
