-- ===== src/Calls/VoiceStore/Records.antt =====
-- The sessions and the index of leads stay consistent (core/voice_call_store.py).
use teleautomation_messaging.Prelude.{
  ℕ, refl, String, Option, none, some, List, [], ◌∷◌, lookup, insert, Bool-cases, Option-cases, inl,
  inr,
}
use teleautomation_messaging.Calls.VoiceStore.{
  Session, Store, empty_store, is_call_status, create_session, Fields, with_status, with_fields,
  updated, store_updated, update_session, end_fields, ended_as, end_session, get_session,
}
use teleautomation_messaging.Calls.VoiceStore.Consistent.{
  IsConsistent, IsValid, insert-All, insert-HasUniqueKeys, lookup-All, insert-HasSession_own,
  insert-IsIndexed, add_to_lead-IsIndexed,
}

pub data StoreOp : Type 0 where
  creates :
      (session_id join_token : String) (now : ℕ) (slot : String) (user_id : ℕ)
      (caller assigned_to lead_name lead_username : String)
      → StoreOp
  updates : (session_id : String) → Fields → (now : ℕ) → StoreOp
  ends :
      (session_id status outcome notes ai_summary ai_suggested_action : String) (now : ℕ) → StoreOp

unfoldable pub store_step : Store → StoreOp → Store
store_step st (creates session_id token now slot uid caller assigned_to name username) =
    (create_session session_id token now slot uid caller assigned_to name username st).0
store_step st (updates session_id f now) = (update_session session_id f now st).0
store_step st (ends session_id status outcome notes ai_summary action now) =
    (end_session session_id status outcome notes ai_summary action now st).0

unfoldable pub store_run : Store → List StoreOp → Store
store_run st [] = st
store_run st (op ∷ ops) = store_run (store_step st op) ops

create_session-IsValid :
    (session_id token : String) (now : ℕ) (slot : String) (uid : ℕ)
    (caller assigned_to name username : String) (st : Store)
    → IsValid st
    → IsValid (create_session session_id token now slot uid caller assigned_to name username st).0
unfolding create_session
create_session-IsValid session_id token now slot uid caller assigned_to name username st h =
    let made =
      (create_session session_id token now slot uid caller assigned_to name username st).1 in
    let sessions = insert session_id made st.sessions in
    (
      insert-All IsConsistent session_id made st.sessions
          (record { own_key = refl; known_status = refl; logged = ([], _, refl, refl) }) h.0,
      add_to_lead-IsIndexed (slot, uid) session_id sessions st.by_lead
          (insert-HasSession_own session_id made st.sessions)
          (insert-IsIndexed session_id made st.sessions st.by_lead h.1),
      insert-HasUniqueKeys session_id made st.sessions h.2,
    )

with_status-IsConsistent :
    (key : String) (status : Option String) (by : String) (now : ℕ) (s : Session)
    → IsConsistent key s
    → IsConsistent key (with_status status by now s)
unfolding with_status
with_status-IsConsistent key none by now s h = h
with_status-IsConsistent key (some status) by now s h = elim (Bool-cases (is_call_status status)) [
  | inl known ↦
      rw (known, with_status)
        (record { own_key = h.own_key; known_status = known; logged = (s.events, _, refl, refl) })
  | inr unknown ↦ rw (unknown, with_status) h
]

updated-IsConsistent :
    (key : String) (f : Fields) (now : ℕ) (s : Session)
    → IsConsistent key s
    → IsConsistent key (updated f now s)
unfolding updated with_fields
updated-IsConsistent key f now s h =
    let g = with_status-IsConsistent key f.status f.event_by now s h in
    record { own_key = g.own_key; known_status = g.known_status; logged = g.logged }

update_session-IsValid :
    (session_id : String) (f : Fields) (now : ℕ) (st : Store)
    → IsValid st
    → IsValid (update_session session_id f now st).0
unfolding update_session store_updated
update_session-IsValid session_id f now st h = elim (Option-cases (lookup session_id st.sessions)) [
  | inl missing ↦ rw (missing, update_session) h
  | inr (s, found) ↦
      rw (found, update_session)
        (
          insert-All IsConsistent session_id (updated f now s) st.sessions
              (updated-IsConsistent session_id f now s
                (lookup-All IsConsistent session_id s st.sessions h.0 found))
              h.0,
          insert-IsIndexed session_id (updated f now s) st.sessions st.by_lead h.1,
          insert-HasUniqueKeys session_id (updated f now s) st.sessions h.2,
        )
]

ended_as-IsValid :
    (session_id status outcome notes ai_summary action : String) (now : ℕ) (o : Option Session)
    (st : Store)
    → IsValid st
    → IsValid (ended_as session_id status outcome notes ai_summary action now o st).0
unfolding ended_as
ended_as-IsValid session_id status outcome notes ai_summary action now none st h = h
ended_as-IsValid session_id status outcome notes ai_summary action now (some s) st h =
    update_session-IsValid session_id (end_fields status outcome notes ai_summary action now s) now
      st h

store_step-IsValid : (st : Store) (op : StoreOp) → IsValid st → IsValid (store_step st op)
unfolding store_step end_session
store_step-IsValid st (creates session_id token now slot uid caller assigned_to name username) h =
    create_session-IsValid session_id token now slot uid caller assigned_to name username st h
store_step-IsValid st (updates session_id f now) h = update_session-IsValid session_id f now st h
store_step-IsValid st (ends session_id status outcome notes ai_summary action now) h =
    ended_as-IsValid session_id status outcome notes ai_summary action now
      (get_session session_id st) st h

run-IsValid : (st : Store) (ops : List StoreOp) → IsValid st → IsValid (store_run st ops)
unfolding store_run
run-IsValid st [] h = h
run-IsValid st (op ∷ ops) h = run-IsValid (store_step st op) ops (store_step-IsValid st op h)

-- Whatever calls are made, updated and ended, from an empty store on: each session stands under its
-- own id, its status is a known one and the one of its last event, and the index of a lead holds at
-- most a hundred ids, each of a session of the store.
pub store_run-IsValid : (ops : List StoreOp) → IsValid (store_run empty_store ops)
store_run-IsValid ops = run-IsValid empty_store ops (tt, tt, tt)
