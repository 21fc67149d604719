-- ===== src/Calls/VoiceStore.antt =====
-- core/voice_call_store.py: the sessions of voice calls. The store is the object in the file; the session
-- ids and tokens, which are random, are arguments, and time is a number of microseconds.
mod Sessions
pub mod Consistent
pub mod Records
pub mod Lookups
pub mod Ending
pub use Sessions.{
  Event, Session, LeadIndex, Store, call_statuses, is_call_status, empty_store, or_else,
}
unfoldable pub use Sessions.{strip_at, lower}
use teleautomation_messaging.Prelude.{
  ℕ, zero, suc, ◌+◌, ◌-◌, ◌*◌, ◌/◌, String, Bool, true, false, not, ◌&&◌, ◌||◌, Option, none, some,
  List, [], ◌∷◌, ◌++◌, leb, ◌==◌, str_eq, if◌then◌else◌, length, exists_in, take_last, Dict, lookup,
  insert, strip,
}

abbrev pub same_lead : String × ℕ → String × ℕ → Bool
same_lead (slot, uid) (slot', uid') = str_eq slot slot' && uid == uid'

-- Appends an id to the last hundred of a lead.
unfoldable pub add_to_lead : String × ℕ → String → LeadIndex → LeadIndex
add_to_lead key id [] = (key, id ∷ []) ∷ []
add_to_lead key id ((k, ids) ∷ rest) =
    if same_lead k key
    then (k, take_last 100 (ids ++ id ∷ [])) ∷ rest
    else (k, ids) ∷ add_to_lead key id rest

unfoldable pub create_session :
    (session_id join_token : String) (now : ℕ) (slot : String) (user_id : ℕ)
    (caller assigned_to lead_name lead_username : String)
    → Store
    → Store × Session
unfolding strip_at
create_session session_id join_token now slot user_id caller assigned_to lead_name lead_username
      st =
    let session : Session = record {
      id = session_id;
      join_token = join_token;
      account_id = slot;
      user_id = user_id;
      caller = or_else (strip caller) "operator";
      assigned_to = or_else (strip (or_else assigned_to caller)) "operator";
      lead_name = strip lead_name;
      lead_username = strip_at (strip lead_username);
      status = "ringing";
      started_at = now;
      connected_at = none;
      ended_at = none;
      duration_sec = 0;
      outcome = "";
      notes = "";
      ai_summary = "";
      ai_suggested_action = "";
      telegram_call_id = none;
      call_mode = "";
      events = record { at = now; status = "ringing"; by = or_else caller "operator" } ∷ [];
    } in
    (
      record {
        sessions = insert session_id session st.sessions;
        by_lead = add_to_lead (slot, user_id) session_id st.by_lead;
      },
      session,
    )

unfoldable pub get_session : String → Store → Option Session
get_session session_id st = lookup session_id st.sessions

abbrev pub is_live : String → Bool
is_live s = str_eq s "ringing" || str_eq s "connecting" || str_eq s "active"

abbrev or_zero : Option ℕ → ℕ
or_zero none = 0
or_zero (some n) = n

unfoldable pub first_live_call : String → ℕ → Dict Session → Option Session
first_live_call slot cid [] = none
first_live_call slot cid ((k, s) ∷ rest) =
    if str_eq s.account_id slot && or_zero s.telegram_call_id == cid && is_live s.status
    then some s
    else first_live_call slot cid rest

unfoldable pub find_session_by_telegram_call_id : String → ℕ → Store → Option Session
find_session_by_telegram_call_id slot call_id st =
    if call_id == 0 || str_eq slot "" then none else first_live_call slot call_id st.sessions

-- The keyword arguments of `update_session`; `none` is an argument that is missing or None.
pub record Fields : Type 0 where
  pub status : Option String
  pub event_by : String
  pub connected_at : Option ℕ
  pub ended_at : Option ℕ
  pub duration_sec : Option ℕ
  pub outcome : Option String
  pub notes : Option String
  pub ai_summary : Option String
  pub ai_suggested_action : Option String
  pub telegram_call_id : Option ℕ
  pub call_mode : Option String

abbrev or_old {ℓ} : {A : Type ℓ} → A → Option A → A
or_old old none = old
or_old old (some new) = new

abbrev or_old_some {ℓ} : {A : Type ℓ} → Option A → Option A → Option A
or_old_some old none = old
or_old_some old (some new) = some new

with_status : Option String → String → ℕ → Session → Session
with_status none event_by now s = s
with_status (some status) event_by now s =
    if is_call_status status
    then record s {
      status = status;
      events =
          s.events
          ++ record { at = now; status = status; by = or_else event_by (or_else s.caller "system") }
            ∷ [];
    }
    else s

with_fields : Fields → Session → Session
with_fields f s = record s {
  connected_at = or_old_some s.connected_at f.connected_at;
  ended_at = or_old_some s.ended_at f.ended_at;
  duration_sec = or_old s.duration_sec f.duration_sec;
  outcome = or_old s.outcome f.outcome;
  notes = or_old s.notes f.notes;
  ai_summary = or_old s.ai_summary f.ai_summary;
  ai_suggested_action = or_old s.ai_suggested_action f.ai_suggested_action;
  telegram_call_id = or_old_some s.telegram_call_id f.telegram_call_id;
  call_mode = or_old s.call_mode f.call_mode;
}

-- What `update_session` makes of the session.
unfoldable pub updated : Fields → ℕ → Session → Session
unfolding with_status with_fields
updated f now s = with_fields f (with_status f.status f.event_by now s)

store_updated : String → Fields → ℕ → Option Session → Store → Store × Option Session
store_updated session_id f now none st = (st, none)
store_updated session_id f now (some s) st = (
  record st { sessions = insert session_id (updated f now s) st.sessions },
  some (updated f now s),
)

unfoldable pub update_session : String → Fields → ℕ → Store → Store × Option Session
unfolding store_updated
update_session session_id f now st =
    store_updated session_id f now (lookup session_id st.sessions) st

abbrev pub microseconds : ℕ
microseconds = 1000000

-- `max(0, int((end - start).total_seconds()))`
abbrev pub duration : Option ℕ → ℕ → ℕ
duration none now = 0
duration (some start) now = (now - start) / microseconds

abbrev or_missed : Option ℕ → String
or_missed none = "missed"
or_missed (some start) = "ended"

unfoldable pub end_status : String → Option ℕ → String
end_status status connected_at =
    let st = if is_call_status status then status else "ended" in
    if str_eq st "ended" then or_missed connected_at else st

unfoldable pub end_fields :
    (status outcome notes ai_summary ai_suggested_action : String) → ℕ → Session → Fields
unfolding end_status
end_fields status outcome notes ai_summary ai_suggested_action now s = record {
  status = some (end_status status s.connected_at);
  event_by = "system";
  connected_at = none;
  ended_at = some now;
  duration_sec = some (duration s.connected_at now);
  outcome = some (lower (strip outcome));
  notes = some (strip notes);
  ai_summary = some (strip ai_summary);
  ai_suggested_action = some (strip ai_suggested_action);
  telegram_call_id = none;
  call_mode = none;
}

ended_as :
    (session_id status outcome notes ai_summary ai_suggested_action : String)
    → ℕ
    → Option Session
    → Store
    → Store × Option Session
ended_as session_id status outcome notes ai_summary ai_suggested_action now none st = (st, none)
ended_as session_id status outcome notes ai_summary ai_suggested_action now (some s) st =
    update_session session_id (end_fields status outcome notes ai_summary ai_suggested_action now s)
      now st

unfoldable pub end_session :
    (session_id status outcome notes ai_summary ai_suggested_action : String)
    → ℕ
    → Store
    → Store × Option Session
unfolding ended_as
end_session session_id status outcome notes ai_summary ai_suggested_action now st =
    ended_as session_id status outcome notes ai_summary ai_suggested_action now
      (get_session session_id st) st
