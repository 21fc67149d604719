-- ===== src/Tests/VoiceCalls.antt =====
-- The sessions of voice calls (core/voice_call_store.py).
use teleautomation_messaging.Prelude.{
  ◌≡◌, ◌≢◌, refl, String, none, some, List, [], ◌∷◌, lookup, insert, strip, strip_left, strip_right,
}
use teleautomation_messaging.Calls.VoiceStore.{
  Session, Store, empty_store, lower, strip_at, add_to_lead, create_session, Fields, updated,
  update_session, end_status, end_fields, end_session, get_session, first_live_call,
  find_session_by_telegram_call_id,
}
use teleautomation_messaging.Calls.VoiceStore.Lookups.{
  first_with_token, get_session_by_token, ids_of_lead, reverse_onto, collect, list_lead_sessions,
}
use teleautomation_messaging.Calls.VoiceStore.Consistent.{IsValid}
use teleautomation_messaging.Calls.VoiceStore.Records.{
  StoreOp, creates, updates, store_step, store_run, store_run-IsValid,
}
use teleautomation_messaging.Calls.VoiceStore.Ending.{Ends, end_session-Ends}

lower_letters : lower "Follow_Up" ≡ "follow_up"
unfolding lower
lower_letters = refl

abbrev call_fields : Fields
call_fields = record {
  status = some "active";
  event_by = "client";
  connected_at = some 5000000;
  ended_at = none;
  duration_sec = none;
  outcome = none;
  notes = none;
  ai_summary = none;
  ai_suggested_action = none;
  telegram_call_id = some 77;
  call_mode = some "telegram";
}

-- Two calls, of which the second is connected.
abbrev calls : List StoreOp
calls =
    creates "s1" "t1" 1000000 "a" 7 "Asha" "" "Ravi" "@ravi"
    ∷ creates "s2" "t2" 2000000 "a" 8 "" "" "" ""
    ∷ updates "s2" call_fields 5000000
    ∷ []

store_run-IsValid_example : IsValid (store_run empty_store calls)
store_run-IsValid_example = store_run-IsValid calls

abbrev ringing : Session
ringing = record {
  id = "s1";
  join_token = "t1";
  account_id = "a";
  user_id = 7;
  caller = "Asha";
  assigned_to = "Asha";
  lead_name = "Ravi";
  lead_username = "ravi";
  status = "ringing";
  started_at = 1000000;
  connected_at = none;
  ended_at = none;
  duration_sec = 0;
  outcome = "";
  notes = "";
  ai_summary = "";
  ai_suggested_action = "";
  telegram_call_id = none;
  call_mode = "";
  events = record { at = 1000000; status = "ringing"; by = "Asha" } ∷ [];
}

made_session :
    (create_session "s1" "t1" 1000000 "a" 7 "Asha" "" "Ravi" "@ravi" empty_store).1 ≡ ringing
unfolding create_session strip strip_left strip_right strip_at
made_session = refl

abbrev one_call : Store
one_call = record { sessions = ("s1", ringing) ∷ []; by_lead = (("a", 7), "s1" ∷ []) ∷ [] }

end_session-Ends_example :
    let r = end_session "s1" "ended" "" "" "" "" 9000000 one_call in
    (s : Session) × (r.1 ≡ some s)
    × (get_session "s1" r.0 ≡ some s)
    × Ends "ended" 9000000 ringing s
    × ((other : String) → "s1" ≢ other → get_session other r.0 ≡ get_session other one_call)
end_session-Ends_example =
    end_session-Ends "s1" "ended" "" "" "" "" 9000000 one_call ringing
      (unfold get_session lookup in refl)

never_connected : end_status "ended" none ≡ "missed"
unfolding end_status
never_connected = refl

abbrev connected : Session
connected = record {
  id = "s2";
  join_token = "t2";
  account_id = "a";
  user_id = 8;
  caller = "operator";
  assigned_to = "operator";
  lead_name = "";
  lead_username = "";
  status = "active";
  started_at = 2000000;
  connected_at = some 5000000;
  ended_at = none;
  duration_sec = 0;
  outcome = "";
  notes = "";
  ai_summary = "";
  ai_suggested_action = "";
  telegram_call_id = some 77;
  call_mode = "telegram";
  events =
      record { at = 2000000; status = "ringing"; by = "operator" }
      ∷ record { at = 5000000; status = "active"; by = "client" }
      ∷ [];
}

abbrev two_calls : Store
two_calls = record {
  sessions = ("s1", ringing) ∷ ("s2", connected) ∷ [];
  by_lead = (("a", 7), "s1" ∷ []) ∷ (("a", 8), "s2" ∷ []) ∷ [];
}

two_made : store_run empty_store calls ≡ two_calls
unfolding store_run store_step create_session update_session updated insert lookup add_to_lead strip
    strip_left strip_right strip_at
two_made = refl

-- The first call ends, and the second is still found.
still_found :
    find_session_by_telegram_call_id "a" 77
      (end_session "s1" "declined" "" "" "" "" 9000000 two_calls).0
    ≡ some connected
unfolding find_session_by_telegram_call_id first_live_call end_session update_session updated
    end_fields end_status get_session insert lookup strip strip_left strip_right lower
still_found = refl

found_by_token : get_session_by_token " t2 " two_calls ≡ some connected
unfolding get_session_by_token first_with_token strip strip_left strip_right
found_by_token = refl

-- The limit is tested after a session is found, so a limit of zero gives one.
one_at_least : list_lead_sessions "a" 8 0 two_calls ≡ connected ∷ []
unfolding list_lead_sessions collect ids_of_lead reverse_onto lookup
one_at_least = refl
