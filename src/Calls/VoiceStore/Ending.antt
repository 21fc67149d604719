-- ===== src/Calls/VoiceStore/Ending.antt =====
-- How a call ends (core/voice_call_store.py, end_session).
use teleautomation_messaging.Prelude.{
  ℕ, ◌*◌, ◌-◌, ◌+◌, ◌≤◌, ◌<◌, ◌∙◌, ap, ◌≡◌, ◌≢◌, ◌⊎◌, refl, String, true, false, Option, none, some,
  str_eq, insert, lookup-insert, Bool-cases, inl, inr, arith, eq_iff,
}
use teleautomation_messaging.Calls.VoiceStore.{
  Session, Store, is_call_status, duration, end_status, end_fields, with_status, with_fields,
  updated, store_updated, update_session, ended_as, end_session, get_session, or_missed,
}

-- The call ends as "ended", because of that or of an unknown status.
abbrev pub EndsPlainly : String → Type 0
EndsPlainly status = (is_call_status status ≡ false) ⊎ (status ≡ "ended")

-- The session that a call leaves, of a session that it ended; times are in microseconds.
pub record Ends (status : String) (now : ℕ) (s s' : Session) : Type 0 where
  pub kept : is_call_status status ≡ true → status ≢ "ended" → s'.status ≡ status
  pub missed : EndsPlainly status → s.connected_at ≡ none → s'.status ≡ "missed"
  pub answered :
      EndsPlainly status → (start : ℕ) → s.connected_at ≡ some start → s'.status ≡ "ended"
  pub ended : s'.ended_at ≡ some now
  pub unanswered : s.connected_at ≡ none → s'.duration_sec ≡ 0
  pub measured :
      (start : ℕ)
      → s.connected_at ≡ some start
      → (1000000 * s'.duration_sec ≤ now - start) × (now - start < 1000000 * (s'.duration_sec + 1))
  pub connected : s'.connected_at ≡ s.connected_at
  pub same_id : s'.id ≡ s.id

or_missed-has : (P : String → Type 0) (c : Option ℕ) → P "ended" → P "missed" → P (or_missed c)
or_missed-has P none ended missed = missed
or_missed-has P (some start) ended missed = ended

-- A property that "ended", "missed" and a known status have, or one that is not live, holds of the
-- status under which the call ends.
end_status-has :
    (P : String → Type 0) (status : String) (c : Option ℕ)
    → P "ended"
    → P "missed"
    → (is_call_status status ≡ false) ⊎ P status
    → P (end_status status c)
unfolding end_status
end_status-has P status c ended missed other = elim (Bool-cases (is_call_status status)) [
  | inr unknown ↦ rw (unknown, end_status) (or_missed-has P c ended missed)
  | inl known ↦
      rw (known, end_status)
        elim (Bool-cases (str_eq status "ended")) [
          | inl e ↦ rw e (or_missed-has P c ended missed)
          | inr e ↦ rw e elim other [ inl unknown ↦ cc | inr p ↦ p ]
        ]
]

end_status-known : (status : String) (c : Option ℕ) → is_call_status (end_status status c) ≡ true
end_status-known status c =
    end_status-has (λ t. is_call_status t ≡ true) status c refl refl
      (elim (Bool-cases (is_call_status status)) [ inl h ↦ inr h | inr h ↦ inl h ])

end_status-other :
    (status : String) (c : Option ℕ)
    → is_call_status status ≡ true
    → status ≢ "ended"
    → end_status status c ≡ status
unfolding end_status
end_status-other status c known other = elim (Bool-cases (str_eq status "ended")) [
  | inl e ↦ absurd (other ((eq_iff status "ended").0 e))
  | inr e ↦ rw (known, end_status) (rw e refl)
]

end_status-plain :
    (status : String) (c : Option ℕ) → EndsPlainly status → end_status status c ≡ or_missed c
unfolding end_status
end_status-plain status c (inl unknown) = rw (unknown, end_status) refl
end_status-plain status c (inr e) = rw e refl

updated-Ends :
    (status outcome notes ai_summary action : String) (now : ℕ) (s : Session)
    → Ends status now s (updated (end_fields status outcome notes ai_summary action now s) now s)
unfolding updated with_status with_fields end_fields
updated-Ends status outcome notes ai_summary action now s =
    let known = end_status-known status s.connected_at in
    let plain = end_status-plain status s.connected_at in
    record {
      kept = λ k other. rw known (end_status-other status s.connected_at k other);
      missed = λ p none_yet. rw known (plain p ∙ ap or_missed none_yet);
      answered = λ p start e. rw known (plain p ∙ ap or_missed e);
      ended = refl;
      unanswered = λ none_yet. ap (λ c. duration c now) none_yet;
      measured = λ start e. let d = ap (λ c. duration c now) e in omega (arith, d);
      connected = rw known refl;
      same_id = rw known refl;
    }

end_session-update :
    (id status outcome notes ai_summary action : String) (now : ℕ) (st : Store) (s : Session)
    → get_session id st ≡ some s
    → let s' = updated (end_fields status outcome notes ai_summary action now s) now s in
      end_session id status outcome notes ai_summary action now st
      ≡ (record st { sessions = insert id s' st.sessions }, some s')
unfolding end_session ended_as update_session store_updated get_session
end_session-update id status outcome notes ai_summary action now st s found = rw (found, found) refl

-- Ending a call that the store has sets the status asked for, or "ended" where that is no status; a
-- call that ends as "ended" without ever being connected counts as missed. The time of the end and
-- the length in whole seconds are set, and no other session changes.
pub end_session-Ends :
    (id status outcome notes ai_summary action : String) (now : ℕ) (st : Store) (s : Session)
    → get_session id st ≡ some s
    → let r = end_session id status outcome notes ai_summary action now st in
      (s' : Session) × (r.1 ≡ some s')
      × (get_session id r.0 ≡ some s')
      × Ends status now s s'
      × ((other : String) → id ≢ other → get_session other r.0 ≡ get_session other st)
unfolding get_session
end_session-Ends id status outcome notes ai_summary action now st s found =
    let s' = updated (end_fields status outcome notes ai_summary action now s) now s in
    rw (end_session-update id status outcome notes ai_summary action now st s found) (
      s',
      refl,
      ground (arith, lookup-insert id id s' st.sessions, eq_iff id id),
      updated-Ends status outcome notes ai_summary action now s,
      (λ other ne. ground (arith, lookup-insert id other s' st.sessions, eq_iff id other)),
    )
