-- ===== src/Calls/VoiceStore/Lookups.antt =====
-- core/voice_call_store.py: the searches of the store that change nothing.
use teleautomation_messaging.Prelude.{
  ℕ, suc, String, true, false, Option, none, some, List, [], ◌∷◌, leb, str_eq, if◌then◌else◌, Dict,
  lookup, strip,
}
use teleautomation_messaging.Calls.VoiceStore.{Session, LeadIndex, Store, same_lead}

unfoldable pub first_with_token : String → Dict Session → Option Session
first_with_token token [] = none
first_with_token token ((k, s) ∷ rest) =
    if str_eq s.join_token token then some s else first_with_token token rest

unfoldable pub get_session_by_token : String → Store → Option Session
get_session_by_token join_token st =
    let token = strip join_token in
    if str_eq token "" then none else first_with_token token st.sessions

unfoldable pub ids_of_lead : String × ℕ → LeadIndex → List String
ids_of_lead key [] = []
ids_of_lead key ((k, ids) ∷ rest) = if same_lead k key then ids else ids_of_lead key rest

unfoldable pub reverse_onto {ℓ} : {A : Type ℓ} → List A → List A → List A
reverse_onto [] out = out
reverse_onto (x ∷ xs) out = reverse_onto xs (x ∷ out)

-- The loop of `list_lead_sessions`, with `n` sessions found before: the limit is tested after each id.
unfoldable pub collect : ℕ → ℕ → Dict Session → List String → List Session
collect limit n sessions [] = []
collect limit n sessions (id ∷ ids) = elim (lookup id sessions) [
  | some s ↦ s ∷ elim (leb limit (suc n)) [ true ↦ [] | false ↦ collect limit (suc n) sessions ids ]
  | none ↦ elim (leb limit n) [ true ↦ [] | false ↦ collect limit n sessions ids ]
]

unfoldable pub list_lead_sessions : String → ℕ → ℕ → Store → List Session
list_lead_sessions slot user_id limit st =
    collect limit 0 st.sessions (reverse_onto (ids_of_lead (slot, user_id) st.by_lead) [])
