-- ===== src/Calls/VoiceStore/Sessions.antt =====
-- core/voice_call_store.py: what a session of a voice call and the store hold, and the operations on
-- texts. Case is ignored for ASCII letters.
use Prim.Native.Char.{Char, code}
use teleautomation_messaging.Prelude.{
  ℕ, zero, suc, ◌-◌, String, Bool, ◌&&◌, Option, List, [], ◌∷◌, leb, ◌==◌, str_eq, if◌then◌else◌,
  exists_in, Dict,
}

pub record Event : Type 0 where
  pub at : ℕ
  pub status : String
  pub by : String

-- The keys of a session that some operation here reads or changes after its creation, less
-- `recording_url` and the Telegram keys, which only callers use.
pub record Session : Type 0 where
  pub id : String
  pub join_token : String
  pub account_id : String
  pub user_id : ℕ
  pub caller : String
  pub assigned_to : String
  pub lead_name : String
  pub lead_username : String
  pub status : String
  pub started_at : ℕ
  pub connected_at : Option ℕ
  pub ended_at : Option ℕ
  pub duration_sec : ℕ
  pub outcome : String
  pub notes : String
  pub ai_summary : String
  pub ai_suggested_action : String
  pub telegram_call_id : Option ℕ
  pub call_mode : String
  pub events : List Event

-- `by_lead`, whose key `slot:user_id` is a pair here.
abbrev pub LeadIndex : Type 0
LeadIndex = List ((String × ℕ) × List String)

pub record Store : Type 0 where
  pub sessions : Dict Session
  pub by_lead : LeadIndex

abbrev pub call_statuses : List String
call_statuses =
    "ringing" ∷ "connecting" ∷ "active" ∷ "ended" ∷ "missed" ∷ "failed" ∷ "declined" ∷ []

abbrev pub is_call_status : String → Bool
is_call_status s = exists_in (str_eq s) call_statuses

abbrev pub empty_store : Store
empty_store = record { sessions = []; by_lead = [] }

-- `a or b`, of texts.
abbrev pub or_else : String → String → String
or_else a b = if str_eq a "" then b else a

-- `s.lstrip("@")`
unfoldable pub strip_at : String → String
strip_at String.[] = String.[]
strip_at (String.◌∷◌ c s) = if code c == b'@' then strip_at s else String.◌∷◌ c s

letter : String → ℕ → Char → Char
letter String.[] i c = c
letter (String.◌∷◌ d s) zero c = d
letter (String.◌∷◌ d s) (suc i) c = letter s i c

lower_char : Char → Char
unfolding letter
lower_char c =
    if leb b'A' (code c) && leb (code c) b'Z'
    then letter "abcdefghijklmnopqrstuvwxyz" (code c - b'A') c
    else c

-- `s.lower()`
unfoldable pub lower : String → String
unfolding lower_char
lower String.[] = String.[]
lower (String.◌∷◌ c s) = String.◌∷◌ (lower_char c) (lower s)
