-- ===== src/Messaging/Retry/Classify.antt =====
-- messaging/retry_manager.py: what an exception or a result of a task says about a retry. Texts are
-- matched by character codes, with the case of ASCII letters ignored where the source ignores case.
use Prim.Native.Char.{code}
use Prim.Native.String.{◌++◌}
use teleautomation_messaging.Prelude.{
  ℕ, zero, suc, ◌+◌, ◌-◌, ◌*◌, ◌/◌, ◌%◌, String, Bool, true, false, ◌&&◌, ◌||◌, Option, none, some,
  List, [], ◌∷◌, map, ltb, leb, ◌==◌, str_eq, is_space, if◌then◌else◌,
}
use teleautomation_messaging.Messaging.Future.{
  Error, value_error, key_error, runtime_error, backpressure, raised,
}

pub record RetryClassification : Type 0 where
  pub flood_seconds : ℕ
  pub network : Bool
  pub retryable : Bool
  pub reason : String

abbrev pub codes : String → List ℕ
codes String.[] = []
codes (String.◌∷◌ c s) = code c ∷ codes s

-- `c.lower()`
lower : ℕ → ℕ
lower c = if leb b'A' c && leb c b'Z' then c + 32 else c

-- `text.startswith(word)`
starts : List ℕ → List ℕ → Bool
starts [] text = true
starts (w ∷ ws) [] = false
starts (w ∷ ws) (c ∷ cs) = if w == c then starts ws cs else false

-- `word in text`
contains : List ℕ → List ℕ → Bool
contains word [] = starts word []
contains word (c ∷ cs) = starts word (c ∷ cs) || contains word cs

-- `.?limit` at the front of a text: the dot is no newline.
gap_limit : List ℕ → Bool
gap_limit [] = false
gap_limit (c ∷ cs) =
    starts (codes "limit") (c ∷ cs) || (if c == 10 then false else starts (codes "limit") cs)

-- What follows "rate", of what follows its first letter.
after_rate : List ℕ → List ℕ
after_rate (a ∷ t ∷ e ∷ rest) = rest
after_rate _ = []

-- `rate.?limit`, found anywhere.
rate_limit : List ℕ → Bool
rate_limit [] = false
rate_limit (c ∷ cs) = (starts (codes "rate") (c ∷ cs) && gap_limit (after_rate cs)) || rate_limit cs

-- `_FLOOD_RE.search`, on a text in small letters; "floodwait" holds "flood".
flood_re : List ℕ → Bool
flood_re text = contains (codes "flood") text || rate_limit text

-- `_NETWORK_RE.search`
network_re : List ℕ → Bool
network_re text =
    contains (codes "disconnect") text
    || contains (codes "timeout") text
    || contains (codes "network") text
    || contains (codes "connection") text
    || contains (codes "database is locked") text
    || contains (codes "session") text

-- Where a search for `(\d+)\s*s` stands.
pub data Scan : Type 0 where
  idle : Scan
  digits spaces : (n : ℕ) → Scan

-- The zeros of the decimal digits of Unicode 14, each followed by its 1 to 9.
abbrev digit_zeros : List ℕ
digit_zeros =
    48 ∷ 0x660 ∷ 0x6f0 ∷ 0x7c0 ∷ 0x966 ∷ 0x9e6 ∷ 0xa66 ∷ 0xae6 ∷ 0xb66 ∷ 0xbe6 ∷ 0xc66 ∷ 0xce6
    ∷ 0xd66 ∷ 0xde6 ∷ 0xe50 ∷ 0xed0 ∷ 0xf20 ∷ 0x1040 ∷ 0x1090 ∷ 0x17e0 ∷ 0x1810 ∷ 0x1946 ∷ 0x19d0
    ∷ 0x1a80 ∷ 0x1a90 ∷ 0x1b50 ∷ 0x1bb0 ∷ 0x1c40 ∷ 0x1c50 ∷ 0xa620 ∷ 0xa8d0 ∷ 0xa900 ∷ 0xa9d0
    ∷ 0xa9f0 ∷ 0xaa50 ∷ 0xabf0 ∷ 0xff10 ∷ 0x104a0 ∷ 0x10d30 ∷ 0x11066 ∷ 0x110f0 ∷ 0x11136 ∷ 0x111d0
    ∷ 0x112f0 ∷ 0x11450 ∷ 0x114d0 ∷ 0x11650 ∷ 0x116c0 ∷ 0x11730 ∷ 0x118e0 ∷ 0x11950 ∷ 0x11c50
    ∷ 0x11d50 ∷ 0x11da0 ∷ 0x16a60 ∷ 0x16ac0 ∷ 0x16b50 ∷ 0x1d7ce ∷ 0x1d7d8 ∷ 0x1d7e2 ∷ 0x1d7ec
    ∷ 0x1d7f6 ∷ 0x1e140 ∷ 0x1e2f0 ∷ 0x1e950 ∷ 0x1fbf0 ∷ []

digit_from : List ℕ → ℕ → Option ℕ
digit_from [] c = none
digit_from (z ∷ zs) c =
    let rest = digit_from zs c in if leb z c && leb c (z + 9) then some (c - z) else rest

-- `\d`, with the value that `int` gives it.
digit_value : ℕ → Option ℕ
unfolding digit_from
digit_value c = digit_from digit_zeros c

after_space : ℕ → Scan → Scan
after_space c spaced = if is_space c then spaced else idle

scan_step : Scan → ℕ → Scan
unfolding digit_value after_space
scan_step idle c = elim (digit_value c) [ some d ↦ digits d | none ↦ idle ]
scan_step (digits n) c = elim (digit_value c) [
  | some d ↦ digits (n * 10 + d)
  | none ↦ after_space c (spaces n)
]
scan_step (spaces n) c = elim (digit_value c) [
  | some d ↦ digits d
  | none ↦ after_space c (spaces n)
]

scan_found : Scan → ℕ → Option ℕ
scan_found idle c = none
scan_found (digits n) c = if c == b's' then some n else none
scan_found (spaces n) c = if c == b's' then some n else none

-- `re.search(r"(\d+)\s*s", text)`, from a state of the scan.
find_seconds : Scan → List ℕ → Option ℕ
unfolding scan_step scan_found
find_seconds s [] = none
find_seconds s (c ∷ cs) =
    let rest = find_seconds (scan_step s c) cs in
    elim (scan_found s c) [ some n ↦ some n | none ↦ rest ]

abbrev or_sixty : Option ℕ → ℕ
or_sixty none = 60
or_sixty (some n) = n

abbrev or_zero : Option ℕ → ℕ
or_zero none = 0
or_zero (some n) = n

-- `classify_exception`, of an exception's text and its attribute `seconds`.
unfoldable pub classify_exception : String → Option ℕ → RetryClassification
unfolding flood_re network_re lower starts contains gap_limit after_rate rate_limit find_seconds
classify_exception text seconds =
    let small = map lower (codes text) in
    if ltb 0 (or_zero seconds) || flood_re small
    then record {
      flood_seconds =
          if ltb 0 (or_zero seconds)
          then or_zero seconds
          else or_sixty (find_seconds idle (codes text));
      network = false;
      retryable = true;
      reason = "flood_wait";
    }
    else if network_re small
    then record { flood_seconds = 0; network = true; retryable = true; reason = "network" }
    else if contains (codes "invalid") small || contains (codes "not logged in") small
    then record { flood_seconds = 0; network = false; retryable = false; reason = "fatal" }
    else record { flood_seconds = 0; network = false; retryable = true; reason = "error" }

unfoldable pub classify_task_result : String → Option RetryClassification
classify_task_result result =
    if str_eq result "flood"
    then some
        (record { flood_seconds = 60; network = false; retryable = true; reason = "flood_result" })
    else if str_eq result "error" || str_eq result "session_break"
    then some (record { flood_seconds = 0; network = true; retryable = true; reason = "session" })
    else none

digit_text : ℕ → String
digit_text d =
    if d == 0
    then "0"
    else if d == 1
    then "1"
    else if d == 2
    then "2"
    else if d == 3
    then "3"
    else if d == 4
    then "4"
    else if d == 5
    then "5"
    else if d == 6
    then "6"
    else if d == 7
    then "7"
    else if d == 8
    then "8"
    else "9"

-- `str(n)`, with as many rounds as `n`, which are enough.
decimal : ℕ → ℕ → String
decimal zero n = digit_text n
decimal (suc fuel) n =
    let front = decimal fuel (n / 10) in
    if ltb n 10 then digit_text n else front ++ digit_text (n % 10)

-- `str(exc)`
unfoldable pub error_text : Error → String
unfolding decimal digit_text
error_text (value_error t) = t
error_text (key_error t) = "'" ++ t ++ "'"
error_text (runtime_error t) = t
error_text (backpressure id depth max_size) =
    "[" ++ id ++ "] Queue full (" ++ decimal depth depth ++ "/" ++ decimal max_size max_size ++ ")"
error_text (raised t seconds) = t

-- `getattr(exc, "seconds", 0)`
unfoldable pub error_seconds : Error → Option ℕ
error_seconds (raised t seconds) = seconds
error_seconds _ = none
