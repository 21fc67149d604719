-- ===== src/Supervision/Shutdown/Idle.antt =====
-- When an account has not posted for too long (core/account_shutdown.py, evaluate_posting_idle). What
-- the statistics of posts say is given; the texts of the reasons are constructors.
use teleautomation_messaging.Prelude.{
  ℕ, ◌+◌, ◌-◌, ◌/◌, ◌<◌, ◌≡◌, ◌==◌, refl, Bool, true, false, not, ◌&&◌, ◌||◌, Option, none, some,
  ltb, leb, max, if◌then◌else◌, arith,
}
use teleautomation_messaging.Supervision.Worker.{Worker, PostingMode}

-- What is read of core/send_stats.py, core/group_send_stats.py and core/stats_reset.py.
pub record PostStats : Type 0 where
  pub last_post : Option ℕ
  pub effective_cutoff : ℕ
  pub forwards_since : ℕ → ℕ
  pub group_sends_since : ℕ → ℕ

pub data IdleReason : Type 0 where
  no_post_ever no_post no_post_since_reset : (hours : ℕ) → IdleReason

pub data IdleResult : Type 0 where
  stays : (idle : ℕ) (last_post : Option ℕ) → IdleResult
  rests : (why : IdleReason) (idle : ℕ) (last_post : Option ℕ) → IdleResult

-- `account_expected_to_post`
unfoldable pub account_expected_to_post : PostingMode → Worker → Bool
account_expected_to_post cfg w =
    if not cfg.campaign_enabled && not cfg.forwarding_enabled
    then false
    else if w.campaign_running || w.forwarding_running
    then true
    else if w.running
    then true
    else w.persisted

-- `running and started_at > 0`
abbrev is_started : Worker → Bool
is_started w = w.running && ltb 0 w.worker_started_at

-- The time from which the account is idle.
unfoldable pub reference_of : Option ℕ → Worker → Option ℕ
reference_of none w = if is_started w then some w.worker_started_at else none
reference_of (some post) w =
    if is_started w && ltb post w.worker_started_at then some w.worker_started_at else some post

abbrev post_or_zero : Option ℕ → ℕ
post_or_zero none = 0
post_or_zero (some t) = t

abbrev is_never : Option ℕ → Bool
is_never none = true
is_never (some t) = false

idle_since : ℕ → ℕ → PostStats → Worker → ℕ → IdleResult
idle_since threshold now st w reference =
    let idle = now - reference in
    if leb threshold idle
    then if is_never st.last_post
        || (w.running && ltb (post_or_zero st.last_post) w.worker_started_at)
      then rests (no_post_ever (idle / 3600)) idle st.last_post
      else rests (no_post (idle / 3600)) idle st.last_post
    else stays idle st.last_post

no_reference : ℕ → ℕ → PostStats → Worker → IdleResult
no_reference threshold now st w =
    let cutoff =
      if is_started w then max st.effective_cutoff w.worker_started_at else st.effective_cutoff in
    let idle = now - cutoff in
    if ltb idle threshold
    then stays idle none
    else if st.forwards_since cutoff == 0 && st.group_sends_since cutoff == 0
    then rests (no_post_since_reset (idle / 3600)) idle none
    else stays idle none

idle_by : ℕ → ℕ → PostStats → Worker → Option ℕ → IdleResult
unfolding idle_since no_reference
idle_by threshold now st w none = no_reference threshold now st w
idle_by threshold now st w (some reference) = idle_since threshold now st w reference

-- `evaluate_posting_idle`
unfoldable pub evaluate_posting_idle : ℕ → ℕ → PostStats → PostingMode → Worker → IdleResult
unfolding idle_by reference_of
evaluate_posting_idle threshold now st cfg w =
    if not (account_expected_to_post cfg w)
    then stays 0 none
    else idle_by threshold now st w (reference_of st.last_post w)

abbrev pub should_shutdown : IdleResult → Bool
should_shutdown (stays idle last) = false
should_shutdown (rests why idle last) = true

-- For so long no post has been seen, counted from the start of a worker that runs.
abbrev is_quiet_from : ℕ → ℕ → PostStats → Option ℕ → Bool
is_quiet_from threshold now st (some post) = leb (post + threshold) now
is_quiet_from threshold now st none =
    leb (st.effective_cutoff + threshold) now
    && (st.forwards_since st.effective_cutoff == 0 && st.group_sends_since st.effective_cutoff == 0)

abbrev pub is_quiet : ℕ → ℕ → PostStats → Worker → Bool
is_quiet threshold now st w =
    if is_started w
    then leb (max (post_or_zero st.last_post) w.worker_started_at + threshold) now
    else is_quiet_from threshold now st st.last_post

idle_by-quiet :
    (threshold now : ℕ) (st : PostStats) (w : Worker) (last : Option ℕ)
    → st.last_post ≡ last
    → 0 < threshold
    → should_shutdown (idle_by threshold now st w (reference_of last w)) ≡ (
        if is_started w
        then leb (max (post_or_zero last) w.worker_started_at + threshold) now
        else is_quiet_from threshold now st last)
unfolding idle_by reference_of idle_since no_reference
idle_by-quiet threshold now st w none e pos = ground arith
idle_by-quiet threshold now st w (some post) e pos = ground arith

-- An account is sent to rest exactly if it is expected to post and has been quiet for the threshold:
-- a worker that runs is counted from its start or from a later post, so that a fresh start is never
-- sent to rest for what was before it; any other from its last post, or, where there is none, from
-- the cutoff of the statistics if they count no post since. The threshold is not 0.
pub evaluate_posting_idle-quiet :
    (threshold now : ℕ) (st : PostStats) (cfg : PostingMode) (w : Worker)
    → 0 < threshold
    → should_shutdown (evaluate_posting_idle threshold now st cfg w)
      ≡ account_expected_to_post cfg w && is_quiet threshold now st w
unfolding evaluate_posting_idle
evaluate_posting_idle-quiet threshold now st cfg w pos =
    let q = idle_by-quiet threshold now st w st.last_post refl pos in ground (arith, q)
