-- ===== src/Supervision/Worker/Stopping.antt =====
-- What a stop of the worker does (workers/account_worker.py, stop).
use teleautomation_messaging.Prelude.{
  ◌≡◌, ◌⊎◌, inl, inr, ◌||◌, Bool, true, false, Option, none, some, arith,
}
use teleautomation_messaging.Supervision.Worker.{
  Worker, cancel_task, stop, quieten, clear_flags, clear_flag,
}

-- One feature is to stop, and the other is on.
abbrev pub StopsOne : Option Bool → Option Bool → Worker → Type 0
StopsOne campaign forwarding w =
    ((campaign ≡ some false) × (forwarding ≡ none) × (w.forwarding_running ≡ true))
    ⊎ ((campaign ≡ none) × (forwarding ≡ some false) × (w.campaign_running ≡ true))

-- The other feature goes on, and so does the worker.
pub stop-one_feature :
    (campaign forwarding : Option Bool) (w : Worker)
    → StopsOne campaign forwarding w
    → w.running ≡ true
    → let w' = stop campaign forwarding w in
      (w'.running ≡ true) × (w'.campaign_running || w'.forwarding_running ≡ true)
unfolding stop quieten clear_flags clear_flag cancel_task
stop-one_feature campaign forwarding w (inl (c, f, on)) run = rw (c, f) (ground arith)
stop-one_feature campaign forwarding w (inr (c, f, on)) run = rw (c, f) (ground arith)
