-- ===== src/Tests/Resting.antt =====
-- Accounts that are sent to rest (core/account_shutdown.py).
use teleautomation_messaging.Prelude.{
  ◌≡◌, refl, true, false, none, some, List, [], ◌∷◌, ltb, ◌&&◌, arith,
}
use teleautomation_messaging.Supervision.Worker.{Worker, PostingMode, new_worker}
use teleautomation_messaging.Supervision.Shutdown.{
  ShutdownOp, puts, lifts, purges, shutdown_run, is_shutdown_active,
}
use teleautomation_messaging.Supervision.Shutdown.Listed.{shutdown_run-rests}
use teleautomation_messaging.Supervision.Shutdown.Idle.{
  PostStats, account_expected_to_post, evaluate_posting_idle, should_shutdown, is_quiet,
  evaluate_posting_idle-quiet,
}

abbrev ops : List ShutdownOp
ops =
    puts 100 "a" "no_post_6h" true none
    ∷ puts 150 "b" "manual" false (some 20)
    ∷ purges 400
    ∷ lifts "b"
    ∷ puts 500 "b" "manual" true none
    ∷ purges 700000
    ∷ []

shutdown_run-rests_example :
    is_shutdown_active 604800 700000 "b" (shutdown_run 604800 ops []) ≡ ltb 700000 605300
shutdown_run-rests_example =
    shutdown_run-rests 604800 700000 "b" ops (omega arith, (omega arith, tt))

abbrev posting : PostingMode
posting = record {
  campaign_enabled = true;
  forwarding_enabled = false;
  manual_dispatch = false;
  is_configured = true;
}

abbrev restarted : Worker
restarted = record new_worker { running = true; campaign_running = true; worker_started_at = 90000 }

abbrev old_post : PostStats
old_post = record {
  last_post = some 5000;
  effective_cutoff = 80000;
  forwards_since = λ t. 0;
  group_sends_since = λ t. 0;
}

evaluate_posting_idle-quiet_example :
    should_shutdown (evaluate_posting_idle 21600 100000 old_post posting restarted)
    ≡ account_expected_to_post posting restarted && is_quiet 21600 100000 old_post restarted
evaluate_posting_idle-quiet_example =
    evaluate_posting_idle-quiet 21600 100000 old_post posting restarted (omega arith)

-- The post is a day old, but the worker has just been started.
restarted_test :
    should_shutdown (evaluate_posting_idle 21600 100000 old_post posting restarted) ≡ false
unfolding evaluate_posting_idle account_expected_to_post
restarted_test = refl
