-- ===== src/Tests/Data.antt =====
-- Tasks, queues and worlds that the tests share: two accounts, the second with a queue.
use teleautomation_messaging.Prelude.{ℕ, String, Bool, true, false, none, List, [], ◌∷◌}
use teleautomation_messaging.Messaging.Task.{
  TaskType, high, low, run_cycle, Payload, empty, QueueTask,
}
use teleautomation_messaging.Messaging.Heapq.{HeapEntry}
use teleautomation_messaging.Messaging.Queue.{QueueConfig, Queue, Turn}
use teleautomation_messaging.Messaging.World.{World}
use teleautomation_messaging.Messaging.Retry.{RetryConfig, Draw, RetryClassification}
use teleautomation_messaging.Messaging.Future.{text, object}
use teleautomation_messaging.Messaging.Worker.{Services, returned}
use teleautomation_messaging.Messaging.FairScheduler.{CycleFairScheduler, Round}

abbrev pub delaying : QueueConfig
delaying = record {
  policy = "delay";
  watermark_num = 85;
  watermark_den = 100;
  put_timeout = 30;
  max_queue_size = 2;
}

abbrev pub rejecting : QueueConfig
rejecting = record delaying { policy = "reject" }

abbrev pub reply : String → QueueTask
reply id = record {
  account_id = "a";
  task_type = TaskType.ai_auto_reply;
  payload = Payload.ai_auto_reply 7 none "hi" false;
  task_id = id;
  retry_count = 0;
  wait_result = false;
  priority = high;
}

abbrev pub direct : String → QueueTask
direct id = record {
  account_id = "a";
  task_type = TaskType.dm_send;
  payload = Payload.dm_send 7 "hello" "manual" none none;
  task_id = id;
  retry_count = 0;
  wait_result = true;
  priority = high;
}

abbrev pub cycle : String → QueueTask
cycle id = record {
  account_id = "a";
  task_type = run_cycle;
  payload = empty;
  task_id = id;
  retry_count = 0;
  wait_result = false;
  priority = low;
}

abbrev pub entry : ℕ → ℕ → QueueTask → HeapEntry
entry priority sequence task = record { priority = priority; sequence = sequence; task = task }

abbrev pub queue_of : QueueConfig → List HeapEntry → Bool → Queue
queue_of config heap not_empty = record {
  config = config;
  account_id = "a";
  max_size = 2;
  heap = heap;
  sequence = 2;
  not_empty = not_empty;
  pending = [];
  futures = [];
  processing = false;
  last_dequeue_at = 0;
  rejected_total = 0;
  dropped_total = 0;
  overflow_alerted = false;
}

-- A cycle came first, a reply to user 7 second.
abbrev pub full_queue : QueueConfig → Queue
full_queue config = queue_of config (entry 1 2 (reply "t2") ∷ entry 3 1 (cycle "t1") ∷ []) true

abbrev pub half_queue : QueueConfig → Queue
half_queue config = queue_of config (entry 1 2 (reply "t2") ∷ []) true

abbrev pub idle_turn : ℕ → Turn
idle_turn now = record { now = now; others = λ q. q }

abbrev pub world_of : QueueConfig → Queue → World
world_of config q = record {
  now = 100;
  accounts = "b" ∷ "a" ∷ [];
  config = config;
  queues = ("a", q) ∷ [];
  processors = [];
  metrics = [];
  alerts = [];
  touches = [];
  published = [];
  scheduled = [];
  retry_times = [];
  sleeping = [];
}

abbrev pub retry_config : RetryConfig
retry_config = record {
  max_attempts = 5;
  base = 500000;
  max_delay = 360000000;
  jitter = 15;
  storm_window = 60;
  storm_max = 8;
}

abbrev pub half_draw : Draw
half_draw = record { k = 1; den = 2 }

abbrev pub network_error : RetryClassification
network_error = record { flood_seconds = 0; network = true; retryable = true; reason = "network" }

-- Services that succeed and change nothing.
abbrev pub services : Services
services = record {
  locked = λ w. false;
  execute_cycle = λ w. (w, returned (text "done"));
  process_group = λ group message w. (w, returned (text "sent"));
  dm_send = λ uid body sent_by operator reply_to w. (w, returned (object 1));
  dm_send_media =
      λ uid file caption name content_type sent_by operator reply_to w. (w, returned (object 2));
  generate_and_send = λ uid message_id body force w. (w, returned (object 3));
  join = λ group w. (w, returned (text "joined"));
}

abbrev pub scheduler : CycleFairScheduler
scheduler = record {
  account_id = "a";
  cycle_started_at = 50;
  groups_since_yield = 3;
  total_yield_ms = 0;
  min_groups = 3;
  max_yield_ms = 2000;
  max_wall_ms = 5400000;
}

abbrev pub round : Round
round = record { elapsed = 300; draw = half_draw; turns = [] }
