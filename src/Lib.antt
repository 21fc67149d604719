-- ===== src/Lib.antt =====
-- The messaging core of teleautomation-messaging: Telegram accounts that post to groups and answer
-- direct messages, each with its own priority queue and its own worker.
--
-- The parts and how they interact. A request of the dashboards or of a cycle becomes a task
-- (messaging/task_types.py). The router (messaging/message_router.py) checks the account and puts
-- the task on the account's queue (messaging/account_queue.py), which refuses, drops or waits when
-- it is full. The queue processor of the account's worker (workers/account_worker.py) takes the
-- task of the highest priority, handles it, and completes the future that the caller may wait on. A
-- task that failed goes to the retry manager (messaging/retry_manager.py), which puts it back after
-- a delay. A running cycle pauses for direct messages (messaging/fair_scheduler.py). Along the way
-- events are published (events/event_bus.py) to subscribers (events/subscribers.py) that move the
-- account's counters (core/observability/account_metrics.py), and alerts are kept
-- (core/observability/alerts.py).
--
-- Beside these, groups are shared out over the accounts (core/group_assignment.py), floods of all
-- accounts slow the fleet down (core/fleet_rate_coordinator.py), and events for other projects wait
-- in an outbox (services/cross_project_outbox.py) for a dispatcher
-- (services/opportunity_event_producer.py). Calls in the browser have their own store
-- (core/voice_call_store.py).
--
-- The run task of an account, which posts its campaign or forwards (workers/account_worker.py), is
-- started, stopped and restarted by the account's runtime (services/account_runtime.py), and a
-- watchdog (core/worker_watchdog.py) starts it again where it is missing or gives no sign of life. An
-- account that does not post for hours is put on a list and rests for a week
-- (core/account_shutdown.py).
--
-- Before a worker joins a group, the account's limits are checked (core/join_cycle.py); the path
-- that joins and then posts (features/group_operation.py) records what came of it.
--
-- Which file models which part:
--   Messaging/Task           messaging/task_types.py: TaskType, TaskPriority, priority_for_task_type,
--                            QueueTask with its __post_init__ as `post_init`
--   Messaging/Backend        messaging/queue_backend.py: _serialize and _deserialize
--   Messaging/Heapq          _HeapEntry of messaging/account_queue.py, and what it uses of heapq
--   Messaging/Future         futures as objects on a store, and the exceptions
--   Messaging/Queue          AccountQueue: one function for each method, under the method's name;
--                            Queue/Ops has the stretches between two awaits as operations, and
--                            Queue/Bag what they may do to the bag of waiting tasks
--   Messaging/World          what coroutines share, with AccountQueueManager.get_queue and the bus
--                            that register_event_subscribers sets up
--   Messaging/Router         MessageRouter: one function for each method
--   Messaging/Retry          RetryManager; Retry/Classify has classify_exception and
--                            classify_task_result
--   Messaging/Worker         _handle_queue_task and the body of _queue_processor_loop
--   Messaging/FairScheduler  CycleFairScheduler
--   Events                   EventType, EventBus and the subscribers
--   Observability            MetricsStore and AlertStore
--   Services/Outbox          the outbox; Outbox/Dispatch has dispatch_opportunities_once
--   Calls/VoiceStore         core/voice_call_store.py
--   Fleet/Assignment         groups_for_slot and what it uses
--   Fleet/RateCoordinator    core/fleet_rate_coordinator.py
--   Supervision/RunTasks     the tasks that an account has launched
--   Supervision/Worker       AccountState, start, stop and the run task of AccountWorker; Worker/Steps
--                            has what the run task does
--   Supervision/Runtime      AccountRuntime
--   Supervision/Watchdog     _check_all of WorkerWatchdog
--   Supervision/Shutdown     the list of core/account_shutdown.py; Shutdown/Idle has
--                            evaluate_posting_idle
--   Joins                    core/join_cycle.py; Joins/Path has _execute_join_path
--   Prelude                  shared tests, lists, dictionaries and texts
--   Tests                    runs on concrete inputs
-- The modules below these (Queue/Order, Router/Isolation and so on) prove what they are named for.
--
-- How code becomes definitions. A method that changes an object returns the new object; what
-- coroutines share is the record `World`. A result is returned, an exception is a value of `Error`,
-- and a call that still waits is a value too. Identifiers of users are natural numbers; time is a
-- natural number of clock ticks, taken as an argument. Floats of the retry manager are whole
-- numbers of units, 100000 to the second, and a random draw is a fraction. Payloads have one
-- constructor for each set of keys that the program writes. The heap is the array that Python's heapq
-- keeps, with its loops on fuel of the array's length. Case is ignored for ASCII letters.
--
-- Bounds. `put` waits in a loop: its turns are a list, each with the clock and with what the others
-- do to the queue meanwhile; a list whose last clock is past the deadline is enough. The pause of a
-- cycle takes at most two rounds, as its loop allows. The digits of a number are printed with the
-- number itself as fuel, which is more than its digits. All other recursion is structural.
--
-- Not modelled: log lines and the texts of alerts; the Telegram operations, which are the record
-- `Services`; the asyncio tasks of the queue processors, of which the effects are modelled; the
-- callback of the bus for a pushed state, which the registered bus has not set; what `others` do
-- while `put` waits is limited to the queue.
pub mod Prelude
pub mod Observability
pub mod Events
pub mod Messaging
pub mod Services
pub mod Fleet
pub mod Calls
pub mod Supervision
pub mod Joins
mod Tests
