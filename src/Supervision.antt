-- ===== src/Supervision.antt =====
-- Who keeps the run task of an account alive: the worker's start and stop (workers/account_worker.py),
-- its runtime (services/account_runtime.py), the manager (services/account_manager.py) and the
-- watchdog (core/worker_watchdog.py).
pub mod RunTasks
pub mod Worker
pub mod Runtime
pub mod Watchdog
pub mod Shutdown
