-- ===== src/Messaging.antt =====
-- The messaging package (messaging/): tasks, queues, routing, retries and fair scheduling.
pub mod Task
pub mod Backend
pub mod Heapq
pub mod Future
pub mod Queue
pub mod World
pub mod Router
pub mod Retry
pub mod Worker
pub mod FairScheduler
