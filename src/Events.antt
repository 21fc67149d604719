-- ===== src/Events.antt =====
-- events: the event types, the bus and the subscribers that the program registers.
pub mod Types
pub mod Bus
pub mod Subscribers
