-- ===== src/Services.antt =====
-- services: the outbox of events for other projects.
pub mod Outbox
