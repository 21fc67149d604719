-- ===== src/Tests.antt =====
-- Tests on concrete inputs, and each theorem with hypotheses applied where they hold.
mod Data
mod Queues
mod Routing
mod Retries
mod Pauses
mod Stores
mod Outbox
mod Fleets
mod VoiceCalls
mod Supervising
mod Joining
mod Resting
