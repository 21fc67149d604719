-- ===== src/Fleet.antt =====
-- core: what the accounts of a fleet share.
pub mod Assignment
pub mod RateCoordinator
