-- ===== src/Calls.antt =====
-- Voice calls in the browser.
pub mod VoiceStore
