-- ===== src/Diarization.antt =====
-- app/diarization: who speaks in a call.
pub mod Models
pub mod IdentityTracker
