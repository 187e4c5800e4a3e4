-- ===== src/Calls.antt =====
-- app/calls: the state of one call.
pub mod Types
pub mod Labels
pub mod Suggestions
pub mod State
pub mod Valid
mod Tests
