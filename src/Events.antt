-- ===== src/Events.antt =====
-- app/events: what the parts of the program pass to each other.
pub mod Labels
pub mod Models
pub mod Validation
mod Tests
