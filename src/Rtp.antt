-- ===== src/Rtp.antt =====
-- app/audio_ingress/rtp.py: RTP packets of one call, reordered, decoded and cut into audio chunks.
pub mod Types
pub mod Sequence
pub mod G711
pub mod Source
pub mod Adapter
pub mod Ingress
pub mod Lifecycle
pub mod Invariant
mod Tests
