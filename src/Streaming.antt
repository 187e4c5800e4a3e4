-- ===== src/Streaming.antt =====
-- app/streaming: what keeps the audio chunks of a call on their way to transcription, and what makes one
-- transcript of the windows.
pub mod RollingBuffer
pub mod TranscriptReconciler
pub mod Feed
pub mod AudioWindow
mod Tests
