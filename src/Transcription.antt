-- ===== src/Transcription.antt =====
-- Live transcription (meetily-core/src/audio/transcription).
pub mod Preview
mod Examples
pub mod Writer
pub mod Lease
pub mod Queue
pub mod Echo
pub mod Worker
