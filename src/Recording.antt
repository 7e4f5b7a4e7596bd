-- ===== src/Recording.antt =====
-- The recording lifecycle (meetily-core/src/audio).
pub mod Phase
mod Examples
pub mod Session
pub mod Manager
pub mod Service
