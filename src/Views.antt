-- ===== src/Views.antt =====
-- The pure logic of the desktop client's pages (meetily-gpui/src/views).
pub mod TranscriptRows
mod Examples
