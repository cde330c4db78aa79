-- ===== src/Gem.antt =====
-- intel_gfx_server/GemManager.cpp: buffer objects with handles, and their submission to the ring.
pub mod Buffers
pub mod Ring
pub mod Exec
mod Tests
