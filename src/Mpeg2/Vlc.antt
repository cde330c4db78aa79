-- ===== src/Mpeg2/Vlc.antt =====
-- Variable-length codes.
pub mod Code
pub mod Prefix
pub mod AcB14
pub mod AcB15
pub mod Cbp
pub mod Tables
