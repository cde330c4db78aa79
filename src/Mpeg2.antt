-- ===== src/Mpeg2.antt =====
-- intel_extreme/accelerant/mpeg2_parser.cpp, the MPEG-2 bitstream parser.
pub mod Bits
pub mod StartCode
pub mod Vlc
pub mod Ac
pub mod Dc
pub mod ScanOrder
pub mod Headers
pub mod Picture
pub mod Address
pub mod Macroblock
pub mod Block
pub mod Motion
pub mod Pattern
mod Tests
