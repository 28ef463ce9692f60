-- ===== src/Net.antt =====
-- The packet side of orkaudio/audiocaptureplugins: IP headers, byte buffers, IP fragments.
pub mod IpHeader
pub mod TcpHeader
pub mod SizedBuffer
pub mod Fragments
pub mod Ranges
