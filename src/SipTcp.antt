-- ===== src/SipTcp.antt =====
-- orkaudio/audiocaptureplugins/common/SipTcp.cpp: SIP messages in TCP segments.
pub mod Search
pub mod Messages
pub mod Streams
