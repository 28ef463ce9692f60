-- ===== src/Voip.antt =====
-- The sessions of a voice-over-IP capture: orkaudio/audiocaptureplugins/voip/VoIpSession.cpp.
pub mod OrderedMap
pub mod Session
pub mod Tables
pub mod Stops
pub mod Tracked
pub mod Valid
pub mod Commands
pub mod Invites
pub mod UrlExtraction
pub mod Lookups
pub mod Signalling
