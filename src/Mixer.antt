-- ===== src/Mixer.antt =====
-- orkaudio/filters/rtpmixer/RtpMixer.cpp: the circular buffer that mixes the two sides of a call.
pub mod Ring
pub mod State
pub mod Store
pub mod Shipment
pub mod Access
pub mod Input
