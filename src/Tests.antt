-- ===== src/Tests.antt =====
-- The theorems at concrete packets, texts and samples.
mod Fragments
mod Texts
mod Samples
mod Caches
mod Calls
mod Presses
mod Streams
mod Segments
mod Words
mod Addresses
