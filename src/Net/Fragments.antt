-- ===== src/Net/Fragments.antt =====
-- orkaudio/audiocaptureplugins/voip/IpFragmentation.cpp: the two reassembly algorithms and the
-- table of packets under reassembly.
pub mod Pieces
pub mod Forward
pub mod WaitAll
pub mod Table
