-- ===== src/Mixer/Store.antt =====
-- `StoreRtpPacket` of RtpMixer.cpp. Its differences of two 32-bit time stamps are taken in `double`,
-- where they are exact; here they are comparisons of sums.
pub mod Laws
pub mod Full
use orekacxx.Common.{ℕ, ◌+◌, ◌-◌, ◌^◌, List, length, leb, ltb, if◌then◌else◌}
use orekacxx.Common.Int.{ℤ}
use orekacxx.Mixer.Ring.{sub_offset, zero_run, advance, mix_run}
use orekacxx.Mixer.State.{Mixer}

-- Step 1: silence from the write pointer to the end of the packet.
unfoldable pub write_silence : ℕ → Mixer → ℕ → Mixer
write_silence size m end =
    if ltb m.write_timestamp end
    then record m {
      buffer = zero_run size m.buffer m.write_ptr (end - m.write_timestamp);
      write_ptr = advance size m.write_ptr (end - m.write_timestamp);
      write_timestamp = end;
    }
    else m

-- Step 2: the packet's samples are mixed in, unless the packet is out of the buffer's range.
unfoldable pub mix_packet : ℕ → Mixer → List ℤ → ℕ → Mixer
mix_packet size m payload timestamp =
    if ltb m.write_timestamp timestamp
    then m
    else if leb (timestamp + size) m.write_timestamp
    then m
    else record m {
      buffer =
          mix_run size m.buffer (sub_offset size m.write_ptr (m.write_timestamp - timestamp))
            payload;
    }

-- A packet whose end wraps round 32 bits, or lies a buffer ahead, is dismissed.
unfoldable pub store_rtp_packet : ℕ → Mixer → List ℤ → ℕ → Mixer
store_rtp_packet size m payload timestamp =
    let end = timestamp + length payload in
    if leb (2 ^ 32) end
    then m
    else if leb (m.write_timestamp + size) end
    then m
    else mix_packet size (write_silence size m end) payload timestamp
