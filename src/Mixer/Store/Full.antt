-- ===== src/Mixer/Store/Full.antt =====
-- A packet that ends one whole buffer ahead of the next sample to ship, which the test of
-- `AudioChunkIn` against the free space lets through.
use orekacxx.Common.{ℕ, ◌+◌, ◌-◌, ◌<◌, ◌^◌, ◌≡◌, ◌∙◌, List, length, arith}
use orekacxx.Common.Int.{ℤ}
use orekacxx.Mixer.Ring.{used_space, add_offset}
use orekacxx.Mixer.Ring.Laws.{advance-add_offset}
use orekacxx.Mixer.State.{Mixer, used, IsSound}
use orekacxx.Mixer.Store.{write_silence, mix_packet, store_rtp_packet}
use orekacxx.Mixer.Store.Laws.{used-lt, mix_packet_pointers, write_silence_timestamps}

module _ (size : ℕ) where
  used-write_silence :
      (m : Mixer) (end : ℕ)
      → IsSound size m
      → 0 < used size m
      → end ≡ m.read_timestamp + size
      → used size (write_silence size m end) ≡ 0
  unfolding write_silence used_space add_offset
  used-write_silence m end s u e =
      ground (arith, advance-add_offset size (end - m.write_timestamp) m.write_ptr)

  store_full :
      (m : Mixer) (payload : List ℤ) (timestamp : ℕ)
      → IsSound size m
      → 0 < used size m
      → timestamp + length payload ≡ m.read_timestamp + size
      → timestamp + length payload < 2 ^ 32
      → store_rtp_packet size m payload timestamp
        ≡ mix_packet size (write_silence size m (timestamp + length payload)) payload timestamp
  unfolding store_rtp_packet
  store_full m payload timestamp s u e w = ground arith

-- With some samples pending, a packet that ends just one whole buffer ahead of the next sample to
-- ship leaves the mixer with no sample in use, though its time stamps say that the whole buffer is
-- pending.
pub store_rtp_packet-full :
    (size : ℕ) (m : Mixer) (payload : List ℤ) (timestamp : ℕ)
    → IsSound size m
    → 0 < used size m
    → timestamp + length payload ≡ m.read_timestamp + size
    → timestamp + length payload < 2 ^ 32
    → (used size (store_rtp_packet size m payload timestamp) ≡ 0)
      × ((store_rtp_packet size m payload timestamp).write_timestamp ≡ m.read_timestamp + size)
store_rtp_packet-full size m payload timestamp s u e w =
    let end = timestamp + length payload in
    let silent = write_silence size m end in
    let kept = mix_packet_pointers size silent payload timestamp in
    let t = write_silence_timestamps size m end in
    rw (store_full size m payload timestamp s u e w) (
      kept.1 ∙ used-write_silence size m end s u e,
      kept.0 ∙ t.0 ∙ ground (arith, used-lt size m s),
    )
