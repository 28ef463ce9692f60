-- ===== src/Mixer/Shipment.antt =====
-- `CreateShipment` and `CheckChunkDetails` of RtpMixer.cpp, with one output channel.
pub mod Laws
pub mod Oldest
use orekacxx.Common.{
  ℕ, ◌+◌, ◌-◌, ◌*◌, ◌%◌, ◌^◌, Bool, true, ◌||◌, not, List, [], ◌∷◌, ◌++◌, take, drop, replicate,
  leb, ltb, ◌==◌, if◌then◌else◌,
}
use orekacxx.Common.Int.{ℤ, pos}
use orekacxx.Mixer.Ring.{sub_offset, add_offset}
use orekacxx.Mixer.State.{Mixer}

-- Pushes a chunk of `n` samples, unless it is empty or has more than 100000 bytes.
unfoldable pub push_chunk : Mixer → List ℤ → ℕ → Mixer
push_chunk m samples n =
    if ltb 100000 (n * 2)
    then record m { error = true }
    else if n * 2 == 0
    then m
    else record m { output_queue = m.output_queue ++ samples ∷ [] }

-- Ships the `n` samples from `ptr` on, and moves the read pointer. The source would copy past the end of
-- the buffer; Mixer.Access tells whether it does.
unfoldable pub ship : ℕ → Mixer → ℕ → ℕ → Mixer
ship size m ptr n =
    let pushed = push_chunk m (take n (drop ptr m.buffer)) n in
    record pushed {
      shipped_samples = (m.shipped_samples + n) % 2 ^ 32;
      read_ptr = add_offset size m.read_ptr n;
      read_timestamp = (m.read_timestamp + n) % 2 ^ 32;
    }

unfoldable pub ship_silence : ℕ → Mixer → ℕ → Mixer
ship_silence size m n =
    if n == 0
    then m
    else (let pushed = push_chunk m (replicate n (pos 0)) n in
        record pushed {
          shipped_samples = (m.shipped_samples + n) % 2 ^ 32;
          read_ptr = add_offset size m.read_ptr n;
          read_timestamp = (m.read_timestamp + n) % 2 ^ 32;
        })

-- Where the shipment stops: at the write pointer, or the holdoff behind it.
unfoldable pub stop_ptr : ℕ → ℕ → Mixer → ℕ → Bool → ℕ
stop_ptr size holdoff m silence force =
    if not (silence == 0) || force then m.write_ptr else sub_offset size m.write_ptr holdoff

unfoldable pub ship_until : ℕ → Mixer → ℕ → Mixer
ship_until size m stop =
    if ltb stop m.read_ptr
    then ship size (ship size m m.read_ptr (size - m.read_ptr)) 0 stop
    else ship size m m.read_ptr (stop - m.read_ptr)

unfoldable pub create_shipment : ℕ → ℕ → Mixer → ℕ → Bool → Mixer
create_shipment size holdoff m silence force =
    ship_silence size (ship_until size m (stop_ptr size holdoff m silence force)) silence
