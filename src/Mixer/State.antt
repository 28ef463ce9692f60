-- ===== src/Mixer/State.antt =====
-- The state of RtpMixer.cpp when one mixed channel is put out (`m_numOutputChannels == 1`): no
-- buffer for each channel is kept then. Time stamps and counters are of 32 bits.
use orekacxx.Common.{ℕ, ◌+◌, ◌<◌, ◌^◌, ◌≡◌, Bool, List, [], length, false}
use orekacxx.Common.Int.{ℤ}
use orekacxx.Mixer.Ring.{used_space, add_offset, sample}

pub record Mixer : Type 0 where
  pub buffer : List ℤ
  pub write_ptr : ℕ
  pub read_ptr : ℕ
  pub write_timestamp : ℕ
  pub read_timestamp : ℕ
  pub shipped_samples : ℕ
  pub output_queue : List (List ℤ)
  pub error : Bool

-- The constructor. The source leaves the buffer's contents open; no place is read before silence
-- is written to it.
unfoldable pub mixer_init : List ℤ → Mixer
mixer_init buffer = record {
  buffer = buffer;
  write_ptr = 0;
  read_ptr = 0;
  write_timestamp = 0;
  read_timestamp = 0;
  shipped_samples = 0;
  output_queue = [];
  error = false;
}

unfoldable pub reset : Mixer → ℕ → Mixer
reset m timestamp = record m {
  write_ptr = 0;
  read_ptr = 0;
  write_timestamp = timestamp;
  read_timestamp = timestamp;
}

abbrev pub used : ℕ → Mixer → ℕ
used size m = used_space size m.write_ptr m.read_ptr

-- The pointers are in the buffer, and the time stamps tell how many samples lie between them.
pub record IsSound (size : ℕ) (m : Mixer) : Type 0 where
  pub whole : length m.buffer ≡ size
  pub write_in : m.write_ptr < size
  pub read_in : m.read_ptr < size
  pub in_step : m.write_timestamp ≡ m.read_timestamp + used size m
  pub word : m.write_timestamp < 2 ^ 32

-- The sample `i` behind the next one to ship; silence behind the last one.
unfoldable pub pending : ℕ → Mixer → ℕ → ℤ
pending size m i = sample m.buffer (add_offset size m.read_ptr i)
