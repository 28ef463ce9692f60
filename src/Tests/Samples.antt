-- ===== src/Tests/Samples.antt =====
-- A mixer with a buffer of four places, for RtpMixer.cpp.
use Prim.Native.Nat.{max}
use orekacxx.Common.{
  ℕ, ◌+◌, ◌-◌, ◌≤◌, ◌<◌, ◌≡◌, refl, false, List, [], ◌∷◌, arith, length, if◌then◌else◌,
}
use orekacxx.Common.Int.{ℤ, pos, negsuc}
use orekacxx.Mixer.Ring.{mix, sample, used_space}
use orekacxx.Mixer.State.{Mixer, used, IsSound, pending}
use orekacxx.Mixer.Store.{store_rtp_packet}
use orekacxx.Mixer.Store.Laws.{Fits, or_silence, covers, store_rtp_packet-mixes}
use orekacxx.Mixer.Access.{store_inside, shipment_inside, store_inside-shipment_inside}
use orekacxx.Mixer.Shipment.{create_shipment}
use mathlib.Core.Path.{subst}
use orekacxx.Common.{true}
use orekacxx.Mixer.Ring.{free_space, mix_run, sub_offset, next}
use orekacxx.Mixer.Store.{write_silence, mix_packet}
use orekacxx.Common.Int.{◌+ℤ◌}
use orekacxx.Common.{◌≢◌, sym, ap, ◌∙◌, some, none}
use orekacxx.Common.Outcome.{done, done-injective, ◌>>=◌}
use orekacxx.Mixer.Store.Full.{store_rtp_packet-full}
use orekacxx.Mixer.Input.{
  Settings, Side, Input, Chunk, pcm_audio, audio_chunk_in, take_chunk, get_num_samples,
  correct_timestamp, enter_side, place_chunk, fits_buffer, ship_if_enough,
}
use orekacxx.Mixer.Input.Laws.{IsSensible}
use orekacxx.Mixer.Input.Stream.{ChunkLeavesRoom, audio_chunk_in-flush, audio_chunk_in-IsSound}
use orekacxx.Mixer.Shipment.Oldest.{IsShipped, create_shipment-oldest}

-- Three samples are pending, round the end of the buffer.
abbrev small_mixer : Mixer
small_mixer = record {
  buffer = pos 3 ∷ pos 9 ∷ pos 1 ∷ pos 2 ∷ [];
  write_ptr = 1;
  read_ptr = 2;
  write_timestamp = 103;
  read_timestamp = 100;
  shipped_samples = 0;
  output_queue = [];
  error = false;
}

small_mixer-IsSound : IsSound 4 small_mixer
unfolding used_space
small_mixer-IsSound = record {
  whole = refl;
  write_in = omega arith;
  read_in = omega arith;
  in_step = refl;
  word = omega arith;
}

abbrev small_packet : List ℤ
small_packet = pos 32767 ∷ negsuc 4 ∷ []

small_packet-Fits : Fits 4 small_mixer small_packet 101
small_packet-Fits = record { not_old = omega arith; not_far = omega arith; no_wrap = omega arith }

store_rtp_packet-mixes_example :
    IsSound 4 (store_rtp_packet 4 small_mixer small_packet 101)
    × ((store_rtp_packet 4 small_mixer small_packet 101).write_timestamp
        ≡ max small_mixer.write_timestamp (101 + length small_packet))
    × ((i : ℕ)
        → i < used 4 (store_rtp_packet 4 small_mixer small_packet 101)
        → pending 4 (store_rtp_packet 4 small_mixer small_packet 101) i ≡ (
            if covers 101 small_packet (small_mixer.read_timestamp + i)
            then mix
                (or_silence 4 small_mixer i)
                (sample small_packet (small_mixer.read_timestamp + i - 101))
            else or_silence 4 small_mixer i))
store_rtp_packet-mixes_example =
    store_rtp_packet-mixes 4 small_mixer small_packet 101 small_mixer-IsSound small_packet-Fits

one_held : 1 ≤ used 4 small_mixer
unfolding used_space
one_held = omega arith

create_shipment-oldest_example :
    IsShipped 4 small_mixer
      (create_shipment 4 1 small_mixer 0 false)
      (used 4 small_mixer - (if false then 0 else 1))
create_shipment-oldest_example =
    create_shipment-oldest 4 1 small_mixer false (omega arith) small_mixer-IsSound one_held

store_inside-shipment_inside_example :
    (store_inside 4 small_mixer small_packet 101 ≡ true)
    × (shipment_inside 4 1 small_mixer 0 false ≡ true)
store_inside-shipment_inside_example =
    store_inside-shipment_inside 4 1 small_mixer small_mixer-IsSound (omega arith) small_packet 101
      0 false

some_used : 0 < used 4 small_mixer
unfolding used_space
some_used = omega arith

store_rtp_packet-full_example :
    (used 4 (store_rtp_packet 4 small_mixer small_packet 102) ≡ 0)
    × ((store_rtp_packet 4 small_mixer small_packet 102).write_timestamp
        ≡ small_mixer.read_timestamp + 4)
store_rtp_packet-full_example =
    store_rtp_packet-full 4 small_mixer small_packet 102 small_mixer-IsSound some_used refl
      (omega arith)

abbrev small_settings : Settings
small_settings = record { size = 4; trigger = 3; holdoff = 1 }

small_settings-IsSensible : IsSensible small_settings
small_settings-IsSensible = record { small = omega arith; enough = omega arith }

abbrev new_side : Side
new_side = record {
  last_timestamp = 0;
  last_chunk = none;
  stats = record { misses = 0; max_gap = 0; out_of_order = 0; discontinuities = 0 };
}

abbrev small_input : Input
small_input = record {
  mixer = small_mixer;
  side_1 = new_side;
  side_2 = new_side;
  corrective_delta = pos 0;
  one_s1_packet_state = false;
  invalid_channel_reported = false;
  num_processed_samples = 0;
}

abbrev small_chunk : Chunk
small_chunk = record {
  end_of_stream = false;
  encoding = pcm_audio;
  num_bytes = 4;
  payload = small_packet;
  channel = 1;
  sequence_number = 7;
  timestamp = 101;
}

abbrev last_marker : Chunk
last_marker = record small_chunk { end_of_stream = true }

audio_chunk_in-flush_example :
    (s' : Input) × (audio_chunk_in small_settings small_input (some last_marker) ≡ done s')
    × IsShipped 4 small_mixer s'.mixer (used 4 small_mixer)
audio_chunk_in-flush_example =
    audio_chunk_in-flush small_settings small_settings-IsSensible small_input last_marker
      small_mixer-IsSound refl refl

small_chunk_corrected : (correct_timestamp small_input small_chunk >>= λ r. done r.1) ≡ done 101
unfolding correct_timestamp enter_side
small_chunk_corrected = refl

small_chunk-ChunkLeavesRoom : ChunkLeavesRoom small_settings small_input small_chunk
small_chunk-ChunkLeavesRoom r e =
    subst (λ (x : ℕ). x + 2 ≢ 104)
      (done-injective (sym small_chunk_corrected ∙ ap (λ o. o >>= λ r'. done r'.1) e)) (omega arith)

abbrev small_result : Input
small_result = record small_input {
  mixer = record small_mixer { buffer = negsuc 1 ∷ pos 9 ∷ pos 1 ∷ pos 32767 ∷ [] };
  side_1 = record new_side { last_timestamp = 101; last_chunk = some small_chunk };
  num_processed_samples = 2;
}

small_chunk_taken : audio_chunk_in small_settings small_input (some small_chunk) ≡ done small_result
unfolding ◌+ℤ◌ free_space used_space store_rtp_packet write_silence mix_packet mix_run sub_offset
    mix next audio_chunk_in take_chunk get_num_samples correct_timestamp enter_side place_chunk
    fits_buffer ship_if_enough
small_chunk_taken = refl

audio_chunk_in-IsSound_example : IsSound 4 small_result.mixer
audio_chunk_in-IsSound_example =
    audio_chunk_in-IsSound small_settings small_settings-IsSensible small_input small_result
      small_chunk small_mixer-IsSound (omega arith) small_chunk-ChunkLeavesRoom small_chunk_taken
