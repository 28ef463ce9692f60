-- ===== src/Mixer/Input.antt =====
-- `AudioChunkIn`, `ManageOutOfRangeTimestamp`, `DoStats` and `AudioChunkOut` of RtpMixer.cpp, with one
-- output channel. Time stamps and sequence numbers are of 32 bits; their differences are taken in
-- `double`, where they are exact.
pub mod Laws
pub mod Stream
use orekacxx.Common.{
  ℕ, ◌+◌, ◌-◌, ◌/◌, ◌%◌, ◌^◌, Bool, true, false, ◌&&◌, ◌||◌, not, List, [], ◌∷◌, length, take,
  Option, none, some, leb, ltb, ◌==◌, if◌then◌else◌,
}
use orekacxx.Common.Int.{ℤ, pos, negsuc, sub_ℕ, ◌-ℤ◌}
use orekacxx.Common.Outcome.{Outcome, done, throws, faults, ◌>>=◌}
use orekacxx.Mixer.Ring.{used_space, free_space}
use orekacxx.Mixer.State.{Mixer, reset, used}
use orekacxx.Mixer.Store.{store_rtp_packet}
use orekacxx.Mixer.Shipment.{create_shipment}

pub data Encoding : Type 0 where
  pcm_audio alaw_audio ulaw_audio other_audio : Encoding

pub record Chunk : Type 0 where
  pub end_of_stream : Bool
  pub encoding : Encoding
  pub num_bytes : ℕ
  pub payload : List ℤ
  pub channel : ℕ
  pub sequence_number : ℕ
  pub timestamp : ℕ

-- The size of the buffer, and what the constructor or `Configure` sets.
pub record Settings : Type 0 where
  pub size : ℕ
  pub trigger : ℕ
  pub holdoff : ℕ

pub record Stats : Type 0 where
  pub misses : ℕ
  pub max_gap : ℕ
  pub out_of_order : ℕ
  pub discontinuities : ℕ

-- The members that end in S1, or in S2.
pub record Side : Type 0 where
  pub last_timestamp : ℕ
  pub last_chunk : Option Chunk
  pub stats : Stats

pub record Input : Type 0 where
  pub mixer : Mixer
  pub side_1 : Side
  pub side_2 : Side
  pub corrective_delta : ℤ
  pub one_s1_packet_state : Bool
  pub invalid_channel_reported : Bool
  pub num_processed_samples : ℕ

unfoldable pub get_num_samples : Chunk → Outcome ℕ
get_num_samples c = elim c.encoding [
  | pcm_audio ↦ done (c.num_bytes / 2)
  | alaw_audio ↦ done c.num_bytes
  | ulaw_audio ↦ done c.num_bytes
  | other_audio ↦ throws
]

-- The samples of a PCM chunk.
abbrev pub chunk_samples : Chunk → List ℤ
chunk_samples c = take (c.num_bytes / 2) c.payload

abbrev pub further_than : ℕ → ℕ → ℕ → Bool
further_than n a b = ltb (a + n) b || ltb (b + n) a

unfoldable pub do_stats : Chunk → Chunk → Stats → Stats
do_stats c last s =
    if further_than 1000 c.sequence_number last.sequence_number
      && further_than 160000 c.timestamp last.timestamp
    then record s { discontinuities = s.discontinuities + 1 }
    else record s {
      max_gap =
          if ltb (last.sequence_number + s.max_gap) c.sequence_number
          then c.sequence_number - last.sequence_number
          else s.max_gap;
      out_of_order =
          if ltb c.sequence_number last.sequence_number then s.out_of_order + 1 else s.out_of_order;
      misses =
          if not (c.sequence_number == last.sequence_number + 1) && not (c.sequence_number == 1)
          then s.misses + 1
          else s.misses;
    }

-- A chunk of a side is counted and kept. A time stamp in milliseconds, 20 behind the last one seen,
-- becomes the one 160 samples behind the last chunk's.
unfoldable pub enter_side : Side → Chunk → Side × Chunk
enter_side side c = elim side.last_chunk [
  | none ↦ (record side { last_timestamp = c.timestamp; last_chunk = some c }, c)
  | some last ↦
      let counted = do_stats c last side.stats in
      let c' = record c { timestamp = (last.timestamp + 160) % 2 ^ 32 } in
      if (c.timestamp + 2 ^ 32 - side.last_timestamp) % 2 ^ 32 == 20
      then (record { last_timestamp = c.timestamp; last_chunk = some c'; stats = counted }, c')
      else (record side { last_chunk = some c; stats = counted }, c)
]

abbrev pub is_zero : ℤ → Bool
is_zero (pos n) = n == 0
is_zero (negsuc n) = false

-- The corrective delta is taken at the first chunk of side 2 behind the first one of side 1, or when
-- it is 0.
unfoldable pub update_delta : Input → ℕ → Input
update_delta s timestamp =
    let delta = sub_ℕ timestamp s.mixer.write_timestamp in
    if s.one_s1_packet_state
    then record s { corrective_delta = delta; one_s1_packet_state = false }
    else if is_zero s.corrective_delta && not (s.mixer.write_timestamp == 0)
    then record s { corrective_delta = delta }
    else s

-- The cast of a `double` of more than 32 bits is undefined.
unfoldable pub apply_delta : ℤ → ℕ → Outcome ℕ
apply_delta delta timestamp = elim (pos timestamp -ℤ delta) [
  | pos n ↦ if ltb n (2 ^ 32) then done n else faults
  | negsuc n ↦ done timestamp
]

-- The corrected time stamp, and what choosing it changes. The third component is the chunk with the
-- time stamp that it then has.
unfoldable pub correct_timestamp : Input → Chunk → Outcome (Input × ℕ × Chunk)
correct_timestamp s c =
    let (one, c₁) = enter_side s.side_1 c in
    let (two, c₂) = enter_side s.side_2 c in
    let s₂ = update_delta (record s { side_2 = two }) c₂.timestamp in
    if c.channel == 1
    then done (
      record s {
        side_1 = one;
        num_processed_samples = (s.num_processed_samples + length (chunk_samples c)) % 2 ^ 64;
      },
      c₁.timestamp,
      c₁,
    )
    else if c.channel == 2
    then (apply_delta s₂.corrective_delta c₂.timestamp >>= λ corrected. done (s₂, corrected, c₂))
    else done (record s { invalid_channel_reported = true }, 0, c)

-- `(int)x <= (int)y`, for a `y` below 2^31.
abbrev pub int_leb : ℕ → ℕ → Bool
int_leb x y = leb (2 ^ 31) x || leb x y

unfoldable pub fits_buffer : Settings → Mixer → List ℤ → ℕ → Bool
fits_buffer z m payload corrected =
    let end = (corrected + length payload) % 2 ^ 32 in
    int_leb ((end + 2 ^ 32 - m.write_timestamp) % 2 ^ 32) (free_space z.size m.write_ptr m.read_ptr)
    && int_leb ((m.write_timestamp + 2 ^ 32 - corrected) % 2 ^ 32) (used z.size m)

unfoldable pub ship_if_enough : Settings → Mixer → Mixer
ship_if_enough z m =
    if ltb z.trigger (used z.size m) then create_shipment z.size z.holdoff m 0 false else m

unfoldable pub manage_out_of_range : Settings → Input → Chunk → Input
manage_out_of_range z s c =
    if c.channel == 1
    then record s {
      mixer =
          store_rtp_packet z.size
            (reset (create_shipment z.size z.holdoff s.mixer 0 true) c.timestamp) (chunk_samples c)
            c.timestamp;
      corrective_delta = pos 0;
    }
    else if c.channel == 2
    then record s { corrective_delta = sub_ℕ c.timestamp s.mixer.write_timestamp }
    else s

-- What follows the choice of the corrected time stamp.
unfoldable pub place_chunk : Settings → Input → Chunk → ℕ → Input
place_chunk z s c corrected =
    let m = s.mixer in
    let payload = chunk_samples c in
    if m.write_timestamp == 0
    then (if c.channel == 1
        then record s {
          one_s1_packet_state = true;
          mixer =
              store_rtp_packet z.size
                (record m { write_timestamp = corrected; read_timestamp = corrected }) payload
                corrected;
        }
        else s)
    else if leb m.read_timestamp corrected && fits_buffer z m payload corrected
    then record s { mixer = ship_if_enough z (store_rtp_packet z.size m payload corrected) }
    else manage_out_of_range z s c

-- The checks of a chunk that is not the end of the stream.
unfoldable pub take_chunk : Settings → Input → Chunk → Outcome Input
take_chunk z s c = get_num_samples c >>= λ n.
    if n == 0
    then done s
    else if ltb 100000 c.num_bytes
    then done (record s { mixer = record s.mixer { error = true } })
    else elim c.encoding [
      | pcm_audio ↦ correct_timestamp s c >>= λ r. done (place_chunk z r.0 r.2 r.1)
      | alaw_audio ↦ throws
      | ulaw_audio ↦ throws
      | other_audio ↦ throws
    ]

-- `none` is a null chunk. The end of the stream ships all that is pending.
unfoldable pub audio_chunk_in : Settings → Input → Option Chunk → Outcome Input
audio_chunk_in z s none = done s
audio_chunk_in z s (some c) =
    let taken = take_chunk z s c in
    let flushed = done (record s { mixer = create_shipment z.size z.holdoff s.mixer 0 true }) in
    if s.mixer.error then done s else if c.end_of_stream then flushed else taken

unfoldable pub audio_chunk_out : Mixer → Mixer × Option (List ℤ)
audio_chunk_out m = elim m.output_queue [
  | [] ↦ (m, none)
  | c ∷ cs ↦ (record m { output_queue = cs }, some c)
]
