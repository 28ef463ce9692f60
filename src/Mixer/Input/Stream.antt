-- ===== src/Mixer/Input/Stream.antt =====
-- `AudioChunkIn` as a whole.
use mathlib.Core.Path.{subst}
use orekacxx.Common.{
  ℕ, ◌≤◌, ◌<◌, ◌^◌, ◌≡◌, ◌∙◌, refl, sym, ◌⊎◌, inl, inr, true, false, some, arith, ltb, ◌==◌,
  Bool-cases,
}
use orekacxx.Common.Int.{ℤ}
use orekacxx.Common.Outcome.{done-injective, done, throws, ◌>>=◌, >>=-eq-done}
use orekacxx.Mixer.State.{used, IsSound}
use orekacxx.Mixer.Shipment.{create_shipment}
use orekacxx.Mixer.Shipment.Oldest.{IsShipped, create_shipment-oldest}
use orekacxx.Mixer.Input.{
  Settings, Input, Chunk, Encoding, pcm_audio, alaw_audio, ulaw_audio, other_audio, chunk_samples,
  place_chunk, correct_timestamp, enter_side, Side, update_delta, apply_delta, take_chunk,
  get_num_samples, audio_chunk_in,
}
use orekacxx.Mixer.Input.Laws.{IsSensible, LeavesRoom, place_chunk-IsSound}

-- The end of the stream is never refused: all that is pending goes to the queue, in its order, and
-- nothing stays pending. The state is sound and without error before.
pub audio_chunk_in-flush :
    (z : Settings)
    → IsSensible z
    → (s : Input) (c : Chunk) → IsSound z.size s.mixer
    → s.mixer.error ≡ false
    → c.end_of_stream ≡ true
    → (s' : Input) × (audio_chunk_in z s (some c) ≡ done s')
      × IsShipped z.size s.mixer s'.mixer (used z.size s.mixer)
unfolding audio_chunk_in
audio_chunk_in-flush z sensible s c sound e end = (
  record s { mixer = create_shipment z.size z.holdoff s.mixer 0 true },
  rw (e, end),
  subst (IsShipped z.size s.mixer (create_shipment z.size z.holdoff s.mixer 0 true)) (omega arith)
      (create_shipment-oldest z.size z.holdoff s.mixer true sensible.small sound (omega arith)),
)

-- The corrected time stamp is of 32 bits, and finding it leaves the buffer and the samples alone.
record IsCorrected (s : Input) (c : Chunk) (r : Input × ℕ × Chunk) : Type 0 where
  same_mixer : r.0.mixer ≡ s.mixer
  word : r.1 < 2 ^ 32
  chunk_word : r.2.timestamp < 2 ^ 32
  same_bytes : r.2.num_bytes ≡ c.num_bytes
  same_samples : chunk_samples r.2 ≡ chunk_samples c

enter_side_chunk :
    (side : Side) (c : Chunk)
    → c.timestamp < 2 ^ 32
    → ((enter_side side c).1.timestamp < 2 ^ 32)
      × ((enter_side side c).1.num_bytes ≡ c.num_bytes)
      × (chunk_samples (enter_side side c).1 ≡ chunk_samples c)
unfolding enter_side
enter_side_chunk side c h = ground arith

apply_delta-lt : (delta : ℤ) (t r : ℕ) → t < 2 ^ 32 → apply_delta delta t ≡ done r → r < 2 ^ 32
unfolding apply_delta
apply_delta-lt delta t r h e = ground arith

update_delta-mixer : (s : Input) (t : ℕ) → (update_delta s t).mixer ≡ s.mixer
unfolding update_delta
update_delta-mixer s t = ground arith

correct_timestamp-IsCorrected :
    (s : Input) (c : Chunk) (r : Input × ℕ × Chunk)
    → c.timestamp < 2 ^ 32
    → correct_timestamp s c ≡ done r
    → IsCorrected s c r
unfolding correct_timestamp
correct_timestamp-IsCorrected s c r t h = elim (Bool-cases (c.channel == 1)) [
  | inl one ↦
      let c₁ = enter_side_chunk s.side_1 c t in
      subst (IsCorrected s c) (done-injective (rw one at h)) (record {
        same_mixer = refl;
        word = c₁.0;
        chunk_word = c₁.0;
        same_bytes = c₁.1;
        same_samples = c₁.2;
      })
  | inr other ↦ elim (Bool-cases (c.channel == 2)) [
    | inl two ↦
        let c₂ = enter_side_chunk s.side_2 c t in
        let (corrected, e, rest) = >>=-eq-done _ _ (rw (other, two) at h) in
        subst (IsCorrected s c) (done-injective rest) (record {
          same_mixer = update_delta-mixer _ _;
          word = apply_delta-lt _ _ corrected c₂.0 e;
          chunk_word = c₂.0;
          same_bytes = c₂.1;
          same_samples = c₂.2;
        })
    | inr more ↦ subst (IsCorrected s c) (done-injective (rw (other, more) at h)) (record {
      same_mixer = refl;
      word = omega arith;
      chunk_word = t;
      same_bytes = refl;
      same_samples = refl;
    })
  ]
]

-- Where the corrected time stamp is found, the chunk does not end just one whole buffer ahead.
abbrev pub ChunkLeavesRoom : Settings → Input → Chunk → Type 0
ChunkLeavesRoom z s c =
    (r : Input × ℕ × Chunk)
    → correct_timestamp s c ≡ done r
    → LeavesRoom z s.mixer (chunk_samples c) r.1

corrected-IsSound :
    (z : Settings)
    → IsSensible z
    → (s : Input) (c : Chunk) (r : Input × ℕ × Chunk) → IsSound z.size s.mixer
    → c.num_bytes ≤ 100000
    → IsCorrected s c r
    → LeavesRoom z s.mixer (chunk_samples c) r.1
    → IsSound z.size (place_chunk z r.0 r.2 r.1).mixer
corrected-IsSound z sensible s c r sound bytes k room =
    place_chunk-IsSound z sensible r.0 r.2 r.1 (rw k.same_mixer sound) (omega (arith, k.same_bytes))
      k.chunk_word k.word (rw (k.same_mixer, k.same_samples) room)

decoded :
    (z : Settings) (s s' : Input) (c : Chunk) (e : Encoding)
    → (elim e [
      | pcm_audio ↦ correct_timestamp s c >>= λ r. done (place_chunk z r.0 r.2 r.1)
      | alaw_audio ↦ throws
      | ulaw_audio ↦ throws
      | other_audio ↦ throws
    ])
      ≡ done s'
    → (r : Input × ℕ × Chunk) × (correct_timestamp s c ≡ done r) × (place_chunk z r.0 r.2 r.1 ≡ s')
decoded z s s' c pcm_audio h =
    let (r, e, rest) = >>=-eq-done (correct_timestamp s c) _ h in (r, e, done-injective rest)
decoded z s s' c alaw_audio h = cc
decoded z s s' c ulaw_audio h = cc
decoded z s s' c other_audio h = cc

take_chunk-IsSound :
    (z : Settings)
    → IsSensible z
    → (s s' : Input) (c : Chunk) → IsSound z.size s.mixer
    → c.timestamp < 2 ^ 32
    → ChunkLeavesRoom z s c
    → take_chunk z s c ≡ done s'
    → IsSound z.size s'.mixer
unfolding take_chunk
take_chunk-IsSound z sensible s s' c sound t room h =
    let (n, counted, rest) = >>=-eq-done (get_num_samples c) _ h in
    elim (Bool-cases (n == 0)) [
      | inl empty ↦
          subst (λ x. IsSound z.size x.mixer) (done-injective {a = s} (rw empty at rest)) sound
      | inr full ↦ elim (Bool-cases (ltb 100000 c.num_bytes)) [
        | inl big ↦
            subst (λ x. IsSound z.size x.mixer) (done-injective (rw (full, big) at rest))
              (record {
                whole = sound.whole;
                write_in = sound.write_in;
                read_in = sound.read_in;
                in_step = sound.in_step;
                word = sound.word;
              })
        | inr small ↦
            let (r, e, placed) = decoded z s s' c c.encoding (rw (full, small) at rest) in
            subst (λ x. IsSound z.size x.mixer) placed
              (corrected-IsSound z sensible s c r sound (ground arith)
                (correct_timestamp-IsCorrected s c r t e) (room r e))
      ]
    ]

-- The two tests at the start of `AudioChunkIn`.
pub audio_chunk_in_cases :
    (z : Settings) (s : Input) (c : Chunk)
    → audio_chunk_in z s (some c) ≡ done s
      ⊎ (audio_chunk_in z s (some c)
            ≡ done (record s { mixer = create_shipment z.size z.holdoff s.mixer 0 true })
          ⊎ audio_chunk_in z s (some c) ≡ take_chunk z s c)
unfolding audio_chunk_in
audio_chunk_in_cases z s c = elim (Bool-cases s.mixer.error) [
  | inl failed ↦ inl (ground arith)
  | inr good ↦ elim (Bool-cases c.end_of_stream) [
    | inl end ↦ inr (inl (rw (good, end)))
    | inr more ↦ inr (inr (rw (good, more)))
  ]
]

-- Whatever chunk comes in, a call of `AudioChunkIn` that ends normally leaves the mixer's state sound,
-- unless the chunk's end lies just one whole buffer ahead of the next sample to ship. The buffer has
-- at most 50000 samples, shipments start with at least the holdoff, and time stamps are of 32 bits.
pub audio_chunk_in-IsSound :
    (z : Settings)
    → IsSensible z
    → (s s' : Input) (c : Chunk) → IsSound z.size s.mixer
    → c.timestamp < 2 ^ 32
    → ChunkLeavesRoom z s c
    → audio_chunk_in z s (some c) ≡ done s'
    → IsSound z.size s'.mixer
audio_chunk_in-IsSound z sensible s s' c sound t room h = elim (audio_chunk_in_cases z s c) [
  | inl failed ↦ subst (λ x. IsSound z.size x.mixer) (done-injective (sym failed ∙ h)) sound
  | inr (inl flushed) ↦
      subst (λ x. IsSound z.size x.mixer) (done-injective (sym flushed ∙ h))
        (create_shipment-oldest z.size z.holdoff s.mixer true sensible.small sound
          (omega arith)).sound
  | inr (inr taken) ↦ take_chunk-IsSound z sensible s s' c sound t room (sym taken ∙ h)
]
