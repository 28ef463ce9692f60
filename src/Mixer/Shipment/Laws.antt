-- ===== src/Mixer/Shipment/Laws.antt =====
-- The chunks that `CreateShipment` of RtpMixer.cpp pushes, and what it moves.
use mathlib.Core.List.{append_assoc, append-nil}
use orekacxx.Common.{
  ℕ, ◌+◌, ◌-◌, ◌%◌, ◌≤◌, ◌<◌, ◌^◌, ◌≡◌, refl, sym, ap, ◌∙◌, inl, inr, List, [], ◌∷◌, ◌++◌, length,
  take, drop, length-take, length-drop, length-append, get_or-drop, get_or-append_right,
  get_or-append, get_or-take, arith, ltb, Bool-cases, if◌then◌else◌,
}
use orekacxx.Common.Int.{ℤ, pos}
use orekacxx.Mixer.Ring.{add_offset, used_space, sample}
use orekacxx.Mixer.State.{Mixer, used, IsSound, pending}
use orekacxx.Mixer.Shipment.{push_chunk, ship, ship_until}

-- All the samples of a queue of chunks.
abbrev pub samples : List (List ℤ) → List ℤ
samples [] = []
samples (c ∷ cs) = c ++ samples cs

samples-append : (xs ys : List (List ℤ)) → samples (xs ++ ys) ≡ samples xs ++ samples ys
samples-append [] ys = refl
samples-append (x ∷ xs) ys =
    rw (samples-append xs ys) (sym (append_assoc x (samples xs) (samples ys)))

push_chunk-samples :
    (m : Mixer) (c : List ℤ) (n : ℕ)
    → length c ≡ n
    → n ≤ 50000
    → samples (push_chunk m c n).output_queue ≡ samples m.output_queue ++ c
unfolding push_chunk
push_chunk-samples m [] n l h = ground (arith, append-nil (samples m.output_queue))
push_chunk-samples m (x ∷ c) n l h =
    ground (arith, samples-append m.output_queue ((x ∷ c) ∷ []), append-nil c)

-- What one shipment changes besides the queue.
record Moved (size : ℕ) (m m' : Mixer) (n : ℕ) : Type 0 where
  same_buffer : m'.buffer ≡ m.buffer
  same_write : m'.write_ptr ≡ m.write_ptr
  same_write_timestamp : m'.write_timestamp ≡ m.write_timestamp
  same_error : m'.error ≡ m.error
  moved_read : m'.read_ptr ≡ add_offset size m.read_ptr n
  moved_timestamp : m'.read_timestamp ≡ (m.read_timestamp + n) % 2 ^ 32

ship-Moved : (size : ℕ) (m : Mixer) (ptr n : ℕ) → n ≤ 50000 → Moved size m (ship size m ptr n) n
unfolding ship push_chunk
ship-Moved size m ptr n h = ground arith

ship-samples :
    (size : ℕ) (m : Mixer) (ptr n : ℕ)
    → n ≤ 50000
    → ptr + n ≤ length m.buffer
    → samples (ship size m ptr n).output_queue
      ≡ samples m.output_queue ++ take n (drop ptr m.buffer)
unfolding ship
ship-samples size m ptr n h l =
    push_chunk-samples m (take n (drop ptr m.buffer)) n
      (omega (arith, length-take n (drop ptr m.buffer), length-drop ptr m.buffer)) h

-- The samples from the read pointer up to `stop`, round the end of the buffer.
abbrev pub shipped : ℕ → Mixer → ℕ → List ℤ
shipped size m stop =
    if ltb stop m.read_ptr
    then take (size - m.read_ptr) (drop m.read_ptr m.buffer) ++ take stop m.buffer
    else take (stop - m.read_ptr) (drop m.read_ptr m.buffer)

module _ (size : ℕ) (bound : size ≤ 50000) where
  pub ship_until-samples :
      (m : Mixer) (stop : ℕ)
      → IsSound size m
      → stop < size
      → samples (ship_until size m stop).output_queue
        ≡ samples m.output_queue ++ shipped size m stop
  unfolding ship_until
  ship_until-samples m stop s h = elim (Bool-cases (ltb stop m.read_ptr)) [
    | inl wraps ↦
        let head = size - m.read_ptr in
        let first = ship size m m.read_ptr head in
        let moved = ship-Moved size m m.read_ptr head (omega arith) in
        rw
          (wraps, ship-samples size first 0 stop (omega arith) (rw moved.same_buffer (omega arith)))
          (ap (λ q. q ++ take stop first.buffer)
              (ship-samples size m m.read_ptr head (omega arith) (omega arith))
            ∙ append_assoc (samples m.output_queue) _ _
            ∙ ap
                (λ b.
                  samples m.output_queue ++ (take head (drop m.read_ptr m.buffer) ++ take stop b))
                moved.same_buffer)
    | inr ahead ↦
        rw ahead (ship-samples size m m.read_ptr (stop - m.read_ptr) (omega arith) (ground arith))
  ]

  pub length-shipped :
      (m : Mixer) (stop : ℕ)
      → IsSound size m
      → stop < size
      → length (shipped size m stop) ≡ used_space size stop m.read_ptr
  unfolding used_space
  length-shipped m stop s h = ground (
    arith,
    length-append (take (size - m.read_ptr) (drop m.read_ptr m.buffer)) (take stop m.buffer),
    length-take (size - m.read_ptr) (drop m.read_ptr m.buffer),
    length-take (stop - m.read_ptr) (drop m.read_ptr m.buffer),
    length-drop m.read_ptr m.buffer,
    length-take stop m.buffer,
  )

  pub sample-shipped :
      (m : Mixer) (stop i : ℕ)
      → IsSound size m
      → stop < size
      → i < used_space size stop m.read_ptr
      → sample (shipped size m stop) i ≡ pending size m i
  unfolding used_space pending add_offset
  sample-shipped m stop i s h k =
      let head = take (size - m.read_ptr) (drop m.read_ptr m.buffer) in
      ground (
        arith,
        get_or-append head (take stop m.buffer) i (pos 0),
        get_or-append_right head (take stop m.buffer) i (pos 0),
        length-take (size - m.read_ptr) (drop m.read_ptr m.buffer),
        length-drop m.read_ptr m.buffer,
        get_or-take (size - m.read_ptr) (drop m.read_ptr m.buffer) i (pos 0),
        get_or-take (stop - m.read_ptr) (drop m.read_ptr m.buffer) i (pos 0),
        get_or-drop m.read_ptr m.buffer i (pos 0),
        get_or-take stop m.buffer (i - (size - m.read_ptr)) (pos 0),
      )

  -- What else changes: the read side moves up to `stop`, and nothing else that the mixer reads.
  pub ship_until-Moved :
      (m : Mixer) (stop : ℕ)
      → IsSound size m
      → stop < size
      → used_space size stop m.read_ptr ≤ used size m
      → ((ship_until size m stop).read_ptr ≡ stop)
        × ((ship_until size m stop).read_timestamp
            ≡ m.read_timestamp + used_space size stop m.read_ptr)
        × ((ship_until size m stop).write_ptr ≡ m.write_ptr)
        × ((ship_until size m stop).write_timestamp ≡ m.write_timestamp)
        × ((ship_until size m stop).buffer ≡ m.buffer)
        × ((ship_until size m stop).error ≡ m.error)
  unfolding ship_until add_offset used_space
  ship_until-Moved m stop s h k = elim (Bool-cases (ltb stop m.read_ptr)) [
    | inl wraps ↦
        let first = ship size m m.read_ptr (size - m.read_ptr) in
        let one = ship-Moved size m m.read_ptr (size - m.read_ptr) (omega arith) in
        let two = ship-Moved size first 0 stop (omega arith) in
        rw wraps (
          ground (arith, one.moved_read, two.moved_read),
          ground (arith, one.moved_timestamp, two.moved_timestamp),
          two.same_write ∙ one.same_write,
          two.same_write_timestamp ∙ one.same_write_timestamp,
          two.same_buffer ∙ one.same_buffer,
          two.same_error ∙ one.same_error,
        )
    | inr ahead ↦
        let one = ship-Moved size m m.read_ptr (stop - m.read_ptr) (omega arith) in
        rw ahead (
          ground (arith, one.moved_read),
          ground (arith, one.moved_timestamp),
          one.same_write,
          one.same_write_timestamp,
          one.same_buffer,
          one.same_error,
        )
  ]
