-- ===== src/Mixer/Input/Laws.antt =====
-- The chunks that come in keep the mixer's state sound.
use orekacxx.Common.{
  ℕ, ◌+◌, ◌-◌, ◌/◌, ◌%◌, ◌≤◌, ◌<◌, ◌^◌, ◌≡◌, ◌≢◌, refl, inl, inr, true, false, List, length,
  length-take, ◌⊎◌, arith, leb, ltb, ◌==◌, ◌&&◌, Bool-cases,
}
use orekacxx.Common.Int.{ℤ}
use orekacxx.Mixer.Ring.{used_space, free_space}
use orekacxx.Mixer.State.{Mixer, reset, used, IsSound}
use orekacxx.Mixer.Store.{store_rtp_packet}
use orekacxx.Mixer.Store.Laws.{store_rtp_packet-mixes, used-lt}
use orekacxx.Mixer.Shipment.{create_shipment}
use orekacxx.Mixer.Shipment.Oldest.{create_shipment-oldest}
use orekacxx.Mixer.Input.{
  Settings, Input, Chunk, chunk_samples, fits_buffer, ship_if_enough, manage_out_of_range,
  place_chunk,
}

-- The buffer is small enough for one chunk of output, and a shipment starts with more than the holdoff.
pub record IsSensible (z : Settings) : Type 0 where
  pub small : z.size ≤ 50000
  pub enough : z.holdoff ≤ z.trigger

-- The end of the packet is not just one whole buffer ahead of the next sample to ship.
abbrev pub LeavesRoom : Settings → Mixer → List ℤ → ℕ → Type 0
LeavesRoom z m payload corrected = corrected + length payload ≢ m.read_timestamp + z.size

module _ (z : Settings) (sensible : IsSensible z) where
  -- A packet that starts in the window of the buffer is either dismissed or fits.
  store_dismissed :
      (m : Mixer) (payload : List ℤ) (corrected : ℕ)
      → (m.write_timestamp + z.size ≤ corrected + length payload)
        ⊎ (2 ^ 32 ≤ corrected + length payload)
      → store_rtp_packet z.size m payload corrected ≡ m
  unfolding store_rtp_packet
  store_dismissed m payload corrected (inl h) = ground arith
  store_dismissed m payload corrected (inr h) = ground arith

  store-IsSound :
      (m : Mixer) (payload : List ℤ) (corrected : ℕ)
      → IsSound z.size m
      → m.read_timestamp ≤ corrected
      → (corrected + length payload < m.read_timestamp + z.size)
        ⊎ (m.write_timestamp + z.size ≤ corrected + length payload)
      → IsSound z.size (store_rtp_packet z.size m payload corrected)
  store-IsSound m payload corrected s o (inr far) =
      rw (store_dismissed m payload corrected (inl far)) s
  store-IsSound m payload corrected s o (inl f) =
      elim (Bool-cases (leb (2 ^ 32) (corrected + length payload))) [
        | inl wraps ↦ rw (store_dismissed m payload corrected (inr (ground arith))) s
        | inr fits ↦
            (store_rtp_packet-mixes z.size m payload corrected s
              (record { not_old = o; not_far = f; no_wrap = ground arith })).0
      ]

  ship_if_enough-IsSound : (m : Mixer) → IsSound z.size m → IsSound z.size (ship_if_enough z m)
  unfolding ship_if_enough
  ship_if_enough-IsSound m s = elim (Bool-cases (ltb z.trigger (used z.size m))) [
    | inl much ↦
        rw much
          (create_shipment-oldest z.size z.holdoff m false sensible.small s
            (ground (arith, sensible.enough))).sound
    | inr little ↦ rw little s
  ]

  -- What the comparisons of `AudioChunkIn` say of a packet with a time stamp in the window.
  fits_buffer-le :
      (m : Mixer) (payload : List ℤ) (corrected : ℕ)
      → m.write_timestamp ≤ corrected + length payload
      → corrected + length payload < m.write_timestamp + z.size
      → corrected + length payload < 2 ^ 32
      → fits_buffer z m payload corrected ≡ true
      → corrected + length payload - m.write_timestamp ≤ z.size - used z.size m
  unfolding fits_buffer free_space
  fits_buffer-le m payload corrected a b c f =
      let e : (corrected + length payload) % 2 ^ 32 ≡ corrected + length payload = omega arith in
      let d : (corrected + length payload + 2 ^ 32 - m.write_timestamp) % 2 ^ 32
          ≡ corrected + length payload - m.write_timestamp =
        omega (arith, sensible.small) in
      let g = rw (e, d) at f in ground (arith, sensible.small)

  fits_buffer-eq :
      (m : Mixer) (payload : List ℤ) (corrected : ℕ)
      → IsSound z.size m
      → m.read_timestamp ≤ corrected
      → corrected < 2 ^ 32
      → length payload ≤ 50000
      → LeavesRoom z m payload corrected
      → fits_buffer z m payload corrected ≡ true
      → IsSound z.size (store_rtp_packet z.size m payload corrected)
  unfolding fits_buffer free_space
  fits_buffer-eq m payload corrected s o w l room f =
      elim (Bool-cases (leb (2 ^ 32) (corrected + length payload))) [
        | inl wraps ↦ rw (store_dismissed m payload corrected (inr (ground arith))) s
        | inr whole ↦
            store-IsSound m payload corrected s o
              (elim (Bool-cases (leb (m.write_timestamp + z.size) (corrected + length payload))) [
                | inl far ↦ inr (ground arith)
                | inr near ↦
                    inl (ground (arith, used-lt z.size m s, fits_buffer-le m payload corrected))
              ])
      ]

  -- A buffer that is emptied at a time stamp.
  emptied-IsSound :
      (m : Mixer) (timestamp : ℕ)
      → IsSound z.size m
      → timestamp < 2 ^ 32
      → IsSound z.size (reset m timestamp)
  unfolding reset used_space
  emptied-IsSound m timestamp s h = record {
    whole = s.whole;
    write_in = omega (arith, s.write_in);
    read_in = omega (arith, s.read_in);
    in_step = ground arith;
    word = h;
  }

  store_first-IsSound :
      (m : Mixer) (payload : List ℤ) (timestamp : ℕ)
      → IsSound z.size m
      → m.read_timestamp ≡ timestamp
      → m.write_timestamp ≡ timestamp
      → IsSound z.size (store_rtp_packet z.size m payload timestamp)
  store_first-IsSound m payload timestamp s r w =
      store-IsSound m payload timestamp s (omega arith)
        (elim (Bool-cases (leb z.size (length payload))) [
          | inl far ↦ inr (ground arith)
          | inr near ↦ inl (ground arith)
        ])

  -- The first packet of a session sets both time stamps.
  started-IsSound :
      (m : Mixer) (timestamp : ℕ)
      → IsSound z.size m
      → m.write_timestamp ≡ 0
      → timestamp < 2 ^ 32
      → IsSound z.size (record m { write_timestamp = timestamp; read_timestamp = timestamp })
  started-IsSound m timestamp s e h = record {
    whole = s.whole;
    write_in = s.write_in;
    read_in = s.read_in;
    in_step = omega (arith, s.in_step);
    word = h;
  }

  manage_out_of_range-IsSound :
      (s : Input) (c : Chunk)
      → IsSound z.size s.mixer
      → c.timestamp < 2 ^ 32
      → IsSound z.size (manage_out_of_range z s c).mixer
  unfolding manage_out_of_range reset
  manage_out_of_range-IsSound s c sound t = elim (Bool-cases (c.channel == 1)) [
    | inl one ↦
        let shipped =
          create_shipment-oldest z.size z.holdoff s.mixer true sensible.small sound (omega arith) in
        let emptied = reset (create_shipment z.size z.holdoff s.mixer 0 true) c.timestamp in
        rw one (
          store_first-IsSound emptied (chunk_samples c) c.timestamp
            (emptied-IsSound _ c.timestamp shipped.sound t) refl refl)
    | inr other ↦ elim (Bool-cases (c.channel == 2)) [
      | inl two ↦ rw (other, two) sound
      | inr more ↦ rw (other, more) sound
    ]
  ]

-- Whatever its channel and its corrected time stamp, a chunk that comes in leaves the mixer's state
-- sound, unless the packet's end lies just one whole buffer ahead of the next sample to ship. The
-- chunk has at most 100000 bytes, as `AudioChunkIn` checks, and its time stamps are of 32 bits; the
-- buffer has at most 50000 samples, and shipments start with at least the holdoff.
pub place_chunk-IsSound :
    (z : Settings)
    → IsSensible z
    → (s : Input) (c : Chunk) (corrected : ℕ) → IsSound z.size s.mixer
    → c.num_bytes ≤ 100000
    → c.timestamp < 2 ^ 32
    → corrected < 2 ^ 32
    → LeavesRoom z s.mixer (chunk_samples c) corrected
    → IsSound z.size (place_chunk z s c corrected).mixer
unfolding place_chunk
place_chunk-IsSound z sensible s c corrected sound bytes t w room =
    let m = s.mixer in
    let payload = chunk_samples c in
    elim (Bool-cases (m.write_timestamp == 0)) [
      | inl start ↦ elim (Bool-cases (c.channel == 1)) [
        | inl one ↦
            rw (start, one)
              (store_first-IsSound z sensible _ payload corrected
                (started-IsSound z sensible m corrected sound (ground arith) w) refl refl)
        | inr other ↦ rw (start, other) sound
      ]
      | inr started ↦
          elim (Bool-cases (leb m.read_timestamp corrected && fits_buffer z m payload corrected)) [
            | inl within ↦
                rw (started, within)
                  (ship_if_enough-IsSound z sensible _ (
                    fits_buffer-eq z sensible m payload corrected sound (ground arith) w
                      (omega (arith, length-take (c.num_bytes / 2) c.payload)) room (ground arith)))
            | inr without ↦
                rw (started, without) (manage_out_of_range-IsSound z sensible s c sound t)
          ]
    ]
