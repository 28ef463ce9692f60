-- ===== src/Mixer/Store/Laws.antt =====
-- What a packet that fits the buffer does to the samples that are still to ship.
use orekacxx.Common.{
  ℕ, ◌+◌, ◌-◌, ◌≤◌, ◌<◌, ◌^◌, ◌≡◌, ◌∙◌, Bool, ◌&&◌, List, length, arith, leb, ltb, if◌then◌else◌,
}
use Prim.Native.Nat.{max}
use orekacxx.Common.Int.{ℤ, pos}
use orekacxx.Mixer.Ring.{add_offset, sub_offset, used_space, mix, sample}
use orekacxx.Mixer.Ring.Laws.{
  behind, add_offset-lt, length-zero_run, length-mix_run, advance-add_offset, sample-zero_run,
  sample-mix_run,
}
use orekacxx.Mixer.State.{Mixer, used, IsSound, pending}
use orekacxx.Mixer.Store.{write_silence, mix_packet, store_rtp_packet}

-- The packet lies in the window of the buffer: not before the next sample to ship, and with its end
-- less than the free space ahead of the newest sample.
pub record Fits (size : ℕ) (m : Mixer) (payload : List ℤ) (timestamp : ℕ) : Type 0 where
  pub not_old : m.read_timestamp ≤ timestamp
  pub not_far : timestamp + length payload < m.read_timestamp + size
  pub no_wrap : timestamp + length payload < 2 ^ 32

module _ (size : ℕ) where
  -- The place of a pending sample, seen from the write pointer and from the packet's start.
  behind_write :
      (read write i : ℕ)
      → read < size
      → write < size
      → i < size
      → used_space size write read ≤ i
      → behind size write (add_offset size read i) ≡ i - used_space size write read
  unfolding behind add_offset used_space
  behind_write read write i h k l u = ground arith

  behind_write_past :
      (read write i : ℕ)
      → read < size
      → write < size
      → i < used_space size write read
      → behind size write (add_offset size read i) ≡ size + i - used_space size write read
  unfolding behind add_offset used_space
  behind_write_past read write i h k u = ground arith

  write_silence-IsSound :
      (m : Mixer) (end : ℕ)
      → IsSound size m
      → end < m.read_timestamp + size
      → end < 2 ^ 32
      → IsSound size (write_silence size m end)
  unfolding write_silence used_space add_offset
  write_silence-IsSound m end s h w = ground (
    arith,
    length-zero_run size (end - m.write_timestamp) m.write_ptr m.buffer,
    advance-add_offset size (end - m.write_timestamp) m.write_ptr,
  )

  -- Silence follows the samples that were pending.
  pending-write_silence :
      (m : Mixer) (end i : ℕ)
      → IsSound size m
      → end < m.read_timestamp + size
      → end < 2 ^ 32
      → i < used size (write_silence size m end)
      → pending size (write_silence size m end) i
        ≡ (if ltb i (used size m) then pending size m i else pos 0)
  unfolding write_silence pending
  pending-write_silence m end i s h w u =
      let after = write_silence-IsSound m end s h w in
      let place = add_offset size m.read_ptr i in
      ground (
        arith,
        after.in_step,
        sample-zero_run size (end - m.write_timestamp) m.write_ptr place m.buffer,
        behind_write m.read_ptr m.write_ptr i,
        behind_write_past m.read_ptr m.write_ptr i,
        add_offset-lt size m.read_ptr i,
      )

  pub write_silence_timestamps :
      (m : Mixer) (end : ℕ)
      → ((write_silence size m end).write_timestamp ≡ max m.write_timestamp end)
        × ((write_silence size m end).read_timestamp ≡ m.read_timestamp)
  unfolding write_silence
  write_silence_timestamps m end = ground arith

  pub mix_packet_pointers :
      (m : Mixer) (payload : List ℤ) (timestamp : ℕ)
      → ((mix_packet size m payload timestamp).write_timestamp ≡ m.write_timestamp)
        × (used size (mix_packet size m payload timestamp) ≡ used size m)
  unfolding mix_packet
  mix_packet_pointers m payload timestamp = ground arith

  pub store-Fits :
      (m : Mixer) (payload : List ℤ) (timestamp : ℕ)
      → IsSound size m
      → Fits size m payload timestamp
      → store_rtp_packet size m payload timestamp
        ≡ mix_packet size (write_silence size m (timestamp + length payload)) payload timestamp
  unfolding store_rtp_packet
  store-Fits m payload timestamp s f = ground arith

  pub used-lt : (m : Mixer) → IsSound size m → used size m < size
  unfolding used_space
  used-lt m s = ground arith

  mix_packet-IsSound :
      (m : Mixer) (payload : List ℤ) (timestamp : ℕ)
      → IsSound size m
      → IsSound size (mix_packet size m payload timestamp)
  unfolding mix_packet
  mix_packet-IsSound m payload timestamp s = ground (
    arith,
    length-mix_run size payload (sub_offset size m.write_ptr (m.write_timestamp - timestamp))
        m.buffer,
  )

  -- The place of a pending sample, seen from where the packet starts.
  behind_packet :
      (read write back i : ℕ)
      → read < size
      → write < size
      → back ≤ used_space size write read
      → i < used_space size write read
      → behind size (sub_offset size write back) (add_offset size read i) ≡ (
          if leb (used_space size write read) (i + back)
          then i + back - used_space size write read
          else size + i + back - used_space size write read)
  unfolding behind add_offset sub_offset used_space
  behind_packet read write back i h k b u = ground arith

  sub_offset-lt : (write back : ℕ) → write < size → back < size → sub_offset size write back < size
  unfolding sub_offset
  sub_offset-lt write back h k = ground arith

  -- The packet is mixed into the samples that its time stamps cover.
  pending-mix_packet :
      (m : Mixer) (payload : List ℤ) (timestamp i : ℕ)
      → IsSound size m
      → m.read_timestamp ≤ timestamp
      → timestamp + length payload ≤ m.write_timestamp
      → used size m < size
      → i < used size m
      → pending size (mix_packet size m payload timestamp) i ≡ (
          if leb timestamp (m.read_timestamp + i)
            && ltb (m.read_timestamp + i) (timestamp + length payload)
          then mix (pending size m i) (sample payload (m.read_timestamp + i - timestamp))
          else pending size m i)
  unfolding mix_packet pending
  pending-mix_packet m payload timestamp i s o e f u =
      let back = m.write_timestamp - timestamp in
      ground (
        arith,
        sample-mix_run size payload (sub_offset size m.write_ptr back)
            (add_offset size m.read_ptr i) m.buffer,
        behind_packet m.read_ptr m.write_ptr back i,
        add_offset-lt size m.read_ptr i,
        sub_offset-lt m.write_ptr back,
      )

-- The sample that was pending, or the silence that follows the last one.
abbrev pub or_silence : ℕ → Mixer → ℕ → ℤ
or_silence size m i = if ltb i (used size m) then pending size m i else pos 0

abbrev pub covers : ℕ → List ℤ → ℕ → Bool
covers timestamp payload t = leb timestamp t && ltb t (timestamp + length payload)

-- A packet that fits is stored: the state stays sound, the window reaches to the packet's end if that
-- lies ahead, and each pending sample that the packet's time stamps cover is the saturated sum of
-- the packet's sample and what was there, silence behind the last one; the others are unchanged.
pub store_rtp_packet-mixes :
    (size : ℕ) (m : Mixer) (payload : List ℤ) (timestamp : ℕ)
    → IsSound size m
    → Fits size m payload timestamp
    → IsSound size (store_rtp_packet size m payload timestamp)
      × ((store_rtp_packet size m payload timestamp).write_timestamp
          ≡ max m.write_timestamp (timestamp + length payload))
      × ((i : ℕ)
          → i < used size (store_rtp_packet size m payload timestamp)
          → pending size (store_rtp_packet size m payload timestamp) i ≡ (
              if covers timestamp payload (m.read_timestamp + i)
              then mix (or_silence size m i) (sample payload (m.read_timestamp + i - timestamp))
              else or_silence size m i))
store_rtp_packet-mixes size m payload timestamp s f =
    let end = timestamp + length payload in
    let silent = write_silence size m end in
    let t = write_silence_timestamps size m end in
    let sound = write_silence-IsSound size m end s f.not_far f.no_wrap in
    let kept = mix_packet_pointers size silent payload timestamp in
    rw (store-Fits size m payload timestamp s f) (
      mix_packet-IsSound size silent payload timestamp sound,
      kept.0 ∙ t.0,
      (λ i u.
          let v : i < used size silent = omega (arith, kept.1) in
          pending-mix_packet size silent payload timestamp i sound (omega arith) (omega arith)
            (used-lt size silent sound) v
          ∙ rw (pending-write_silence size m end i s f.not_far f.no_wrap v, t.1)),
    )
