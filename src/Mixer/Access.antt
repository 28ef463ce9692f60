-- ===== src/Mixer/Access.antt =====
-- The places of the buffer that `StoreRtpPacket` and `CreateShipment` of RtpMixer.cpp read and write.
-- The functions of Mixer.Store and Mixer.Shipment leave a place outside of the buffer alone; the tests
-- here follow the same steps and tell whether each place that is touched is inside.
use orekacxx.Common.{
  ℕ, zero, suc, ◌+◌, ◌-◌, ◌≤◌, ◌<◌, ◌^◌, ◌≡◌, refl, Bool, true, ◌&&◌, ◌||◌, not, List, length, leb,
  ltb, ◌==◌, if◌then◌else◌, arith, Bool-cases, inl, inr,
}
use orekacxx.Common.Int.{ℤ}
use orekacxx.Mixer.Ring.{next, sub_offset, advance}
use orekacxx.Mixer.Ring.Laws.{next-lt, length-zero_run}
use orekacxx.Mixer.State.{Mixer, IsSound}
use orekacxx.Mixer.Store.{write_silence}
use orekacxx.Mixer.Shipment.{stop_ptr}

-- Of a loop of `n` rounds from `ptr` on, in a buffer of `len` places.
unfoldable pub run_inside : ℕ → ℕ → ℕ → ℕ → Bool
run_inside size len ptr zero = true
run_inside size len ptr (suc n) = ltb ptr len && run_inside size len (next size ptr) n

-- Does `CicularPointerSubtractOffset` stay behind the start of the buffer?
unfoldable pub sub_inside : ℕ → ℕ → ℕ → Bool
sub_inside size ptr offset = leb offset (size + ptr)

-- Of `StoreRtpPacket`: the loop that writes silence, the pointer where the packet starts, and the loop
-- that mixes it in.
unfoldable pub store_inside : ℕ → Mixer → List ℤ → ℕ → Bool
store_inside size m payload timestamp =
    let end = timestamp + length payload in
    let w = write_silence size m end in
    let back = w.write_timestamp - timestamp in
    leb (2 ^ 32) end
    || leb (m.write_timestamp + size) end
    || run_inside size (length m.buffer) m.write_ptr (end - m.write_timestamp)
      && (ltb w.write_timestamp timestamp
          || leb (timestamp + size) w.write_timestamp
          || sub_inside size w.write_ptr back
            && run_inside size (length w.buffer) (sub_offset size w.write_ptr back)
                (length payload))

-- Of one chunk of `n` samples that is copied from `ptr` on.
unfoldable pub ship_inside : Mixer → ℕ → ℕ → Bool
ship_inside m ptr n = leb (ptr + n) (length m.buffer)

-- Of `CreateShipment`: the stop pointer, and the one or two pieces that are copied.
unfoldable pub shipment_inside : ℕ → ℕ → Mixer → ℕ → Bool → Bool
shipment_inside size holdoff m silence force =
    let stop = stop_ptr size holdoff m silence force in
    (not (silence == 0) || force || sub_inside size m.write_ptr holdoff)
    && (if ltb stop m.read_ptr
        then leb m.read_ptr size
          && ship_inside m m.read_ptr (size - m.read_ptr)
          && ship_inside m 0 stop
        else ship_inside m m.read_ptr (stop - m.read_ptr))

run_inside_lem : (size ptr n : ℕ) → ptr < size → run_inside size size ptr n ≡ true
unfolding run_inside
run_inside_lem size ptr zero h = refl
run_inside_lem size ptr (suc n) h =
    let rest = run_inside_lem size (next size ptr) n (next-lt size ptr h) in ground (arith, rest)

advance-lt : (size ptr n : ℕ) → ptr < size → advance size ptr n < size
unfolding advance
advance-lt size ptr zero h = h
advance-lt size ptr (suc n) h = advance-lt size (next size ptr) n (next-lt size ptr h)

-- The buffer keeps its length, and the write pointer stays in it.
write_silence-in :
    (size : ℕ) (m : Mixer) (end : ℕ)
    → IsSound size m
    → (length (write_silence size m end).buffer ≡ size)
      × ((write_silence size m end).write_ptr < size)
unfolding write_silence
write_silence-in size m end s = ground (
  arith,
  s.whole,
  s.write_in,
  length-zero_run size (end - m.write_timestamp) m.write_ptr m.buffer,
  advance-lt size m.write_ptr (end - m.write_timestamp) s.write_in,
)

sub_offset-in :
    (size ptr offset : ℕ)
    → ptr < size
    → offset ≤ size
    → (sub_inside size ptr offset ≡ true) × (sub_offset size ptr offset < size)
unfolding sub_inside sub_offset
sub_offset-in size ptr offset h k = (ground arith, ground arith)

store_inside_lem :
    (size : ℕ) (m : Mixer) (payload : List ℤ) (timestamp : ℕ)
    → IsSound size m
    → store_inside size m payload timestamp ≡ true
unfolding store_inside
store_inside_lem size m payload timestamp s =
    let end = timestamp + length payload in
    let (whole, inside) = write_silence-in size m end s in
    let w = write_silence size m end in
    let back = w.write_timestamp - timestamp in
    let silence = run_inside_lem size m.write_ptr (end - m.write_timestamp) s.write_in in
    elim (Bool-cases (leb (timestamp + size) w.write_timestamp)) [
      | inl far ↦ rw (s.whole, silence, far) (ground arith)
      | inr near ↦
          let (first, start) = sub_offset-in size w.write_ptr back inside (ground (arith, near)) in
          let mixed =
            run_inside_lem size (sub_offset size w.write_ptr back) (length payload) start in
          rw (s.whole, whole, silence, first, mixed) (ground arith)
    ]

stop_ptr-in :
    (size holdoff : ℕ) (m : Mixer) (silence : ℕ) (force : Bool)
    → IsSound size m
    → holdoff ≤ size
    → stop_ptr size holdoff m silence force < size
unfolding stop_ptr
stop_ptr-in size holdoff m silence force s h =
    ground (arith, s.write_in, (sub_offset-in size m.write_ptr holdoff s.write_in h).1)

shipment_inside_lem :
    (size holdoff : ℕ) (m : Mixer) (silence : ℕ) (force : Bool)
    → IsSound size m
    → holdoff ≤ size
    → shipment_inside size holdoff m silence force ≡ true
unfolding shipment_inside ship_inside
shipment_inside_lem size holdoff m silence force s h = ground (
  arith,
  s.whole,
  s.read_in,
  stop_ptr-in size holdoff m silence force s h,
  (sub_offset-in size m.write_ptr holdoff s.write_in h).0,
)

-- In a sound state no packet makes `StoreRtpPacket`, and no silence and no force makes `CreateShipment`,
-- touch a place outside of the buffer. The holdoff is at most the size of the buffer.
pub store_inside-shipment_inside :
    (size holdoff : ℕ) (m : Mixer)
    → IsSound size m
    → holdoff ≤ size
    → (payload : List ℤ) (timestamp silence : ℕ) (force : Bool)
    → (store_inside size m payload timestamp ≡ true)
      × (shipment_inside size holdoff m silence force ≡ true)
store_inside-shipment_inside size holdoff m s h payload timestamp silence force = (
  store_inside_lem size m payload timestamp s,
  shipment_inside_lem size holdoff m silence force s h,
)
