-- ===== src/Mixer/Shipment/Oldest.antt =====
-- `CreateShipment` of RtpMixer.cpp takes the oldest pending samples, in their order, and no others.
use orekacxx.Common.{
  ℕ, ◌+◌, ◌-◌, ◌≤◌, ◌<◌, ◌≡◌, ap, ◌∙◌, true, false, List, ◌++◌, length, arith, if◌then◌else◌,
}
use orekacxx.Common.{Bool}
use orekacxx.Common.Int.{ℤ}
use orekacxx.Mixer.Ring.{add_offset, sub_offset, used_space, sample}
use orekacxx.Mixer.State.{Mixer, used, IsSound, pending}
use orekacxx.Mixer.Store.Laws.{used-lt}
use orekacxx.Mixer.Shipment.{ship_silence, stop_ptr, ship_until, create_shipment}
use orekacxx.Mixer.Shipment.Laws.{
  samples, shipped, ship_until-samples, length-shipped, sample-shipped, ship_until-Moved,
}

module _ (size : ℕ) (bound : size ≤ 50000) where
  stop_ptr-used :
      (holdoff : ℕ) (m : Mixer) (force : Bool)
      → IsSound size m
      → (if force then 0 else holdoff) ≤ used size m
      → (stop_ptr size holdoff m 0 force < size)
        × (used_space size (stop_ptr size holdoff m 0 force) m.read_ptr
            ≡ used size m - (if force then 0 else holdoff))
  unfolding stop_ptr sub_offset used_space
  stop_ptr-used holdoff m true s h = ground arith
  stop_ptr-used holdoff m false s h = ground arith

  ship_until-rest :
      (m m' : Mixer) (n i : ℕ)
      → m'.buffer ≡ m.buffer
      → m'.read_ptr ≡ add_offset size m.read_ptr n
      → m.read_ptr < size
      → n + i < size
      → pending size m' i ≡ pending size m (n + i)
  unfolding pending add_offset
  ship_until-rest m m' n i b r h k = rw (b, r) (ground arith)

-- What a shipment of `n` samples does: they go to the queue in their order, each of them once, and
-- the samples behind them are the ones that are pending now.
pub record IsShipped (size : ℕ) (m m' : Mixer) (n : ℕ) : Type 0 where
  pub put_out : List ℤ
  pub queued : samples m'.output_queue ≡ samples m.output_queue ++ put_out
  pub number : length put_out ≡ n
  pub in_order : (i : ℕ) → i < n → sample put_out i ≡ pending size m i
  pub sound : IsSound size m'
  pub clock : m'.read_timestamp ≡ m.read_timestamp + n
  pub unshipped : used size m' ≡ used size m - n
  pub rest : (i : ℕ) → i < used size m' → pending size m' i ≡ pending size m (n + i)
  pub no_error : m'.error ≡ m.error

module _ (size : ℕ) (bound : size ≤ 50000) where
  used_space_rest :
      (write stop read : ℕ)
      → write < size
      → stop < size
      → read < size
      → used_space size stop read ≤ used_space size write read
      → used_space size write stop ≡ used_space size write read - used_space size stop read
  unfolding used_space
  used_space_rest write stop read h k l u = ground arith

  add_offset-used_space :
      (stop read : ℕ)
      → stop < size
      → read < size
      → stop ≡ add_offset size read (used_space size stop read)
  unfolding used_space add_offset
  add_offset-used_space stop read k l = ground arith

  ship_until-IsShipped :
      (m : Mixer) (stop n : ℕ)
      → IsSound size m
      → stop < size
      → used_space size stop m.read_ptr ≡ n
      → n ≤ used size m
      → IsShipped size m (ship_until size m stop) n
  ship_until-IsShipped m stop n s h e k =
      let moved = ship_until-Moved size bound m stop s h (omega (arith, e)) in
      let left : used size (ship_until size m stop) ≡ used size m - n =
        rw (moved.0, moved.2)
          (used_space_rest m.write_ptr stop m.read_ptr s.write_in h s.read_in (omega (arith, e))
            ∙ ap (λ x. used size m - x) e) in
      record {
        put_out = shipped size m stop;
        queued = ship_until-samples size bound m stop s h;
        number = length-shipped size bound m stop s h ∙ e;
        in_order = λ i l. sample-shipped size bound m stop i s h (omega (arith, e));
        sound = record {
          whole = ap (λ b. length b) moved.4 ∙ s.whole;
          write_in = rw moved.2 s.write_in;
          read_in = rw moved.0 h;
          in_step = omega (arith, moved.1, moved.3, left, e);
          word = rw moved.3 s.word;
        };
        clock = moved.1 ∙ ap (λ x. m.read_timestamp + x) e;
        unshipped = left;
        rest = λ i l.
            ship_until-rest size bound m (ship_until size m stop) n i moved.4
              (moved.0
                ∙ add_offset-used_space stop m.read_ptr h s.read_in
                ∙ ap (λ x. add_offset size m.read_ptr x) e)
              s.read_in (omega (arith, left, used-lt size m s));
        no_error = moved.5;
      }

-- Without silence to append, `CreateShipment` ships the oldest samples, all but the holdoff, and all
-- of them when it is forced: they are appended to the queue in their order, and the state stays
-- sound with the other samples pending as before. At least the holdoff is pending, or the shipment is
-- forced.
pub create_shipment-oldest :
    (size : ℕ) (holdoff : ℕ) (m : Mixer) (force : Bool)
    → size ≤ 50000
    → IsSound size m
    → (if force then 0 else holdoff) ≤ used size m
    → IsShipped size m
        (create_shipment size holdoff m 0 force)
        (used size m - (if force then 0 else holdoff))
unfolding create_shipment ship_silence
create_shipment-oldest size holdoff m force bound s h =
    let at = stop_ptr-used size bound holdoff m force s h in
    ship_until-IsShipped size bound m (stop_ptr size holdoff m 0 force)
      (used size m - (if force then 0 else holdoff)) s at.0 at.1 (omega arith)
