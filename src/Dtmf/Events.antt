-- ===== src/Dtmf/Events.antt =====
-- What a run of RTP event packets makes of a session.
use orekacxx.Common.{
  ℕ, ◌+◌, ◌≤◌, ◌≡◌, ◌≢◌, refl, ◌∙◌, Bool, true, false, not, ◌&&◌, ◌||◌, List, [], ◌∷◌, Option, none,
  some, All, arith, All-map, sym, length, length-append, ltb, ◌==◌, inl, inr, Bool-cases,
  if◌then◌else◌, get_or,
}
use orekacxx.Dtmf.{
  Config, Session, EventPacket, Digit, digit_in, is_end, add_digit, on_demand_commands,
  switch_state, completes, dtmf_digit_to_string, report_dtmf_digit, handle_rtp_event,
}

-- The packets of a session, in the order in which they come.
unfoldable pub handle_all :
    (List ℕ → List ℕ → Bool) → Config → ℕ → Session → List EventPacket → Session
handle_all same c seconds s [] = s
handle_all same c seconds s (p ∷ ps) =
    handle_all same c seconds (handle_rtp_event same c seconds s p) ps

-- A whole packet with the end bit.
abbrev pub ends : EventPacket → Bool
ends p = not (ltb (length p.payload) 4) && is_end p.payload

abbrev pub first_end : List EventPacket → Option EventPacket
first_end [] = none
first_end (p ∷ ps) = if ends p then some p else first_end ps

module _ (same : List ℕ → List ℕ → Bool) (c : Config) (seconds : ℕ) where
  switch_state-kept :
      (s : Session) (command pause : Bool)
      → ((switch_state s command pause).current_event_ts ≡ s.current_event_ts)
        × ((switch_state s command pause).digits ≡ s.digits)
  unfolding switch_state
  switch_state-kept s command pause = ground arith

  -- The commands leave the time stamp alone, and only shorten the digits.
  on_demand_commands-kept :
      (s : Session)
      → ((on_demand_commands c s).current_event_ts ≡ s.current_event_ts)
        × (length (on_demand_commands c s).digits ≤ length s.digits)
  unfolding on_demand_commands
  on_demand_commands-kept s =
      let command = completes c.on_demand_digits s.digits in
      let pause = completes c.pause_digits s.digits in
      let cleared : Session = if command || pause then record s { digits = [] } else s in
      ground (
        arith,
        switch_state-kept cleared (not s.keep_rtp) (s.keep_rtp && pause),
        switch_state-kept cleared command pause,
      )

  report_dtmf_digit-kept :
      (s : Session) (d : Digit)
      → ((report_dtmf_digit same c seconds s d).current_event_ts ≡ s.current_event_ts)
        × (length (report_dtmf_digit same c seconds s d).digits ≤ 100 + length d.value)
  unfolding report_dtmf_digit add_digit
  report_dtmf_digit-kept s d =
      ground (arith, on_demand_commands-kept (add_digit s d.value), length-append s.digits d.value)

  -- A packet that has ended a digit leaves its time stamp.
  handle_rtp_event-ts :
      (s : Session) (p : EventPacket)
      → s.current_event_ts ≢ p.timestamp
      → ends p ≡ true
      → (handle_rtp_event same c seconds s p).current_event_ts ≡ p.timestamp
  unfolding handle_rtp_event
  handle_rtp_event-ts s p n e =
      ground
        (arith, report_dtmf_digit-kept (record s { current_event_ts = p.timestamp }) (digit_in p))

  handle_rtp_event-other :
      (s : Session) (p : EventPacket)
      → (ends p && not (s.current_event_ts == p.timestamp)) ≡ false
      → handle_rtp_event same c seconds s p ≡ s
  unfolding handle_rtp_event
  handle_rtp_event-other s p e = ground arith

  handle_all-seen :
      (s : Session) (ps : List EventPacket)
      → All (λ p. p.timestamp ≡ s.current_event_ts) ps
      → handle_all same c seconds s ps ≡ s
  unfolding handle_all
  handle_all-seen s [] a = refl
  handle_all-seen s (p ∷ ps) a =
      rw (handle_rtp_event-other s p (ground arith)) (handle_all-seen s ps a.1)

length-dtmf_digit_to_string : (e : ℕ) → length (dtmf_digit_to_string e) ≤ 7
unfolding dtmf_digit_to_string
length-dtmf_digit_to_string e = ground arith

-- The packets of one digit carry one time stamp, new to the session: however many of them come, and
-- in whatever order, what they do is what the first whole one with the end bit does alone, and they do
-- nothing if there is none.
pub handle_all-once :
    (same : List ℕ → List ℕ → Bool) (c : Config) (seconds : ℕ) (s : Session) (ps : List EventPacket)
    (t : ℕ)
    → s.current_event_ts ≢ t
    → All (λ p. p.timestamp ≡ t) ps
    → handle_all same c seconds s ps
      ≡ (elim (first_end ps) [ none ↦ s | some p ↦ handle_rtp_event same c seconds s p ])
unfolding handle_all
handle_all-once same c seconds s [] t new a = refl
handle_all-once same c seconds s (p ∷ ps) t new a = elim (Bool-cases (ends p)) [
  | inl end ↦ rw end (
      handle_all-seen same c seconds _ ps (
        All-map (λ q e. e ∙ sym (handle_rtp_event-ts same c seconds s p (rw a.0 new) end ∙ a.0)) ps
          a.1))
  | inr more ↦
      rw (more, handle_rtp_event-other same c seconds s p (ground arith))
        (handle_all-once same c seconds s ps t new a.1)
]

-- A telephone-event packet leaves at most 107 characters in the text of digits of a session that had at
-- most 107 before.
pub handle_rtp_event-bound :
    (same : List ℕ → List ℕ → Bool) (c : Config) (seconds : ℕ) (s : Session) (p : EventPacket)
    → length s.digits ≤ 107
    → length (handle_rtp_event same c seconds s p).digits ≤ 107
unfolding handle_rtp_event
handle_rtp_event-bound same c seconds s p h = ground (
  arith,
  report_dtmf_digit-kept same c seconds (record s { current_event_ts = p.timestamp }) (digit_in p),
  length-dtmf_digit_to_string (get_or p.payload 0 0),
)
