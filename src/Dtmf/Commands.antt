-- ===== src/Dtmf/Commands.antt =====
-- What the digits of a caller do to the recording.
use orekacxx.Common.{
  ℕ, ◌+◌, ◌≡◌, refl, Bool, true, false, not, ◌&&◌, ◌||◌, List, [], ◌∷◌, arith, if◌then◌else◌,
}
use orekacxx.Serializers.Chars.{str_eq}
use orekacxx.Dtmf.{Config, Session, is_empty, completes, switch_state, on_demand_commands}

-- What the switch does, without its state numbers: a session that is on demand stays so.
record Switched (s s' : Session) (command pause : Bool) : Type 0 where
  on_demand : s'.on_demand ≡ (s.on_demand || command)
  keep_rtp : s'.keep_rtp ≡ (
      if s.on_demand && s.keep_rtp
      then not pause
      else if command
      then true
      else s.keep_rtp && not pause)
  triggers :
      s'.triggers ≡ s.triggers + (if command && not (s.on_demand && s.keep_rtp) then 1 else 0)
  digits : s'.digits ≡ s.digits

switch_state-Switched :
    (s : Session) (command pause : Bool) → Switched s (switch_state s command pause) command pause
unfolding switch_state
switch_state-Switched s command pause = ground arith

str_eq_refl : (s : List ℕ) → str_eq s s ≡ true
unfolding str_eq
str_eq_refl [] = refl
str_eq_refl (c ∷ cs) = ground (arith, str_eq_refl cs)

str_eq_of_eq : (s t : List ℕ) → s ≡ t → str_eq s t ≡ true
str_eq_of_eq s t e = rw e (str_eq_refl t)

after_switch :
    (s cleared : Session) (command pause anew : Bool)
    → cleared ≡ (if anew then record s { digits = [] } else s)
    → let s' = switch_state cleared command pause in
      (s'.on_demand ≡ (s.on_demand || command))
      × (s'.keep_rtp ≡ (
          if s.on_demand && s.keep_rtp
          then not pause
          else if command
          then true
          else s.keep_rtp && not pause))
      × (s'.triggers ≡ s.triggers + (if command && not (s.on_demand && s.keep_rtp) then 1 else 0))
      × (s'.digits ≡ (if anew then [] else s.digits))
after_switch s cleared command pause true e =
    let w = switch_state-Switched cleared command pause in ground arith
after_switch s cleared command pause false e =
    let w = switch_state-Switched cleared command pause in ground arith

-- Where the two commands are different texts and recording on demand is configured, the session is
-- on demand from the first on-demand command on, recording starts with it, a pause command ends it
-- unless it comes with an on-demand command that starts it, and the digits start anew behind either.
pub on_demand_commands-record :
    (c : Config) (s : Session)
    → is_empty c.on_demand_digits ≡ false
    → str_eq c.pause_digits c.on_demand_digits ≡ false
    → let command = completes c.on_demand_digits s.digits in
      let pause = completes c.pause_digits s.digits in
      let s' = on_demand_commands c s in
      (s'.on_demand ≡ (s.on_demand || command))
      × (s'.keep_rtp ≡ (
          if s.on_demand && s.keep_rtp
          then not pause
          else if command
          then true
          else s.keep_rtp && not pause))
      × (s'.triggers ≡ s.triggers + (if command && not (s.on_demand && s.keep_rtp) then 1 else 0))
      × (s'.digits ≡ (if command || pause then [] else s.digits))
unfolding on_demand_commands
on_demand_commands-record c s e d =
    let command = completes c.on_demand_digits s.digits in
    let pause = completes c.pause_digits s.digits in
    let cleared : Session = if command || pause then record s { digits = [] } else s in
    let step : on_demand_commands c s ≡ switch_state cleared command pause = rw (e, d) in
    rw step (after_switch s cleared command pause (command || pause) refl)

-- Where the two commands are one text, completing it turns recording on if it is off, and off if it is
-- on, with one trigger where it turns on.
pub on_demand_commands-toggle :
    (c : Config) (s : Session)
    → is_empty c.on_demand_digits ≡ false
    → c.pause_digits ≡ c.on_demand_digits
    → completes c.on_demand_digits s.digits ≡ true
    → ((on_demand_commands c s).keep_rtp ≡ not s.keep_rtp)
      × ((on_demand_commands c s).triggers ≡ s.triggers + (if s.keep_rtp then 0 else 1))
      × ((on_demand_commands c s).digits ≡ [])
unfolding on_demand_commands
on_demand_commands-toggle c s e same h =
    let pause : completes c.pause_digits s.digits ≡ true = rw (same) h in
    let step : on_demand_commands c s
        ≡ switch_state (record s { digits = [] }) (not s.keep_rtp) (s.keep_rtp && true) =
      ground (arith, str_eq_of_eq c.pause_digits c.on_demand_digits same) in
    let w =
      switch_state-Switched (record s { digits = [] }) (not s.keep_rtp) (s.keep_rtp && true) in
    rw step (ground arith, ground arith, w.digits)
