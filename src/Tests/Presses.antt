-- ===== src/Tests/Presses.antt =====
-- Digits that a caller presses, for DtmfHandling.cpp.
use orekacxx.Common.{
  ◌+◌, ◌≡◌, ◌≤◌, refl, ◌&&◌, ◌||◌, not, true, false, [], ◌∷◌, none, some, length, arith,
  if◌then◌else◌, ltb,
}
use orekacxx.Serializers.Chars.{codes, str_eq}
use orekacxx.Dtmf.{
  Config, Session, EventPacket, dtmf_digit_to_string, dtmf_digit_to_enum, completes, contains_text,
  starts_with, on_demand_commands, handle_rtp_event,
}
use orekacxx.Dtmf.Digits.{same_but_case, dtmf_digit_to_enum-to_string}
use orekacxx.Dtmf.Commands.{on_demand_commands-record, on_demand_commands-toggle}
use orekacxx.Dtmf.Events.{handle_all, first_end, handle_all-once, handle_rtp_event-bound}

dtmf_digit_to_enum-to_string_example :
    dtmf_digit_to_enum same_but_case (dtmf_digit_to_string 11) ≡ (if ltb 11 12 then 11 else 12)
dtmf_digit_to_enum-to_string_example =
    dtmf_digit_to_enum-to_string same_but_case (λ s t. refl) 11 (omega arith)

abbrev two_commands : Config
two_commands = record {
  on_demand_digits = codes "*1";
  pause_digits = codes "*0";
  report_full_string = true;
  reporting_detailed = false;
}

abbrev one_command : Config
one_command = record two_commands { pause_digits = codes "*1" }

abbrev pressed : Session
pressed = record {
  digits = codes "5*1";
  on_demand = false;
  keep_rtp = false;
  current_event_ts = 0;
  triggers = 0;
  reports = [];
}

two_commands_differ : str_eq two_commands.pause_digits two_commands.on_demand_digits ≡ false
unfolding str_eq
two_commands_differ = refl

pressed_completes : completes one_command.on_demand_digits pressed.digits ≡ true
unfolding contains_text starts_with
pressed_completes = refl

on_demand_commands-record_example :
    let command = completes two_commands.on_demand_digits pressed.digits in
    let pause = completes two_commands.pause_digits pressed.digits in
    let s' = on_demand_commands two_commands pressed in
    (s'.on_demand ≡ (pressed.on_demand || command))
    × (s'.keep_rtp ≡ (
        if pressed.on_demand && pressed.keep_rtp
        then not pause
        else if command
        then true
        else pressed.keep_rtp && not pause))
    × (s'.triggers
        ≡ pressed.triggers
          + (if command && not (pressed.on_demand && pressed.keep_rtp) then 1 else 0))
    × (s'.digits ≡ (if command || pause then [] else pressed.digits))
on_demand_commands-record_example =
    on_demand_commands-record two_commands pressed refl two_commands_differ

on_demand_commands-toggle_example :
    ((on_demand_commands one_command pressed).keep_rtp ≡ not pressed.keep_rtp)
    × ((on_demand_commands one_command pressed).triggers
        ≡ pressed.triggers + (if pressed.keep_rtp then 0 else 1))
    × ((on_demand_commands one_command pressed).digits ≡ [])
on_demand_commands-toggle_example =
    on_demand_commands-toggle one_command pressed refl refl pressed_completes

-- The digit 1 with the end bit, and before it without.
abbrev last_packet : EventPacket
last_packet = record { payload = 1 ∷ 138 ∷ 0 ∷ 160 ∷ []; timestamp = 900; seqno = 8; channel = 1 }

abbrev first_packet : EventPacket
first_packet = record last_packet { payload = 1 ∷ 10 ∷ 0 ∷ 80 ∷ []; seqno = 7 }

handle_all-once_example :
    handle_all same_but_case two_commands 3 pressed (first_packet ∷ last_packet ∷ last_packet ∷ [])
    ≡ (elim (first_end (first_packet ∷ last_packet ∷ last_packet ∷ [])) [
      | none ↦ pressed
      | some p ↦ handle_rtp_event same_but_case two_commands 3 pressed p
    ])
handle_all-once_example =
    handle_all-once same_but_case two_commands 3 pressed
      (first_packet ∷ last_packet ∷ last_packet ∷ []) 900 (omega arith) (refl, (refl, (refl, tt)))

handle_rtp_event-bound_example :
    length (handle_rtp_event same_but_case two_commands 3 pressed last_packet).digits ≤ 107
handle_rtp_event-bound_example =
    handle_rtp_event-bound same_but_case two_commands 3 pressed last_packet (omega arith)
