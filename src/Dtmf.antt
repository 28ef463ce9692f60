-- ===== src/Dtmf.antt =====
-- orkaudio/audiocaptureplugins/common/DtmfHandling.cpp: the digits that a caller presses, as RTP event
-- packets bring them, and the recording on demand that they start and pause.
pub mod Digits
pub mod Commands
pub mod Events
use orekacxx.Common.{
  ℕ, ◌+◌, ◌*◌, ◌/◌, ◌%◌, ◌^◌, Bool, true, false, not, ◌&&◌, ◌||◌, List, [], ◌∷◌, ◌++◌, Option, none,
  some, length, ltb, ◌==◌, if◌then◌else◌, get_or,
}
use orekacxx.Serializers.Chars.{codes, str_eq}

-- `DtmfDigitToString`. An unsigned number stands for the `int`; what is not a digit is unknown.
unfoldable pub dtmf_digit_to_string : ℕ → List ℕ
dtmf_digit_to_string e =
    if ltb e 10
    then (48 + e) ∷ []
    else if e == 10
    then codes "*"
    else if e == 11
    then codes "#"
    else codes "unknown"

abbrev pub unknown_digit : ℕ
unknown_digit = 12

-- The tests of `DtmfDigitToEnum`, in their order; `same` is the string class's CompareNoCase.
unfoldable pub first_same : (List ℕ → List ℕ → Bool) → List ℕ → List (List ℕ × ℕ) → ℕ
first_same same msg [] = unknown_digit
first_same same msg ((s, e) ∷ rest) = if same msg s then e else first_same same msg rest

abbrev pub digit_names : List (List ℕ × ℕ)
digit_names =
    (codes "0", 0)
    ∷ (codes "1", 1)
    ∷ (codes "2", 2)
    ∷ (codes "3", 3)
    ∷ (codes "4", 4)
    ∷ (codes "5", 5)
    ∷ (codes "6", 6)
    ∷ (codes "7", 7)
    ∷ (codes "8", 8)
    ∷ (codes "9", 9)
    ∷ (codes "*", 10)
    ∷ (codes "#", 11)
    ∷ []

unfoldable pub dtmf_digit_to_enum : (List ℕ → List ℕ → Bool) → List ℕ → ℕ
unfolding first_same
dtmf_digit_to_enum same msg = first_same same msg digit_names

-- What the configuration says of digits.
pub record Config : Type 0 where
  pub on_demand_digits : List ℕ
  pub pause_digits : List ℕ
  pub report_full_string : Bool
  pub reporting_detailed : Bool

-- The events that are reported for a digit, by their keys; `offset` is in milliseconds.
pub data Report : Type 0 where
  rtp_dtmf_event : (event timestamp duration volume seqno offset channel : ℕ) → Report
  dtmf_string : List ℕ → ℕ → Report
  dtmf_digit : List ℕ → ℕ → Report
  dtmf_digit_detailed : List ℕ → (volume duration channel offset : ℕ) → Report

-- What `OrkSession` keeps of it: `triggers` counts the calls of TriggerOnDemandViaDtmf, and `reports`
-- holds what the capture event call-back was given.
pub record Session : Type 0 where
  pub digits : List ℕ
  pub on_demand : Bool
  pub keep_rtp : Bool
  pub current_event_ts : ℕ
  pub triggers : ℕ
  pub reports : List Report

unfoldable pub starts_with : List ℕ → List ℕ → Bool
starts_with [] s = true
starts_with (p ∷ ps) [] = false
starts_with (p ∷ ps) (c ∷ cs) = p == c && starts_with ps cs

-- `find` of a text, told from `npos`.
unfoldable pub contains_text : List ℕ → List ℕ → Bool
unfolding starts_with
contains_text p [] = starts_with p []
contains_text p (c ∷ cs) = starts_with p (c ∷ cs) || contains_text p cs

abbrev pub is_empty : List ℕ → Bool
is_empty [] = true
is_empty (c ∷ cs) = false

abbrev pub completes : List ℕ → List ℕ → Bool
completes command digits = not (is_empty command) && contains_text command digits

-- The state number that the source switches on.
abbrev pub current_state : Session → ℕ
current_state s = (if s.on_demand then 10 else 0) + (if s.keep_rtp then 1 else 0)

abbrev pub go_on_demand : Session → Session
go_on_demand s = record s { on_demand = true; keep_rtp = true; triggers = s.triggers + 1 }

-- The switch, for the two commands that are left.
unfoldable pub switch_state : Session → Bool → Bool → Session
switch_state s command pause =
    let state = current_state s in
    if state == 0
    then (if command then go_on_demand s else s)
    else if state == 1
    then (if command
        then go_on_demand s
        else if pause
        then record s { on_demand = false; keep_rtp = false }
        else s)
    else if state == 10
    then (if command then go_on_demand s else s)
    else if state == 11
    then (if pause then record s { on_demand = true; keep_rtp = false } else s)
    else s

-- The commands in the digits so far, when recording on demand by digits is configured. Where both
-- commands are the same text, the state tells which is meant.
unfoldable pub on_demand_commands : Config → Session → Session
on_demand_commands c s =
    let command = completes c.on_demand_digits s.digits in
    let pause = completes c.pause_digits s.digits in
    let s' = if command || pause then record s { digits = [] } else s in
    let both = str_eq c.pause_digits c.on_demand_digits && command in
    if is_empty c.on_demand_digits
    then s
    else if both
    then switch_state s' (not s.keep_rtp) (s.keep_rtp && pause)
    else switch_state s' command pause

-- The text of digits starts anew behind 100 characters.
unfoldable pub add_digit : Session → List ℕ → Session
add_digit s digit = record s {
  digits = (if ltb 100 (length s.digits) then [] else s.digits) ++ digit;
}

-- A digit with the numbers of its packet.
pub record Digit : Type 0 where
  pub value : List ℕ
  pub duration : ℕ
  pub volume : ℕ
  pub timestamp : ℕ
  pub seqno : ℕ
  pub channel : ℕ

unfoldable pub reports_of : (List ℕ → List ℕ → Bool) → Config → Session → Digit → ℕ → List Report
reports_of same c s d offset =
    let detail =
      rtp_dtmf_event (dtmf_digit_to_enum same d.value) d.timestamp d.duration d.volume d.seqno
        offset d.channel in
    (if c.reporting_detailed then detail ∷ [] else [])
    ++ ((if c.report_full_string then dtmf_string s.digits offset ∷ [] else [])
        ++ (if c.reporting_detailed
            then dtmf_digit_detailed d.value d.volume d.duration d.channel offset
            else dtmf_digit d.value offset)
          ∷ [])

-- `seconds` is the age of the session.
unfoldable pub report_dtmf_digit : (List ℕ → List ℕ → Bool) → Config → ℕ → Session → Digit → Session
report_dtmf_digit same c seconds s d =
    let s' = on_demand_commands c (add_digit s d.value) in
    record s' { reports = s'.reports ++ reports_of same c s' d (seconds * 1000) }

-- An RTP event packet: its payload's bytes, with the numbers of the packet.
pub record EventPacket : Type 0 where
  pub payload : List ℕ
  pub timestamp : ℕ
  pub seqno : ℕ
  pub channel : ℕ

-- The bits 0x80 and 0x3F of `er_volume`.
abbrev pub is_end : List ℕ → Bool
is_end payload = get_or payload 1 0 / 128 % 2 == 1

abbrev pub digit_in : EventPacket → Digit
digit_in p = record {
  value = dtmf_digit_to_string (get_or p.payload 0 0);
  duration = get_or p.payload 2 0 * 256 + get_or p.payload 3 0;
  volume = get_or p.payload 1 0 % 64;
  timestamp = p.timestamp;
  seqno = p.seqno;
  channel = p.channel;
}

-- A digit is reported with the first of its packets that has the end bit.
unfoldable pub handle_rtp_event :
    (List ℕ → List ℕ → Bool) → Config → ℕ → Session → EventPacket → Session
handle_rtp_event same c seconds s p =
    if ltb (length p.payload) 4
    then s
    else if not (s.current_event_ts == p.timestamp) && is_end p.payload
    then report_dtmf_digit same c seconds (record s { current_event_ts = p.timestamp }) (digit_in p)
    else s
