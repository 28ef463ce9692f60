-- ===== src/Tests/Calls.antt =====
-- Calls of the sessions of voice over IP, and the theorems about them at these.
use orekacxx.Common.{
  ℕ, ◌+◌, ◌*◌, ◌-◌, ◌≡◌, refl, true, false, List, [], ◌∷◌, none, some, ltb, length, if◌then◌else◌,
  ◌||◌, ◌∙◌, if_true, ◌&&◌,
}
use orekacxx.Common.Int.{pos}
use orekacxx.Serializers.Chars.{codes, str_eq, contains}
use orekacxx.Dtmf.Digits.{same_but_case}
use orekacxx.Voip.OrderedMap.{find, by_number, by_text, insert, place, values}
use orekacxx.Voip.Session.{
  Env, VoIpSession, SipInvite, prot_unkn, local_side_unkn, dir_unkn, construct, is_raw_rtp, is_sip,
  is_skinny,
}
use orekacxx.Voip.Commands.{next_counter, create}
use orekacxx.Voip.Tables.{
  VoIpSessions, sessions_init, modify, report, call, craft_64bit_media_address,
  find_by_media_address, get_local_party_map,
}
use orekacxx.Voip.Stops.{
  stop, hoover, is_over_on_address, is_over_on_call, map_address, is_accepted, set_media_address,
  gives_way, signalling_time_out, remove_from_media_address_map,
}
use orekacxx.Voip.Invites.{
  report_sip_invite, self_call, note_remote_party, note_invite, note_fields, note_demand, add_tags,
  asks_on_demand, take_invite, is_first, session_report_sip_invite, try_session_call_pick_up,
  rtp_port_as_int, as_int, from_word, as_short, rtp_port, invite_address, set_both, gather,
  announced, with_notify, create_sip, enter_call, invite_new, invite_by_call,
}
use orekacxx.Voip.Signalling.{SipByeInfo, report_sip_bye}
use orekacxx.Voip.Tracked.{tracked}
use orekacxx.Voip.Valid.{IsValid}
use orekacxx.Voip.Valid.Stopped.{stop-forgets, other_than}
use orekacxx.Voip.Valid.Expired.{hoover-rests}
use orekacxx.Voip.Valid.Called.{no_other_has, hoover-calls}
use orekacxx.Voip.Signalling.Reached.{
  Reached, begins, goes_on, sip_invite, sip_bye, changes, Reached-IsValid,
}

-- Decimal digits, read without checks.
abbrev read_number : ℕ → List ℕ → ℕ
read_number n [] = n
read_number n (c ∷ cs) = read_number (n * 10 + (c - 48)) cs

abbrev settings : Env
settings = record {
  compare_no_case = same_but_case;
  track_by_udp_port_only = false;
  blocked = λ a. false;
  allowed = none;
  reference_addresses = λ a. false;
  lan_ip_ranges = λ a. false;
  sip_ignored_addresses = λ a. false;
  allow_multiple_mappings = false;
  skinny_allow_transfer = false;
  sip_allow_transfer = false;
  skinny_behind_nat = false;
  sip_use_200_ok = true;
  sip_dynamic_media_address = true;
  sip_track_on_sender = false;
  dahdi_intercept = false;
  url_extractor_enable = false;
  remote_party_key = [];
  transfer_time_out = 5;
  rtp_timeout = 10;
  on_hold_timeout = 50;
  signalling_timeout = 20;
  initial_timeout = 30;
  look_back_recording = true;
  hold_report_stats = false;
  hold_resume_report = false;
  metadata_use_last_invite = false;
  remote_party_from_200_ok = false;
  invite_can_put_off_hold = false;
  call_pick_up_support = false;
  sip_notify_support = false;
  nec_gateway = λ name. false;
  on_demand_field_name = [];
  on_demand_field_value = [];
  default_event_payload_type = 101;
  strtol = λ text. (pos (read_number 0 text), []);
}

abbrev blank : VoIpSession
blank = record {
  tracking_id = [];
  capture_port = [];
  ork_uid = [];
  call_id = [];
  ip_and_port = 0;
  rtp_ip = 0;
  media_addresses = [];
  protocol = prot_unkn;
  creation_date = 0;
  last_updated = 0;
  invite = none;
  remote_party_nec_sip = [];
  local_party = [];
  remote_party = [];
  local_entry_point = [];
  local_party_name = [];
  remote_party_name = [];
  local_party_reported = false;
  remote_party_reported = false;
  rtcp_local_party = false;
  rtcp_remote_party = false;
  direction = dir_unkn;
  local_side = local_side_unkn;
  num_rtp_packets = 0;
  num_ignored_rtp_packets = 0;
  rtp_num_missing_pkts = 0;
  rtp_num_seq_gaps = 0;
  highest_rtp_seq_num_delta = 0;
  end_point_ip = 0;
  end_point_signalling_port = 0;
  skinny_pass_thru_party_id = 0;
  skinny_line_instance = 0;
  sip_last_invite = 0;
  skinny_last_call_info_time = 0;
  sip_dialed_number = [];
  sip_remote_party = [];
  is_call_pick_up = false;
  metadata_processed = false;
  ssrc_candidate = pos 0;
  started = false;
  stopped = false;
  on_hold = false;
  keep_rtp = false;
  on_demand = false;
  hold_duration = pos 0;
  hold_begin = 0;
  telephone_event_payload_type = 0;
  payload_type_map = [];
  tags = [];
  invites = [];
  local_ip = 0;
  remote_ip = 0;
  last_rtp_packet = none;
  last_rtp_packet_side1 = none;
  last_rtp_packet_side2 = none;
}

abbrev first_invite : SipInvite
first_invite = record {
  sip_method = codes "INVITE";
  from = codes "bob";
  to = codes "eve";
  contact = [];
  call_id = codes "x1";
  replaces_id = [];
  sender_ip = 7;
  original_sender_ip = 7;
  receiver_ip = 8;
  from_rtp_ip = 7;
  from_rtp_port = codes "4000";
  attr_sendonly = false;
  recv_time = 1;
  sip_dialed_number = [];
  sip_remote_party = [];
  telephone_event_payload_type = 0;
  payload_type_map = [];
  extracted_fields = [];
}

abbrev bye : SipByeInfo
bye = record { call_id = codes "x1"; from = codes "bob"; to = codes "eve" }

abbrev no_calls : VoIpSessions
no_calls = sessions_init (λ i. blank) 0

abbrev one_call : VoIpSessions
one_call = report_sip_invite settings 1000000 first_invite no_calls

one_call-Reached : Reached settings one_call
one_call-Reached =
    goes_on 1000000 no_calls one_call (begins (λ i. blank) 0) (sip_invite first_invite)

-- The session after 500 packets of RTP.
abbrev heard : VoIpSession
heard = record (one_call.heap 0) { num_rtp_packets = 500; last_updated = 4 }

abbrev heard_call : VoIpSessions
heard_call = modify 0 (λ r. heard) one_call

heard_call-Reached : Reached settings heard_call
unfolding tracked
heard_call-Reached =
    goes_on 4 one_call heard_call one_call-Reached
      (changes 0 heard (record { media = refl; latest = refl; named = refl }))

abbrev over_call : VoIpSessions
over_call = report_sip_bye settings 5 bye heard_call

Reached-IsValid_example : IsValid settings over_call
Reached-IsValid_example =
    Reached-IsValid settings over_call
      (goes_on 5 heard_call over_call heard_call-Reached (sip_bye bye))

-- The media address 7:4000 as one number.
abbrev address : ℕ
address = 7 * 65536 + 4000

one_call_named : ltb 0 (length (one_call.heap 0).call_id) ≡ true
unfolding find insert place construct is_raw_rtp is_sip is_skinny modify report call
    craft_64bit_media_address find_by_media_address get_local_party_map map_address is_accepted
    set_media_address gives_way next_counter create self_call note_remote_party note_invite
    note_fields note_demand add_tags asks_on_demand take_invite is_first session_report_sip_invite
    try_session_call_pick_up rtp_port_as_int as_int from_word as_short rtp_port invite_address
    set_both gather announced with_notify create_sip enter_call invite_new invite_by_call
    report_sip_invite str_eq
one_call_named = refl

stop-forgets_example :
    (find address (stop settings 5 0 one_call).by_ip_and_port
      ≡ other_than 0 (find address one_call.by_ip_and_port))
    × (find (codes "x1") (stop settings 5 0 one_call).by_call_id ≡ (
        if str_eq (one_call.heap 0).call_id (codes "x1")
        then none
        else find (codes "x1") one_call.by_call_id))
stop-forgets_example =
    stop-forgets settings 5 0 one_call (Reached-IsValid settings one_call one_call-Reached)
      one_call_named address (codes "x1")

one_call_found : find address one_call.by_ip_and_port ≡ some 0
unfolding by_number by_text remove_from_media_address_map find insert place construct is_raw_rtp
    is_sip is_skinny modify report call craft_64bit_media_address find_by_media_address
    get_local_party_map map_address is_accepted set_media_address gives_way next_counter create
    self_call note_remote_party note_invite note_fields note_demand add_tags asks_on_demand
    take_invite is_first session_report_sip_invite try_session_call_pick_up rtp_port_as_int as_int
    from_word as_short rtp_port invite_address set_both gather announced with_notify create_sip
    enter_call invite_new invite_by_call report_sip_invite str_eq
one_call_found = refl

one_call_alike :
    is_over_on_call settings 40 (one_call.heap 0) ≡ is_over_on_address settings 40 (one_call.heap 0)
unfolding by_number by_text remove_from_media_address_map find insert place construct is_raw_rtp
    is_sip is_skinny modify report call craft_64bit_media_address find_by_media_address
    get_local_party_map map_address is_accepted set_media_address gives_way next_counter create
    self_call note_remote_party note_invite note_fields note_demand add_tags asks_on_demand
    take_invite is_first session_report_sip_invite try_session_call_pick_up rtp_port_as_int as_int
    from_word as_short rtp_port invite_address set_both gather announced with_notify create_sip
    enter_call invite_new invite_by_call report_sip_invite str_eq is_over_on_address is_over_on_call
    signalling_time_out
one_call_alike = refl

one_call_called : find (codes "x1") one_call.by_call_id ≡ some 0
unfolding by_number by_text remove_from_media_address_map find insert place construct is_raw_rtp
    is_sip is_skinny modify report call craft_64bit_media_address find_by_media_address
    get_local_party_map map_address is_accepted set_media_address gives_way next_counter create
    self_call note_remote_party note_invite note_fields note_demand add_tags asks_on_demand
    take_invite is_first session_report_sip_invite try_session_call_pick_up rtp_port_as_int as_int
    from_word as_short rtp_port invite_address set_both gather announced with_notify create_sip
    enter_call invite_new invite_by_call report_sip_invite str_eq
one_call_called = refl

one_call_over : is_over_on_address settings 40 (one_call.heap 0) ≡ true
unfolding by_number by_text remove_from_media_address_map find insert place construct is_raw_rtp
    is_sip is_skinny modify report call craft_64bit_media_address find_by_media_address
    get_local_party_map map_address is_accepted set_media_address gives_way next_counter create
    self_call note_remote_party note_invite note_fields note_demand add_tags asks_on_demand
    take_invite is_first session_report_sip_invite try_session_call_pick_up rtp_port_as_int as_int
    from_word as_short rtp_port invite_address set_both gather announced with_notify create_sip
    enter_call invite_new invite_by_call report_sip_invite str_eq is_over_on_address
    signalling_time_out
one_call_over = refl

one_call_alone : no_other_has one_call.heap (codes "x1") 0 (values one_call.by_ip_and_port) ≡ true
unfolding by_number by_text remove_from_media_address_map find insert place construct is_raw_rtp
    is_sip is_skinny modify report call craft_64bit_media_address find_by_media_address
    get_local_party_map map_address is_accepted set_media_address gives_way next_counter create
    self_call note_remote_party note_invite note_fields note_demand add_tags asks_on_demand
    take_invite is_first session_report_sip_invite try_session_call_pick_up rtp_port_as_int as_int
    from_word as_short rtp_port invite_address set_both gather announced with_notify create_sip
    enter_call invite_new invite_by_call report_sip_invite str_eq no_other_has
one_call_alone = refl

-- At 40 the call is over.
hoover-rests_example :
    find address (hoover settings 5 40 one_call).by_ip_and_port
    ≡ (if is_over_on_address settings 40 (one_call.heap 0) then none else some 0)
hoover-rests_example =
    hoover-rests settings 5 40 address 0 one_call
      (Reached-IsValid settings one_call one_call-Reached) one_call_found one_call_alike

one_call_forgotten : find address (hoover settings 5 40 one_call).by_ip_and_port ≡ none
one_call_forgotten =
    hoover-rests settings 5 40 address 0 one_call
      (Reached-IsValid settings one_call one_call-Reached) one_call_found one_call_alike
    ∙ if_true none (some 0) one_call_over

-- At 20 it is not.
hoover-calls_example : find (codes "x1") (hoover settings 5 20 one_call).by_call_id ≡ (
    if is_over_on_call settings 20 (one_call.heap 0)
      || contains 0 (values one_call.by_ip_and_port)
        && is_over_on_address settings 20 (one_call.heap 0)
    then none
    else some 0)
hoover-calls_example =
    hoover-calls settings 5 20 0 (codes "x1") one_call
      (Reached-IsValid settings one_call one_call-Reached) refl one_call_called one_call_alone
