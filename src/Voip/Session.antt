-- ===== src/Voip/Session.antt =====
-- `VoIpSession` of orkaudio/audiocaptureplugins/voip/VoIpSession.cpp, with what it has of `OrkSession`:
-- the members that the tables of sessions and the commands of the recorder read or write.
use orekacxx.Common.{
  ℕ, zero, suc, ◌+◌, ◌/◌, Bool, true, false, ◌&&◌, ◌||◌, List, [], ◌∷◌, ◌++◌, Option, none, length,
  ltb, if◌then◌else◌,
}
use orekacxx.Common.Int.{ℤ, pos, negsuc, ◌+ℤ◌, sub_ℕ}
use orekacxx.Serializers.Chars.{codes}

pub data ProtocolEnum : Type 0 where
  prot_raw_rtp prot_sip prot_skinny prot_unkn : ProtocolEnum

pub data LocalSideEnum : Type 0 where
  local_side_unkn local_side_side1 local_side_side2 local_side_both : LocalSideEnum

pub data DirectionEnum : Type 0 where
  dir_in dir_out dir_unkn : DirectionEnum

-- What DLLCONFIG and CONFIG say, and CompareNoCase of the string class. A setting that lists addresses is
-- the test that it makes of an address, NecVoipGatewayNames the one of a name, `strtol` gives a number and
-- the text behind it; `allowed` is `none` if MediaAddressAllowedIpRanges is empty.
pub record Env : Type 0 where
  pub compare_no_case : List ℕ → List ℕ → Bool
  pub track_by_udp_port_only : Bool
  pub blocked : ℕ → Bool
  pub allowed : Option (ℕ → Bool)
  pub reference_addresses : ℕ → Bool
  pub lan_ip_ranges : ℕ → Bool
  pub sip_ignored_addresses : ℕ → Bool
  pub allow_multiple_mappings : Bool
  pub skinny_allow_transfer : Bool
  pub sip_allow_transfer : Bool
  pub skinny_behind_nat : Bool
  pub sip_use_200_ok : Bool
  pub sip_dynamic_media_address : Bool
  pub sip_track_on_sender : Bool
  pub dahdi_intercept : Bool
  pub url_extractor_enable : Bool
  pub remote_party_key : List ℕ
  pub transfer_time_out : ℕ
  pub rtp_timeout : ℕ
  pub on_hold_timeout : ℕ
  pub signalling_timeout : ℕ
  pub initial_timeout : ℕ
  pub look_back_recording : Bool
  pub hold_report_stats : Bool
  pub hold_resume_report : Bool
  pub metadata_use_last_invite : Bool
  pub remote_party_from_200_ok : Bool
  pub invite_can_put_off_hold : Bool
  pub call_pick_up_support : Bool
  pub sip_notify_support : Bool
  pub nec_gateway : List ℕ → Bool
  pub on_demand_field_name : List ℕ
  pub on_demand_field_value : List ℕ
  pub default_event_payload_type : ℕ
  pub strtol : List ℕ → ℤ × List ℕ

-- The members of `RtpPacketInfo` that are used here.
pub record RtpPacket : Type 0 where
  pub source_ip : ℕ
  pub source_port : ℕ
  pub dest_ip : ℕ
  pub dest_port : ℕ
  pub arrival_timestamp : ℕ

-- The members of `SipInviteInfo` that are used here.
pub record SipInvite : Type 0 where
  pub sip_method : List ℕ
  pub from : List ℕ
  pub to : List ℕ
  pub contact : List ℕ
  pub call_id : List ℕ
  pub replaces_id : List ℕ
  pub sender_ip : ℕ
  pub original_sender_ip : ℕ
  pub receiver_ip : ℕ
  pub from_rtp_ip : ℕ
  pub from_rtp_port : List ℕ
  pub attr_sendonly : Bool
  pub recv_time : ℕ
  pub sip_dialed_number : List ℕ
  pub sip_remote_party : List ℕ
  pub telephone_event_payload_type : ℕ
  pub payload_type_map : List ℕ
  pub extracted_fields : List (List ℕ × List ℕ)

-- The events that sessions report, by their types; `key_value` is the key and the value of an
-- EtKeyValue, and `hold_time` the number in the one under "holdtime".
pub data CaptureEvent : Type 0 where
  local_side : LocalSideEnum → CaptureEvent
  stop_at : ℕ → CaptureEvent
  remote_party local_party hold resume audio_keep_direction : List ℕ → CaptureEvent
  key_value : List ℕ → List ℕ → CaptureEvent
  hold_time : ℤ → CaptureEvent
  update direction_out : CaptureEvent

pub record VoIpSession : Type 0 where
  pub tracking_id : List ℕ
  pub capture_port : List ℕ
  pub ork_uid : List ℕ
  pub call_id : List ℕ
  pub ip_and_port : ℕ
  pub rtp_ip : ℕ
  pub media_addresses : List ℕ
  pub protocol : ProtocolEnum
  pub creation_date : ℕ
  pub last_updated : ℕ
  pub invite : Option SipInvite
  pub remote_party_nec_sip : List ℕ
  pub local_party : List ℕ
  pub remote_party : List ℕ
  pub local_entry_point : List ℕ
  pub local_party_name : List ℕ
  pub remote_party_name : List ℕ
  pub local_party_reported : Bool
  pub remote_party_reported : Bool
  pub rtcp_local_party : Bool
  pub rtcp_remote_party : Bool
  pub direction : DirectionEnum
  pub local_side : LocalSideEnum
  pub num_rtp_packets : ℕ
  pub num_ignored_rtp_packets : ℕ
  pub rtp_num_missing_pkts : ℕ
  pub rtp_num_seq_gaps : ℕ
  pub highest_rtp_seq_num_delta : ℕ
  pub end_point_ip : ℕ
  pub end_point_signalling_port : ℕ
  pub skinny_pass_thru_party_id : ℕ
  pub skinny_line_instance : ℕ
  pub sip_last_invite : ℕ
  pub skinny_last_call_info_time : ℕ
  pub sip_dialed_number : List ℕ
  pub sip_remote_party : List ℕ
  pub is_call_pick_up : Bool
  pub metadata_processed : Bool
  pub ssrc_candidate : ℤ
  pub started : Bool
  pub stopped : Bool
  pub on_hold : Bool
  pub keep_rtp : Bool
  pub on_demand : Bool
  pub hold_duration : ℤ
  pub hold_begin : ℕ
  pub telephone_event_payload_type : ℕ
  pub payload_type_map : List ℕ
  pub tags : List (List ℕ × List ℕ)
  pub invites : List SipInvite
  pub local_ip : ℕ
  pub remote_ip : ℕ
  pub last_rtp_packet : Option RtpPacket
  pub last_rtp_packet_side1 : Option RtpPacket
  pub last_rtp_packet_side2 : Option RtpPacket

-- What `protocol == ...` tests.
unfoldable pub is_raw_rtp : VoIpSession → Bool
is_raw_rtp s = elim s.protocol [ prot_raw_rtp ↦ true | _ ↦ false ]

unfoldable pub is_sip : VoIpSession → Bool
is_sip s = elim s.protocol [ prot_sip ↦ true | _ ↦ false ]

unfoldable pub is_skinny : VoIpSession → Bool
is_skinny s = elim s.protocol [ prot_skinny ↦ true | _ ↦ false ]

-- The payload types from one on.
abbrev first_payload_types : ℕ → ℕ → List ℕ
first_payload_types zero i = []
first_payload_types (suc n) i = i ∷ first_payload_types n (i + 1)

-- The constructor, `now` in microseconds; the members that it does not set keep what fresh memory holds.
unfoldable pub construct : Env → ℕ → List ℕ → VoIpSession → VoIpSession
construct env now id fresh = record fresh {
  tracking_id = id;
  capture_port = [];
  ork_uid = [];
  call_id = [];
  ip_and_port = 0;
  rtp_ip = 0;
  media_addresses = [];
  protocol = prot_unkn;
  creation_date = now;
  last_updated = now / 1000000;
  invite = none;
  remote_party_nec_sip = [];
  local_party = [];
  remote_party = [];
  local_entry_point = [];
  local_party_name = [];
  remote_party_name = [];
  local_party_reported = false;
  remote_party_reported = false;
  rtcp_local_party = false;
  rtcp_remote_party = false;
  direction = dir_unkn;
  local_side = local_side_unkn;
  num_rtp_packets = 0;
  num_ignored_rtp_packets = 0;
  rtp_num_missing_pkts = 0;
  rtp_num_seq_gaps = 0;
  highest_rtp_seq_num_delta = 0;
  skinny_pass_thru_party_id = 0;
  skinny_line_instance = 0;
  sip_last_invite = now;
  skinny_last_call_info_time = now;
  sip_dialed_number = [];
  sip_remote_party = [];
  is_call_pick_up = false;
  metadata_processed = false;
  ssrc_candidate = negsuc 0;
  started = false;
  stopped = false;
  on_hold = false;
  keep_rtp = env.look_back_recording;
  on_demand = false;
  hold_duration = pos 0;
  telephone_event_payload_type = env.default_event_payload_type;
  payload_type_map = first_payload_types 32 96;
  tags = [];
  invites = [];
  last_rtp_packet = none;
  last_rtp_packet_side1 = none;
  last_rtp_packet_side2 = none;
}

unfoldable pub ork_uid_matches : Env → List ℕ → VoIpSession → Bool
ork_uid_matches env uid s = env.compare_no_case s.ork_uid uid

unfoldable pub party_matches : Env → List ℕ → VoIpSession → Bool
party_matches env party s =
    ltb 0 (length party)
    && (env.compare_no_case s.local_party party || env.compare_no_case s.remote_party party)

unfoldable pub native_call_id_matches : Env → List ℕ → VoIpSession → Bool
native_call_id_matches env id s = ltb 0 (length id) && env.compare_no_case s.call_id id

-- What GoOnHold, MarkAsOnDemand and MarkAsOnDemandOff make of the session, and the events that they
-- report.
unfoldable pub go_on_hold : Env → ℕ → VoIpSession → VoIpSession × List CaptureEvent
go_on_hold env time s =
    if s.started
    then (
      record s { on_hold = true; hold_begin = time },
      if env.hold_resume_report then hold s.tracking_id ∷ [] else [],
    )
    else (s, [])

unfoldable pub go_off_hold : Env → ℕ → VoIpSession → VoIpSession × List CaptureEvent
go_off_hold env time s =
    let duration = s.hold_duration +ℤ sub_ℕ time s.hold_begin in
    (
      record s { last_updated = time; on_hold = false; hold_duration = duration },
      (if env.hold_report_stats then hold_time duration ∷ [] else [])
          ++ (if env.hold_resume_report then resume s.tracking_id ∷ [] else []),
    )

unfoldable pub mark_as_on_demand : List ℕ → VoIpSession → VoIpSession × List CaptureEvent
mark_as_on_demand side s = (
  record s { on_demand = true },
  if s.started
      then key_value (codes "ondemand") (codes "true") ∷ audio_keep_direction side ∷ update ∷ []
      else [],
)

unfoldable pub mark_as_on_demand_off : VoIpSession → VoIpSession × List CaptureEvent
mark_as_on_demand_off s = (
  record s { on_demand = false },
  if s.started then key_value (codes "ondemand") (codes "false") ∷ update ∷ [] else [],
)

unfoldable pub copy_metadata_to_new_session : VoIpSession → VoIpSession → VoIpSession
copy_metadata_to_new_session old new = record new {
  ip_and_port = old.ip_and_port;
  rtp_ip = old.rtp_ip;
  call_id = old.call_id;
  invite = old.invite;
  protocol = old.protocol;
  remote_party_nec_sip = old.remote_party_nec_sip;
  local_party = old.local_party;
  remote_party = old.remote_party;
  local_entry_point = old.local_entry_point;
  local_party_name = old.local_party_name;
  remote_party_name = old.remote_party_name;
  local_party_reported = old.local_party_reported;
  remote_party_reported = old.remote_party_reported;
  rtcp_local_party = old.rtcp_local_party;
  rtcp_remote_party = old.rtcp_remote_party;
  direction = old.direction;
  local_side = old.local_side;
  end_point_ip = old.end_point_ip;
  end_point_signalling_port = old.end_point_signalling_port;
  skinny_pass_thru_party_id = old.skinny_pass_thru_party_id;
  sip_last_invite = old.sip_last_invite;
  skinny_last_call_info_time = old.skinny_last_call_info_time;
  skinny_line_instance = old.skinny_line_instance;
  media_addresses = old.media_addresses;
  sip_dialed_number = old.sip_dialed_number;
  sip_remote_party = old.sip_remote_party;
  is_call_pick_up = old.is_call_pick_up;
  ssrc_candidate = old.ssrc_candidate;
  metadata_processed = true;
}

-- `ProtocolToEnum` and `ProtocolToString`.
unfoldable pub protocol_to_enum : Env → List ℕ → ProtocolEnum
protocol_to_enum env name =
    if env.compare_no_case name (codes "RawRtp")
    then prot_raw_rtp
    else if env.compare_no_case name (codes "Sip")
    then prot_sip
    else if env.compare_no_case name (codes "Skinny")
    then prot_skinny
    else prot_unkn

unfoldable pub protocol_to_string : ProtocolEnum → List ℕ
protocol_to_string prot_raw_rtp = codes "RawRtp"
protocol_to_string prot_sip = codes "Sip"
protocol_to_string prot_skinny = codes "Skinny"
protocol_to_string prot_unkn = codes "Unkn"
