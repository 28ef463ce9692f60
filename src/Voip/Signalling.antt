-- ===== src/Voip/Signalling.antt =====
-- The SIP messages that end, move or tag a call: `ReportSipErrorPacket`, `ReportSipSessionProgress`,
-- `ReportSip302MovedTemporarily`, `ReportSip200Ok`, `ReportSipBye` and `ReportSipRefer` of
-- orkaudio/audiocaptureplugins/voip/VoIpSession.cpp. The media port of a message is what `atoi` reads.
pub mod Reached
use orekacxx.Common.{
  ℕ, ◌%◌, ◌^◌, Bool, true, false, not, ◌&&◌, ◌||◌, List, [], ◌∷◌, ◌++◌, Option, none, some, ◌==◌,
  if◌then◌else◌,
}
use orekacxx.Serializers.Chars.{codes, str_eq}
use orekacxx.Voip.OrderedMap.{find, by_text}
use orekacxx.Voip.Session.{Env, VoIpSession, CaptureEvent, key_value, local_party, remote_party}
use orekacxx.Voip.Tables.{
  VoIpSessions, SipRefer, report, call, get_local_party_map, save_local_party_map,
}
use orekacxx.Voip.Stops.{stop, set_media_address}

pub record SipFailureMessageInfo : Type 0 where
  pub call_id : List ℕ
  pub error_code : List ℕ

pub record SipSessionProgressInfo : Type 0 where
  pub call_id : List ℕ
  pub media_ip : ℕ
  pub media_port : ℕ
  pub sender_ip : ℕ

pub record Sip200OkInfo : Type 0 where
  pub call_id : List ℕ
  pub has_sdp : Bool
  pub media_ip : ℕ
  pub media_port : ℕ

pub record SipByeInfo : Type 0 where
  pub call_id : List ℕ
  pub from : List ℕ
  pub to : List ℕ

-- What `VoIpSession::ReportSipErrorPacket` reports.
abbrev pub failed_event : CaptureEvent
failed_event = key_value (codes "failed") (codes "true")

unfoldable pub report_sip_error_packet :
    Env → ℕ → SipFailureMessageInfo → VoIpSessions → VoIpSessions
report_sip_error_packet env now info t = elim (find info.call_id t.by_call_id) [
  | none ↦ t
  | some i ↦
      if str_eq info.error_code (codes "407")
      then t
      else stop env now i (report i (failed_event ∷ []) t)
]

unfoldable pub report_sip_session_progress :
    Env → ℕ → SipSessionProgressInfo → VoIpSessions → VoIpSessions
report_sip_session_progress env now info t = elim (find info.call_id t.by_call_id) [
  | none ↦ t
  | some i ↦
      let port = info.media_port % 2 ^ 16 in
      let u = set_media_address env now i info.media_ip port t in
      if env.sip_track_on_sender then set_media_address env now i info.sender_ip port u else u
]

unfoldable pub report_sip_302_moved_temporarily :
    (contact to : List ℕ) → VoIpSessions → VoIpSessions
report_sip_302_moved_temporarily contact to t = save_local_party_map contact to t

-- Does the session take its media address from the 200 OK?
unfoldable pub takes_address : Env → Sip200OkInfo → VoIpSession → Bool
takes_address env info s =
    if info.has_sdp && env.sip_use_200_ok && env.sip_dynamic_media_address
    then true
    else if info.has_sdp && env.sip_use_200_ok && s.num_rtp_packets == 0
    then (if s.rtp_ip == 0 || env.allow_multiple_mappings
        then true
        else if not (env.lan_ip_ranges s.rtp_ip)
        then not (env.lan_ip_ranges info.media_ip)
        else true)
    else false

unfoldable pub report_sip_200_ok : Env → ℕ → Sip200OkInfo → VoIpSessions → VoIpSessions
report_sip_200_ok env now info t = elim (find info.call_id t.by_call_id) [
  | none ↦ t
  | some i ↦
      if takes_address env info (t.heap i)
      then set_media_address env now i info.media_ip (info.media_port % 2 ^ 16) t
      else t
]

-- `VoIpSession::ReportSipBye`: with the interception of dahdi the party that is called "s" gets its name.
unfoldable pub session_report_sip_bye :
    Env → VoIpSessions → SipByeInfo → VoIpSession → VoIpSession × List CaptureEvent
session_report_sip_bye env t bye s =
    let from = get_local_party_map bye.from t in
    let to = get_local_party_map bye.to t in
    if not env.dahdi_intercept
    then (s, [])
    else if env.compare_no_case s.local_party (codes "s")
    then (let name = if not (env.compare_no_case s.remote_party bye.to) then to else from in
        (record s { local_party = name }, local_party name ∷ []))
    else if env.compare_no_case s.remote_party (codes "s")
    then (let name = if not (env.compare_no_case s.local_party to) then to else from in
        (record s { remote_party = name }, remote_party name ∷ []))
    else (s, [])

unfoldable pub report_sip_bye : Env → ℕ → SipByeInfo → VoIpSessions → VoIpSessions
report_sip_bye env now bye t = elim (find bye.call_id t.by_call_id) [
  | none ↦ t
  | some i ↦ stop env now i (call i (session_report_sip_bye env t bye) t)
]

-- The transfer gets the names of its parties and the recorder's ID of the call that it comes from, which
-- that call is tagged with.
unfoldable pub report_sip_refer : (call_id : List ℕ) → SipRefer → VoIpSessions → VoIpSessions
report_sip_refer call_id refer t = elim (find call_id t.by_call_id) [
  | none ↦ t
  | some i ↦
      let uid = (t.heap i).ork_uid in
      report i (key_value (codes "orig-orkuid") uid ∷ []) (record t {
        sip_refer_list =
            t.sip_refer_list
            ++ (record refer {
              refer_to_party = get_local_party_map refer.refer_to_party t;
              referred_by_party = get_local_party_map refer.referred_by_party t;
              orig_ork_uid = uid;
            })
              ∷ [];
      })
]
