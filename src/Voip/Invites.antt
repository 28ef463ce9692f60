-- ===== src/Voip/Invites.antt =====
-- `ReportSipInvite` of a session and of the tables, and the messages SUBSCRIBE that it looks up:
-- `ReportSipSubscribe` and `TrySessionCallPickUp` of orkaudio/audiocaptureplugins/voip/VoIpSession.cpp.
pub mod Keeps
pub mod Anchored
use orekacxx.Common.{
  ℕ, zero, suc, ◌+◌, ◌-◌, ◌%◌, ◌^◌, Bool, true, false, not, ◌&&◌, ◌||◌, List, [], ◌∷◌, ◌++◌, Option,
  none, some, length, ltb, ◌==◌, if◌then◌else◌, ◌/◌,
}
use orekacxx.Common.Int.{ℤ, pos, negsuc}
use orekacxx.Serializers.Chars.{codes, str_eq}
use orekacxx.Voip.OrderedMap.{find, insert, by_number, by_text}
use orekacxx.Voip.Session.{
  Env, VoIpSession, SipInvite, CaptureEvent, remote_party, direction_out, key_value, dir_out,
  prot_raw_rtp, prot_sip, is_raw_rtp, is_sip, go_on_hold, go_off_hold,
}
use orekacxx.Voip.Tables.{
  VoIpSessions, modify, call, craft_64bit_media_address, find_by_media_address, get_local_party_map,
  get_voip_endpoint_info, VoIpEndpointInfo,
}
use orekacxx.Voip.Stops.{set_media_address}
use orekacxx.Voip.Commands.{create}

-- An INVITE from and to the same party is a call that goes out to its contact.
unfoldable pub self_call :
    Env → VoIpSessions → SipInvite → VoIpSession → VoIpSession × List CaptureEvent
self_call env t inv s =
    if env.compare_no_case inv.from inv.to && ltb 0 (length inv.contact)
    then (let party = get_local_party_map inv.contact t in
        (
          record s { remote_party = party; direction = dir_out },
          remote_party party ∷ direction_out ∷ [],
        ))
    else (s, [])

unfoldable pub note_remote_party : Env → SipInvite → VoIpSession → VoIpSession
note_remote_party env inv s =
    let given = ltb 0 (length inv.sip_remote_party) in
    if str_eq inv.sip_method (codes "INVITE") && given || env.remote_party_from_200_ok && given
    then (if length s.sip_remote_party == 0
        then record s { sip_remote_party = inv.sip_remote_party }
        else if not (env.compare_no_case s.sip_remote_party inv.sip_remote_party)
        then record s {
          local_entry_point = s.sip_remote_party;
          sip_remote_party = inv.sip_remote_party;
        }
        else s)
    else s

-- A payload type that the SDP has not named is 0.
unfoldable pub update_rtp_payload_map : (named current : List ℕ) → List ℕ
update_rtp_payload_map [] current = current
update_rtp_payload_map (n ∷ ns) [] = []
update_rtp_payload_map (n ∷ ns) (c ∷ cs) = (if n == 0 then c else n) ∷ update_rtp_payload_map ns cs

unfoldable pub field_events : List (List ℕ × List ℕ) → List CaptureEvent
field_events [] = []
field_events ((k, v) ∷ fields) = key_value k v ∷ field_events fields

unfoldable pub add_tags : (fields tags : List (List ℕ × List ℕ)) → List (List ℕ × List ℕ)
add_tags [] tags = tags
add_tags ((k, v) ∷ fields) tags = add_tags fields (insert k v tags)

unfoldable pub starts_with : (prefix text : List ℕ) → Bool
starts_with [] text = true
starts_with (p ∷ ps) [] = false
starts_with (p ∷ ps) (c ∷ cs) = p == c && starts_with ps cs

-- `value.find(...) != npos`.
unfoldable pub has_within : (part text : List ℕ) → Bool
has_within part [] = starts_with part []
has_within part (c ∷ cs) = starts_with part (c ∷ cs) || has_within part cs

unfoldable pub asks_on_demand : Env → VoIpSession → Bool
asks_on_demand env s =
    ltb 0 (length env.on_demand_field_name) && (elim (find env.on_demand_field_name s.tags) [
      | none ↦ false
      | some value ↦ has_within env.on_demand_field_value value
    ])

unfoldable pub note_invite : SipInvite → VoIpSession → VoIpSession
note_invite inv s = record s {
  invites = inv ∷ s.invites;
  telephone_event_payload_type =
      if inv.telephone_event_payload_type == 0
      then s.telephone_event_payload_type
      else inv.telephone_event_payload_type;
}

-- The payload types, and the extracted fields of a session that has not started.
unfoldable pub note_fields : SipInvite → VoIpSession → VoIpSession
note_fields inv s = record s {
  payload_type_map = update_rtp_payload_map inv.payload_type_map s.payload_type_map;
  tags = if s.started then s.tags else add_tags inv.extracted_fields s.tags;
}

unfoldable pub note_demand : Env → VoIpSession → VoIpSession
note_demand env s =
    if asks_on_demand env s then record s { keep_rtp = true; on_demand = true } else s

-- What the INVITE leaves of the session after its parties are known.
unfoldable pub take_invite : Env → SipInvite → VoIpSession → VoIpSession
take_invite env inv s =
    note_demand env (note_fields inv (note_remote_party env inv (note_invite inv s)))

unfoldable pub is_first : Env → VoIpSession → Bool
is_first env s = env.metadata_use_last_invite || (elim s.invite [ none ↦ true | some _ ↦ false ])

unfoldable pub session_report_sip_invite :
    Env → VoIpSessions → SipInvite → VoIpSession → VoIpSession × List CaptureEvent
session_report_sip_invite env t inv s =
    let r = self_call env t inv (if is_first env s then record s { invite = some inv } else s) in
    (take_invite env inv r.0, r.1 ++ (if s.started then field_events inv.extracted_fields else []))

unfoldable pub is_subscribed : List ℕ → List (List ℕ) → Bool
is_subscribed id [] = false
is_subscribed id (c ∷ cs) = str_eq c id || is_subscribed id cs

unfoldable pub unsubscribe : List ℕ → List (List ℕ) → List (List ℕ)
unsubscribe id [] = []
unsubscribe id (c ∷ cs) = if str_eq c id then cs else c ∷ unsubscribe id cs

unfoldable pub pop_front : List (List ℕ) → List (List ℕ)
pop_front [] = []
pop_front (c ∷ cs) = cs

unfoldable pub report_sip_subscribe : List ℕ → VoIpSessions → VoIpSessions
report_sip_subscribe id t =
    let m =
      if ltb 200 (length t.sip_subscribe_map)
      then pop_front t.sip_subscribe_map
      else t.sip_subscribe_map in
    record t { sip_subscribe_map = if is_subscribed id m then m else m ++ id ∷ [] }

unfoldable pub try_session_call_pick_up : Env → ℕ → List ℕ → VoIpSessions → VoIpSessions
try_session_call_pick_up env i replaces t =
    if env.call_pick_up_support && is_subscribed replaces t.sip_subscribe_map
    then modify i (λ s. record s { is_call_pick_up = true })
        (record t { sip_subscribe_map = unsubscribe replaces t.sip_subscribe_map })
    else t

-- The number whose 32 bits, in two's complement, are these.
unfoldable pub from_word : ℕ → ℤ
from_word w = if ltb w (2 ^ 31) then pos w else negsuc (2 ^ 32 - 1 - w)

-- A `long` as an `int` of 32 bits.
unfoldable pub as_int : ℤ → ℤ
as_int (pos n) = from_word (n % 2 ^ 32)
as_int (negsuc n) = from_word (2 ^ 32 - 1 - n % 2 ^ 32)

-- The port as `strtol` reads all of the text; what it leaves over makes the port 0.
unfoldable pub rtp_port_as_int : Env → SipInvite → ℤ
rtp_port_as_int env inv =
    let r = env.strtol inv.from_rtp_port in elim r.1 [ [] ↦ as_int r.0 | c ∷ cs ↦ pos 0 ]

-- The number as an `unsigned short`.
unfoldable pub as_short : ℤ → ℕ
as_short (pos n) = n % 2 ^ 16
as_short (negsuc n) = 2 ^ 16 - 1 - n % 2 ^ 16

unfoldable pub rtp_port : ℤ → ℕ
rtp_port (pos n) = if ltb 0 n && ltb n 65535 then n else 0
rtp_port (negsuc n) = 0

-- The key that the session is compared with; the second search for a session has no effect, as its
-- result goes to another variable.
unfoldable pub invite_address : Env → SipInvite → VoIpSessions → ℕ
invite_address env inv t =
    let port = as_short (rtp_port_as_int env inv) in
    elim (find_by_media_address env inv.from_rtp_ip port t) [
      | some _ ↦ craft_64bit_media_address env inv.from_rtp_ip port
      | none ↦
          craft_64bit_media_address env
            (if env.sip_track_on_sender then inv.original_sender_ip else inv.from_rtp_ip) port
    ]

-- The media address of the INVITE, and that of its sender if it is tracked too.
unfoldable pub set_both : Env → ℕ → ℕ → SipInvite → VoIpSessions → VoIpSessions
set_both env now i inv t =
    let port = rtp_port (rtp_port_as_int env inv) in
    let u = set_media_address env now i inv.from_rtp_ip port t in
    if env.sip_track_on_sender then set_media_address env now i inv.original_sender_ip port u else u

unfoldable pub gather : Env → ℕ → SipInvite → VoIpSessions → VoIpSessions
gather env i inv t =
    let u = try_session_call_pick_up env i inv.replaces_id t in
    call i (session_report_sip_invite env u inv) u

unfoldable pub resume_session : Env → ℕ → ℕ → SipInvite → VoIpSessions → VoIpSessions
resume_session env now i inv t =
    let u = call i (go_off_hold env inv.recv_time) t in
    set_media_address env now i inv.from_rtp_ip (rtp_port (rtp_port_as_int env inv))
      (modify i (λ s. record s { last_updated = now }) u)

-- An INVITE for a session that there is: it goes on hold, off hold, or takes what the INVITE says, after
-- the media address was changed if `moves` says so.
unfoldable pub reinvite : Env → ℕ → Bool → ℕ → SipInvite → VoIpSessions → VoIpSessions
reinvite env now moves i inv t =
    if inv.attr_sendonly
    then call i (go_on_hold env inv.recv_time) t
    else if (t.heap i).on_hold && env.invite_can_put_off_hold
    then resume_session env now i inv t
    else gather env i inv (if moves then set_both env now i inv t else t)

-- The party of a NOTIFY that came first, which is used once.
unfoldable pub notified_endpoint : Env → SipInvite → ℕ
notified_endpoint env inv =
    craft_64bit_media_address env
      (if env.reference_addresses inv.sender_ip then inv.receiver_ip else inv.sender_ip) 0

unfoldable pub is_nec_external : Env → SipInvite → Bool
is_nec_external env inv =
    env.nec_gateway (if env.reference_addresses inv.sender_ip then inv.from else inv.to)

unfoldable pub use_notify : ℕ → List (ℕ × VoIpEndpointInfo) → List (ℕ × VoIpEndpointInfo)
use_notify key [] = []
use_notify key ((a, e) ∷ es) =
    if a == key then (a, record e { pre_invite_notify = none }) ∷ es else (a, e) ∷ use_notify key es

-- The party that a NOTIFY has announced.
unfoldable pub announced : Env → SipInvite → VoIpSessions → Option (List ℕ)
announced env inv t =
    if env.sip_notify_support && is_nec_external env inv
    then (elim (find (notified_endpoint env inv) t.endpoints) [
      | none ↦ none
      | some e ↦ e.pre_invite_notify
    ])
    else none

unfoldable pub with_notify : Env → SipInvite → VoIpSessions → SipInvite × VoIpSessions
with_notify env inv t = elim (announced env inv t) [
  | none ↦ (inv, t)
  | some party ↦ (
    record inv { sip_remote_party = party },
    record t { endpoints = use_notify (notified_endpoint env inv) t.endpoints },
  )
]

-- A new SIP session; `now` is in microseconds.
unfoldable pub create_sip : Env → ℕ → SipInvite → VoIpSessions → VoIpSessions
create_sip env now inv t =
    modify t.next_id
      (λ s. record s {
        call_id = inv.call_id;
        protocol = prot_sip;
        sip_dialed_number = inv.sip_dialed_number;
      })
      (create env now t)

-- The session is entered under its call ID.
unfoldable pub enter_call : ℕ → VoIpSessions → VoIpSessions
enter_call i t = record t { by_call_id = insert (t.heap i).call_id i t.by_call_id }

unfoldable pub invite_new : Env → ℕ → SipInvite → VoIpSessions → VoIpSessions
invite_new env now inv t =
    let i = t.next_id in
    let picked = try_session_call_pick_up env i inv.replaces_id (create_sip env now inv t) in
    let r = with_notify env inv picked in
    let u = call i (session_report_sip_invite env r.1 r.0) r.1 in
    enter_call i
      (set_both env (now / 1000000) i r.0 (modify i (λ s. record s { sip_last_invite = now }) u))

-- By the call ID.
unfoldable pub invite_by_call : Env → ℕ → ℕ → SipInvite → VoIpSessions → VoIpSessions
invite_by_call env now address inv t = elim (find inv.call_id t.by_call_id) [
  | none ↦ invite_new env now inv t
  | some i ↦
      reinvite env (now / 1000000)
        (not ((t.heap i).ip_and_port == address) && env.sip_dynamic_media_address) i inv t
]

unfoldable pub report_sip_invite : Env → ℕ → SipInvite → VoIpSessions → VoIpSessions
report_sip_invite env now inv t =
    let address = invite_address env inv t in
    let port = as_short (rtp_port_as_int env inv) in
    if env.sip_ignored_addresses inv.from_rtp_ip
    then t
    else (elim (find_by_media_address env inv.from_rtp_ip port t) [
      | none ↦ invite_by_call env now address inv t
      | some i ↦
          let s = t.heap i in
          if is_raw_rtp s || is_sip s && env.allow_multiple_mappings
          then invite_by_call env now address inv t
          else if not env.allow_multiple_mappings && not (env.compare_no_case inv.call_id s.call_id)
          then invite_by_call env now address inv
              (modify i (λ s. record s { protocol = prot_raw_rtp }) t)
          else reinvite env (now / 1000000) false i inv t
    ])
