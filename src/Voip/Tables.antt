-- ===== src/Voip/Tables.antt =====
-- `VoIpSessions` of orkaudio/audiocaptureplugins/voip/VoIpSession.cpp: the map of the sessions by media
-- address and the one by call ID, which share the sessions, and what takes a session out of them.
-- A reference is the number of its session: `heap` is the memory, whose cells from `next_id` on are
-- fresh. The code's differences of times are written as sums.
use orekacxx.Common.{
  ℕ, ◌+◌, ◌*◌, ◌/◌, ◌^◌, Bool, true, false, not, ◌&&◌, ◌||◌, List, [], ◌∷◌, ◌++◌, Option, none,
  some, leb, ◌==◌, if◌then◌else◌,
}
use orekacxx.Voip.OrderedMap.{find, insert, by_number, by_text}
use orekacxx.Voip.Session.{
  Env, VoIpSession, CaptureEvent, remote_party, local_side, stop_at, RtpPacket, LocalSideEnum,
  local_side_side1, local_side_side2, local_side_both,
}

pub record SipRefer : Type 0 where
  pub timestamp : ℕ
  pub from : List ℕ
  pub to : List ℕ
  pub refer_to_party : List ℕ
  pub referred_by_party : List ℕ
  pub referred_party : List ℕ
  pub orig_ork_uid : List ℕ

pub record UrlExtractionValue : Type 0 where
  pub value : List ℕ
  pub timestamp : ℕ

-- `pre_invite_notify` is the party of a NOTIFY that came before its INVITE.
pub record VoIpEndpointInfo : Type 0 where
  pub ip : ℕ
  pub url_extraction_map : List (List ℕ × UrlExtractionValue)
  pub pre_invite_notify : Option (List ℕ)

-- `sip_subscribe_map` holds the call IDs in their order. `events` are those that were reported so far, each under its session's capture port.
pub record VoIpSessions : Type 0 where
  pub heap : ℕ → VoIpSession
  pub next_id : ℕ
  pub by_ip_and_port : List (ℕ × ℕ)
  pub by_call_id : List (List ℕ × ℕ)
  pub endpoints : List (ℕ × VoIpEndpointInfo)
  pub local_party_map : List (List ℕ × List ℕ)
  pub sip_refer_list : List SipRefer
  pub sip_subscribe_map : List (List ℕ)
  pub alpha_counter : ℕ
  pub events : List (List ℕ × CaptureEvent)

abbrev pub sessions_init : (ℕ → VoIpSession) → ℕ → VoIpSessions
sessions_init memory counter = record {
  heap = memory;
  next_id = 0;
  by_ip_and_port = [];
  by_call_id = [];
  endpoints = [];
  local_party_map = [];
  sip_refer_list = [];
  sip_subscribe_map = [];
  alpha_counter = counter;
  events = [];
}

-- A write to the session that a reference leads to.
unfoldable pub modify : ℕ → (VoIpSession → VoIpSession) → VoIpSessions → VoIpSessions
modify i f t = record t { heap = λ j. if j == i then f (t.heap j) else t.heap j }

-- `g_captureEventCallBack` with the events of a session, in their order.
unfoldable pub report : ℕ → List CaptureEvent → VoIpSessions → VoIpSessions
report i [] t = t
report i (e ∷ es) t =
    report i es (record t { events = t.events ++ ((t.heap i).capture_port, e) ∷ [] })

-- A member function that changes the session and then reports.
unfoldable pub call :
    ℕ → (VoIpSession → VoIpSession × List CaptureEvent) → VoIpSessions → VoIpSessions
call i f t = let r = f (t.heap i) in report i r.1 (modify i (λ s. (f s).0) t)

unfoldable pub craft_64bit_media_address : Env → (ip port : ℕ) → ℕ
craft_64bit_media_address env ip port =
    if env.track_by_udp_port_only then port else ip * 2 ^ 16 + port

unfoldable pub find_by_media_address : Env → (ip port : ℕ) → VoIpSessions → Option ℕ
find_by_media_address env ip port t = find (craft_64bit_media_address env ip port) t.by_ip_and_port

unfoldable pub get_local_party_map : List ℕ → VoIpSessions → List ℕ
get_local_party_map old t = elim (find old t.local_party_map) [ none ↦ old | some new ↦ new ]

-- An entry that is there already stays.
unfoldable pub save_local_party_map : (old new : List ℕ) → VoIpSessions → VoIpSessions
save_local_party_map old new t = record t { local_party_map = insert old new t.local_party_map }

unfoldable pub first_endpoint : ℕ → List (ℕ × VoIpEndpointInfo) → Option VoIpEndpointInfo
first_endpoint ip [] = none
first_endpoint ip ((a, e) ∷ es) = if e.ip == ip then some e else first_endpoint ip es

unfoldable pub get_voip_endpoint_info_by_ip : ℕ → VoIpSessions → Option VoIpEndpointInfo
get_voip_endpoint_info_by_ip ip t = first_endpoint ip t.endpoints

unfoldable pub get_voip_endpoint_info : Env → (ip port : ℕ) → VoIpSessions → Option VoIpEndpointInfo
get_voip_endpoint_info env ip port t = find (craft_64bit_media_address env ip port) t.endpoints

-- Does the packet of a side come from the local one?
unfoldable pub is_local : Env → Option RtpPacket → VoIpSessions → Bool
is_local env none t = false
is_local env (some p) t =
    not (env.reference_addresses p.source_ip)
    || (elim (get_voip_endpoint_info_by_ip p.source_ip t) [ none ↦ false | some _ ↦ true ])

unfoldable pub side_found : Env → VoIpSessions → VoIpSession → LocalSideEnum
side_found env t s =
    let first = is_local env s.last_rtp_packet_side1 t in
    let side = if first then local_side_side1 else s.local_side in
    if is_local env s.last_rtp_packet_side2 t
    then (elim side [ local_side_side1 ↦ local_side_both | _ ↦ local_side_side2 ])
    else side

-- The endpoint of the local side, or else of the remote one.
unfoldable pub session_endpoint : Env → VoIpSessions → VoIpSession → Option VoIpEndpointInfo
session_endpoint env t s = elim (get_voip_endpoint_info env s.local_ip 0 t) [
  | none ↦ get_voip_endpoint_info env s.remote_ip 0 t
  | some e ↦ some e
]

-- The remote party that an endpoint's extracted fields give.
unfoldable pub extracted_party : Env → VoIpSessions → VoIpSession → Option (List ℕ)
extracted_party env t s = elim (session_endpoint env t s) [
  | none ↦ none
  | some e ↦ elim (find env.remote_party_key e.url_extraction_map) [
    | none ↦ none
    | some v ↦
        if leb (s.creation_date / 1000000) v.timestamp && leb v.timestamp s.last_updated
        then some v.value
        else none
  ]
]

-- The end of a session whose local side and new remote party are known.
unfoldable pub close :
    LocalSideEnum → Option (List ℕ) → VoIpSession → VoIpSession × List CaptureEvent
close side none s =
    (record s { local_side = side; stopped = true }, local_side side ∷ stop_at s.last_updated ∷ [])
close side (some party) s = (
  record s { local_side = side; remote_party = party; stopped = true },
  remote_party party ∷ local_side side ∷ stop_at s.last_updated ∷ [],
)

-- `VoIpSession::Stop` of a session that goes on.
unfoldable pub finish : Env → VoIpSessions → VoIpSession → VoIpSession × List CaptureEvent
finish env t s =
    close (side_found env t s) (if env.url_extractor_enable then extracted_party env t s else none)
      s

unfoldable pub session_stop : Env → ℕ → VoIpSessions → VoIpSessions
session_stop env i t =
    if (t.heap i).started && not (t.heap i).stopped then call i (finish env t) t else t
