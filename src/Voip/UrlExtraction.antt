-- ===== src/Voip/UrlExtraction.antt =====
-- `UnEscapeUrl` and `UrlExtraction` of orkaudio/audiocaptureplugins/voip/VoIpSession.cpp, which store the
-- fields of a text for an endpoint, and `ReportOnDemandMarkerByIp`. What `GetAt` throws ends the
-- extraction.
pub mod Keeps
use orekacxx.Common.{
  ℕ, Bool, true, false, not, ◌&&◌, ◌||◌, List, [], ◌∷◌, ◌++◌, Option, none, some, length, ltb, ◌==◌,
  if◌then◌else◌,
}
use orekacxx.Common.Outcome.{Outcome, done, ◌>>=◌}
use orekacxx.Serializers.Chars.{codes, is_alnum}
use orekacxx.Serializers.Url.{unescape_url}
use orekacxx.Voip.OrderedMap.{find, insert, values, by_number, by_text}
use orekacxx.Voip.Session.{Env, VoIpSession, mark_as_on_demand}
use orekacxx.Voip.Tables.{
  VoIpSessions, VoIpEndpointInfo, UrlExtractionValue, craft_64bit_media_address, modify, call,
}

-- The same loop as the one of the URL serializer.
unfoldable pub un_escape_url : List ℕ → Outcome (List ℕ)
un_escape_url text = unescape_url text

pub data UrlState : Type 0 where
  url_start_state url_key_state url_value_state url_error_state : UrlState

pub record Extraction : Type 0 where
  pub state : UrlState
  pub key : List ℕ
  pub value : List ℕ

abbrev pub extraction_init : Extraction
extraction_init = record { state = url_start_state; key = []; value = [] }

-- One character of the text.
unfoldable pub url_step : Extraction → ℕ → Extraction
url_step x c = elim x.state [
  | url_start_state ↦
      if c == b'&'
      then x
      else if is_alnum c
      then record x { state = url_key_state; key = c ∷ [] }
      else record x { state = url_error_state }
  | url_key_state ↦
      if is_alnum c
      then record x { key = x.key ++ c ∷ [] }
      else if c == b'='
      then record x { state = url_value_state; value = [] }
      else record x { state = url_error_state }
  | url_value_state ↦
      if c == b'='
      then record x { state = url_error_state }
      else if c == b'&'
      then record x { state = url_start_state }
      else record x { value = x.value ++ c ∷ [] }
  | url_error_state ↦ record x { state = url_error_state }
]

unfoldable pub in_start_state : Extraction → Bool
in_start_state x = elim x.state [ url_start_state ↦ true | _ ↦ false ]

unfoldable pub in_error_state : Extraction → Bool
in_error_state x = elim x.state [ url_error_state ↦ true | _ ↦ false ]

-- A write through the reference that the map of endpoints holds.
unfoldable pub write_value :
    (key value : List ℕ)
    → ℕ
    → List (List ℕ × UrlExtractionValue)
    → List (List ℕ × UrlExtractionValue)
write_value key value now [] = []
write_value key value now ((k, v) ∷ m) =
    if by_text.same k key
    then (k, record { value = value; timestamp = now }) ∷ m
    else (k, v) ∷ write_value key value now m

unfoldable pub note_value : (key value : List ℕ) → ℕ → VoIpEndpointInfo → VoIpEndpointInfo
note_value key value now e = record e {
  url_extraction_map = elim (find key e.url_extraction_map) [
    | none ↦ insert key (record { value = value; timestamp = now }) e.url_extraction_map
    | some _ ↦ write_value key value now e.url_extraction_map
  ];
}

unfoldable pub write_endpoint :
    ℕ
    → (VoIpEndpointInfo → VoIpEndpointInfo)
    → List (ℕ × VoIpEndpointInfo)
    → List (ℕ × VoIpEndpointInfo)
write_endpoint address f [] = []
write_endpoint address f ((a, e) ∷ es) =
    if a == address then (a, f e) ∷ es else (a, e) ∷ write_endpoint address f es

-- A field of the endpoint, which is made if it is new.
unfoldable pub store_value : Env → ℕ → (ip : ℕ) → (key value : List ℕ) → VoIpSessions → VoIpSessions
store_value env now ip key value t =
    let address = craft_64bit_media_address env ip 0 in
    let new : VoIpEndpointInfo = record {
      ip = ip;
      url_extraction_map = (key, record { value = value; timestamp = now }) ∷ [];
      pre_invite_notify = none;
    } in
    record t {
      endpoints = elim (find address t.endpoints) [
        | some _ ↦ write_endpoint address (note_value key value now) t.endpoints
        | none ↦ insert address new t.endpoints
      ];
    }

-- What follows the state machine in a round: a field that is complete is stored.
unfoldable pub store_round :
    Env → ℕ → ℕ → (last : Bool) → Extraction → VoIpSessions → Outcome (Extraction × VoIpSessions)
store_round env now ip last x t =
    if (in_start_state x || last) && ltb 0 (length x.key)
    then (un_escape_url x.value >>= λ value.
        done (record x { key = []; value = [] }, store_value env now ip x.key value t))
    else done (x, t)

unfoldable pub is_empty : List ℕ → Bool
is_empty [] = true
is_empty (c ∷ cs) = false

unfoldable pub extract_from :
    Env → ℕ → ℕ → Extraction → List ℕ → VoIpSessions → Outcome VoIpSessions
extract_from env now ip x [] t = done t
extract_from env now ip x (c ∷ cs) t =
    if in_error_state x
    then done t
    else store_round env now ip (is_empty cs) (url_step x c) t >>= λ r.
        extract_from env now ip r.0 cs r.1

-- The text after `Trim`.
unfoldable pub url_extraction :
    Env → ℕ → (text : List ℕ) → (ip : ℕ) → VoIpSessions → Outcome VoIpSessions
url_extraction env now text ip t = extract_from env now ip extraction_init text t

unfoldable pub is_matched_local_or_remote_ip : ℕ → VoIpSession → Bool
is_matched_local_or_remote_ip ip s = ip == s.local_ip || ip == s.remote_ip

-- The session of the endpoint with the latest packet, the first of them where several are the latest.
unfoldable pub latest_on : ℕ → (ℕ → VoIpSession) → (latest : ℕ) → Option ℕ → List ℕ → Option ℕ
latest_on ip heap latest chosen [] = chosen
latest_on ip heap latest chosen (i ∷ is) =
    let s = heap i in
    let newer =
      is_matched_local_or_remote_ip ip s && ltb 0 s.num_rtp_packets && ltb latest s.last_updated in
    latest_on ip heap (if newer then s.last_updated else latest) (if newer then some i else chosen)
      is

unfoldable pub report_on_demand_marker_by_ip : ℕ → VoIpSessions → VoIpSessions
report_on_demand_marker_by_ip ip t = elim (latest_on ip t.heap 0 none (values t.by_ip_and_port)) [
  | none ↦ t
  | some i ↦
      call i (mark_as_on_demand (codes "both")) (modify i (λ s. record s { keep_rtp = true }) t)
]
