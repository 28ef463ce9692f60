-- ===== src/Voip/Commands.antt =====
-- The commands on captures of orkaudio/audiocaptureplugins/voip/VoIpSession.cpp: `StartCapture`,
-- `PauseCapture` and `StopCapture`, each by party, by the recorder's ID of the call and by the native one,
-- with `AlphaCounter::GetNext` of orkbasecxx/Utils.h.
pub mod Keeps
use orekacxx.Common.{
  ℕ, ◌+◌, ◌*◌, ◌/◌, ◌%◌, ◌^◌, Bool, true, false, List, [], ◌∷◌, Option, none, some, leb,
  if◌then◌else◌,
}
use orekacxx.Serializers.Chars.{codes}
use orekacxx.Voip.OrderedMap.{insert, values, by_number, by_text}
use orekacxx.Voip.Session.{
  Env, VoIpSession, ork_uid_matches, party_matches, native_call_id_matches, mark_as_on_demand,
  construct, copy_metadata_to_new_session,
}
use orekacxx.Voip.Tables.{VoIpSessions, modify, call}
use orekacxx.Voip.Stops.{stop}

unfoldable pub next_counter : ℕ → ℕ
next_counter c = if leb (26 ^ 4) (c + 1) then 0 else c + 1

unfoldable pub counter_letters : ℕ → List ℕ
counter_letters c =
    let remains = c % 26 ^ 3 in
    let remains2 = remains % 26 ^ 2 in
    (c / 26 ^ 3 + 65) ∷ (remains / 26 ^ 2 + 65) ∷ (remains2 / 26 + 65) ∷ (remains2 % 26 + 65) ∷ []

-- A new session, in the first fresh cell; `now` is in microseconds.
unfoldable pub create : Env → ℕ → VoIpSessions → VoIpSessions
create env now t =
    let counter = next_counter t.alpha_counter in
    modify t.next_id (construct env now (counter_letters counter))
      (record t { next_id = t.next_id + 1; alpha_counter = counter })

-- The loop over the media addresses, up to the first session that matches.
unfoldable pub first_matching : (VoIpSession → Bool) → (ℕ → VoIpSession) → List ℕ → Option ℕ
first_matching matches heap [] = none
first_matching matches heap (i ∷ is) =
    if matches (heap i) then some i else first_matching matches heap is

unfoldable pub matching : (VoIpSession → Bool) → VoIpSessions → Option ℕ
matching matches t = first_matching matches t.heap (values t.by_ip_and_port)

-- The tables and the recorder's ID of the session, which is empty if none matches.
unfoldable pub start_matching : (VoIpSession → Bool) → List ℕ → VoIpSessions → VoIpSessions × List ℕ
start_matching matches side t = elim (matching matches t) [
  | none ↦ (t, [])
  | some i ↦ (
    call i (mark_as_on_demand side) (modify i (λ s. record s { keep_rtp = true }) t),
    (t.heap i).ork_uid,
  )
]

unfoldable pub pause_matching : (VoIpSession → Bool) → VoIpSessions → VoIpSessions × List ℕ
pause_matching matches t = elim (matching matches t) [
  | none ↦ (t, [])
  | some i ↦ (modify i (λ s. record s { keep_rtp = false }) t, (t.heap i).ork_uid)
]

-- The numbers in the text that `StopCapture` gives back.
pub record Qos : Type 0 where
  pub num_pkts : ℕ
  pub num_missing_pkts : ℕ
  pub num_seq_gaps : ℕ
  pub max_seq_gap : ℕ

unfoldable pub qos_of : VoIpSession → Qos
qos_of s = record {
  num_pkts = s.num_rtp_packets;
  num_missing_pkts = s.rtp_num_missing_pkts;
  num_seq_gaps = s.rtp_num_seq_gaps;
  max_seq_gap = s.highest_rtp_seq_num_delta;
}

-- The entries of a new session, at the ends of both maps' insertions.
unfoldable pub enter : ℕ → VoIpSessions → VoIpSessions
enter i t = record t {
  by_ip_and_port = insert (t.heap i).ip_and_port i t.by_ip_and_port;
  by_call_id = insert (t.heap i).call_id i t.by_call_id;
}

-- A session is stopped, and a new one with its metadata takes its place.
unfoldable pub replace : Env → ℕ → ℕ → VoIpSessions → VoIpSessions
replace env now i t =
    let u = create env now t in
    let v = modify t.next_id (copy_metadata_to_new_session (u.heap i)) u in
    enter t.next_id (stop env (now / 1000000) i v)

unfoldable pub stop_matching :
    Env → ℕ → (VoIpSession → Bool) → VoIpSessions → VoIpSessions × Option Qos × List ℕ
stop_matching env now matches t = elim (matching matches t) [
  | none ↦ (t, none, [])
  | some i ↦ let u = replace env now i t in (u, some (qos_of (u.heap i)), (t.heap i).ork_uid)
]

unfoldable pub start_capture : Env → (party side : List ℕ) → VoIpSessions → VoIpSessions × List ℕ
start_capture env party side t = start_matching (party_matches env party) side t

unfoldable pub start_capture_orkuid : Env → (uid side : List ℕ) → VoIpSessions → VoIpSessions
start_capture_orkuid env uid side t = (start_matching (ork_uid_matches env uid) side t).0

unfoldable pub start_capture_native_call_id :
    Env → (id side : List ℕ) → VoIpSessions → VoIpSessions × List ℕ
start_capture_native_call_id env id side t = start_matching (native_call_id_matches env id) side t

unfoldable pub pause_capture : Env → List ℕ → VoIpSessions → VoIpSessions × List ℕ
pause_capture env party t = pause_matching (party_matches env party) t

unfoldable pub pause_capture_orkuid : Env → List ℕ → VoIpSessions → VoIpSessions
pause_capture_orkuid env uid t = (pause_matching (ork_uid_matches env uid) t).0

unfoldable pub pause_capture_native_call_id : Env → List ℕ → VoIpSessions → VoIpSessions × List ℕ
pause_capture_native_call_id env id t = pause_matching (native_call_id_matches env id) t

unfoldable pub stop_capture : Env → ℕ → List ℕ → VoIpSessions → VoIpSessions × Option Qos × List ℕ
stop_capture env now party t = stop_matching env now (party_matches env party) t

unfoldable pub stop_capture_orkuid : Env → ℕ → List ℕ → VoIpSessions → VoIpSessions × Option Qos
stop_capture_orkuid env now uid t =
    let r = stop_matching env now (ork_uid_matches env uid) t in (r.0, r.1)

unfoldable pub stop_capture_native_call_id :
    Env → ℕ → List ℕ → VoIpSessions → VoIpSessions × Option Qos × List ℕ
stop_capture_native_call_id env now id t = stop_matching env now (native_call_id_matches env id) t
