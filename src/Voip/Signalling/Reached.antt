-- ===== src/Voip/Signalling/Reached.antt =====
-- The tables of sessions that the operations of VoIpSession.cpp can reach from the empty ones.
use orekacxx.Common.{◌==◌}
use orekacxx.Voip.OrderedMap.Laws.{erase-Distinct, find-erase_number}
use orekacxx.Voip.Invites.Anchored.{Anchored, modify-IsValid}
use orekacxx.Common.{
  ℕ, ◌%◌, ◌^◌, ◌<◌, ◌≡◌, refl, not, List, Bool-cases, Option-cases, inl, inr, arith, if-both, some,
}
use orekacxx.Serializers.Chars.{codes, str_eq}
use orekacxx.Voip.OrderedMap.{find, by_text, by_number, erase}
use orekacxx.Voip.Session.{
  Env, VoIpSession, SipInvite, CaptureEvent, party_matches, ork_uid_matches, native_call_id_matches,
}
use orekacxx.Voip.Tables.{VoIpSessions, SipRefer, sessions_init, save_local_party_map, modify}
use orekacxx.Voip.Tracked.{tracked, Quiet-trans, call-Quiet, report-Quiet}
use orekacxx.Voip.Stops.{stop, stop_all, hoover, set_media_address}
use orekacxx.Voip.Valid.{IsValid, Quiet-IsValid}
use orekacxx.Voip.Valid.Stopped.{stop-IsValid}
use orekacxx.Voip.Valid.Transfers.{set_media_address-IsValid, set_media_address_next}
use orekacxx.Voip.Valid.Expired.{hoover-IsValid}
use orekacxx.Voip.Commands.{
  create, start_capture, start_capture_orkuid, start_capture_native_call_id, pause_capture,
  pause_capture_orkuid, pause_capture_native_call_id, stop_capture, stop_capture_orkuid,
  stop_capture_native_call_id,
}
use orekacxx.Voip.Commands.Keeps.{
  start_matching-IsValid, pause_matching-IsValid, stop_matching-IsValid, create-IsValid,
}
use orekacxx.Voip.Invites.{report_sip_invite, report_sip_subscribe}
use orekacxx.Voip.Invites.Keeps.{report_sip_invite-IsValid}
use orekacxx.Common.Outcome.{done}
use orekacxx.Voip.UrlExtraction.{url_extraction, report_on_demand_marker_by_ip}
use orekacxx.Voip.UrlExtraction.Keeps.{url_extraction-Quiet, report_on_demand_marker_by_ip-Quiet}
use orekacxx.Voip.Signalling.{
  SipFailureMessageInfo, SipSessionProgressInfo, Sip200OkInfo, SipByeInfo, report_sip_error_packet,
  report_sip_session_progress, report_sip_302_moved_temporarily, report_sip_200_ok, report_sip_bye,
  report_sip_refer, session_report_sip_bye, takes_address,
}

module _ (env : Env) (now : ℕ) where
  error-IsValid :
      (info : SipFailureMessageInfo) (t : VoIpSessions)
      → IsValid env t
      → IsValid env (report_sip_error_packet env now info t)
  unfolding report_sip_error_packet
  error-IsValid info t v = elim (Option-cases (find info.call_id t.by_call_id)) [
    | inl unknown ↦ rw (report_sip_error_packet, unknown) v
    | inr (i, there) ↦ elim (Bool-cases (str_eq info.error_code (codes "407"))) [
      | inl asks ↦ rw (report_sip_error_packet, there, asks) v
      | inr fails ↦
          rw (report_sip_error_packet, there, fails)
            (stop-IsValid env now i _ (Quiet-IsValid env t _ (report-Quiet i _ t) v))
    ]
  ]

  progress-IsValid :
      (info : SipSessionProgressInfo) (t : VoIpSessions)
      → IsValid env t
      → IsValid env (report_sip_session_progress env now info t)
  unfolding report_sip_session_progress
  progress-IsValid info t v = elim (Option-cases (find info.call_id t.by_call_id)) [
    | inl unknown ↦ rw (report_sip_session_progress, unknown) v
    | inr (i, there) ↦
        let known = v.known_call info.call_id i there in
        let first =
          set_media_address-IsValid env now i info.media_ip (info.media_port % 2 ^ 16) t v known in
        rw (report_sip_session_progress, there)
          (if-both (IsValid env) env.sip_track_on_sender
            (set_media_address-IsValid env now i info.sender_ip _ _ first (
              rw (set_media_address_next env now i info.media_ip (info.media_port % 2 ^ 16) t)
                known))
            first)
  ]

  ok-IsValid :
      (info : Sip200OkInfo) (t : VoIpSessions)
      → IsValid env t
      → IsValid env (report_sip_200_ok env now info t)
  unfolding report_sip_200_ok
  ok-IsValid info t v = elim (Option-cases (find info.call_id t.by_call_id)) [
    | inl unknown ↦ rw (report_sip_200_ok, unknown) v
    | inr (i, there) ↦ elim (Bool-cases (takes_address env info (t.heap i))) [
      | inl takes ↦
          rw (report_sip_200_ok, there, takes)
            (set_media_address-IsValid env now i info.media_ip _ t v (v.known_call _ i there))
      | inr leaves ↦ rw (report_sip_200_ok, there, leaves) v
    ]
  ]

  abbrev SameTracked : VoIpSession → VoIpSession × List CaptureEvent → Type 0
  SameTracked s r = tracked r.0 ≡ tracked s

  bye-tracked :
      (t : VoIpSessions) (bye : SipByeInfo) (s : VoIpSession)
      → tracked (session_report_sip_bye env t bye s).0 ≡ tracked s
  unfolding session_report_sip_bye tracked
  bye-tracked t bye s = if-both (SameTracked s) (not env.dahdi_intercept) refl (
      if-both (SameTracked s) (env.compare_no_case s.local_party (codes "s")) refl
        (if-both (SameTracked s) (env.compare_no_case s.remote_party (codes "s")) refl refl))

  bye-IsValid :
      (bye : SipByeInfo) (t : VoIpSessions)
      → IsValid env t
      → IsValid env (report_sip_bye env now bye t)
  unfolding report_sip_bye
  bye-IsValid bye t v = elim (Option-cases (find bye.call_id t.by_call_id)) [
    | inl unknown ↦ rw (report_sip_bye, unknown) v
    | inr (i, there) ↦
        rw (report_sip_bye, there)
          (stop-IsValid env now i _
            (Quiet-IsValid env t _ (call-Quiet i _ t (bye-tracked t bye (t.heap i))) v))
  ]

  refer-IsValid :
      (id : List ℕ) (refer : SipRefer) (t : VoIpSessions)
      → IsValid env t
      → IsValid env (report_sip_refer id refer t)
  unfolding report_sip_refer
  refer-IsValid id refer t v = elim (Option-cases (find id t.by_call_id)) [
    | inl unknown ↦ rw (report_sip_refer, unknown) v
    | inr (i, there) ↦
        rw (report_sip_refer, there)
          (Quiet-IsValid env t _
            (Quiet-trans _ _ _
              (record { addresses = refl; calls = refl; next = refl; sessions = λ j. refl })
              (report-Quiet i _ _))
            v)
  ]

  moved-IsValid :
      (contact to : List ℕ) (t : VoIpSessions)
      → IsValid env t
      → IsValid env (report_sip_302_moved_temporarily contact to t)
  unfolding report_sip_302_moved_temporarily save_local_party_map
  moved-IsValid contact to t v =
      Quiet-IsValid env t _
        (record { addresses = refl; calls = refl; next = refl; sessions = λ j. refl }) v

find-erased : (a b i : ℕ) (m : List (ℕ × ℕ)) → find b (erase a m) ≡ some i → find b m ≡ some i
find-erased a b i m h = elim (Bool-cases (a == b)) [
  | inl gone ↦ absurd (ground (arith, h, find-erase_number b a m, gone))
  | inr other ↦ ground (arith, h, find-erase_number b a m, other)
]

-- An address that is erased from the map alone.
erase-IsValid :
    (env : Env) (a : ℕ) (t : VoIpSessions)
    → IsValid env t
    → IsValid env (record t { by_ip_and_port = erase a t.by_ip_and_port })
erase-IsValid env a t v = record {
  sound = v.sound;
  mapped = λ b i h. v.mapped b i (find-erased a b i t.by_ip_and_port h);
  known = λ b i h. v.known b i (find-erased a b i t.by_ip_and_port h);
  called = v.called;
  known_call = v.known_call;
  addresses = erase-Distinct a t.by_ip_and_port v.addresses;
  calls = v.calls;
}

-- One operation of the recorder on the tables; `now` is in seconds, or where a session is made or takes
-- another's place in microseconds. `changes` stands for what the packets of RTP, holds and the like make
-- of a session: anything but another call ID or other media addresses. `redirects` is the erasure of a
-- media address in ReportRtpPacket, which with `changes`, `stops`, `media_address` and `creates` makes up
-- that operation where it finds no session of Skinny.
pub data Step (env : Env) (now : ℕ) (t : VoIpSessions) : VoIpSessions → Type 0 where
  media_address :
      (i ip port : ℕ) → i < t.next_id → Step env now t (set_media_address env now i ip port t)
  stops : (i : ℕ) → Step env now t (stop env now i t)
  hoovers : (given : ℕ) → Step env now t (hoover env now given t)
  stops_all : Step env now t (stop_all env now t)
  changes :
      (i : ℕ) (s : VoIpSession)
      → Anchored (tracked (t.heap i)) (tracked s)
      → Step env now t (modify i (λ r. s) t)
  redirects : (a : ℕ) → Step env now t (record t { by_ip_and_port = erase a t.by_ip_and_port })
  creates : Step env now t (create env now t)
  sip_invite : (inv : SipInvite) → Step env now t (report_sip_invite env now inv t)
  sip_subscribe : (id : List ℕ) → Step env now t (report_sip_subscribe id t)
  extracts :
      (ip : ℕ) (text : List ℕ) (u : VoIpSessions)
      → url_extraction env now text ip t ≡ done u
      → Step env now t u
  marks : (ip : ℕ) → Step env now t (report_on_demand_marker_by_ip ip t)
  sip_error :
      (info : SipFailureMessageInfo) → Step env now t (report_sip_error_packet env now info t)
  sip_progress :
      (info : SipSessionProgressInfo) → Step env now t (report_sip_session_progress env now info t)
  sip_302 : (contact to : List ℕ) → Step env now t (report_sip_302_moved_temporarily contact to t)
  sip_200_ok : (info : Sip200OkInfo) → Step env now t (report_sip_200_ok env now info t)
  sip_bye : (bye : SipByeInfo) → Step env now t (report_sip_bye env now bye t)
  sip_refer : (id : List ℕ) (refer : SipRefer) → Step env now t (report_sip_refer id refer t)
  starts : (party side : List ℕ) → Step env now t (start_capture env party side t).0
  starts_orkuid : (uid side : List ℕ) → Step env now t (start_capture_orkuid env uid side t)
  starts_native : (id side : List ℕ) → Step env now t (start_capture_native_call_id env id side t).0
  pauses : (party : List ℕ) → Step env now t (pause_capture env party t).0
  pauses_orkuid : (uid : List ℕ) → Step env now t (pause_capture_orkuid env uid t)
  pauses_native : (id : List ℕ) → Step env now t (pause_capture_native_call_id env id t).0
  stops_party : (party : List ℕ) → Step env now t (stop_capture env now party t).0
  stops_orkuid : (uid : List ℕ) → Step env now t (stop_capture_orkuid env now uid t).0
  stops_native : (id : List ℕ) → Step env now t (stop_capture_native_call_id env now id t).0

Step-IsValid :
    (env : Env) (now : ℕ) (t u : VoIpSessions) → Step env now t u → IsValid env t → IsValid env u
unfolding report_sip_subscribe stop_all start_capture start_capture_orkuid
    start_capture_native_call_id pause_capture pause_capture_orkuid pause_capture_native_call_id
    stop_capture stop_capture_orkuid stop_capture_native_call_id
Step-IsValid env now t u (media_address i ip port k) v =
    set_media_address-IsValid env now i ip port t v k
Step-IsValid env now t u (stops i) v = stop-IsValid env now i t v
Step-IsValid env now t u (hoovers given) v = hoover-IsValid env now given t v
Step-IsValid env now t u stops_all v = hoover-IsValid env now _ t v
Step-IsValid env now t u (changes i s h) v = modify-IsValid env i (λ r. s) t h v
Step-IsValid env now t u (redirects a) v = erase-IsValid env a t v
Step-IsValid env now t u creates v = create-IsValid env now t v
Step-IsValid env now t u (sip_invite inv) v = report_sip_invite-IsValid env now inv t v
Step-IsValid env now t u (sip_subscribe id) v =
    Quiet-IsValid env t _
      (record { addresses = refl; calls = refl; next = refl; sessions = λ j. refl }) v
Step-IsValid env now t u (extracts ip text w h) v =
    Quiet-IsValid env t _ (url_extraction-Quiet env now ip text t _ h) v
Step-IsValid env now t u (marks ip) v =
    Quiet-IsValid env t _ (report_on_demand_marker_by_ip-Quiet ip t) v
Step-IsValid env now t u (sip_error info) v = error-IsValid env now info t v
Step-IsValid env now t u (sip_progress info) v = progress-IsValid env now info t v
Step-IsValid env now t u (sip_302 contact to) v = moved-IsValid env now contact to t v
Step-IsValid env now t u (sip_200_ok info) v = ok-IsValid env now info t v
Step-IsValid env now t u (sip_bye bye) v = bye-IsValid env now bye t v
Step-IsValid env now t u (sip_refer id refer) v = refer-IsValid env now id refer t v
Step-IsValid env now t u (starts party side) v =
    start_matching-IsValid env (party_matches env party) side t v
Step-IsValid env now t u (starts_orkuid uid side) v =
    start_matching-IsValid env (ork_uid_matches env uid) side t v
Step-IsValid env now t u (starts_native id side) v =
    start_matching-IsValid env (native_call_id_matches env id) side t v
Step-IsValid env now t u (pauses party) v = pause_matching-IsValid env (party_matches env party) t v
Step-IsValid env now t u (pauses_orkuid uid) v =
    pause_matching-IsValid env (ork_uid_matches env uid) t v
Step-IsValid env now t u (pauses_native id) v =
    pause_matching-IsValid env (native_call_id_matches env id) t v
Step-IsValid env now t u (stops_party party) v =
    stop_matching-IsValid env now (party_matches env party) t v
Step-IsValid env now t u (stops_orkuid uid) v =
    stop_matching-IsValid env now (ork_uid_matches env uid) t v
Step-IsValid env now t u (stops_native id) v =
    stop_matching-IsValid env now (native_call_id_matches env id) t v

-- The tables after any operations from the empty ones, whatever is in memory then.
pub data Reached (env : Env) : VoIpSessions → Type 0 where
  begins : (memory : ℕ → VoIpSession) (counter : ℕ) → Reached env (sessions_init memory counter)
  goes_on : (now : ℕ) (t u : VoIpSessions) → Reached env t → Step env now t u → Reached env u

init-IsValid :
    (env : Env) (memory : ℕ → VoIpSession) (counter : ℕ)
    → IsValid env (sessions_init memory counter)
unfolding find
init-IsValid env memory counter = record {
  sound = λ i h. absurd (omega (arith, h));
  mapped = λ a i h. absurd (ground (arith, h));
  known = λ a i h. absurd (ground (arith, h));
  called = λ c i h. absurd (ground (arith, h));
  known_call = λ c i h. absurd (ground (arith, h));
  addresses = tt;
  calls = tt;
}

-- In the tables that any sequence of the steps of `Step` reaches from the empty ones (SIP messages,
-- commands on captures, clean-ups, media addresses set and erased, and changes of a session that keep its
-- call ID and its media addresses), each media address leads to a session that has it and each call ID to
-- a session with that ID, no key stands there twice, no media address of a session is 0, and the latest
-- one is among its addresses if it has any.
pub Reached-IsValid : (env : Env) (t : VoIpSessions) → Reached env t → IsValid env t
Reached-IsValid env t (begins memory counter) = init-IsValid env memory counter
Reached-IsValid env t (goes_on now s u r step) =
    Step-IsValid env now s u step (Reached-IsValid env s r)
