-- ===== src/Voip/Stops.antt =====
-- `VoIpSessions::Stop`, `TaggingSipTransferCalls`, `RemoveFromMediaAddressMap`, `SetMediaAddress` and `Hoover` of
-- orkaudio/audiocaptureplugins/voip/VoIpSession.cpp. `now` is what `time(NULL)` returns.
pub mod Removed
use orekacxx.Common.{
  ℕ, ◌+◌, ◌*◌, ◌/◌, Bool, true, not, ◌&&◌, ◌||◌, List, [], ◌∷◌, ◌++◌, none, some, length, ltb, ◌==◌,
  if◌then◌else◌,
}
use orekacxx.Serializers.Chars.{codes}
use orekacxx.Voip.OrderedMap.{find, erase, insert, values, by_number, by_text}
use orekacxx.Voip.Session.{
  Env, VoIpSession, CaptureEvent, key_value, remote_party, is_sip, is_raw_rtp, is_skinny,
}
use orekacxx.Voip.Tables.{
  VoIpSessions, SipRefer, modify, call, craft_64bit_media_address, find_by_media_address,
  get_local_party_map, session_stop,
}

unfoldable pub is_expired_refer : Env → ℕ → SipRefer → Bool
is_expired_refer env now r = ltb (r.timestamp + env.transfer_time_out) now

-- Does the transfer concern the session of these parties? `creation` is in seconds.
unfoldable pub concerns : Env → ℕ → (from to : List ℕ) → SipRefer → Bool
concerns env creation from to r =
    ltb creation (r.timestamp + 2)
    && env.compare_no_case to r.refer_to_party
    && (env.compare_no_case from r.referred_by_party
        || env.compare_no_case from r.from
        || env.compare_no_case from r.to)

-- What a transfer that concerns it makes of a session.
unfoldable pub tag_session : Env → SipRefer → VoIpSession → VoIpSession × List CaptureEvent
tag_session env r s =
    let tag = key_value (codes "orig-orkuid") r.orig_ork_uid in
    if env.compare_no_case s.remote_party r.referred_by_party
    then (record s { remote_party = r.referred_party }, tag ∷ remote_party r.referred_party ∷ [])
    else (s, tag ∷ [])

-- The loop over the transfers.
unfoldable pub tag_refers :
    Env → ℕ → ℕ → (from to : List ℕ) → List SipRefer → VoIpSessions → VoIpSessions
tag_refers env now i from to [] t = t
tag_refers env now i from to (r ∷ rs) t = tag_refers env now i from to rs (
    if is_expired_refer env now r
    then t
    else if concerns env ((t.heap i).creation_date / 1000000) from to r
    then call i (tag_session env r) t
    else t)

unfoldable pub unexpired : Env → ℕ → List SipRefer → List SipRefer
unexpired env now [] = []
unexpired env now (r ∷ rs) =
    if is_expired_refer env now r then unexpired env now rs else r ∷ unexpired env now rs

-- A SIP session has the INVITE that made it: only ReportSipInvite sets that protocol, just before it hands
-- over the INVITE, or StopCapture copies both. Without one the source would read through a null pointer.
unfoldable pub tagging_sip_transfer_calls : Env → ℕ → ℕ → VoIpSessions → VoIpSessions
tagging_sip_transfer_calls env now i t =
    let s = t.heap i in
    if not (is_sip s) || ltb (length t.sip_refer_list) 1 || ltb s.num_rtp_packets 300
    then t
    else (elim s.invite [
      | none ↦ t
      | some invite ↦
          tag_refers env now i (get_local_party_map invite.from t) (get_local_party_map invite.to t)
            t.sip_refer_list (record t { sip_refer_list = unexpired env now t.sip_refer_list })
    ])

-- On the map alone, which is all that it changes.
unfoldable pub remove_from_media_address_map : ℕ → ℕ → List (ℕ × ℕ) → List (ℕ × ℕ)
remove_from_media_address_map i address m =
    if address == 0
    then m
    else (elim (find address m) [ none ↦ m | some j ↦ if j == i then erase address m else m ])

unfoldable pub remove_each : ℕ → List ℕ → List (ℕ × ℕ) → List (ℕ × ℕ)
remove_each i [] m = m
remove_each i (a ∷ rest) m = remove_each i rest (remove_from_media_address_map i a m)

-- A session without a call ID has no entry to erase.
unfoldable pub erase_call : List ℕ → List (List ℕ × ℕ) → List (List ℕ × ℕ)
erase_call id m = if ltb 0 (length id) then erase id m else m

-- What `Stop` does after the session itself has stopped.
unfoldable pub forget : ℕ → VoIpSessions → VoIpSessions
forget i t =
    let s = t.heap i in
    modify i (λ s. record s { media_addresses = [] })
      (record t {
        by_call_id = erase_call s.call_id t.by_call_id;
        by_ip_and_port = remove_each i s.media_addresses t.by_ip_and_port;
      })

unfoldable pub stop : Env → ℕ → ℕ → VoIpSessions → VoIpSessions
stop env now i t = forget i (session_stop env i (tagging_sip_transfer_calls env now i t))

-- Does a session have to leave its media address to another one?
unfoldable pub gives_way : Env → (old new : VoIpSession) → Bool
gives_way env old new =
    is_raw_rtp old
    || old.num_rtp_packets == 0
    || is_skinny new && env.skinny_allow_transfer
    || is_sip new && env.sip_allow_transfer

unfoldable pub map_address : Env → (i address ip : ℕ) → VoIpSessions → VoIpSessions
map_address env i address ip t =
    let t' =
      if env.allow_multiple_mappings
      then t
      else modify i (λ s. record s { media_addresses = [] })
          (record t {
            by_ip_and_port =
                remove_from_media_address_map i (t.heap i).ip_and_port t.by_ip_and_port;
          }) in
    modify i
      (λ s. record s {
        media_addresses = s.media_addresses ++ address ∷ [];
        ip_and_port = address;
        rtp_ip = ip;
      })
      (record t' { by_ip_and_port = insert address i t'.by_ip_and_port })

-- The checks of the port and of the address.
unfoldable pub is_accepted : Env → (ip port : ℕ) → Bool
is_accepted env ip port =
    not (port == 0)
    && not (env.blocked ip)
    && (elim env.allowed [ none ↦ true | some matches ↦ matches ip ])

unfoldable pub set_media_address : Env → ℕ → (i ip port : ℕ) → VoIpSessions → VoIpSessions
set_media_address env now i ip port t =
    let address = craft_64bit_media_address env ip port in
    if is_accepted env ip port
    then (elim (find_by_media_address env ip port t) [
      | none ↦ map_address env i address ip t
      | some j ↦
          let old = t.heap j in
          if env.compare_no_case old.tracking_id (t.heap i).tracking_id
          then t
          else if gives_way env old (t.heap i)
          then (map_address env i address ip (
              if is_raw_rtp old then stop env now j t else record t {
                by_ip_and_port = remove_from_media_address_map j address t.by_ip_and_port;
              }))
          else t
    ])
    else t

unfoldable pub signalling_time_out : Env → VoIpSession → ℕ
signalling_time_out env s =
    if s.on_hold
    then env.on_hold_timeout
    else if ltb 0 s.num_rtp_packets || ltb 0 s.num_ignored_rtp_packets
    then env.signalling_timeout
    else env.initial_timeout

-- The tests of the two loops of `Hoover`.
unfoldable pub is_over_on_address : Env → ℕ → VoIpSession → Bool
is_over_on_address env now s =
    ltb (s.last_updated + (if is_raw_rtp s then env.rtp_timeout else signalling_time_out env s)) now

unfoldable pub is_over_on_call : Env → ℕ → VoIpSession → Bool
is_over_on_call env now s = ltb (s.last_updated + signalling_time_out env s) now

-- `toDismiss`, of the sessions that a map leads to.
unfoldable pub to_dismiss : (ℕ → Bool) → List ℕ → List ℕ
to_dismiss is_over [] = []
to_dismiss is_over (i ∷ is) = if is_over i then i ∷ to_dismiss is_over is else to_dismiss is_over is

unfoldable pub dismiss : Env → ℕ → List ℕ → VoIpSessions → VoIpSessions
dismiss env now [] t = t
dismiss env now (i ∷ is) t = dismiss env now is (stop env now i t)

-- `Hoover` is given a time of its own, `now`; `clock` is what `time(NULL)` returns meanwhile.
unfoldable pub hoover_addresses : Env → (clock now : ℕ) → VoIpSessions → VoIpSessions
hoover_addresses env clock now t =
    dismiss env clock
      (to_dismiss (λ i. is_over_on_address env now (t.heap i)) (values t.by_ip_and_port)) t

unfoldable pub hoover_calls : Env → (clock now : ℕ) → VoIpSessions → VoIpSessions
hoover_calls env clock now t =
    dismiss env clock (to_dismiss (λ i. is_over_on_call env now (t.heap i)) (values t.by_call_id)) t

unfoldable pub hoover : Env → (clock now : ℕ) → VoIpSessions → VoIpSessions
hoover env clock now t = hoover_calls env clock now (hoover_addresses env clock now t)

-- The time that it forces all sessions to be over at is `Hoover`'s alone.
unfoldable pub stop_all : Env → (clock : ℕ) → VoIpSessions → VoIpSessions
stop_all env clock t = hoover env clock (clock + 2 * env.on_hold_timeout) t
