-- ===== src/Voip/Lookups.antt =====
-- The searches of orkaudio/audiocaptureplugins/voip/VoIpSession.cpp through the sessions of one map, in the
-- order of its keys.
use orekacxx.Common.{
  ℕ, Bool, true, false, ◌&&◌, ◌||◌, List, [], ◌∷◌, Option, none, some, ltb, ◌==◌, if◌then◌else◌,
}
use orekacxx.Voip.OrderedMap.{values}
use orekacxx.Voip.Session.{Env, VoIpSession}
use orekacxx.Voip.Tables.{VoIpSessions}
use orekacxx.Voip.Commands.{first_matching}

unfoldable pub find_by_endpoint_ip_using_ip_and_port : ℕ → VoIpSessions → Option ℕ
find_by_endpoint_ip_using_ip_and_port ip t =
    first_matching (λ s. s.end_point_ip == ip) t.heap (values t.by_ip_and_port)

unfoldable pub find_by_endpoint_ip : (ip party_id : ℕ) → VoIpSessions → Option ℕ
find_by_endpoint_ip ip party_id t =
    first_matching
      (λ s. s.end_point_ip == ip && (party_id == 0 || s.skinny_pass_thru_party_id == party_id))
      t.heap (values t.by_call_id)

unfoldable pub find_by_endpoint_ip_and_line_instance : (ip line : ℕ) → VoIpSessions → Option ℕ
find_by_endpoint_ip_and_line_instance ip line t =
    first_matching (λ s. s.end_point_ip == ip && s.skinny_line_instance == line) t.heap
      (values t.by_call_id)

-- The loop that keeps the session of the latest packet so far; one without a packet is kept in any case.
unfoldable pub newest_rtp : ℕ → (ℕ → VoIpSession) → (latest : ℕ) → Option ℕ → List ℕ → Option ℕ
newest_rtp ip heap latest best [] = best
newest_rtp ip heap latest best (i ∷ is) = elim (heap i).last_rtp_packet [
  | none ↦ newest_rtp ip heap latest (if (heap i).end_point_ip == ip then some i else best) is
  | some p ↦
      let newer = (heap i).end_point_ip == ip && ltb latest p.arrival_timestamp in
      newest_rtp ip heap (if newer then p.arrival_timestamp else latest)
        (if newer then some i else best) is
]

unfoldable pub find_newest_rtp_by_endpoint_ip : ℕ → VoIpSessions → Option ℕ
find_newest_rtp_by_endpoint_ip ip t = newest_rtp ip t.heap 0 none (values t.by_ip_and_port)

-- The loop that keeps the newest session that matches, and the first one of the same time.
unfoldable pub newest :
    (VoIpSession → Bool) → (VoIpSession → ℕ) → (ℕ → VoIpSession) → Option ℕ → List ℕ → Option ℕ
newest matches time heap best [] = best
newest matches time heap best (i ∷ is) =
    newest matches time heap
      (if matches (heap i)
        then (elim best [
          | none ↦ some i
          | some j ↦ if ltb (time (heap j)) (time (heap i)) then some i else some j
        ])
        else best)
      is

-- A session without an INVITE would be read through a null pointer; here it does not match.
unfoldable pub sip_find_newest_by_sender_ip : ℕ → VoIpSessions → Option ℕ
sip_find_newest_by_sender_ip ip t =
    newest (λ s. elim s.invite [ none ↦ false | some inv ↦ inv.sender_ip == ip ])
      (λ s. s.sip_last_invite) t.heap none (values t.by_call_id)

-- The ports are compared only if the endpoints are behind network address translation.
unfoldable pub find_newest_by_endpoint : Env → (ip port : ℕ) → VoIpSessions → Option ℕ
find_newest_by_endpoint env ip port t =
    newest
      (λ s.
        s.end_point_ip == ip
        && (if env.skinny_behind_nat then s.end_point_signalling_port == port else true))
      (λ s. s.skinny_last_call_info_time) t.heap none (values t.by_call_id)
