-- ===== src/Voip/Tracked.antt =====
-- What the tables and their time-outs read of a session, and the operations of
-- orkaudio/audiocaptureplugins/voip/VoIpSession.cpp that leave it alone.
use orekacxx.Common.{
  ℕ, ◌≡◌, refl, ◌∙◌, Bool, not, ◌&&◌, List, [], ◌∷◌, Option, none, some, Bool-cases, inl, inr, ◌==◌,
  if◌then◌else◌, ==_iff, ◌||◌, ◌/◌, ltb, length, Option-cases,
}
use orekacxx.Voip.Session.{Env, VoIpSession, CaptureEvent, ProtocolEnum, LocalSideEnum, is_sip}
use orekacxx.Voip.Tables.{VoIpSessions, SipRefer, modify, report, call, close, finish, session_stop}
use orekacxx.Voip.Stops.{
  tag_session, tag_refers, tagging_sip_transfer_calls, is_expired_refer, concerns,
}

pub record Tracked : Type 0 where
  pub media_addresses : List ℕ
  pub ip_and_port : ℕ
  pub call_id : List ℕ
  pub protocol : ProtocolEnum
  pub last_updated : ℕ
  pub on_hold : Bool
  pub num_rtp_packets : ℕ
  pub num_ignored_rtp_packets : ℕ

unfoldable pub tracked : VoIpSession → Tracked
tracked s = record {
  media_addresses = s.media_addresses;
  ip_and_port = s.ip_and_port;
  call_id = s.call_id;
  protocol = s.protocol;
  last_updated = s.last_updated;
  on_hold = s.on_hold;
  num_rtp_packets = s.num_rtp_packets;
  num_ignored_rtp_packets = s.num_ignored_rtp_packets;
}

-- The tables, and what they read of the sessions, are the same.
pub record Quiet (t t' : VoIpSessions) : Type 0 where
  pub addresses : t'.by_ip_and_port ≡ t.by_ip_and_port
  pub calls : t'.by_call_id ≡ t.by_call_id
  pub next : t'.next_id ≡ t.next_id
  pub sessions : (j : ℕ) → tracked (t'.heap j) ≡ tracked (t.heap j)

pub Quiet-refl : (t : VoIpSessions) → Quiet t t
Quiet-refl t = record { addresses = refl; calls = refl; next = refl; sessions = λ j. refl }

pub Quiet-trans : (t u v : VoIpSessions) → Quiet t u → Quiet u v → Quiet t v
Quiet-trans t u v p q = record {
  addresses = q.addresses ∙ p.addresses;
  calls = q.calls ∙ p.calls;
  next = q.next ∙ p.next;
  sessions = λ j. q.sessions j ∙ p.sessions j;
}

pub report-Quiet : (i : ℕ) (es : List CaptureEvent) (t : VoIpSessions) → Quiet t (report i es t)
unfolding report
report-Quiet i [] t = Quiet-refl t
report-Quiet i (e ∷ es) t =
    Quiet-trans _ _ _ (record { addresses = refl; calls = refl; next = refl; sessions = λ j. refl })
      (report-Quiet i es _)

pub modify-Quiet :
    (i : ℕ) (f : VoIpSession → VoIpSession) (t : VoIpSessions)
    → tracked (f (t.heap i)) ≡ tracked (t.heap i)
    → Quiet t (modify i f t)
unfolding modify
modify-Quiet i f t h = record {
  addresses = refl;
  calls = refl;
  next = refl;
  sessions =
      λ j. elim (Bool-cases (j == i)) [ inl e ↦ rw (e, (==_iff j i).0 e) h | inr e ↦ rw e refl ];
}

pub call-Quiet :
    (i : ℕ) (f : VoIpSession → VoIpSession × List CaptureEvent) (t : VoIpSessions)
    → tracked (f (t.heap i)).0 ≡ tracked (t.heap i)
    → Quiet t (call i f t)
unfolding call
call-Quiet i f t h = Quiet-trans _ _ _ (modify-Quiet i _ t h) (report-Quiet i _ _)

close-tracked :
    (side : LocalSideEnum) (party : Option (List ℕ)) (s : VoIpSession)
    → tracked (close side party s).0 ≡ tracked s
unfolding close tracked
close-tracked side none s = refl
close-tracked side (some party) s = refl

finish-tracked :
    (env : Env) (t : VoIpSessions) (s : VoIpSession) → tracked (finish env t s).0 ≡ tracked s
unfolding finish
finish-tracked env t s = close-tracked _ _ s

pub session_stop-Quiet : (env : Env) (i : ℕ) (t : VoIpSessions) → Quiet t (session_stop env i t)
unfolding session_stop
session_stop-Quiet env i t = elim (Bool-cases ((t.heap i).started && not (t.heap i).stopped)) [
  | inl goes ↦ rw goes (call-Quiet i _ t (finish-tracked env t (t.heap i)))
  | inr over ↦ rw over (Quiet-refl t)
]

tag_session-tracked :
    (env : Env) (r : SipRefer) (s : VoIpSession) → tracked (tag_session env r s).0 ≡ tracked s
unfolding tag_session tracked
tag_session-tracked env r s =
    elim (Bool-cases (env.compare_no_case s.remote_party r.referred_by_party)) [
      | inl e ↦ rw e refl
      | inr e ↦ rw e refl
    ]

tag_refer-Quiet :
    (env : Env) (now i : ℕ) (from to : List ℕ) (r : SipRefer) (t : VoIpSessions)
    → Quiet t (
        if is_expired_refer env now r
        then t
        else if concerns env ((t.heap i).creation_date / 1000000) from to r
        then call i (tag_session env r) t
        else t)
tag_refer-Quiet env now i from to r t = elim (Bool-cases (is_expired_refer env now r)) [
  | inl e ↦ rw e (Quiet-refl t)
  | inr e ↦ elim (Bool-cases (concerns env ((t.heap i).creation_date / 1000000) from to r)) [
    | inl c ↦ rw (e, c) (call-Quiet i _ t (tag_session-tracked env r (t.heap i)))
    | inr c ↦ rw (e, c) (Quiet-refl t)
  ]
]

tag_refers-Quiet :
    (env : Env) (now i : ℕ) (from to : List ℕ) (rs : List SipRefer) (t : VoIpSessions)
    → Quiet t (tag_refers env now i from to rs t)
unfolding tag_refers
tag_refers-Quiet env now i from to [] t = Quiet-refl t
tag_refers-Quiet env now i from to (r ∷ rs) t =
    Quiet-trans _ _ _ (tag_refer-Quiet env now i from to r t)
      (tag_refers-Quiet env now i from to rs _)

pub tagging_sip_transfer_calls-Quiet :
    (env : Env) (now i : ℕ) (t : VoIpSessions) → Quiet t (tagging_sip_transfer_calls env now i t)
unfolding tagging_sip_transfer_calls
tagging_sip_transfer_calls-Quiet env now i t =
    elim (Bool-cases (
      not (is_sip (t.heap i))
      || ltb (length t.sip_refer_list) 1
      || ltb (t.heap i).num_rtp_packets 300)) [
        | inl e ↦ rw e (Quiet-refl t)
        | inr e ↦ elim (Option-cases (t.heap i).invite) [
          | inl none_yet ↦ rw (e, none_yet) (Quiet-refl t)
          | inr (invite, there) ↦
              rw (e, there)
                (Quiet-trans _ _ _
                  (record { addresses = refl; calls = refl; next = refl; sessions = λ j. refl })
                  (tag_refers-Quiet env now i _ _ _ _))
        ]
      ]
