-- ===== src/Voip/Invites/Anchored.antt =====
-- What `ReportSipInvite` of VoIpSession.cpp leaves of a session as it is.
use orekacxx.Common.{
  ℕ, ◌≡◌, refl, sym, ap, ◌∙◌, true, ◌&&◌, List, some, Bool-cases, inl, inr, if-both, arith, ◌==◌,
  ==_iff, ltb, length,
}
use orekacxx.Serializers.Chars.{contains}
use orekacxx.Voip.OrderedMap.{find, by_text, by_number}
use orekacxx.Voip.Session.{
  Env, VoIpSession, SipInvite, CaptureEvent, go_on_hold, go_off_hold, prot_raw_rtp,
}
use orekacxx.Voip.Tables.{VoIpSessions, modify, call}
use orekacxx.Voip.Tracked.{
  Tracked, tracked, Quiet, Quiet-refl, Quiet-trans, report-Quiet, modify-Quiet, call-Quiet,
}
use orekacxx.Voip.Valid.{IsValid, Quiet-IsValid}
use orekacxx.Voip.Commands.Keeps.{same-Sound}
use orekacxx.Voip.Invites.{
  self_call, note_remote_party, take_invite, note_invite, note_fields, note_demand, asks_on_demand,
  session_report_sip_invite, try_session_call_pick_up, gather, is_subscribed, is_first,
}

-- What an INVITE leaves of a session as it is.
pub record Anchored (s s' : Tracked) : Type 0 where
  pub media : s'.media_addresses ≡ s.media_addresses
  pub latest : s'.ip_and_port ≡ s.ip_and_port
  pub named : s'.call_id ≡ s.call_id

pub Anchored-refl : (s : Tracked) → Anchored s s
Anchored-refl s = record { media = refl; latest = refl; named = refl }

pub Anchored-of : (s s' : Tracked) → s' ≡ s → Anchored s s'
Anchored-of s s' e = rw e (Anchored-refl s)

pub modify-heap :
    (i j : ℕ) (f : VoIpSession → VoIpSession) (t : VoIpSessions)
    → Anchored (tracked (t.heap i)) (tracked (f (t.heap i)))
    → Anchored (tracked (t.heap j)) (tracked ((modify i f t).heap j))
unfolding modify
modify-heap i j f t h = elim (Bool-cases (j == i)) [
  | inl e ↦ rw (e, (==_iff j i).0 e) h
  | inr e ↦ rw e (Anchored-refl _)
]

pub modify_by :
    (i : ℕ) (f : VoIpSession → VoIpSession) (t : VoIpSessions)
    → ((modify i f t).by_ip_and_port ≡ t.by_ip_and_port)
      × ((modify i f t).by_call_id ≡ t.by_call_id)
      × ((modify i f t).next_id ≡ t.next_id)
unfolding modify
modify_by i f t = (refl, refl, refl)

pub invite-tracked :
    (inv : SipInvite) (s : VoIpSession) → tracked (record s { invite = some inv }) ≡ tracked s
unfolding tracked
invite-tracked inv s = refl

pub picked-tracked : (s : VoIpSession) → tracked (record s { is_call_pick_up = true }) ≡ tracked s
unfolding tracked
picked-tracked s = refl

-- A step that keeps the tables and anchors the sessions keeps them valid.
pub Anchored-IsValid :
    (env : Env) (t u : VoIpSessions)
    → u.by_ip_and_port ≡ t.by_ip_and_port
    → u.by_call_id ≡ t.by_call_id
    → u.next_id ≡ t.next_id
    → ((j : ℕ) → Anchored (tracked (t.heap j)) (tracked (u.heap j)))
    → IsValid env t
    → IsValid env u
Anchored-IsValid env t u a c n h v = record {
  sound = λ j k. same-Sound env _ _ (h j).media (h j).latest (v.sound j (omega (arith, n, k)));
  mapped =
      λ b j k. ap (λ xs. contains b xs) (h j).media ∙ v.mapped b j (ap (λ m. find b m) (sym a) ∙ k);
  known = λ b j k. rw n (v.known b j (ap (λ m. find b m) (sym a) ∙ k));
  called = λ d j k. (h j).named ∙ v.called d j (ap (λ m. find d m) (sym c) ∙ k);
  known_call = λ d j k. rw n (v.known_call d j (ap (λ m. find d m) (sym c) ∙ k));
  addresses = rw a v.addresses;
  calls = rw c v.calls;
}

pub modify-IsValid :
    (env : Env) (i : ℕ) (f : VoIpSession → VoIpSession) (t : VoIpSessions)
    → Anchored (tracked (t.heap i)) (tracked (f (t.heap i)))
    → IsValid env t
    → IsValid env (modify i f t)
modify-IsValid env i f t h v =
    Anchored-IsValid env t (modify i f t) (modify_by i f t).0 (modify_by i f t).1
      (modify_by i f t).2 (λ j. modify-heap i j f t h) v

pub call-IsValid :
    (env : Env) (i : ℕ) (f : VoIpSession → VoIpSession × List CaptureEvent) (t : VoIpSessions)
    → Anchored (tracked (t.heap i)) (tracked (f (t.heap i)).0)
    → IsValid env t
    → IsValid env (call i f t)
unfolding call
call-IsValid env i f t h v =
    Quiet-IsValid env (modify i (λ s. (f s).0) t) _ (report-Quiet i (f (t.heap i)).1 _)
      (modify-IsValid env i (λ s. (f s).0) t h v)

pub call_next :
    (i : ℕ) (f : VoIpSession → VoIpSession × List CaptureEvent) (t : VoIpSessions)
    → (call i f t).next_id ≡ t.next_id
unfolding call
call_next i f t = (report-Quiet i _ _).next ∙ (modify_by i (λ s. (f s).0) t).2

pub self_call-tracked :
    (env : Env) (t : VoIpSessions) (inv : SipInvite) (s : VoIpSession)
    → tracked (self_call env t inv s).0 ≡ tracked s
unfolding self_call tracked
self_call-tracked env t inv s =
    if-both (λ (r : VoIpSession × List CaptureEvent). tracked r.0 ≡ tracked s)
      (env.compare_no_case inv.from inv.to && ltb 0 (length inv.contact)) refl refl

pub note_invite-tracked :
    (inv : SipInvite) (s : VoIpSession) → tracked (note_invite inv s) ≡ tracked s
unfolding note_invite tracked
note_invite-tracked inv s = refl

pub note_fields-tracked :
    (inv : SipInvite) (s : VoIpSession) → tracked (note_fields inv s) ≡ tracked s
unfolding note_fields tracked
note_fields-tracked inv s = refl

abbrev pub SameTracked : VoIpSession → VoIpSession → Type 0
SameTracked s r = tracked r ≡ tracked s

pub note_demand-tracked : (env : Env) (s : VoIpSession) → tracked (note_demand env s) ≡ tracked s
unfolding note_demand tracked
note_demand-tracked env s = if-both (SameTracked s) (asks_on_demand env s) refl refl

pub note_remote_party-tracked :
    (env : Env) (inv : SipInvite) (s : VoIpSession)
    → tracked (note_remote_party env inv s) ≡ tracked s
unfolding note_remote_party tracked
note_remote_party-tracked env inv s =
    if-both (SameTracked s) _
      (if-both (SameTracked s) (length s.sip_remote_party == 0) refl
        (if-both (SameTracked s) _ refl refl))
      refl

pub take_invite-tracked :
    (env : Env) (inv : SipInvite) (s : VoIpSession) → tracked (take_invite env inv s) ≡ tracked s
unfolding take_invite
take_invite-tracked env inv s =
    note_demand-tracked env _
    ∙ (note_fields-tracked inv _
        ∙ (note_remote_party-tracked env inv _ ∙ note_invite-tracked inv s))

pub report-tracked :
    (env : Env) (t : VoIpSessions) (inv : SipInvite) (s : VoIpSession)
    → tracked (session_report_sip_invite env t inv s).0 ≡ tracked s
unfolding session_report_sip_invite
report-tracked env t inv s =
    take_invite-tracked env inv _
    ∙ (self_call-tracked env t inv _
        ∙ if-both (λ (r : VoIpSession). tracked r ≡ tracked s) (is_first env s)
            (invite-tracked inv s) refl)

pub pick_up-Quiet :
    (env : Env) (i : ℕ) (id : List ℕ) (t : VoIpSessions)
    → Quiet t (try_session_call_pick_up env i id t)
unfolding try_session_call_pick_up
pick_up-Quiet env i id t =
    if-both (Quiet t) (env.call_pick_up_support && is_subscribed id t.sip_subscribe_map)
      (Quiet-trans _ _ _
        (record { addresses = refl; calls = refl; next = refl; sessions = λ j. refl })
        (modify-Quiet i _ _ (picked-tracked _)))
      (Quiet-refl t)

pub gather-Quiet :
    (env : Env) (i : ℕ) (inv : SipInvite) (t : VoIpSessions) → Quiet t (gather env i inv t)
unfolding gather
gather-Quiet env i inv t =
    Quiet-trans _ _ _ (pick_up-Quiet env i inv.replaces_id t)
      (call-Quiet i _ _ (report-tracked env _ inv _))

pub hold-Anchored :
    (env : Env) (time : ℕ) (s : VoIpSession)
    → Anchored (tracked s) (tracked (go_on_hold env time s).0)
unfolding go_on_hold tracked
hold-Anchored env time s =
    if-both (λ (r : VoIpSession × List CaptureEvent). Anchored (tracked s) (tracked r.0)) s.started
      (record { media = refl; latest = refl; named = refl }) (Anchored-refl _)

pub resume-Anchored :
    (env : Env) (time : ℕ) (s : VoIpSession)
    → Anchored (tracked s) (tracked (go_off_hold env time s).0)
unfolding go_off_hold tracked
resume-Anchored env time s = record { media = refl; latest = refl; named = refl }

pub touch-Anchored :
    (now : ℕ) (s : VoIpSession) → Anchored (tracked s) (tracked (record s { last_updated = now }))
unfolding tracked
touch-Anchored now s = record { media = refl; latest = refl; named = refl }

pub raw-Anchored :
    (s : VoIpSession) → Anchored (tracked s) (tracked (record s { protocol = prot_raw_rtp }))
unfolding tracked
raw-Anchored s = record { media = refl; latest = refl; named = refl }

pub invited-tracked :
    (now : ℕ) (s : VoIpSession) → tracked (record s { sip_last_invite = now }) ≡ tracked s
unfolding tracked
invited-tracked now s = refl
