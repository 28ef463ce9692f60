-- ===== src/Voip/Invites/Keeps.antt =====
-- `ReportSipInvite` of VoIpSession.cpp keeps the tables valid.
use orekacxx.Common.{
  ℕ, ◌/◌, ◌<◌, ◌≡◌, refl, ap, ◌∙◌, Bool, false, ◌&&◌, [], Option-cases, inl, inr, if-both, if_false,
  arith, ==_refl,
}
use orekacxx.Voip.OrderedMap.{find, insert, by_text, by_number}
use orekacxx.Voip.OrderedMap.Laws.{find-insert_any_text, insert-Distinct}
use orekacxx.Voip.Session.{construct, Env, SipInvite, go_off_hold}
use orekacxx.Voip.Tables.{
  VoIpSessions, find_by_media_address, craft_64bit_media_address, modify, call,
}
use orekacxx.Voip.Tracked.{tracked, Quiet, Quiet-refl, Quiet-trans, modify-Quiet, call-Quiet}
use orekacxx.Voip.Valid.{IsValid, Quiet-IsValid, empty-Sound}
use orekacxx.Voip.Valid.Transfers.{set_media_address-IsValid, set_media_address_next}
use orekacxx.Voip.Commands.{create}
use orekacxx.Voip.Commands.Keeps.{Grown, Grown-IsValid}
use orekacxx.Voip.Invites.{
  session_report_sip_invite, try_session_call_pick_up, set_both, resume_session, reinvite,
  with_notify, create_sip, enter_call, invite_new, invite_by_call, report_sip_invite, rtp_port,
  rtp_port_as_int, invite_address, announced, as_short,
}
use orekacxx.Voip.Invites.Anchored.{
  modify_by, modify-IsValid, call-IsValid, call_next, report-tracked, pick_up-Quiet, gather-Quiet,
  hold-Anchored, resume-Anchored, touch-Anchored, raw-Anchored, invited-tracked,
}

module _ (env : Env) (now i : ℕ) (inv : SipInvite) where
  set_both-IsValid :
      (t : VoIpSessions) → IsValid env t → i < t.next_id → IsValid env (set_both env now i inv t)
  unfolding set_both
  set_both-IsValid t v known =
      let port = rtp_port (rtp_port_as_int env inv) in
      let first = set_media_address-IsValid env now i inv.from_rtp_ip port t v known in
      if-both (IsValid env) env.sip_track_on_sender
        (set_media_address-IsValid env now i inv.original_sender_ip port _ first
          (rw (set_media_address_next env now i inv.from_rtp_ip port t) known))
        first

  set_both_next : (t : VoIpSessions) → (set_both env now i inv t).next_id ≡ t.next_id
  unfolding set_both
  set_both_next t =
      let port = rtp_port (rtp_port_as_int env inv) in
      let first = set_media_address_next env now i inv.from_rtp_ip port t in
      if-both (λ (u : VoIpSessions). u.next_id ≡ t.next_id) env.sip_track_on_sender
        (set_media_address_next env now i inv.original_sender_ip port _ ∙ first) first

  resume-IsValid :
      (t : VoIpSessions)
      → IsValid env t
      → i < t.next_id
      → IsValid env (resume_session env now i inv t)
  unfolding resume_session
  resume-IsValid t v known =
      let off = call-IsValid env i (go_off_hold env inv.recv_time) t (resume-Anchored env _ _) v in
      set_media_address-IsValid env now i inv.from_rtp_ip _ _
        (modify-IsValid env i _ (call i (go_off_hold env inv.recv_time) t) (touch-Anchored now _)
          off)
        (rw
          ((modify_by i (λ s. record s { last_updated = now })
              (call i (go_off_hold env inv.recv_time) t)).2
            ∙ call_next i _ t)
          known)

  reinvite-IsValid :
      (moves : Bool) (t : VoIpSessions)
      → IsValid env t
      → i < t.next_id
      → IsValid env (reinvite env now moves i inv t)
  unfolding reinvite
  reinvite-IsValid moves t v known =
      if-both (IsValid env) inv.attr_sendonly (call-IsValid env i _ t (hold-Anchored env _ _) v) (
        if-both (IsValid env) ((t.heap i).on_hold && env.invite_can_put_off_hold)
          (resume-IsValid t v known)
          (Quiet-IsValid env _ _ (gather-Quiet env i inv _)
            (if-both (IsValid env) moves (set_both-IsValid t v known) v)))

create_sip-Grown :
    (env : Env) (now : ℕ) (inv : SipInvite) (t : VoIpSessions)
    → Grown env t (create_sip env now inv t)
unfolding create_sip create modify
create_sip-Grown env now inv t =
    (refl, refl, refl, λ j e. ap tracked (if_false _ _ e ∙ if_false _ _ e))

create_sip_media :
    (env : Env) (now : ℕ) (inv : SipInvite) (t : VoIpSessions)
    → (tracked ((create_sip env now inv t).heap t.next_id)).media_addresses ≡ []
unfolding create_sip create modify tracked construct
create_sip_media env now inv t = rw (==_refl t.next_id) refl

with_notify-Quiet :
    (env : Env) (inv : SipInvite) (t : VoIpSessions) → Quiet t (with_notify env inv t).1
unfolding with_notify
with_notify-Quiet env inv t = elim (Option-cases (announced env inv t)) [
  | inl nothing ↦ rw (with_notify, nothing) (Quiet-refl t)
  | inr (party, told) ↦
      rw (with_notify, told)
        (record { addresses = refl; calls = refl; next = refl; sessions = λ j. refl })
]

enter_call_tables :
    (i : ℕ) (t : VoIpSessions)
    → (enter_call i t).by_call_id ≡ insert (tracked (t.heap i)).call_id i t.by_call_id
unfolding enter_call tracked
enter_call_tables i t = refl

enter_call-IsValid :
    (env : Env) (i : ℕ) (t : VoIpSessions)
    → IsValid env t
    → i < t.next_id
    → IsValid env (enter_call i t)
unfolding enter_call tracked
enter_call-IsValid env i t v known = record {
  sound = v.sound;
  mapped = v.mapped;
  known = v.known;
  called = λ c j h. elim (find-insert_any_text c _ i j _ h) [
    | inl (here, q) ↦ rw (q, here) refl
    | inr there ↦ v.called c j there
  ];
  known_call = λ c j h. elim (find-insert_any_text c _ i j _ h) [
    | inl (here, q) ↦ rw q known
    | inr there ↦ v.known_call c j there
  ];
  addresses = v.addresses;
  calls = insert-Distinct _ i _ v.calls;
}

-- The state before the new session gets its addresses.
invited-Quiet :
    (env : Env) (now i : ℕ) (inv : SipInvite) (t : VoIpSessions)
    → Quiet t (
        let r = with_notify env inv (try_session_call_pick_up env i inv.replaces_id t) in
        modify i
          (λ s. record s { sip_last_invite = now })
          (call i (session_report_sip_invite env r.1 r.0) r.1))
invited-Quiet env now i inv t = Quiet-trans _ _ _ (pick_up-Quiet env i inv.replaces_id t) (
    Quiet-trans _ _ _ (with_notify-Quiet env inv _) (
      Quiet-trans _ _ _ (call-Quiet i _ _ (report-tracked env _ _ _))
        (modify-Quiet i _ _ (invited-tracked now _))))

-- The end of `invite_new`, from any valid tables that have the session.
placed-IsValid :
    (env : Env) (now i : ℕ) (inv : SipInvite) (t : VoIpSessions)
    → IsValid env t
    → i < t.next_id
    → IsValid env (enter_call i (set_both env now i inv t))
placed-IsValid env now i inv t v known =
    enter_call-IsValid env i _ (set_both-IsValid env now i inv t v known)
      (rw (set_both_next env now i inv t) known)

invite_new-IsValid :
    (env : Env) (now : ℕ) (inv : SipInvite) (t : VoIpSessions)
    → IsValid env t
    → IsValid env (invite_new env now inv t)
unfolding invite_new
invite_new-IsValid env now inv t v =
    let base = create_sip env now inv t in
    let grown = create_sip-Grown env now inv t in
    let quiet = invited-Quiet env now t.next_id inv base in
    placed-IsValid env (now / 1000000) t.next_id _ _
      (Quiet-IsValid env base _ quiet
        (Grown-IsValid env t base grown (empty-Sound env _ (create_sip_media env now inv t)) v))
      (rw quiet.next (omega (arith, grown.2)))

by_call-IsValid :
    (env : Env) (now address : ℕ) (inv : SipInvite) (t : VoIpSessions)
    → IsValid env t
    → IsValid env (invite_by_call env now address inv t)
unfolding invite_by_call
by_call-IsValid env now address inv t v = elim (Option-cases (find inv.call_id t.by_call_id)) [
  | inl unknown ↦ rw (invite_by_call, unknown) (invite_new-IsValid env now inv t v)
  | inr (i, there) ↦
      rw (invite_by_call, there)
        (reinvite-IsValid env (now / 1000000) i inv _ t v (v.known_call inv.call_id i there))
]

pub report_sip_invite-IsValid :
    (env : Env) (now : ℕ) (inv : SipInvite) (t : VoIpSessions)
    → IsValid env t
    → IsValid env (report_sip_invite env now inv t)
unfolding report_sip_invite find_by_media_address
report_sip_invite-IsValid env now inv t v =
    let address = invite_address env inv t in
    let key = craft_64bit_media_address env inv.from_rtp_ip (as_short (rtp_port_as_int env inv)) in
    if-both (IsValid env) (env.sip_ignored_addresses inv.from_rtp_ip) v
      (elim (Option-cases (find key t.by_ip_and_port)) [
        | inl absent ↦ rw absent (by_call-IsValid env now address inv t v)
        | inr (i, there) ↦ rw there (
            if-both (IsValid env) _ (by_call-IsValid env now address inv t v) (
              if-both (IsValid env) _
                (by_call-IsValid env now address inv _
                  (modify-IsValid env i _ t (raw-Anchored _) v))
                (reinvite-IsValid env (now / 1000000) i inv false t v (v.known key i there))))
      ])
