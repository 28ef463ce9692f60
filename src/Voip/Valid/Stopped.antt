-- ===== src/Voip/Valid/Stopped.antt =====
-- `VoIpSessions::Stop` of VoIpSession.cpp: no map leads to the session any more, and nothing else goes.
use orekacxx.Common.{
  ℕ, ◌≡◌, ◌≢◌, refl, ap, ◌∙◌, true, false, List, [], Option, some, none, arith, Bool-cases, inl,
  inr, ◌==◌, ==_iff, ==_refl, ltb, length, if◌then◌else◌, sym, Option-cases, if_true, if_false,
}
use orekacxx.Serializers.Chars.{str_eq, str_eq_iff}
use orekacxx.Voip.OrderedMap.{find, by_number, by_text}
use orekacxx.Voip.OrderedMap.Laws.{Distinct, find-erase_text}
use orekacxx.Voip.Session.{Env, VoIpSession}
use orekacxx.Voip.Tables.{VoIpSessions, modify, session_stop}
use orekacxx.Voip.Tracked.{
  Tracked, tracked, Quiet, Quiet-trans, session_stop-Quiet, tagging_sip_transfer_calls-Quiet,
}
use orekacxx.Voip.Stops.{forget, stop, tagging_sip_transfer_calls, erase_call}
use orekacxx.Voip.Stops.Removed.{
  find-erase_call, erase_call-Distinct, find-remove_each, remove_each-keeps, remove_each-gone,
  remove_each-Distinct,
}
use orekacxx.Voip.Valid.{Sound, IsValid, Quiet-IsValid, empty-Sound}

-- The part of `Stop` that comes before the maps are changed.
stopping-Quiet :
    (env : Env) (now i : ℕ) (t : VoIpSessions)
    → Quiet t (session_stop env i (tagging_sip_transfer_calls env now i t))
stopping-Quiet env now i t =
    Quiet-trans _ _ _ (tagging_sip_transfer_calls-Quiet env now i t) (session_stop-Quiet env i _)

pub forget_own : (i : ℕ) (t : VoIpSessions) → (tracked ((forget i t).heap i)).media_addresses ≡ []
unfolding forget modify tracked
forget_own i t = rw (==_refl i) refl

pub forget_other :
    (i j : ℕ) (t : VoIpSessions) → j ≢ i → tracked ((forget i t).heap j) ≡ tracked (t.heap j)
unfolding forget modify
forget_other i j t n = elim (Bool-cases (j == i)) [
  | inl e ↦ absurd (n ((==_iff j i).0 e))
  | inr e ↦ rw e refl
]

forget_call_id :
    (i j : ℕ) (t : VoIpSessions)
    → (tracked ((forget i t).heap j)).call_id ≡ (tracked (t.heap j)).call_id
unfolding forget modify tracked
forget_call_id i j t = elim (Bool-cases (j == i)) [ inl e ↦ rw e refl | inr e ↦ rw e refl ]

-- A call of the map after the session was forgotten was there before.
pub find-forget_call :
    (i j : ℕ) (c : List ℕ) (t : VoIpSessions)
    → find c (forget i t).by_call_id ≡ some j
    → find c t.by_call_id ≡ some j
unfolding forget modify
find-forget_call i j c t h = find-erase_call _ c j _ h

pub find-forget :
    (i j a : ℕ) (t : VoIpSessions)
    → find a (forget i t).by_ip_and_port ≡ some j
    → find a t.by_ip_and_port ≡ some j
unfolding forget modify
find-forget i j a t h = find-remove_each i _ a j _ h

pub forget-keeps :
    (i j a : ℕ) (t : VoIpSessions)
    → find a t.by_ip_and_port ≡ some j
    → j ≢ i
    → find a (forget i t).by_ip_and_port ≡ some j
unfolding forget modify
forget-keeps i j a t h n = remove_each-keeps i _ a j _ h n

pub forget-gone :
    (env : Env) (i a : ℕ) (t : VoIpSessions)
    → IsValid env t
    → find a (forget i t).by_ip_and_port ≢ some i
unfolding forget modify tracked
forget-gone env i a t v h =
    let before = find-remove_each i _ a i _ h in
    let own = v.mapped a i before in
    remove_each-gone i _ a _ own ((v.sound i (v.known a i before)).nonzero a own) h

forget_next : (i : ℕ) (t : VoIpSessions) → (forget i t).next_id ≡ t.next_id
unfolding forget modify
forget_next i t = refl

forget-Sound :
    (env : Env) (i j : ℕ) (t : VoIpSessions)
    → Sound env (tracked (t.heap j))
    → Sound env (tracked ((forget i t).heap j))
forget-Sound env i j t s = elim (Bool-cases (j == i)) [
  | inl e ↦ empty-Sound env _ (rw ((==_iff j i).0 e) (forget_own i t))
  | inr e ↦ rw (forget_other i j t (λ q. ground (arith, e, q, ==_refl j))) s
]

forget-Distinct :
    (i : ℕ) (t : VoIpSessions)
    → Distinct t.by_ip_and_port
    → Distinct t.by_call_id
    → Distinct (forget i t).by_ip_and_port × Distinct (forget i t).by_call_id
unfolding forget modify
forget-Distinct i t d e = (remove_each-Distinct i _ _ d, erase_call-Distinct _ _ e)

pub forget-IsValid :
    (env : Env) (i : ℕ) (t : VoIpSessions) → IsValid env t → IsValid env (forget i t)
forget-IsValid env i t v = record {
  sound = λ j h. forget-Sound env i j t (v.sound j (rw (sym (forget_next i t)) h));
  mapped = λ a j h.
      rw (forget_other i j t (λ q. forget-gone env i a t v (h ∙ ap some q)))
        (v.mapped a j (find-forget i j a t h));
  known = λ a j h. rw (forget_next i t) (v.known a j (find-forget i j a t h));
  called = λ c j h. forget_call_id i j t ∙ v.called c j (find-forget_call i j c t h);
  known_call = λ c j h. rw (forget_next i t) (v.known_call c j (find-forget_call i j c t h));
  addresses = (forget-Distinct i t v.addresses v.calls).0;
  calls = (forget-Distinct i t v.addresses v.calls).1;
}

pub stop-IsValid :
    (env : Env) (now i : ℕ) (t : VoIpSessions) → IsValid env t → IsValid env (stop env now i t)
unfolding stop
stop-IsValid env now i t v =
    forget-IsValid env i _ (Quiet-IsValid env _ _ (stopping-Quiet env now i t) v)

-- The session of a reference, unless it is this one.
abbrev pub other_than : ℕ → Option ℕ → Option ℕ
other_than i none = none
other_than i (some j) = if j == i then none else some j

pub find-forget_other :
    (env : Env) (i a : ℕ) (t : VoIpSessions)
    → IsValid env t
    → find a (forget i t).by_ip_and_port ≡ other_than i (find a t.by_ip_and_port)
find-forget_other env i a t v = elim (Option-cases (find a t.by_ip_and_port)) [
  | inl absent ↦ elim (Option-cases (find a (forget i t).by_ip_and_port)) [
    | inl gone ↦ rw (absent, gone) refl
    | inr (k, there) ↦ absurd (ground (arith, find-forget i k a t there, absent))
  ]
  | inr (j, there) ↦ elim (Bool-cases (j == i)) [
    | inl own ↦ elim (Option-cases (find a (forget i t).by_ip_and_port)) [
      | inl gone ↦ rw (there, own, gone) refl
      | inr (k, still) ↦
          absurd
            (ground (arith, find-forget i k a t still, there, own, still, forget-gone env i a t v))
    ]
    | inr other ↦
        rw (there, other) (forget-keeps i j a t there (λ q. ground (arith, other, q, ==_refl j)))
  ]
]

forget_calls :
    (i : ℕ) (c : List ℕ) (t : VoIpSessions)
    → ltb 0 (length (tracked (t.heap i)).call_id) ≡ true
    → find c (forget i t).by_call_id
      ≡ (if str_eq (tracked (t.heap i)).call_id c then none else find c t.by_call_id)
unfolding forget modify tracked erase_call
forget_calls i c t named = rw named (find-erase_text c _ _)

call-tracked : (s : VoIpSession) (u : Tracked) → u ≡ tracked s → u.call_id ≡ s.call_id
unfolding tracked
call-tracked s u e = ap (λ x. x.call_id) e

forget_after :
    (env : Env) (i : ℕ) (t u : VoIpSessions)
    → Quiet t u
    → IsValid env t
    → ltb 0 (length (t.heap i).call_id) ≡ true
    → (a : ℕ) (c : List ℕ)
    → (find a (forget i u).by_ip_and_port ≡ other_than i (find a t.by_ip_and_port))
      × (find c (forget i u).by_call_id
          ≡ (if str_eq (t.heap i).call_id c then none else find c t.by_call_id))
forget_after env i t u q v named a c =
    let same = call-tracked (t.heap i) _ (q.sessions i) in
    (
      find-forget_other env i a u (Quiet-IsValid env t u q v)
          ∙ ap (λ m. other_than i (find a m)) q.addresses,
      forget_calls i c u (ap (λ id. ltb 0 (length id)) same ∙ named)
          ∙ (ap (λ id. if str_eq id c then none else find c u.by_call_id) same
              ∙ ap (λ m. if str_eq (t.heap i).call_id c then none else find c m) q.calls),
    )

-- In valid tables, `Stop` of a session with a call ID takes away every media address that leads to the
-- session and the entry of the call ID, and no other entry of either map.
pub stop-forgets :
    (env : Env) (now i : ℕ) (t : VoIpSessions)
    → IsValid env t
    → ltb 0 (length (t.heap i).call_id) ≡ true
    → (a : ℕ) (c : List ℕ)
    → (find a (stop env now i t).by_ip_and_port ≡ other_than i (find a t.by_ip_and_port))
      × (find c (stop env now i t).by_call_id
          ≡ (if str_eq (t.heap i).call_id c then none else find c t.by_call_id))
unfolding stop
stop-forgets env now i t v named a c =
    forget_after env i t _ (stopping-Quiet env now i t) v named a c

-- What `Stop` leaves of the map of media addresses; it makes no session.
pub stop-drops :
    (env : Env) (now i a : ℕ) (t : VoIpSessions)
    → IsValid env t
    → find a (stop env now i t).by_ip_and_port ≡ other_than i (find a t.by_ip_and_port)
unfolding stop
stop-drops env now i a t v =
    let q = stopping-Quiet env now i t in
    find-forget_other env i a _ (Quiet-IsValid env t _ q v)
    ∙ ap (λ m. other_than i (find a m)) q.addresses

pub stop_next : (env : Env) (now i : ℕ) (t : VoIpSessions) → (stop env now i t).next_id ≡ t.next_id
unfolding stop
stop_next env now i t = forget_next i _ ∙ (stopping-Quiet env now i t).next

pub stop_other :
    (env : Env) (now i j : ℕ) (t : VoIpSessions)
    → j ≢ i
    → tracked ((stop env now i t).heap j) ≡ tracked (t.heap j)
unfolding stop
stop_other env now i j t n = forget_other i j _ n ∙ (stopping-Quiet env now i t).sessions j

forget_own_call :
    (i : ℕ) (c : List ℕ) (u : VoIpSessions)
    → (tracked (u.heap i)).call_id ≡ c
    → ltb 0 (length c) ≡ true
    → find c (forget i u).by_call_id ≡ none
forget_own_call i c u own named =
    forget_calls i c u (ap (λ x. ltb 0 (length x)) own ∙ named)
    ∙ if_true none (find c u.by_call_id) (ap (λ x. str_eq x c) own ∙ (str_eq_iff c c).1 refl)

-- A call ID that `Stop` leaves was there before, and is not the session's own.
pub stop-calls :
    (env : Env) (now i j : ℕ) (c : List ℕ) (t : VoIpSessions)
    → IsValid env t
    → find c (stop env now i t).by_call_id ≡ some j
    → (find c t.by_call_id ≡ some j) × (ltb 0 (length c) ≡ true → (j == i) ≡ false)
unfolding stop
stop-calls env now i j c t v h =
    let q = stopping-Quiet env now i t in
    let before = ap (λ m. find c m) (sym q.calls) ∙ find-forget_call i j c _ h in
    (
      before,
      λ named. elim (Bool-cases (j == i)) [
        | inr e ↦ e
        | inl e ↦ absurd (
            ground (
              arith,
              h,
              forget_own_call i c (session_stop env i (tagging_sip_transfer_calls env now i t))
                  (ap (λ s. s.call_id) (q.sessions i)
                    ∙ v.called c i (before ∙ ap some ((==_iff j i).0 e)))
                  named,
            ))
      ],
    )

pub other_than-some :
    (i j : ℕ) (o : Option ℕ) → other_than i o ≡ some j → (o ≡ some j) × ((j == i) ≡ false)
other_than-some i j none h = absurd (ground (arith, h))
other_than-some i j (some k) h = elim (Bool-cases (k == i)) [
  | inl e ↦ absurd (ground (arith, h, e))
  | inr e ↦ ground (arith, h, e)
]

-- `Stop` changes no session's call ID.
pub stop_call_id :
    (env : Env) (now i k : ℕ) (t : VoIpSessions)
    → ((stop env now i t).heap k).call_id ≡ (t.heap k).call_id
unfolding stop tracked
stop_call_id env now i k t =
    forget_call_id i k _ ∙ ap (λ s. s.call_id) ((stopping-Quiet env now i t).sessions k)

forget_spares :
    (i : ℕ) (c : List ℕ) (u : VoIpSessions)
    → str_eq (tracked (u.heap i)).call_id c ≡ false
    → find c (forget i u).by_call_id ≡ find c u.by_call_id
unfolding forget modify tracked erase_call
forget_spares i c u other = elim (Bool-cases (ltb 0 (length (u.heap i).call_id))) [
  | inl named ↦ rw named (find-erase_text c _ _ ∙ if_false _ _ other)
  | inr unnamed ↦ rw unnamed refl
]

-- It leaves the entry of any other call ID.
pub stop_spares :
    (env : Env) (now i : ℕ) (c : List ℕ) (t : VoIpSessions)
    → str_eq (t.heap i).call_id c ≡ false
    → find c (stop env now i t).by_call_id ≡ find c t.by_call_id
unfolding stop
stop_spares env now i c t other =
    let q = stopping-Quiet env now i t in
    forget_spares i c _ (ap (λ id. str_eq id c) (call-tracked (t.heap i) _ (q.sessions i)) ∙ other)
    ∙ ap (λ m. find c m) q.calls
