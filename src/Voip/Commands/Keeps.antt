-- ===== src/Voip/Commands/Keeps.antt =====
-- The commands on captures of VoIpSession.cpp keep the tables valid.
use orekacxx.Common.{
  ℕ, ◌+◌, ◌/◌, ◌<◌, ◌≡◌, ◌≢◌, refl, sym, ap, ◌∙◌, Bool, true, false, List, [], ◌∷◌, some, arith,
  Bool-cases, Option-cases, inl, inr, ◌==◌, ==_iff, ==_refl, if_true, if_false,
}
use orekacxx.Serializers.Chars.{contains}
use orekacxx.Voip.OrderedMap.{find, insert, values, by_number, by_text}
use orekacxx.Voip.OrderedMap.Laws.{
  insert-Distinct, find-insert_any, find-insert_any_text, Distinct, find-first, find-rest,
}
use orekacxx.Voip.Session.{
  Env, VoIpSession, construct, copy_metadata_to_new_session, mark_as_on_demand,
}
use orekacxx.Voip.Tables.{VoIpSessions, modify}
use orekacxx.Voip.Tracked.{Tracked, tracked, Quiet-trans, modify-Quiet, call-Quiet}
use orekacxx.Voip.Stops.{stop}
use orekacxx.Voip.Valid.{Sound, IsValid, Quiet-IsValid, empty-Sound}
use orekacxx.Voip.Valid.Stopped.{stop-IsValid, stop_next, stop_other}
use orekacxx.Voip.Commands.{
  create, matching, first_matching, start_matching, pause_matching, enter, replace, stop_matching,
}

module _ (env : Env) (t u : VoIpSessions) where
  -- The tables are the same, and one session was made.
  abbrev pub Grown : Type 0
  Grown =
      (u.by_ip_and_port ≡ t.by_ip_and_port)
      × (u.by_call_id ≡ t.by_call_id)
      × (u.next_id ≡ t.next_id + 1)
      × ((j : ℕ) → (j == t.next_id) ≡ false → tracked (u.heap j) ≡ tracked (t.heap j))

  older : (j : ℕ) → Grown → j < t.next_id → tracked (u.heap j) ≡ tracked (t.heap j)
  older j g h = g.3 j (ground (arith, h))

  pub Grown-IsValid : Grown → Sound env (tracked (u.heap t.next_id)) → IsValid env t → IsValid env u
  Grown-IsValid g s v = record {
    sound = λ j h. elim (Bool-cases (j == t.next_id)) [
      | inl e ↦ rw ((==_iff j t.next_id).0 e) s
      | inr e ↦ rw (g.3 j e) (v.sound j (ground (arith, h, g.2, e)))
    ];
    mapped = λ a j h.
        let before = ap (λ m. find a m) (sym g.0) ∙ h in
        rw (older j g (v.known a j before)) (v.mapped a j before);
    known = λ a j h.
        let before = v.known a j (ap (λ m. find a m) (sym g.0) ∙ h) in omega (arith, before, g.2);
    called = λ c j h.
        let before = ap (λ m. find c m) (sym g.1) ∙ h in
        rw (older j g (v.known_call c j before)) (v.called c j before);
    known_call = λ c j h.
        let before = v.known_call c j (ap (λ m. find c m) (sym g.1) ∙ h) in
        omega (arith, before, g.2);
    addresses = rw (g.0) v.addresses;
    calls = rw (g.1) v.calls;
  }

pub create-Grown : (env : Env) (now : ℕ) (t : VoIpSessions) → Grown env t (create env now t)
unfolding create modify
create-Grown env now t = (refl, refl, refl, λ j e. ap tracked (if_false _ _ e))

-- The new session before its metadata is copied, and after.
pub create_media :
    (env : Env) (now : ℕ) (t : VoIpSessions)
    → (tracked ((create env now t).heap t.next_id)).media_addresses ≡ []
unfolding create modify tracked construct
create_media env now t = rw (==_refl t.next_id) refl

pub create-IsValid :
    (env : Env) (now : ℕ) (t : VoIpSessions) → IsValid env t → IsValid env (create env now t)
create-IsValid env now t v =
    Grown-IsValid env t _ (create-Grown env now t) (empty-Sound env _ (create_media env now t)) v

-- The soundness of a session asks for its media addresses alone.
pub same-Sound :
    (env : Env) (s s' : Tracked)
    → s'.media_addresses ≡ s.media_addresses
    → s'.ip_and_port ≡ s.ip_and_port
    → Sound env s
    → Sound env s'
same-Sound env s s' m p h = record {
  nonzero = λ a c. h.nonzero a (ap (λ x. contains a x) (sym m) ∙ c);
  latest = λ a c. rw (m, p) (h.latest a (ap (λ x. contains a x) (sym m) ∙ c));
  single = λ n a c. h.single n a (ap (λ x. contains a x) (sym m) ∙ c) ∙ sym p;
}

-- The tables while a session is replaced, before the old one is stopped.
abbrev copied : Env → ℕ → ℕ → VoIpSessions → VoIpSessions
copied env now i t =
    let u = create env now t in modify t.next_id (copy_metadata_to_new_session (u.heap i)) u

copied-Grown : (env : Env) (now i : ℕ) (t : VoIpSessions) → Grown env t (copied env now i t)
unfolding create modify
copied-Grown env now i t = (refl, refl, refl, λ j e. ap tracked (if_false _ _ e ∙ if_false _ _ e))

copied_own :
    (env : Env) (now i : ℕ) (t : VoIpSessions)
    → ((tracked ((copied env now i t).heap t.next_id)).media_addresses
        ≡ (tracked ((create env now t).heap i)).media_addresses)
      × ((tracked ((copied env now i t).heap t.next_id)).ip_and_port
          ≡ (tracked ((create env now t).heap i)).ip_and_port)
unfolding modify tracked copy_metadata_to_new_session
copied_own env now i t = rw (==_refl t.next_id) (refl, refl)

copied-IsValid :
    (env : Env) (now i : ℕ) (t : VoIpSessions)
    → IsValid env t
    → i < t.next_id
    → IsValid env (copied env now i t)
copied-IsValid env now i t v known =
    let own = copied_own env now i t in
    let old = older env t (create env now t) i (create-Grown env now t) known in
    Grown-IsValid env t _ (copied-Grown env now i t)
      (same-Sound env (tracked (t.heap i)) _ (own.0 ∙ ap (λ s. s.media_addresses) old)
        (own.1 ∙ ap (λ s. s.ip_and_port) old) (v.sound i known))
      v

enter_tables :
    (i : ℕ) (t : VoIpSessions)
    → ((enter i t).by_ip_and_port ≡ insert (tracked (t.heap i)).ip_and_port i t.by_ip_and_port)
      × ((enter i t).by_call_id ≡ insert (tracked (t.heap i)).call_id i t.by_call_id)
      × ((enter i t).next_id ≡ t.next_id)
      × ((j : ℕ) → tracked ((enter i t).heap j) ≡ tracked (t.heap j))
unfolding enter tracked
enter_tables i t = (refl, refl, refl, λ j. refl)

-- A session with its latest address among its media addresses can be entered.
enter-IsValid :
    (env : Env) (i : ℕ) (t : VoIpSessions)
    → IsValid env t
    → i < t.next_id
    → contains (tracked (t.heap i)).ip_and_port (tracked (t.heap i)).media_addresses ≡ true
    → IsValid env (enter i t)
unfolding enter
enter-IsValid env i t v known own =
    let g = enter_tables i t in
    record {
      sound = λ j h. rw (g.3 j) (v.sound j h);
      mapped = λ a j h. elim (find-insert_any a _ i j _ (ap (λ m. find a m) (sym g.0) ∙ h)) [
        | inl (here, q) ↦ rw (here, q, g.3 i) own
        | inr there ↦ rw (g.3 j) (v.mapped a j there)
      ];
      known = λ a j h. elim (find-insert_any a _ i j _ (ap (λ m. find a m) (sym g.0) ∙ h)) [
        | inl (here, q) ↦ rw (q, g.2) known
        | inr there ↦ rw g.2 (v.known a j there)
      ];
      called = λ c j h. elim (find-insert_any_text c _ i j _ (ap (λ m. find c m) (sym g.1) ∙ h)) [
        | inl (here, q) ↦ rw (q, g.3 i) (sym here)
        | inr there ↦ rw (g.3 j) (v.called c j there)
      ];
      known_call = λ c j h.
          elim (find-insert_any_text c _ i j _ (ap (λ m. find c m) (sym g.1) ∙ h)) [
            | inl (here, q) ↦ rw (q, g.2) known
            | inr there ↦ rw g.2 (v.known_call c j there)
          ];
      addresses = rw g.0 (insert-Distinct _ i _ v.addresses);
      calls = rw g.1 (insert-Distinct _ i _ v.calls);
    }

-- What `replace` does, with the state in which the old session is stopped held open.
stop_and_enter-IsValid :
    (env : Env) (now i k : ℕ) (u : VoIpSessions)
    → IsValid env u
    → k < u.next_id
    → k ≢ i
    → contains (tracked (u.heap k)).ip_and_port (tracked (u.heap k)).media_addresses ≡ true
    → IsValid env (enter k (stop env now i u))
stop_and_enter-IsValid env now i k u v known n own =
    enter-IsValid env k _ (stop-IsValid env now i u v) (rw (stop_next env now i u) known)
      (ap (λ s. contains s.ip_and_port s.media_addresses) (stop_other env now i k u n) ∙ own)

copied_latest :
    (env : Env) (now i : ℕ) (t : VoIpSessions)
    → i < t.next_id
    → contains (tracked (t.heap i)).ip_and_port (tracked (t.heap i)).media_addresses ≡ true
    → contains
        (tracked ((copied env now i t).heap t.next_id)).ip_and_port
        (tracked ((copied env now i t).heap t.next_id)).media_addresses
      ≡ true
copied_latest env now i t known h =
    let own = copied_own env now i t in
    let old = older env t (create env now t) i (create-Grown env now t) known in
    rw (own.0, own.1, old) h

pub replace-IsValid :
    (env : Env) (now i a : ℕ) (t : VoIpSessions)
    → IsValid env t
    → find a t.by_ip_and_port ≡ some i
    → IsValid env (replace env now i t)
unfolding replace
replace-IsValid env now i a t v there =
    let known = v.known a i there in
    stop_and_enter-IsValid env (now / 1000000) i t.next_id (copied env now i t)
      (copied-IsValid env now i t v known) (omega (arith, (copied-Grown env now i t).2))
      (λ q. omega (arith, q, known))
      (copied_latest env now i t known ((v.sound i known).latest a (v.mapped a i there)))

-- A session that a loop over the media addresses finds has one.
first_matching-found :
    (matches : VoIpSession → Bool) (heap : ℕ → VoIpSession) (i : ℕ) (m : List (ℕ × ℕ))
    → Distinct m
    → first_matching matches heap (values m) ≡ some i
    → (a : ℕ) × (find a m ≡ some i)
unfolding first_matching
first_matching-found matches heap i [] d h = absurd (ground (arith, h))
first_matching-found matches heap i ((b, j) ∷ m) d h = elim (Bool-cases (matches (heap j))) [
  | inl e ↦ (b, find-first b j m ∙ (sym (if_true _ _ e) ∙ h))
  | inr e ↦
      let (a, there) = first_matching-found matches heap i m d.1 (sym (if_false _ _ e) ∙ h) in
      (a, find-rest a b i j m d.0 there)
]

pub keep-tracked : (b : Bool) (s : VoIpSession) → tracked (record s { keep_rtp = b }) ≡ tracked s
unfolding tracked
keep-tracked b s = refl

pub demand-tracked :
    (side : List ℕ) (s : VoIpSession) → tracked (mark_as_on_demand side s).0 ≡ tracked s
unfolding tracked mark_as_on_demand
demand-tracked side s = refl

pub stop_matching-IsValid :
    (env : Env) (now : ℕ) (matches : VoIpSession → Bool) (t : VoIpSessions)
    → IsValid env t
    → IsValid env (stop_matching env now matches t).0
unfolding stop_matching matching
stop_matching-IsValid env now matches t v =
    elim (Option-cases (first_matching matches t.heap (values t.by_ip_and_port))) [
      | inl nobody ↦ rw (stop_matching, nobody) v
      | inr (i, found) ↦
          rw (stop_matching, found)
            (let (a, there) =
                first_matching-found matches t.heap i t.by_ip_and_port v.addresses found in
              replace-IsValid env now i a t v there)
    ]

pub start_matching-IsValid :
    (env : Env) (matches : VoIpSession → Bool) (side : List ℕ) (t : VoIpSessions)
    → IsValid env t
    → IsValid env (start_matching matches side t).0
unfolding start_matching
start_matching-IsValid env matches side t v = elim (Option-cases (matching matches t)) [
  | inl nobody ↦ rw (start_matching, nobody) v
  | inr (i, found) ↦
      rw (start_matching, found)
        (Quiet-IsValid env t _
          (Quiet-trans _ _ _ (modify-Quiet i _ t (keep-tracked true (t.heap i)))
            (call-Quiet i _ _ (demand-tracked side _)))
          v)
]

pub pause_matching-IsValid :
    (env : Env) (matches : VoIpSession → Bool) (t : VoIpSessions)
    → IsValid env t
    → IsValid env (pause_matching matches t).0
unfolding pause_matching
pause_matching-IsValid env matches t v = elim (Option-cases (matching matches t)) [
  | inl nobody ↦ rw (pause_matching, nobody) v
  | inr (i, found) ↦
      rw (pause_matching, found)
        (Quiet-IsValid env t _ (modify-Quiet i _ t (keep-tracked false (t.heap i))) v)
]
