-- ===== src/Voip/Valid/Called.antt =====
-- `Hoover` of VoIpSession.cpp: the call IDs that it leaves, and those that it takes away.
use orekacxx.Common.{
  ℕ, ◌≡◌, refl, sym, ap, ◌∙◌, Bool, true, false, ◌&&◌, ◌||◌, not, List, [], ◌∷◌, some, none, arith,
  Bool-cases, Option-cases, inl, inr, ltb, length, ◌==◌, ==_iff, if◌then◌else◌, if_true, if_false,
  some-injective,
}
use orekacxx.Serializers.Chars.{contains, str_eq, str_eq_iff}
use orekacxx.Voip.OrderedMap.{find, values, by_number, by_text}
use orekacxx.Voip.OrderedMap.Laws.{Distinct, same_self}
use orekacxx.Voip.Session.{Env, VoIpSession}
use orekacxx.Voip.Tables.{VoIpSessions}
use orekacxx.Voip.Tracked.{tracked}
use orekacxx.Voip.Stops.{
  stop, dismiss, to_dismiss, is_over_on_address, is_over_on_call, hoover, hoover_addresses,
  hoover_calls,
}
use orekacxx.Voip.Valid.{IsValid}
use orekacxx.Voip.Valid.Stopped.{stop_call_id, stop_spares}
use orekacxx.Voip.Valid.Dismissed.{
  call_over, call_over_lem, contains-to_dismiss, dismiss-calls, hoovered_addresses-IsValid,
  find-values_text,
}
use orekacxx.Voip.Valid.Expired.{not_dismissed, spared}

-- None of the listed sessions has the call ID.
unfoldable pub none_has : (ℕ → VoIpSession) → List ℕ → List ℕ → Bool
none_has heap c [] = true
none_has heap c (i ∷ is) = not (str_eq (heap i).call_id c) && none_has heap c is

-- None of the listed sessions but `j` has the call ID.
unfoldable pub no_other_has : (ℕ → VoIpSession) → List ℕ → ℕ → List ℕ → Bool
no_other_has heap c j [] = true
no_other_has heap c j (i ∷ is) =
    (i == j || not (str_eq (heap i).call_id c)) && no_other_has heap c j is

none_has-stop :
    (env : Env) (now i : ℕ) (c : List ℕ) (is : List ℕ) (t : VoIpSessions)
    → none_has (stop env now i t).heap c is ≡ none_has t.heap c is
unfolding none_has
none_has-stop env now i c [] t = refl
none_has-stop env now i c (k ∷ is) t =
    rw (stop_call_id env now i k t, none_has-stop env now i c is t) refl

-- Stopping sessions with other call IDs leaves the entry of this one.
dismiss_spares :
    (env : Env) (now : ℕ) (c : List ℕ) (is : List ℕ) (t : VoIpSessions)
    → none_has t.heap c is ≡ true
    → find c (dismiss env now is t).by_call_id ≡ find c t.by_call_id
unfolding dismiss none_has
dismiss_spares env now c [] t h = refl
dismiss_spares env now c (i ∷ is) t h =
    dismiss_spares env now c is (stop env now i t)
      (none_has-stop env now i c is t ∙ ground (arith, h))
    ∙ stop_spares env now i c t (ground (arith, h))

none_has-to_dismiss :
    (f : ℕ → Bool) (heap : ℕ → VoIpSession) (c : List ℕ) (j : ℕ) (is : List ℕ)
    → no_other_has heap c j is ≡ true
    → contains j (to_dismiss f is) ≡ false
    → none_has heap c (to_dismiss f is) ≡ true
unfolding none_has no_other_has to_dismiss contains
none_has-to_dismiss f heap c j [] alone out = refl
none_has-to_dismiss f heap c j (i ∷ is) alone out =
    ground (arith, alone, out, none_has-to_dismiss f heap c j is)

no_other_has_lem :
    (heap : ℕ → VoIpSession) (c : List ℕ) (j : ℕ) (is : List ℕ)
    → ((i : ℕ) → contains i is ≡ true → str_eq (heap i).call_id c ≡ true → (i == j) ≡ true)
    → no_other_has heap c j is ≡ true
unfolding no_other_has contains
no_other_has_lem heap c j [] h = refl
no_other_has_lem heap c j (i ∷ is) h =
    ground (arith, h i, no_other_has_lem heap c j is (λ k e. h k (ground (arith, e))))

-- Each session that a map of distinct call IDs leads to is found by one of them.
values-find :
    (i : ℕ) (m : List (List ℕ × ℕ))
    → Distinct m
    → contains i (values m) ≡ true
    → (c : List ℕ) × (find c m ≡ some i)
unfolding contains find by_text
values-find i [] d h = absurd (ground (arith, h))
values-find i ((k, v) ∷ m) d h = elim (Bool-cases (v == i)) [
  | inl here ↦ (k, if_true _ _ (same_self k) ∙ ap some ((==_iff v i).0 here))
  | inr other ↦
      let (c, there) = values-find i m d.1 (ground (arith, h, other)) in
      elim (Bool-cases (str_eq k c)) [
        | inl same ↦
            absurd (ground (arith, there, ap (λ x. find x m) ((str_eq_iff k c).0 same), d.0))
        | inr different ↦ (c, if_false _ _ different ∙ there)
      ]
]

-- In valid tables the map of call IDs leads to no two sessions with one call ID.
called-alone :
    (env : Env) (c : List ℕ) (j : ℕ) (t : VoIpSessions)
    → IsValid env t
    → find c t.by_call_id ≡ some j
    → no_other_has t.heap c j (values t.by_call_id) ≡ true
unfolding tracked
called-alone env c j t v h = no_other_has_lem t.heap c j _ (λ i e same.
    let (k, there) = values-find i t.by_call_id v.calls e in
    let key : k ≡ c = sym (v.called k i there) ∙ (str_eq_iff _ c).0 same in
    (==_iff i j).1 (some-injective (sym there ∙ (ap (λ x. find x t.by_call_id) key ∙ h))))

-- What both loops test of a session that the call ID leads to.
abbrev is_over : Env → ℕ → VoIpSessions → ℕ → Bool
is_over env now t j =
    is_over_on_call env now (t.heap j)
    || contains j (values t.by_ip_and_port) && is_over_on_address env now (t.heap j)

calls_after_addresses :
    (env : Env) (clock now j : ℕ) (c : List ℕ) (t : VoIpSessions)
    → IsValid env t
    → ltb 0 (length c) ≡ true
    → find c (hoover_addresses env clock now t).by_call_id ≡ some j
    → (find c t.by_call_id ≡ some j)
      × ((contains j (values t.by_ip_and_port) && is_over_on_address env now (t.heap j)) ≡ false)
      × (is_over_on_call env now ((hoover_addresses env clock now t).heap j)
          ≡ is_over_on_call env now (t.heap j))
unfolding hoover_addresses
calls_after_addresses env clock now j c t v named h =
    let (there, out, same) = dismiss-calls env clock j c _ t v named h in
    (
      there,
      sym (contains-to_dismiss (λ i. is_over_on_address env now (t.heap i)) j _) ∙ out,
      call_over_lem env now _
          ∙ (ap (call_over env now) same ∙ sym (call_over_lem env now (t.heap j))),
    )

calls_after_calls :
    (env : Env) (clock now j : ℕ) (c : List ℕ) (t : VoIpSessions)
    → IsValid env t
    → ltb 0 (length c) ≡ true
    → find c (hoover_calls env clock now t).by_call_id ≡ some j
    → (find c t.by_call_id ≡ some j) × (is_over_on_call env now (t.heap j) ≡ false)
unfolding hoover_calls
calls_after_calls env clock now j c t v named h =
    let (there, out, same) = dismiss-calls env clock j c _ t v named h in
    (
      there,
      not_dismissed (λ i. is_over_on_call env now (t.heap i)) j _
          (find-values_text c j t.by_call_id there) out,
    )

-- A call ID that is left leads to the same session as before, and that one is not over.
called-left :
    (env : Env) (clock now j : ℕ) (c : List ℕ) (t : VoIpSessions)
    → IsValid env t
    → ltb 0 (length c) ≡ true
    → find c (hoover env clock now t).by_call_id ≡ some j
    → (find c t.by_call_id ≡ some j) × (is_over env now t j ≡ false)
unfolding hoover
called-left env clock now j c t v named h =
    let w = hoovered_addresses-IsValid env clock now t v in
    let (between, rests) = calls_after_calls env clock now j c _ w named h in
    let (before, out, same) = calls_after_addresses env clock now j c t v named between in
    (before, ground (arith, out, sym same ∙ rests))

addresses_leave :
    (env : Env) (clock now j : ℕ) (c : List ℕ) (t : VoIpSessions)
    → no_other_has t.heap c j (values t.by_ip_and_port) ≡ true
    → (contains j (values t.by_ip_and_port) && is_over_on_address env now (t.heap j)) ≡ false
    → find c (hoover_addresses env clock now t).by_call_id ≡ find c t.by_call_id
unfolding hoover_addresses
addresses_leave env clock now j c t alone out =
    let f = λ (i : ℕ). is_over_on_address env now (t.heap i) in
    dismiss_spares env clock c _ t
      (none_has-to_dismiss f t.heap c j _ alone (contains-to_dismiss f j _ ∙ out))

calls_leave :
    (env : Env) (clock now j : ℕ) (c : List ℕ) (t : VoIpSessions)
    → IsValid env t
    → find c t.by_call_id ≡ some j
    → is_over_on_call env now (t.heap j) ≡ false
    → find c (hoover_calls env clock now t).by_call_id ≡ some j
unfolding hoover_calls
calls_leave env clock now j c t v h on =
    let f = λ (i : ℕ). is_over_on_call env now (t.heap i) in
    dismiss_spares env clock c _ t
      (none_has-to_dismiss f t.heap c j _ (called-alone env c j t v h) (spared f j _ on))
    ∙ h

called-stays :
    (env : Env) (clock now j : ℕ) (c : List ℕ) (t : VoIpSessions)
    → IsValid env t
    → ltb 0 (length c) ≡ true
    → find c t.by_call_id ≡ some j
    → no_other_has t.heap c j (values t.by_ip_and_port) ≡ true
    → is_over env now t j ≡ false
    → find c (hoover env clock now t).by_call_id ≡ some j
unfolding hoover
called-stays env clock now j c t v named h alone on =
    let between = addresses_leave env clock now j c t alone (ground (arith, on)) ∙ h in
    let (before, out, same) = calls_after_addresses env clock now j c t v named between in
    calls_leave env clock now j c _ (hoovered_addresses-IsValid env clock now t v) between
      (same ∙ ground (arith, on))

-- `Hoover` on valid tables takes a call ID of one letter at least away if its session is over by the test
-- of the map of call IDs, or by the test of the map of media addresses where that map leads to it too; it
-- leaves the call ID otherwise. No other session that a media address leads to has the same call ID.
pub hoover-calls :
    (env : Env) (clock now j : ℕ) (c : List ℕ) (t : VoIpSessions)
    → IsValid env t
    → ltb 0 (length c) ≡ true
    → find c t.by_call_id ≡ some j
    → no_other_has t.heap c j (values t.by_ip_and_port) ≡ true
    → find c (hoover env clock now t).by_call_id ≡ (
        if is_over_on_call env now (t.heap j)
          || contains j (values t.by_ip_and_port) && is_over_on_address env now (t.heap j)
        then none
        else some j)
hoover-calls env clock now j c t v named h alone = elim (Bool-cases (is_over env now t j)) [
  | inr on ↦ called-stays env clock now j c t v named h alone on ∙ sym (if_false _ _ on)
  | inl over ↦ elim (Option-cases (find c (hoover env clock now t).by_call_id)) [
    | inl gone ↦ gone ∙ sym (if_true _ _ over)
    | inr (k, still) ↦
        let (before, on) = called-left env clock now k c t v named still in
        absurd (ground (arith, over, ap (is_over env now t) (some-injective (sym h ∙ before)) ∙ on))
  ]
]
