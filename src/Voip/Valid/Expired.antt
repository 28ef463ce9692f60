-- ===== src/Voip/Valid/Expired.antt =====
-- `Hoover` of VoIpSession.cpp: the sessions that are over leave both maps, and no other does.
use orekacxx.Common.{
  ℕ, ◌≡◌, sym, ap, ◌∙◌, Bool, true, false, List, some, none, arith, Bool-cases, Option-cases, inl,
  inr, ltb, length, if◌then◌else◌, if_true, if_false, some-injective,
}
use orekacxx.Serializers.Chars.{contains}
use orekacxx.Voip.OrderedMap.{find, values, by_number, by_text}
use orekacxx.Voip.Session.{Env}
use orekacxx.Voip.Tables.{VoIpSessions}
use orekacxx.Voip.Tracked.{tracked}
use orekacxx.Voip.Stops.{
  to_dismiss, is_over_on_address, is_over_on_call, hoover, hoover_addresses, hoover_calls,
}
use orekacxx.Voip.Valid.{IsValid}
use orekacxx.Voip.Valid.Dismissed.{
  call_over, call_over_lem, contains-to_dismiss, find-values, find-values_text, dismiss-leaves,
  dismiss-calls, dismiss-stays, dismiss-IsValid, hoovered_addresses-IsValid,
}

pub hoover-IsValid :
    (env : Env) (clock now : ℕ) (t : VoIpSessions)
    → IsValid env t
    → IsValid env (hoover env clock now t)
unfolding hoover hoover_calls hoover_addresses
hoover-IsValid env clock now t v = dismiss-IsValid env clock _ _ (dismiss-IsValid env clock _ t v)

-- A session that is found and not dismissed is not over.
pub not_dismissed :
    (f : ℕ → Bool) (j : ℕ) (is : List ℕ)
    → contains j is ≡ true
    → contains j (to_dismiss f is) ≡ false
    → f j ≡ false
not_dismissed f j is here out = ground (arith, contains-to_dismiss f j is, here, out)

calls-rest :
    (env : Env) (clock now j : ℕ) (c : List ℕ) (t : VoIpSessions)
    → IsValid env t
    → ltb 0 (length c) ≡ true
    → find c (hoover_calls env clock now t).by_call_id ≡ some j
    → call_over env now (tracked ((hoover_calls env clock now t).heap j)) ≡ false
unfolding hoover_calls
calls-rest env clock now j c t v named h =
    let (there, out, same) = dismiss-calls env clock j c _ t v named h in
    ap (call_over env now) same
    ∙ (sym (call_over_lem env now (t.heap j))
        ∙ not_dismissed (λ i. is_over_on_call env now (t.heap i)) j _
            (find-values_text c j t.by_call_id there) out)

find-hoover_calls :
    (env : Env) (clock now a j : ℕ) (t : VoIpSessions)
    → IsValid env t
    → find a (hoover_calls env clock now t).by_ip_and_port ≡ some j
    → find a t.by_ip_and_port ≡ some j
unfolding hoover_calls
find-hoover_calls env clock now a j t v h = (dismiss-leaves env clock a j _ t v h).0

pub spared :
    (f : ℕ → Bool) (j : ℕ) (is : List ℕ) → f j ≡ false → contains j (to_dismiss f is) ≡ false
spared f j is h = ground (arith, contains-to_dismiss f j is, h)

addresses-stay :
    (env : Env) (clock now a j : ℕ) (t : VoIpSessions)
    → IsValid env t
    → find a t.by_ip_and_port ≡ some j
    → is_over_on_address env now (t.heap j) ≡ false
    → (find a (hoover_addresses env clock now t).by_ip_and_port ≡ some j)
      × (tracked ((hoover_addresses env clock now t).heap j) ≡ tracked (t.heap j))
unfolding hoover_addresses
addresses-stay env clock now a j t v h rest =
    dismiss-stays env clock a j _ t v h
      (spared (λ i. is_over_on_address env now (t.heap i)) j (values t.by_ip_and_port) rest)

calls-stay :
    (env : Env) (clock now a j : ℕ) (t : VoIpSessions)
    → IsValid env t
    → find a t.by_ip_and_port ≡ some j
    → is_over_on_call env now (t.heap j) ≡ false
    → find a (hoover_calls env clock now t).by_ip_and_port ≡ some j
unfolding hoover_calls
calls-stay env clock now a j t v h rest =
    (dismiss-stays env clock a j _ t v h
      (spared (λ i. is_over_on_call env now (t.heap i)) j (values t.by_call_id) rest)).0

hoover-stays :
    (env : Env) (clock now a j : ℕ) (t : VoIpSessions)
    → IsValid env t
    → find a t.by_ip_and_port ≡ some j
    → is_over_on_address env now (t.heap j) ≡ false
    → is_over_on_call env now (t.heap j) ≡ false
    → find a (hoover env clock now t).by_ip_and_port ≡ some j
unfolding hoover
hoover-stays env clock now a j t v h rest rest_call =
    let (there, same) = addresses-stay env clock now a j t v h rest in
    calls-stay env clock now a j (hoover_addresses env clock now t)
      (hoovered_addresses-IsValid env clock now t v) there
      (call_over_lem env now _
        ∙ (ap (call_over env now) same ∙ (sym (call_over_lem env now (t.heap j)) ∙ rest_call)))

-- The first loop leaves no session that is over by its own test.
addresses-go :
    (env : Env) (clock now a j : ℕ) (t : VoIpSessions)
    → IsValid env t
    → find a (hoover_addresses env clock now t).by_ip_and_port ≡ some j
    → (find a t.by_ip_and_port ≡ some j) × (is_over_on_address env now (t.heap j) ≡ false)
unfolding hoover_addresses
addresses-go env clock now a j t v h =
    let (there, out, same) = dismiss-leaves env clock a j _ t v h in
    (
      there,
      not_dismissed (λ i. is_over_on_address env now (t.heap i)) j _
          (find-values a j t.by_ip_and_port there) out,
    )

hoover-goes :
    (env : Env) (clock now a j : ℕ) (t : VoIpSessions)
    → IsValid env t
    → find a t.by_ip_and_port ≡ some j
    → is_over_on_address env now (t.heap j) ≡ true
    → find a (hoover env clock now t).by_ip_and_port ≡ none
unfolding hoover
hoover-goes env clock now a j t v h over =
    elim (Option-cases
      (find a (hoover_calls env clock now (hoover_addresses env clock now t)).by_ip_and_port)) [
        | inl gone ↦ gone
        | inr (k, still) ↦
            let w = hoovered_addresses-IsValid env clock now t v in
            let (there, rest) =
              addresses-go env clock now a k t v (find-hoover_calls env clock now a k _ w still) in
            absurd (
              ground (
                arith,
                over,
                ap (λ i. is_over_on_address env now (t.heap i)) (some-injective (sym h ∙ there))
                    ∙ rest,
              ))
      ]

-- `Hoover` on valid tables takes a media address away if its session is over, and leaves it otherwise,
-- where both loops' tests judge that session alike, as they do unless its protocol is raw RTP.
pub hoover-rests :
    (env : Env) (clock now a j : ℕ) (t : VoIpSessions)
    → IsValid env t
    → find a t.by_ip_and_port ≡ some j
    → is_over_on_call env now (t.heap j) ≡ is_over_on_address env now (t.heap j)
    → find a (hoover env clock now t).by_ip_and_port
      ≡ (if is_over_on_address env now (t.heap j) then none else some j)
hoover-rests env clock now a j t v h alike =
    elim (Bool-cases (is_over_on_address env now (t.heap j))) [
      | inl over ↦ hoover-goes env clock now a j t v h over ∙ sym (if_true _ _ over)
      | inr on ↦ hoover-stays env clock now a j t v h on (alike ∙ on) ∙ sym (if_false _ _ on)
    ]
