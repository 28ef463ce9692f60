-- ===== src/Voip/Valid/Dismissed.antt =====
-- What the loops of `Hoover` of VoIpSession.cpp leave that stop the listed sessions.
use orekacxx.Common.{
  ℕ, ◌+◌, ◌≡◌, refl, sym, ap, ◌∙◌, Bool, true, false, ◌&&◌, ◌||◌, List, [], ◌∷◌, some, arith, ◌==◌,
  ==_refl, ltb, length, if◌then◌else◌, if_false,
}
use orekacxx.Serializers.Chars.{contains}
use orekacxx.Voip.OrderedMap.{find, values, by_number, by_text}
use orekacxx.Voip.Session.{Env, VoIpSession, is_raw_rtp, prot_raw_rtp}
use orekacxx.Voip.Tables.{VoIpSessions}
use orekacxx.Voip.Tracked.{Tracked, tracked}
use orekacxx.Voip.Stops.{
  dismiss, to_dismiss, is_over_on_address, is_over_on_call, signalling_time_out, hoover_addresses,
}
use orekacxx.Voip.Valid.{IsValid}
use orekacxx.Voip.Valid.Stopped.{
  stop-IsValid, stop-drops, stop-calls, stop_other, other_than, other_than-some,
}

-- The time-outs, by what is tracked of a session.
abbrev pub call_limit : Env → Tracked → ℕ
call_limit env s =
    if s.on_hold
    then env.on_hold_timeout
    else if ltb 0 s.num_rtp_packets || ltb 0 s.num_ignored_rtp_packets
    then env.signalling_timeout
    else env.initial_timeout

abbrev pub address_over : Env → ℕ → Tracked → Bool
address_over env now s =
    ltb
      (s.last_updated
        + (if (elim s.protocol [ prot_raw_rtp ↦ true | _ ↦ false ])
            then env.rtp_timeout
            else call_limit env s))
      now

abbrev pub call_over : Env → ℕ → Tracked → Bool
call_over env now s = ltb (s.last_updated + call_limit env s) now

pub address_over_lem :
    (env : Env) (now : ℕ) (s : VoIpSession)
    → is_over_on_address env now s ≡ address_over env now (tracked s)
unfolding is_over_on_address is_raw_rtp signalling_time_out tracked
address_over_lem env now s = refl

pub call_over_lem :
    (env : Env) (now : ℕ) (s : VoIpSession)
    → is_over_on_call env now s ≡ call_over env now (tracked s)
unfolding is_over_on_call signalling_time_out tracked
call_over_lem env now s = refl

pub contains-to_dismiss :
    (f : ℕ → Bool) (j : ℕ) (is : List ℕ) → contains j (to_dismiss f is) ≡ (contains j is && f j)
unfolding contains to_dismiss
contains-to_dismiss f j [] = refl
contains-to_dismiss f j (i ∷ is) = grind (arith, contains-to_dismiss f j is)

pub find-values : (a j : ℕ) (m : List (ℕ × ℕ)) → find a m ≡ some j → contains j (values m) ≡ true
unfolding find contains
find-values a j [] h = absurd (ground (arith, h))
find-values a j ((b, i) ∷ m) h = ground (arith, h, find-values a j m)

pub find-values_text :
    (c : List ℕ) (j : ℕ) (m : List (List ℕ × ℕ)) → find c m ≡ some j → contains j (values m) ≡ true
unfolding find contains
find-values_text c j [] h = absurd (ground (arith, h))
find-values_text c j ((b, i) ∷ m) h = ground (arith, h, find-values_text c j m)

-- What the loop that stops the listed sessions leaves.
pub dismiss-leaves :
    (env : Env) (now a j : ℕ) (is : List ℕ) (t : VoIpSessions)
    → IsValid env t
    → find a (dismiss env now is t).by_ip_and_port ≡ some j
    → (find a t.by_ip_and_port ≡ some j)
      × (contains j is ≡ false)
      × (tracked ((dismiss env now is t).heap j) ≡ tracked (t.heap j))
unfolding dismiss contains
dismiss-leaves env now a j [] t v h = (h, refl, refl)
dismiss-leaves env now a j (i ∷ is) t v h =
    let (there, out, same) = dismiss-leaves env now a j is _ (stop-IsValid env now i t v) h in
    let (before, n) = other_than-some i j _ (sym (stop-drops env now i a t v) ∙ there) in
    (
      before,
      ground (arith, out, n),
      same ∙ stop_other env now i j t (λ q. ground (arith, n, q, ==_refl j)),
    )

pub dismiss-calls :
    (env : Env) (now j : ℕ) (c : List ℕ) (is : List ℕ) (t : VoIpSessions)
    → IsValid env t
    → ltb 0 (length c) ≡ true
    → find c (dismiss env now is t).by_call_id ≡ some j
    → (find c t.by_call_id ≡ some j)
      × (contains j is ≡ false)
      × (tracked ((dismiss env now is t).heap j) ≡ tracked (t.heap j))
unfolding dismiss contains
dismiss-calls env now j c [] t v named h = (h, refl, refl)
dismiss-calls env now j c (i ∷ is) t v named h =
    let (there, out, same) = dismiss-calls env now j c is _ (stop-IsValid env now i t v) named h in
    let (before, other) = stop-calls env now i j c t v there in
    let n = other named in
    (
      before,
      ground (arith, out, n),
      same ∙ stop_other env now i j t (λ q. ground (arith, n, q, ==_refl j)),
    )

pub not_first :
    (j i : ℕ) (is : List ℕ)
    → contains j (i ∷ is) ≡ false
    → ((j == i) ≡ false) × (contains j is ≡ false)
unfolding contains
not_first j i is h = ground (arith, h)

pub dismiss-stays :
    (env : Env) (now a j : ℕ) (is : List ℕ) (t : VoIpSessions)
    → IsValid env t
    → find a t.by_ip_and_port ≡ some j
    → contains j is ≡ false
    → (find a (dismiss env now is t).by_ip_and_port ≡ some j)
      × (tracked ((dismiss env now is t).heap j) ≡ tracked (t.heap j))
unfolding dismiss contains
dismiss-stays env now a j [] t v h out = (h, refl)
dismiss-stays env now a j (i ∷ is) t v h out =
    let n = not_first j i is out in
    let (there, same) =
      dismiss-stays env now a j is _ (stop-IsValid env now i t v)
        (stop-drops env now i a t v ∙ (ap (other_than i) h ∙ if_false _ _ n.0)) n.1 in
    (there, same ∙ stop_other env now i j t (λ q. ground (arith, n.0, q, ==_refl j)))

pub dismiss-IsValid :
    (env : Env) (now : ℕ) (is : List ℕ) (t : VoIpSessions)
    → IsValid env t
    → IsValid env (dismiss env now is t)
unfolding dismiss
dismiss-IsValid env now [] t v = v
dismiss-IsValid env now (i ∷ is) t v = dismiss-IsValid env now is _ (stop-IsValid env now i t v)

pub hoovered_addresses-IsValid :
    (env : Env) (clock now : ℕ) (t : VoIpSessions)
    → IsValid env t
    → IsValid env (hoover_addresses env clock now t)
unfolding hoover_addresses
hoovered_addresses-IsValid env clock now t v = dismiss-IsValid env clock _ t v
