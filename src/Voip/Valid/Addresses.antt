-- ===== src/Voip/Valid/Addresses.antt =====
-- `SetMediaAddress` of VoIpSession.cpp keeps the tables valid.
use orekacxx.Common.{
  ℕ, ◌<◌, ◌≡◌, ◌≢◌, sym, ap, ◌∙◌, true, false, some, none, Bool-cases, inl, inr, ◌==◌, ==_iff,
  if_true,
}
use orekacxx.Serializers.Chars.{contains}
use orekacxx.Voip.OrderedMap.{find, by_number, by_text}
use orekacxx.Voip.OrderedMap.Laws.{insert-Distinct}
use orekacxx.Voip.Session.{Env}
use orekacxx.Voip.Tables.{VoIpSessions}
use orekacxx.Voip.Tracked.{tracked}
use orekacxx.Voip.Stops.{map_address}
use orekacxx.Voip.Valid.{IsValid}
use orekacxx.Voip.Valid.Remapped.{
  moved, remapped, map_address_own, map_address_other, map_address_tables, kept, contains_new,
  contains_old, moved-Sound, kept_map-Distinct, find-remapped,
}

-- The tables after `map_address`.
record Moved (env : Env) (i address : ℕ) (t u : VoIpSessions) : Type 0 where
  own : tracked (u.heap i) ≡ moved env address (tracked (t.heap i))
  other : (j : ℕ) → (j == i) ≡ false → tracked (u.heap j) ≡ tracked (t.heap j)
  addresses : u.by_ip_and_port ≡ remapped env i address t
  calls : u.by_call_id ≡ t.by_call_id
  next : u.next_id ≡ t.next_id

Moved-call_id :
    (env : Env) (i address j : ℕ) (t u : VoIpSessions)
    → Moved env i address t u
    → (tracked (u.heap j)).call_id ≡ (tracked (t.heap j)).call_id
Moved-call_id env i address j t u m = elim (Bool-cases (j == i)) [
  | inl e ↦ rw ((==_iff j i).0 e) (ap (λ s. s.call_id) m.own)
  | inr e ↦ ap (λ s. s.call_id) (m.other j e)
]

Moved-mapped :
    (env : Env) (i address a j : ℕ) (t u : VoIpSessions)
    → Moved env i address t u
    → IsValid env t
    → find address t.by_ip_and_port ≡ none
    → find a (remapped env i address t) ≡ some j
    → contains a (tracked (u.heap j)).media_addresses ≡ true
Moved-mapped env i address a j t u m v absent h =
    elim (find-remapped env i address a j t v absent h) [
      | inl (here, q) ↦
          rw (here, q)
            (ap (λ s. contains address s.media_addresses) m.own
              ∙ contains_new address (kept env (tracked (t.heap i))))
      | inr (there, many) ↦ elim (Bool-cases (j == i)) [
        | inl e ↦
            let q = (==_iff j i).0 e in
            rw q (
              ap (λ s. contains a s.media_addresses) m.own
              ∙ contains_old a address _ (
                  ap (λ xs. contains a xs) (if_true _ _ (many q))
                  ∙ v.mapped a i (there ∙ ap some q)))
        | inr e ↦ ap (λ s. contains a s.media_addresses) (m.other j e) ∙ v.mapped a j there
      ]
    ]

Moved-IsValid :
    (env : Env) (i address : ℕ) (t u : VoIpSessions)
    → Moved env i address t u
    → IsValid env t
    → i < t.next_id
    → address ≢ 0
    → find address t.by_ip_and_port ≡ none
    → IsValid env u
Moved-IsValid env i address t u m v known n absent = record {
  sound = λ j h. elim (Bool-cases (j == i)) [
    | inl e ↦
        rw (ap u.heap ((==_iff j i).0 e), m.own) (moved-Sound env address _ n (v.sound i known))
    | inr e ↦ rw (m.other j e) (v.sound j (rw (sym m.next) h))
  ];
  mapped = λ a j h. Moved-mapped env i address a j t u m v absent (rw (sym m.addresses) h);
  known = λ a j h. elim (find-remapped env i address a j t v absent (rw (sym m.addresses) h)) [
    | inl (here, q) ↦ rw (q, m.next) known
    | inr (there, many) ↦ rw m.next (v.known a j there)
  ];
  called = λ c j h. Moved-call_id env i address j t u m ∙ v.called c j (rw (sym m.calls) h);
  known_call = λ c j h. rw m.next (v.known_call c j (rw (sym m.calls) h));
  addresses = rw m.addresses (insert-Distinct address i _ (kept_map-Distinct env i t v.addresses));
  calls = rw m.calls v.calls;
}

pub map_address-IsValid :
    (env : Env) (i address ip : ℕ) (t : VoIpSessions)
    → IsValid env t
    → i < t.next_id
    → address ≢ 0
    → find address t.by_ip_and_port ≡ none
    → IsValid env (map_address env i address ip t)
map_address-IsValid env i address ip t v known n absent =
    let tables = map_address_tables env i address ip t in
    Moved-IsValid env i address t _
      (record {
        own = map_address_own env i address ip t;
        other = λ j e. map_address_other env i address ip j t e;
        addresses = tables.0;
        calls = tables.1;
        next = tables.2;
      })
      v known n absent

pub map_address_next :
    (env : Env) (i address ip : ℕ) (t : VoIpSessions)
    → (map_address env i address ip t).next_id ≡ t.next_id
map_address_next env i address ip t = (map_address_tables env i address ip t).2
