-- ===== src/Voip/Valid/Remapped.antt =====
-- What SetMediaAddress of VoIpSession.cpp makes of a session's media addresses and of the map.
use orekacxx.Common.{
  ℕ, ◌≡◌, ◌≢◌, refl, sym, ap, ◌∙◌, true, false, List, [], ◌∷◌, ◌++◌, some, none, arith, Bool-cases,
  Option-cases, inl, inr, ◌==◌, ==_iff, ==_refl, if◌then◌else◌, ◌||◌, ◌⊎◌, if_true, if_false,
}
use orekacxx.Serializers.Chars.{contains}
use orekacxx.Voip.OrderedMap.{find, insert, by_number, by_text}
use orekacxx.Voip.OrderedMap.Laws.{find-insert_number, Distinct}
use orekacxx.Voip.Session.{Env}
use orekacxx.Voip.Tables.{VoIpSessions, modify}
use orekacxx.Voip.Tracked.{Tracked, tracked}
use orekacxx.Voip.Stops.{remove_from_media_address_map, map_address}
use orekacxx.Voip.Stops.Removed.{find-remove, remove-gone, remove-Distinct}
use orekacxx.Voip.Valid.{Sound, IsValid}

pub contains-append :
    (a : ℕ) (xs ys : List ℕ) → contains a (xs ++ ys) ≡ (contains a xs || contains a ys)
unfolding contains
contains-append a [] ys = refl
contains-append a (x ∷ xs) ys = ground (arith, contains-append a xs ys)

-- What `map_address` makes of the session's tracked part, and of the map.
abbrev pub moved : Env → ℕ → Tracked → Tracked
moved env address s = record s {
  media_addresses = (if env.allow_multiple_mappings then s.media_addresses else []) ++ address ∷ [];
  ip_and_port = address;
}

abbrev pub kept_map : Env → ℕ → VoIpSessions → List (ℕ × ℕ)
kept_map env i t =
    if env.allow_multiple_mappings
    then t.by_ip_and_port
    else remove_from_media_address_map i (t.heap i).ip_and_port t.by_ip_and_port

abbrev pub remapped : Env → (i address : ℕ) → VoIpSessions → List (ℕ × ℕ)
remapped env i address t = insert address i (kept_map env i t)

pub map_address_own :
    (env : Env) (i address ip : ℕ) (t : VoIpSessions)
    → tracked ((map_address env i address ip t).heap i) ≡ moved env address (tracked (t.heap i))
unfolding map_address modify tracked
map_address_own env i address ip t = elim (Bool-cases env.allow_multiple_mappings) [
  | inl e ↦ rw (e, ==_refl i) refl
  | inr e ↦ rw (e, ==_refl i) refl
]

pub map_address_other :
    (env : Env) (i address ip j : ℕ) (t : VoIpSessions)
    → (j == i) ≡ false
    → tracked ((map_address env i address ip t).heap j) ≡ tracked (t.heap j)
unfolding map_address modify
map_address_other env i address ip j t n = elim (Bool-cases env.allow_multiple_mappings) [
  | inl e ↦ rw (e, n) refl
  | inr e ↦ rw (e, n) refl
]

pub map_address_tables :
    (env : Env) (i address ip : ℕ) (t : VoIpSessions)
    → ((map_address env i address ip t).by_ip_and_port ≡ remapped env i address t)
      × ((map_address env i address ip t).by_call_id ≡ t.by_call_id)
      × ((map_address env i address ip t).next_id ≡ t.next_id)
unfolding map_address modify
map_address_tables env i address ip t = elim (Bool-cases env.allow_multiple_mappings) [
  | inl e ↦ rw e (refl, refl, refl)
  | inr e ↦ rw e (refl, refl, refl)
]

-- The addresses that a session keeps next to its new one.
abbrev pub kept : Env → Tracked → List ℕ
kept env s = if env.allow_multiple_mappings then s.media_addresses else []

pub contains-kept :
    (env : Env) (a address : ℕ) (s : Tracked)
    → contains a (kept env s ++ address ∷ []) ≡ true
    → (a ≡ address) ⊎ (env.allow_multiple_mappings ≡ true) × (contains a s.media_addresses ≡ true)
unfolding contains
contains-kept env a address s h = elim (Bool-cases (a == address)) [
  | inl e ↦ inl ((==_iff a address).0 e)
  | inr e ↦ elim (Bool-cases env.allow_multiple_mappings) [
    | inl m ↦ inr (m, ground (arith, h, e, m, contains-append a s.media_addresses (address ∷ [])))
    | inr m ↦ absurd (ground (arith, h, e, m))
  ]
]

pub contains_new : (a : ℕ) (xs : List ℕ) → contains a (xs ++ a ∷ []) ≡ true
unfolding contains
contains_new a xs = rw (contains-append a xs (a ∷ []), ==_refl a) (ground arith)

pub contains_old : (a b : ℕ) (xs : List ℕ) → contains a xs ≡ true → contains a (xs ++ b ∷ []) ≡ true
contains_old a b xs h = rw (contains-append a xs (b ∷ []), h) refl

pub moved-Sound :
    (env : Env) (address : ℕ) (s : Tracked)
    → address ≢ 0
    → Sound env s
    → Sound env (moved env address s)
moved-Sound env address s n h = record {
  nonzero = λ a c. elim (contains-kept env a address s c) [
    | inl e ↦ λ z. n (sym e ∙ z)
    | inr (m, old) ↦ h.nonzero a old
  ];
  latest = λ a c. contains_new address (kept env s);
  single = λ m a c. elim (contains-kept env a address s c) [
    | inl e ↦ e
    | inr (m', old) ↦ absurd (ground (arith, m, m'))
  ];
}

pub find-kept_map :
    (env : Env) (i a j : ℕ) (t : VoIpSessions)
    → find a (kept_map env i t) ≡ some j
    → find a t.by_ip_and_port ≡ some j
find-kept_map env i a j t h = elim (Bool-cases env.allow_multiple_mappings) [
  | inl m ↦ ap (λ k. find a k) (sym (if_true _ _ m)) ∙ h
  | inr m ↦
      find-remove i (t.heap i).ip_and_port a j t.by_ip_and_port
        (ap (λ k. find a k) (sym (if_false _ _ m)) ∙ h)
]

pub kept_map-Distinct :
    (env : Env) (i : ℕ) (t : VoIpSessions) → Distinct t.by_ip_and_port → Distinct (kept_map env i t)
kept_map-Distinct env i t d = elim (Bool-cases env.allow_multiple_mappings) [
  | inl m ↦ rw m d
  | inr m ↦ rw m (remove-Distinct i _ _ d)
]

pub kept_map-absent :
    (env : Env) (i a : ℕ) (t : VoIpSessions)
    → find a t.by_ip_and_port ≡ none
    → find a (kept_map env i t) ≡ none
kept_map-absent env i a t h = elim (Option-cases (find a (kept_map env i t))) [
  | inl gone ↦ gone
  | inr (j, there) ↦ absurd (ground (arith, h, find-kept_map env i a j t there))
]

pub kept_map-own :
    (env : Env) (i a : ℕ) (t : VoIpSessions)
    → IsValid env t
    → find a (kept_map env i t) ≡ some i
    → env.allow_multiple_mappings ≡ true
unfolding tracked
kept_map-own env i a t v h = elim (Bool-cases env.allow_multiple_mappings) [
  | inl m ↦ m
  | inr m ↦
      let before = find-kept_map env i a i t h in
      let own = v.mapped a i before in
      let here = (v.sound i (v.known a i before)).single m a own in
      absurd (
        remove-gone i (t.heap i).ip_and_port t.by_ip_and_port
          (λ z. (v.sound i (v.known a i before)).nonzero a own (here ∙ z))
          (ap
              (λ b.
                find b (remove_from_media_address_map i (t.heap i).ip_and_port t.by_ip_and_port))
              (sym here)
            ∙ (ap (λ k. find a k) (sym (if_false _ _ m)) ∙ h)))
]

-- What is found in the remapped map: the new entry, or one that stays.
pub find-remapped :
    (env : Env) (i address a j : ℕ) (t : VoIpSessions)
    → IsValid env t
    → find address t.by_ip_and_port ≡ none
    → find a (remapped env i address t) ≡ some j
    → ((a ≡ address) × (j ≡ i))
      ⊎ ((find a t.by_ip_and_port ≡ some j) × ((j ≡ i) → env.allow_multiple_mappings ≡ true))
find-remapped env i address a j t v absent h = elim (Bool-cases (address == a)) [
  | inl e ↦ inl (
    sym ((==_iff address a).0 e),
    ground (
      arith,
      h,
      e,
      find-insert_number a address i (kept_map env i t) (kept_map-absent env i address t absent),
    ),
  )
  | inr e ↦
      let there =
        sym (
          find-insert_number a address i (kept_map env i t) (kept_map-absent env i address t absent)
          ∙ ap (λ b. if b then some i else find a (kept_map env i t)) e)
        ∙ h in
      inr (find-kept_map env i a j t there, λ q. kept_map-own env i a t v (there ∙ ap some q))
]
