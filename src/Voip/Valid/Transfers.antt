-- ===== src/Voip/Valid/Transfers.antt =====
-- `SetMediaAddress` of VoIpSession.cpp keeps the tables valid, whoever had the media address before.
use orekacxx.Common.{
  ℕ, ◌<◌, ◌≡◌, ◌≢◌, refl, sym, ap, ◌∙◌, Bool, true, false, some, none, arith, Bool-cases,
  Option-cases, inl, inr, ==_refl, if◌then◌else◌, if_true, if-both,
}
use orekacxx.Voip.OrderedMap.{find, by_number}
use orekacxx.Voip.Session.{Env, is_raw_rtp}
use orekacxx.Voip.Tables.{VoIpSessions, craft_64bit_media_address, find_by_media_address}
use orekacxx.Voip.Stops.{
  remove_from_media_address_map, stop, map_address, set_media_address, is_accepted, gives_way,
}
use orekacxx.Voip.Stops.Removed.{find-remove, remove-gone, remove-Distinct}
use orekacxx.Voip.Valid.{IsValid}
use orekacxx.Voip.Valid.Stopped.{stop-IsValid, stop-drops, stop_next, other_than}
use orekacxx.Voip.Valid.Addresses.{map_address-IsValid, map_address_next}

is_accepted-nonzero :
    (env : Env) (ip port : ℕ)
    → is_accepted env ip port ≡ true
    → craft_64bit_media_address env ip port ≢ 0
unfolding is_accepted craft_64bit_media_address
is_accepted-nonzero env ip port h z = ground arith

-- Without one entry of the map.
abbrev dropped : (j address : ℕ) → VoIpSessions → VoIpSessions
dropped j address t = record t {
  by_ip_and_port = remove_from_media_address_map j address t.by_ip_and_port;
}

dropped-IsValid :
    (env : Env) (j address : ℕ) (t : VoIpSessions)
    → IsValid env t
    → IsValid env (dropped j address t)
dropped-IsValid env j address t v = record {
  sound = v.sound;
  mapped = λ a i h. v.mapped a i (find-remove j address a i _ h);
  known = λ a i h. v.known a i (find-remove j address a i _ h);
  called = v.called;
  known_call = v.known_call;
  addresses = remove-Distinct j address _ v.addresses;
  calls = v.calls;
}

dropped-absent :
    (env : Env) (j address : ℕ) (t : VoIpSessions)
    → find address t.by_ip_and_port ≡ some j
    → address ≢ 0
    → find address (dropped j address t).by_ip_and_port ≡ none
dropped-absent env j address t h n =
    elim (Option-cases (find address (dropped j address t).by_ip_and_port)) [
      | inl gone ↦ gone
      | inr (k, there) ↦ absurd (
          remove-gone j address t.by_ip_and_port n
            (there ∙ sym (find-remove j address address k _ there) ∙ h))
    ]

-- The media address is made free, and then mapped.
transfer-IsValid :
    (env : Env) (now i j address ip : ℕ) (raw : Bool) (t : VoIpSessions)
    → IsValid env t
    → i < t.next_id
    → address ≢ 0
    → find address t.by_ip_and_port ≡ some j
    → IsValid env
        (map_address env i address ip (if raw then stop env now j t else dropped j address t))
transfer-IsValid env now i j address ip true t v known n there =
    map_address-IsValid env i address ip _ (stop-IsValid env now j t v)
      (rw (stop_next env now j t) known) n
      (stop-drops env now j address t v ∙ (ap (other_than j) there ∙ if_true _ _ (==_refl j)))
transfer-IsValid env now i j address ip false t v known n there =
    map_address-IsValid env i address ip _ (dropped-IsValid env j address t v) known n
      (dropped-absent env j address t there n)

pub set_media_address-IsValid :
    (env : Env) (now i ip port : ℕ) (t : VoIpSessions)
    → IsValid env t
    → i < t.next_id
    → IsValid env (set_media_address env now i ip port t)
unfolding set_media_address find_by_media_address
set_media_address-IsValid env now i ip port t v known =
    elim (Bool-cases (is_accepted env ip port)) [
      | inr refused ↦ rw refused v
      | inl accepted ↦
          let n = is_accepted-nonzero env ip port accepted in
          elim (Option-cases (find (craft_64bit_media_address env ip port) t.by_ip_and_port)) [
            | inl absent ↦ rw (accepted, absent) (map_address-IsValid env i _ ip t v known n absent)
            | inr (j, there) ↦
                elim (Bool-cases
                  (env.compare_no_case (t.heap j).tracking_id (t.heap i).tracking_id)) [
                    | inl own ↦ rw (accepted, there, own) v
                    | inr other ↦ elim (Bool-cases (gives_way env (t.heap j) (t.heap i))) [
                      | inl way ↦
                          rw (accepted, there, other, way)
                            (transfer-IsValid env now i j _ ip (is_raw_rtp (t.heap j)) t v known n
                              there)
                      | inr stays ↦ rw (accepted, there, other, stays) v
                    ]
                  ]
          ]
    ]

pub set_media_address_next :
    (env : Env) (now i ip port : ℕ) (t : VoIpSessions)
    → (set_media_address env now i ip port t).next_id ≡ t.next_id
unfolding set_media_address find_by_media_address
set_media_address_next env now i ip port t =
    let address = craft_64bit_media_address env ip port in
    if-both (λ (u : VoIpSessions). u.next_id ≡ t.next_id) (is_accepted env ip port)
      (elim (Option-cases (find address t.by_ip_and_port)) [
        | inl absent ↦ rw absent (map_address_next env i address ip t)
        | inr (j, there) ↦ rw there (
            if-both (λ (u : VoIpSessions). u.next_id ≡ t.next_id)
              (env.compare_no_case (t.heap j).tracking_id (t.heap i).tracking_id) refl
              (if-both (λ (u : VoIpSessions). u.next_id ≡ t.next_id)
                (gives_way env (t.heap j) (t.heap i))
                (map_address_next env i address ip _
                  ∙ if-both (λ (u : VoIpSessions). u.next_id ≡ t.next_id) (is_raw_rtp (t.heap j))
                      (stop_next env now j t) refl)
                refl))
      ])
      refl
