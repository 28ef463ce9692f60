-- ===== src/Voip/UrlExtraction/Keeps.antt =====
-- `UrlExtraction` and `ReportOnDemandMarkerByIp` of VoIpSession.cpp leave the tables of sessions alone.
use mathlib.Core.Path.{subst}
use orekacxx.Common.{
  ℕ, ◌≡◌, refl, sym, ap, ◌∙◌, Bool, true, ◌&&◌, ◌||◌, List, [], ◌∷◌, none, Bool-cases, Option-cases,
  inl, inr, ltb, length, if_true, if_false,
}
use orekacxx.Common.Outcome.{done, >>=-eq-done, done-injective}
use orekacxx.Voip.OrderedMap.{values}
use orekacxx.Voip.Session.{Env}
use orekacxx.Voip.Tables.{VoIpSessions}
use orekacxx.Voip.Tracked.{Quiet, Quiet-refl, Quiet-trans, modify-Quiet, call-Quiet}
use orekacxx.Voip.Commands.Keeps.{keep-tracked, demand-tracked}
use orekacxx.Voip.UrlExtraction.{
  Extraction, store_value, store_round, extract_from, url_extraction, un_escape_url, url_step,
  in_error_state, in_start_state, is_empty, report_on_demand_marker_by_ip, latest_on,
}

store_value-Quiet :
    (env : Env) (now ip : ℕ) (key value : List ℕ) (t : VoIpSessions)
    → Quiet t (store_value env now ip key value t)
unfolding store_value
store_value-Quiet env now ip key value t = record {
  addresses = refl;
  calls = refl;
  next = refl;
  sessions = λ j. refl;
}

store_round-Quiet :
    (env : Env) (now ip : ℕ) (last : Bool) (x : Extraction) (t : VoIpSessions)
    (r : Extraction × VoIpSessions)
    → store_round env now ip last x t ≡ done r
    → Quiet t r.1
unfolding store_round
store_round-Quiet env now ip last x t r h =
    elim (Bool-cases ((in_start_state x || last) && ltb 0 (length x.key))) [
      | inl stores ↦
          let (value, made, e) =
            >>=-eq-done (un_escape_url x.value)
              (λ v. done (record x { key = []; value = [] }, store_value env now ip x.key v t))
              (sym (if_true _ _ stores) ∙ h) in
          subst (λ w. Quiet t w) (ap (λ (q : Extraction × VoIpSessions). q.1) (done-injective e))
            (store_value-Quiet env now ip x.key value t)
      | inr goes_on ↦
          subst (λ w. Quiet t w)
            (ap (λ (q : Extraction × VoIpSessions). q.1)
              (done-injective (sym (if_false _ _ goes_on) ∙ h)))
            (Quiet-refl t)
    ]

extract_from-Quiet :
    (env : Env) (now ip : ℕ) (x : Extraction) (text : List ℕ) (t u : VoIpSessions)
    → extract_from env now ip x text t ≡ done u
    → Quiet t u
unfolding extract_from
extract_from-Quiet env now ip x [] t u h = subst (λ w. Quiet t w) (done-injective h) (Quiet-refl t)
extract_from-Quiet env now ip x (c ∷ cs) t u h = elim (Bool-cases (in_error_state x)) [
  | inl fails ↦ subst (λ w. Quiet t w) (done-injective (sym (if_true _ _ fails) ∙ h)) (Quiet-refl t)
  | inr goes_on ↦
      let (r, made, rest) =
        >>=-eq-done (store_round env now ip (is_empty cs) (url_step x c) t)
          (λ q. extract_from env now ip q.0 cs q.1) (sym (if_false _ _ goes_on) ∙ h) in
      Quiet-trans _ _ _ (store_round-Quiet env now ip _ _ t r made)
        (extract_from-Quiet env now ip r.0 cs r.1 u rest)
]

pub url_extraction-Quiet :
    (env : Env) (now ip : ℕ) (text : List ℕ) (t u : VoIpSessions)
    → url_extraction env now text ip t ≡ done u
    → Quiet t u
unfolding url_extraction
url_extraction-Quiet env now ip text t u h = extract_from-Quiet env now ip _ text t u h

pub report_on_demand_marker_by_ip-Quiet :
    (ip : ℕ) (t : VoIpSessions) → Quiet t (report_on_demand_marker_by_ip ip t)
unfolding report_on_demand_marker_by_ip
report_on_demand_marker_by_ip-Quiet ip t =
    elim (Option-cases (latest_on ip t.heap 0 none (values t.by_ip_and_port))) [
      | inl nobody ↦ rw (report_on_demand_marker_by_ip, nobody) (Quiet-refl t)
      | inr (i, found) ↦
          rw (report_on_demand_marker_by_ip, found)
            (Quiet-trans _ _ _ (modify-Quiet i _ t (keep-tracked true (t.heap i)))
              (call-Quiet i _ _ (demand-tracked _ _)))
    ]
