-- ===== src/Voip/Valid.antt =====
-- What it means that the tables of VoIpSession.cpp agree with their sessions, and that `Stop` keeps it.
pub mod Addresses
pub mod Remapped
pub mod Expired
pub mod Called
pub mod Dismissed
pub mod Transfers
pub mod Stopped
use orekacxx.Common.{
  ℕ, ◌<◌, ◌≡◌, ◌≢◌, refl, ap, ◌∙◌, Bool, true, false, List, [], ◌∷◌, Option, some, arith,
  Bool-cases, inl, inr, ◌==◌, ==_iff, if◌then◌else◌, sym,
}
use orekacxx.Serializers.Chars.{contains}
use orekacxx.Voip.OrderedMap.{find, by_number, by_text}
use orekacxx.Voip.OrderedMap.Laws.{Distinct}
use orekacxx.Voip.Session.{Env, VoIpSession}
use orekacxx.Voip.Tables.{VoIpSessions}
use orekacxx.Voip.Tracked.{Tracked, tracked, Quiet}

-- The media addresses of a session: none is 0, the latest is one of them if there are any, and it is the
-- only one where a session has one address at a time.
pub record Sound (env : Env) (s : Tracked) : Type 0 where
  pub nonzero : (a : ℕ) → contains a s.media_addresses ≡ true → a ≢ 0
  pub latest :
      (a : ℕ)
      → contains a s.media_addresses ≡ true
      → contains s.ip_and_port s.media_addresses ≡ true
  pub single :
      env.allow_multiple_mappings ≡ false
      → (a : ℕ) → contains a s.media_addresses ≡ true
      → a ≡ s.ip_and_port

-- Each entry of the map of media addresses leads to a session that has the address, each entry of the
-- other one to a session with that call ID, and no key stands there twice.
pub record IsValid (env : Env) (t : VoIpSessions) : Type 0 where
  pub sound : (i : ℕ) → i < t.next_id → Sound env (tracked (t.heap i))
  pub mapped :
      (a i : ℕ)
      → find a t.by_ip_and_port ≡ some i
      → contains a (tracked (t.heap i)).media_addresses ≡ true
  pub known : (a i : ℕ) → find a t.by_ip_and_port ≡ some i → i < t.next_id
  pub called :
      (c : List ℕ) (i : ℕ) → find c t.by_call_id ≡ some i → (tracked (t.heap i)).call_id ≡ c
  pub known_call : (c : List ℕ) (i : ℕ) → find c t.by_call_id ≡ some i → i < t.next_id
  pub addresses : Distinct t.by_ip_and_port
  pub calls : Distinct t.by_call_id

pub Quiet-IsValid : (env : Env) (t t' : VoIpSessions) → Quiet t t' → IsValid env t → IsValid env t'
Quiet-IsValid env t t' q v = record {
  sound = λ i h. rw (q.sessions i) (v.sound i (rw (sym q.next) h));
  mapped = λ a i h. rw (q.sessions i) (v.mapped a i (rw (sym q.addresses) h));
  known = λ a i h. rw q.next (v.known a i (rw (sym q.addresses) h));
  called = λ c i h. rw (q.sessions i) (v.called c i (rw (sym q.calls) h));
  known_call = λ c i h. rw q.next (v.known_call c i (rw (sym q.calls) h));
  addresses = rw q.addresses v.addresses;
  calls = rw q.calls v.calls;
}

-- A session without media addresses is sound.
pub empty-Sound : (env : Env) (s : Tracked) → s.media_addresses ≡ [] → Sound env s
unfolding contains
empty-Sound env s h = record {
  nonzero = λ a c. absurd (ground (arith, c, h));
  latest = λ a c. absurd (ground (arith, c, h));
  single = λ m a c. absurd (ground (arith, c, h));
}
