-- ===== src/SipTcp/Streams/Open.antt =====
-- The static list of `TrySipTcp` holds open streams only.
use mathlib.Core.Path.{subst}
use orekacxx.Common.{
  ℕ, ◌+◌, ◌≡◌, ap, Bool, false, List, [], ◌∷◌, some, length, take, drop, arith, All, append-All,
  Bool-cases, inl, inr, length-append, length-take, leb, ltb, ◌==◌, some-injective, leb→le,
}
use orekacxx.Common.Int.{ℤ, pos, negsuc}
use orekacxx.Common.Outcome.{done, faults, >>=-eq-done, done-injective, and_then-eq-some}
use orekacxx.Net.TcpHeader.{tcp_header_size}
use orekacxx.SipTcp.Messages.{Parsers, parse_sip_stream}
use orekacxx.SipTcp.Streams.{
  Stream, Segment, store, add, copied, payload_at, payload_len, is_duplicate, starts_message,
  is_over, new_stream, parse_one, start_stream, visit, keep_or_erase, continue_streams,
  take_segment, try_sip_tcp,
}

-- Bytes of the stream are left to parse.
abbrev pub IsOpen : Stream → Type 0
IsOpen t = (t.offset == length t.buffer) ≡ false

clash {ℓ} : {A : Type ℓ} {a : A} → ¬ (faults ≡ done a)
clash h = cc

length-copied : (b src c : List ℕ) (len : ℕ) → copied b src len ≡ done c → length c ≡ length b + len
length-copied b src c len h = elim (Bool-cases (leb len (length src))) [
  | inl e ↦
      let same = done-injective (rw e at h) in
      omega
        (arith, ap length same, length-append b (take len src), length-take len src, leb→le _ _ e)
  | inr e ↦ absurd (clash (rw e at h))
]

length-add :
    (serves : ℕ → Bool) (src b : List ℕ) (len : ℕ)
    → add serves [] src (pos len) ≡ done b
    → length b ≡ len
unfolding add store
length-add serves src b len h = ground (arith, length-copied [] src b len)

module _ {ℓ} {S : Type ℓ} (serves : ℕ → Bool) (ps : Parsers S) where
  kept-IsOpen :
      (now : ℕ) (t : Stream) (ts : List Stream)
      → All IsOpen ts
      → All IsOpen (keep_or_erase now t ts)
  unfolding is_over
  kept-IsOpen now t ts a = elim (Bool-cases (is_over now t)) [
    | inl e ↦ rw e a
    | inr e ↦ rw e (ground arith, a)
  ]

  continue_streams-IsOpen :
      (now : ℕ) (g : Segment) (len : ℤ) (s : S) (ts : List Stream) (r : S × List Stream × Bool)
      → continue_streams serves ps now g len s ts ≡ done (some r)
      → All IsOpen r.1
  unfolding continue_streams
  continue_streams-IsOpen now g len s [] r h =
      subst (λ (r : S × List Stream × Bool). All IsOpen r.1) (some-injective (done-injective h)) tt
  continue_streams-IsOpen now g len s (t ∷ ts) r h =
      let (v, visited, more) = and_then-eq-some (visit serves ps g len s t) _ h in
      let (q, rest, same) = and_then-eq-some (continue_streams serves ps now g len v.0 ts) _ more in
      subst (λ (r : S × List Stream × Bool). All IsOpen r.1) (some-injective (done-injective same))
        (kept-IsOpen now v.1 q.1 (continue_streams-IsOpen now g len v.0 ts q rest))

  new_stream-IsOpen :
      (now : ℕ) (g : Segment) (len offset : ℕ) (b : List ℕ)
      → length b ≡ len
      → (offset == len) ≡ false
      → IsOpen (new_stream now g len offset b)
  unfolding new_stream
  new_stream-IsOpen now g len offset b e h = rw e h

  start_stream-IsOpen :
      (now : ℕ) (g : Segment) (len : ℕ) (s : S) (ts : List Stream) (r : S × List Stream × Bool)
      → All IsOpen ts
      → start_stream serves ps now g len s ts ≡ done (some r)
      → All IsOpen r.1
  unfolding start_stream
  start_stream-IsOpen now g len s ts r a h =
      let (parsed, ran, more) =
        and_then-eq-some
          (parse_sip_stream (parse_one ps g) g.bytes (payload_at g) (payload_at g + len) s) _ h in
      elim (Bool-cases (parsed.1 == len)) [
        | inl e ↦
            subst (λ (r : S × List Stream × Bool). All IsOpen r.1)
              (some-injective (done-injective (rw e at more))) a
        | inr e ↦
            let (b, added, same) =
              >>=-eq-done (add serves [] (drop (payload_at g) g.bytes) (pos len)) _
                (rw e at more) in
            subst (λ (r : S × List Stream × Bool). All IsOpen r.1)
              (some-injective (done-injective same))
              (append-All IsOpen ts _ a
                (new_stream-IsOpen now g len parsed.1 b (length-add serves _ b len added) e, tt))
      ]

  take_segment-IsOpen :
      (starts_with : List ℕ → List ℕ → Bool) (now : ℕ) (g : Segment) (len : ℤ) (s : S)
      (ts : List Stream) (r : S × List Stream × Bool)
      → All IsOpen ts
      → take_segment serves ps starts_with now g len s ts ≡ done (some r)
      → All IsOpen r.1
  unfolding take_segment
  take_segment-IsOpen starts_with now g (negsuc k) s ts r a h =
      continue_streams-IsOpen now g (negsuc k) s ts r h
  take_segment-IsOpen starts_with now g (pos len) s ts r a h =
      elim (Bool-cases (starts_message starts_with g (pos len))) [
        | inl e ↦ start_stream-IsOpen now g len s ts r a (rw e at h)
        | inr e ↦ continue_streams-IsOpen now g (pos len) s ts r (rw e at h)
      ]

-- A call of `TrySipTcp` that ends normally leaves a list in which every stream has bytes to parse, if
-- it found one: a stream of which all is parsed is taken off the list, and none is put on it.
pub try_sip_tcp-IsOpen {ℓ} :
    {S : Type ℓ} (serves : ℕ → Bool) (ps : Parsers S) (starts_with : List ℕ → List ℕ → Bool)
    (now : ℕ) (g : Segment) (s : S) (ts : List Stream) (r : S × List Stream × Bool)
    → All IsOpen ts
    → try_sip_tcp serves ps starts_with now g s ts ≡ done (some r)
    → All IsOpen r.1
unfolding try_sip_tcp
try_sip_tcp-IsOpen {S} serves ps starts_with now g s ts r a h =
    elim (Bool-cases (ltb (length g.bytes) (g.tcp + tcp_header_size))) [
      | inl short ↦ absurd (clash (rw short at h))
      | inr whole ↦ elim (Bool-cases (is_duplicate g ts)) [
        | inl again ↦
            subst (λ (r : S × List Stream × Bool). All IsOpen r.1)
              (some-injective (done-injective (rw (whole, again) at h))) a
        | inr new ↦
            take_segment-IsOpen serves ps starts_with now g (payload_len g) s ts r a
              (rw (whole, new) at h)
      ]
    ]
