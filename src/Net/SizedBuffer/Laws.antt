-- ===== src/Net/SizedBuffer/Laws.antt =====
-- What the buffer operations return when memory suffices and the source is long enough.
use orekacxx.Common.{
  ℕ, suc, zero, ◌+◌, ◌-◌, ◌^◌, ◌≤◌, ◌<◌, ◌≡◌, true, List, [], ◌++◌, arith, length, take, replicate,
  take-all, drop-all, take-append_left, length-append, length-replicate,
}
use mathlib.Core.List.{append-nil}
use orekacxx.Common.Outcome.{done, faults}
use orekacxx.Net.SizedBuffer.{Allocator, resize, memcpy, write, append, reset, get, get_header}

-- Memory is found for every size that an IP packet can have.
abbrev pub ServesPackets : Allocator → Type 0
ServesPackets a = (n : ℕ) → n < 2 ^ 16 → a.serves n ≡ true

resize_lem :
    (a : Allocator) (b : List ℕ) (n : ℕ)
    → a.serves n ≡ true
    → length b ≤ n
    → resize a b n ≡ done (b ++ replicate (n - length b) a.junk)
unfolding resize
resize_lem a b n h k = rw (h, take-all n b k)

memcpy_end :
    (b tail src : List ℕ) (n : ℕ)
    → length tail ≡ n
    → n ≤ length src
    → memcpy (b ++ tail) (length b) src n ≡ done (b ++ take n src)
unfolding memcpy
memcpy_end b tail src n h k = ground (
  arith,
  length-append b tail,
  take-append_left b tail,
  drop-all (length b + n) (b ++ tail),
  append-nil (take n src),
)

write_end :
    (a : Allocator) (b src : List ℕ) (n : ℕ)
    → ServesPackets a
    → n ≤ length src
    → length b + n < 2 ^ 16
    → write a b (length b) src n ≡ done (b ++ take n src)
unfolding write
write_end a b src zero s h k = ground (arith, memcpy_end b [] src 0, append-nil b)
write_end a b src (suc n) s h k = ground (
  arith,
  s (length b + suc n),
  resize_lem a b (length b + suc n),
  length-replicate {0} (length b + suc n - length b) a.junk,
  memcpy_end b (replicate (length b + suc n - length b) a.junk) src (suc n),
)

-- An append of bytes that are there, within the sizes that are served.
pub append_lem :
    (a : Allocator) (b src : List ℕ) (n : ℕ)
    → ServesPackets a
    → n ≤ length src
    → length b + n < 2 ^ 16
    → append a b src n ≡ done (b ++ take n src)
unfolding append
append_lem a b src n s h k = write_end a b src n s h k

pub reset_lem :
    (a : Allocator) (src : List ℕ) (n : ℕ)
    → ServesPackets a
    → n ≤ length src
    → n < 2 ^ 16
    → reset a src n ≡ done (take n src)
unfolding reset
reset_lem a src n s h k = write_end a [] src n s h (omega arith)

pub get_header_lem : (b : List ℕ) → 20 ≤ length b → get_header b ≡ done b
unfolding get_header get
get_header_lem b h = ground arith

-- A copy of more bytes than the source has reads past its end.
pub reset_short :
    (a : Allocator) (src : List ℕ) (n : ℕ)
    → ServesPackets a
    → n < 2 ^ 16
    → length src < n
    → reset a src n ≡ faults
unfolding reset write memcpy
reset_short a src n s k h = ground (arith, s n, resize_lem a [] n)
