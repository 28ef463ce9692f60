-- ===== src/Net/SizedBuffer.antt =====
-- orkbasecxx/SizedBuffer.{h,cpp}. A buffer is the list of its bytes, `m_size` its length; a null
-- `m_buffer` goes with size 0. A source of a copy is the list of the bytes in memory from it on.
pub mod Laws
use orekacxx.Common.{
  ℕ, ◌+◌, ◌-◌, ◌%◌, ◌^◌, Bool, ◌&&◌, List, [], ◌++◌, length, take, drop, replicate, leb, ltb,
  if◌then◌else◌,
}
use orekacxx.Common.Outcome.{Outcome, done, throws, faults, ◌>>=◌}
use orekacxx.Net.IpHeader.{ip_header_size}

-- `realloc`: the sizes that it can serve, and the byte that fresh memory happens to hold.
pub record Allocator : Type 0 where
  pub serves : ℕ → Bool
  pub junk : ℕ

unfoldable pub resize : Allocator → List ℕ → ℕ → Outcome (List ℕ)
resize a b n = if a.serves n then done (take n b ++ replicate (n - length b) a.junk) else throws

-- Reads `n` bytes of `src` into `b` at `off`. Outside of either object it faults.
unfoldable pub memcpy : List ℕ → ℕ → List ℕ → ℕ → Outcome (List ℕ)
memcpy b off src n =
    if leb n (length src) && leb (off + n) (length b)
    then done (take off b ++ (take n src ++ drop (off + n) b))
    else faults

-- `offset+len` is a sum of two `size_t`.
unfoldable pub write : Allocator → List ℕ → ℕ → List ℕ → ℕ → Outcome (List ℕ)
write a b off src n =
    let needed = (off + n) % 2 ^ 64 in
    (if ltb (length b) needed then resize a b needed else done b) >>= λ b'. memcpy b' off src n

unfoldable pub append : Allocator → List ℕ → List ℕ → ℕ → Outcome (List ℕ)
append a b src n = write a b (length b) src n

-- Also the constructor from bytes: both drop what was there.
unfoldable pub reset : Allocator → List ℕ → ℕ → Outcome (List ℕ)
reset a src n = write a [] 0 src n

-- `get(off)`: the bytes from there on.
unfoldable pub get : List ℕ → ℕ → Outcome (List ℕ)
get b off = if leb (length b) off then throws else done (drop off b)

-- `get()` cast to `IpHeaderStruct*`, for a member access, which needs the whole structure.
unfoldable pub get_header : List ℕ → Outcome (List ℕ)
unfolding get
get_header b = get b 0 >>= λ p. if ltb (length p) ip_header_size then faults else done p
