-- ===== src/Mixer/Ring.antt =====
-- The circular buffer of RtpMixer.cpp. A pointer into `m_buffer` is its index; the buffer's size,
-- `NUM_SAMPLES_CIRCULAR_BUFFER` in the source, is an argument.
pub mod Laws
use orekacxx.Common.{ℕ, zero, suc, ◌+◌, ◌-◌, List, [], ◌∷◌, get_or, set, leb, ltb, if◌then◌else◌}
use orekacxx.Common.Int.{ℤ, pos, negsuc, ◌+ℤ◌, ltb_ℤ}

unfoldable pub add_offset : ℕ → ℕ → ℕ → ℕ
add_offset size ptr offset = if leb size (ptr + offset) then offset - (size - ptr) else ptr + offset

unfoldable pub sub_offset : ℕ → ℕ → ℕ → ℕ
sub_offset size ptr offset = if ltb ptr offset then size - offset + ptr else ptr - offset

unfoldable pub used_space : ℕ → ℕ → ℕ → ℕ
used_space size write read = if leb read write then write - read else size + write - read

unfoldable pub free_space : ℕ → ℕ → ℕ → ℕ
free_space size write read = size - used_space size write read

-- `ptr++`, and back to the start at the end of the buffer.
unfoldable pub next : ℕ → ℕ → ℕ
next size ptr = if leb size (ptr + 1) then 0 else ptr + 1

-- The sum of two samples, held within a `short`.
unfoldable pub mix : ℤ → ℤ → ℤ
mix a b =
    let sample = a +ℤ b in
    if ltb_ℤ (pos 32767) sample
    then pos 32767
    else if ltb_ℤ sample (negsuc 32767)
    then negsuc 32767
    else sample

abbrev pub sample : List ℤ → ℕ → ℤ
sample buffer i = get_or buffer i (pos 0)

-- The loop that writes silence, and the write pointer behind it.
unfoldable pub zero_run : ℕ → List ℤ → ℕ → ℕ → List ℤ
zero_run size buffer ptr zero = buffer
zero_run size buffer ptr (suc n) = zero_run size (set buffer ptr (pos 0)) (next size ptr) n

unfoldable pub advance : ℕ → ℕ → ℕ → ℕ
advance size ptr zero = ptr
advance size ptr (suc n) = advance size (next size ptr) n

-- The loop that mixes the payload in. In the source a place outside of the buffer would be written all
-- the same; Mixer.Access tells whether there is one.
unfoldable pub mix_run : ℕ → List ℤ → ℕ → List ℤ → List ℤ
mix_run size buffer ptr [] = buffer
mix_run size buffer ptr (s ∷ ss) =
    mix_run size (set buffer ptr (mix (sample buffer ptr) s)) (next size ptr) ss
