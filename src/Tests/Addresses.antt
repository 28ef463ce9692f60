-- ===== src/Tests/Addresses.antt =====
-- Addresses and blocks of them, for Utils.cpp.
use orekacxx.Common.{ℕ, ◌≡◌, List, [], ◌∷◌, map, some, arith}
use orekacxx.Common.Outcome.{done}
use orekacxx.Net.Ranges.{Range, inet_ntop_v4, inet_pton4, compute, matches}
use orekacxx.Net.Ranges.Printed.{address_of, inet_pton4-inet_ntop_v4}
use orekacxx.Net.Ranges.Blocks.{Block, entry, in_some_block, matches-compute}

inet_pton4-inet_ntop_v4_example :
    inet_pton4 (inet_ntop_v4 192 168 0 17) ≡ some (address_of 192 168 0 17)
inet_pton4-inet_ntop_v4_example =
    inet_pton4-inet_ntop_v4 192 168 0 17 (omega arith) (omega arith) (omega arith) (omega arith)

abbrev some_blocks : List Block
some_blocks =
    record { a = 10; b = 0; c = 0; d = 0; bits = 8 }
    ∷ record { a = 192; b = 168; c = 1; d = 7; bits = 32 }
    ∷ []

matches-compute_example :
    (rs : List Range) × (compute (map entry some_blocks) ≡ done rs)
    × ((ip : ℕ) → matches rs ip ≡ in_some_block some_blocks ip)
matches-compute_example = matches-compute some_blocks (ground arith)
