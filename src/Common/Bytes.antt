-- ===== src/Common/Bytes.antt =====
-- Facts about all bytes, by evaluation.
use orekacxx.Common.{ℕ, zero, suc, ◌<◌, ◌≡◌, Bool, true, ◌&&◌, arith}

every_below : ℕ → (ℕ → Bool) → Bool
every_below zero test = true
every_below (suc n) test = test n && every_below n test

every_below_lem :
    (n : ℕ) (test : ℕ → Bool) (c : ℕ) → every_below n test ≡ true → c < n → test c ≡ true
unfolding every_below
every_below_lem zero test c h lt = absurd (omega arith)
every_below_lem (suc n) test c h lt = ground (arith, every_below_lem n test c)

-- What the 256 bytes pass, each byte passes.
unfoldable pub every_byte : (ℕ → Bool) → Bool
unfolding every_below
every_byte = every_below 256

pub every_byte_lem : (test : ℕ → Bool) → every_byte test ≡ true → (c : ℕ) → c < 256 → test c ≡ true
unfolding every_byte
every_byte_lem test h c = every_below_lem 256 test c h
