-- ===== src/Base/Words.antt =====
-- Machine words as plain numbers with the wrap-around written out.
use Prim.Native.Nat.{ℕ, zero, suc, ◌+◌, ◌-◌, ◌/◌, ◌%◌, ◌^◌, ◌<◌}
use mathlib.Core.Path.{◌≡◌, refl, subst}
use mathlib.Core.Bool.{Bool, true, ◌&&◌}
use native.Mathlib.Omega.{arith}
use bpipe.Base.Tests.{◌==◌}

abbrev pub u32 : ℕ → ℕ
u32 n = n % 2 ^ 32

abbrev pub u64 : ℕ → ℕ
u64 n = n % 2 ^ 64

-- `(mask & (1U << port)) != 0`, for a port below 32.
pub has_bit : ℕ → ℕ → Bool
has_bit mask port = mask / 2 ^ port % 2 == 1

-- INPUT_ALL and OUTPUT_ALL, `0xFFFFFFFF`.
abbrev pub all_ports : ℕ
all_ports = 2 ^ 32 - 1

-- The test of every port from `port` on, `rounds` of them.
covers : ℕ → ℕ → ℕ → Bool
covers mask port zero = true
covers mask port (suc rounds) = has_bit mask port && covers mask (port + 1) rounds

covers-has_bit :
    (mask port rounds d : ℕ)
    → covers mask port rounds ≡ true
    → d < rounds
    → has_bit mask (port + d) ≡ true
unfolding covers
covers-has_bit mask port zero d h lt = absurd (omega arith)
covers-has_bit mask port (suc rounds) zero h lt =
    subst (λ q. has_bit mask q ≡ true) (omega arith) (first (has_bit mask port) h)
  where
    first : (b : Bool) → (b && covers mask (port + 1) rounds) ≡ true → b ≡ true
    first b e = ground arith
covers-has_bit mask port (suc rounds) (suc d) h lt =
    subst (λ q. has_bit mask q ≡ true) (omega arith)
      (covers-has_bit mask (port + 1) rounds d (ground arith) (omega arith))

covers-all_ports : covers all_ports 0 32 ≡ true
unfolding covers has_bit
covers-all_ports = refl

pub has_bit-all_ports : (port : ℕ) → port < 32 → has_bit all_ports port ≡ true
has_bit-all_ports port h =
    subst (λ q. has_bit all_ports q ≡ true) (omega arith)
      (covers-has_bit all_ports 0 32 port covers-all_ports h)
