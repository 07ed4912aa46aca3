-- ===== src/Prelude/Int.antt =====
-- `i64`: `negsuc n` is -(n + 1). A value of the program lies in [-2^63, 2^63).
use Prim.Native.Nat.{ℕ, ◌-◌, ◌^◌, ◌%◌, ◌<◌}
use mathlib.Core.Path.{◌≡◌}
use mathlib.Core.Bool.{Bool, true, false}
use native.Mathlib.Omega.{arith}
use modular_agent_core.Prelude.Tests.{ltb, if◌then◌else◌}

pub data ℤ : Type 0 where
  pos : ℕ → ℤ
  negsuc : ℕ → ℤ

-- `n as i64` of a `usize`: the bits are kept.
unfoldable pub as_i64 : ℕ → ℤ
as_i64 n = let m = n % 2 ^ 64 in if ltb m (2 ^ 63) then pos m else negsuc (2 ^ 64 - 1 - m)

-- `i as usize`
unfoldable pub as_usize : ℤ → ℕ
as_usize (pos n) = n % 2 ^ 64
as_usize (negsuc n) = (2 ^ 64 - 1 - n) % 2 ^ 64

-- `i < 0`
abbrev pub is_negative : ℤ → Bool
is_negative (pos n) = false
is_negative (negsuc n) = true

pub as_i64_of_lt : (n : ℕ) → n < 2 ^ 63 → as_i64 n ≡ pos n
unfolding as_i64
as_i64_of_lt n h = ground arith

pub as_usize-as_i64 : (n : ℕ) → n < 2 ^ 64 → as_usize (as_i64 n) ≡ n
unfolding as_usize as_i64
as_usize-as_i64 n h = ground arith
