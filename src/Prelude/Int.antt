-- ===== src/Prelude/Int.antt =====
-- A C `int` or `int64_t` that may be negative: `negsuc n` is -(n + 1).
use Prim.Native.Nat.{ℕ, zero, suc, ◌+◌, ◌-◌, ◌^◌, ◌<◌}
use mathlib.Core.Path.{◌≡◌}
use native.Mathlib.Omega.{arith}
use makh.Prelude.Tests.{◌==◌, if◌then◌else◌}

pub data ℤ : Type 0 where
  pos : ℕ → ℤ
  negsuc : ℕ → ℤ

-- `++` and `--` of a 32-bit `int`, which wrap around as the machine's addition does.
abbrev pub inc32 : ℤ → ℤ
inc32 (pos n) = if n + 1 == 2 ^ 31 then negsuc (2 ^ 31 - 1) else pos (n + 1)
inc32 (negsuc zero) = pos 0
inc32 (negsuc (suc n)) = negsuc n

abbrev pub dec32 : ℤ → ℤ
dec32 (pos zero) = negsuc 0
dec32 (pos (suc n)) = pos n
dec32 (negsuc n) = if n + 1 == 2 ^ 31 then pos (2 ^ 31 - 1) else negsuc (n + 1)

pub inc32-pos : (n : ℕ) → n + 1 < 2 ^ 31 → inc32 (pos n) ≡ pos (n + 1)
inc32-pos n small = ground arith
