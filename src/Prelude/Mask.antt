-- ===== src/Prelude/Mask.antt =====
-- Masks: the test `x & (1 << p)` after the operations on words.
use native.Mathlib.Nat.{pow-suc}
use makh.Prelude.{
  ℕ, zero, suc, ◌-◌, ◌*◌, ◌^◌, ◌<◌, ◌≡◌, Bool, false, not, ◌&&◌, ◌||◌, bit_and, bit_or, ◌==◌, arith,
}
use makh.Prelude.Bits.{bit, bit-lt, bit-zero, bit-or, bit-and, bit-pow, bit-complement, and-pow}

-- `x & (1 << p)` as a condition
unfoldable pub test_mask : ℕ → ℕ → Bool
test_mask x p = not (bit_and x (2 ^ p) == 0)

-- `~x` of `w` digits
abbrev pub complement : ℕ → ℕ → ℕ
complement w x = 2 ^ w - 1 - x

pub pow_pos : (p : ℕ) → 0 < 2 ^ p
pow_pos zero = omega arith
pow_pos (suc p) = omega (arith, pow-suc 2 p, pow_pos p)

pub pow-lt-pow : (w p : ℕ) → p < w → 2 ^ p < 2 ^ w
pow-lt-pow zero p h = absurd (omega arith)
pow-lt-pow (suc w) zero h = omega (arith, pow-suc 2 w, pow_pos w)
pow-lt-pow (suc w) (suc p) h = omega (arith, pow-suc 2 w, pow-suc 2 p, pow-lt-pow w p (omega arith))

mul_zero : (d t : ℕ) → d < 2 → 0 < t → (d * t == 0) ≡ (d == 0)
mul_zero zero t h k = ground arith
mul_zero (suc zero) t h k = ground arith
mul_zero (suc (suc d)) t h k = absurd (omega arith)

pub test_mask-bit : (x p : ℕ) → test_mask x p ≡ (bit x p == 1)
unfolding test_mask
test_mask-bit x p =
    ground (arith, and-pow x p, mul_zero (bit x p) (2 ^ p) (bit-lt x p) (pow_pos p), bit-lt x p)

pub test_mask-zero : (p : ℕ) → test_mask 0 p ≡ false
test_mask-zero p = ground (arith, test_mask-bit 0 p, bit-zero p)

pub test_mask-or : (x y p : ℕ) → test_mask (bit_or x y) p ≡ (test_mask x p || test_mask y p)
test_mask-or x y p = ground (
  arith,
  test_mask-bit (bit_or x y) p,
  test_mask-bit x p,
  test_mask-bit y p,
  bit-or x y p,
  bit-lt x p,
  bit-lt y p,
)

pub test_mask-and : (x y p : ℕ) → test_mask (bit_and x y) p ≡ (test_mask x p && test_mask y p)
test_mask-and x y p = ground (
  arith,
  test_mask-bit (bit_and x y) p,
  test_mask-bit x p,
  test_mask-bit y p,
  bit-and x y p,
  bit-lt x p,
  bit-lt y p,
)

pub test_mask-pow : (p q : ℕ) → test_mask (2 ^ p) q ≡ (p == q)
test_mask-pow p q = ground (arith, test_mask-bit (2 ^ p) q, bit-pow p q)

pub test_mask-complement :
    (w x q : ℕ) → x < 2 ^ w → q < w → test_mask (complement w x) q ≡ not (test_mask x q)
test_mask-complement w x q h k = ground (
  arith,
  test_mask-bit (complement w x) q,
  test_mask-bit x q,
  bit-complement w x q h k,
  bit-lt x q,
)

pub complement-lt : (w x : ℕ) → complement w x < 2 ^ w
complement-lt w x = omega (arith, pow_pos w)
