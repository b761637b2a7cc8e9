-- ===== src/Prelude/Bits.antt =====
-- The digits of a machine word, and what `|`, `&` and a mask `1 << p` do to each of them.
use Prim.Native.Nat.{digits, bit_and-bitwise, bit_or-bitwise}
use native.Mathlib.Nat.{pow-suc, pow-succ', div-div-eq-div-mul}
use makh.Prelude.{
  ℕ, zero, suc, ◌+◌, ◌-◌, ◌*◌, ◌/◌, ◌%◌, ◌^◌, ◌≤◌, ◌<◌, min, max, bit_and, bit_or, ◌≡◌, refl, sym,
  ap, ◌∙◌, arith, ◌==◌, if◌then◌else◌,
}

-- The digit of `x` at position `p`.
unfoldable pub bit : ℕ → ℕ → ℕ
bit x zero = x % 2
bit x (suc p) = bit (x / 2) p

pub bit-lt : (x p : ℕ) → bit x p < 2
unfolding bit
bit-lt x zero = omega arith
bit-lt x (suc p) = bit-lt (x / 2) p

pub bit-zero : (p : ℕ) → bit 0 p ≡ 0
unfolding bit
bit-zero zero = refl
bit-zero (suc p) = bit-zero p

abbrev IsDigitwise : (ℕ → ℕ → ℕ) → Type 0
IsDigitwise f = (x y : ℕ) → x < 2 → y < 2 → f x y < 2

-- An operation that goes through the digits of its first number acts on each digit by itself.
module _ (rest : ℕ → ℕ) (f : ℕ → ℕ → ℕ) (digitwise : IsDigitwise f) where
  bit-digits :
      ((y p : ℕ) → bit (rest y) p ≡ f 0 (bit y p))
      → (rounds x y p : ℕ) → x ≤ rounds
      → bit (digits rest f rounds x y) p ≡ f (bit x p) (bit y p)
  unfolding bit
  bit-digits ends zero zero y p h = ends y p ∙ ap (λ (d : ℕ). f d (bit y p)) (sym (bit-zero p))
  bit-digits ends zero (suc x) y p h = absurd (omega arith)
  bit-digits ends (suc rounds) zero y p h =
      ends y p ∙ ap (λ (d : ℕ). f d (bit y p)) (sym (bit-zero p))
  bit-digits ends (suc rounds) (suc x) y zero h =
      omega (arith, digitwise (suc x % 2) (y % 2) (omega arith) (omega arith))
  bit-digits ends (suc rounds) (suc x) y (suc p) h =
      let others = digits rest f rounds (suc x / 2) (y / 2) in
      let low = f (suc x % 2) (y % 2) in
      let shifted : (others * 2 + low) / 2 ≡ others =
        omega (arith, digitwise (suc x % 2) (y % 2) (omega arith) (omega arith)) in
      rw shifted (bit-digits ends rounds (suc x / 2) (y / 2) p (omega arith))

  digits-lt :
      ((y : ℕ) → rest y ≤ y)
      → (rounds w x y : ℕ) → x < 2 ^ w
      → y < 2 ^ w
      → digits rest f rounds x y < 2 ^ w
  digits-lt ends zero w x y h k = omega (arith, ends y)
  digits-lt ends (suc rounds) w zero y h k = omega (arith, ends y)
  digits-lt ends (suc rounds) zero (suc x) y h k = absurd (omega arith)
  digits-lt ends (suc rounds) (suc w) (suc x) y h k = omega (
    arith,
    pow-suc 2 w,
    digits-lt ends rounds w (suc x / 2) (y / 2) (omega (arith, pow-suc 2 w))
        (omega (arith, pow-suc 2 w)),
    digitwise (suc x % 2) (y % 2) (omega arith) (omega arith),
  )

pub bit-or : (a b p : ℕ) → bit (bit_or a b) p ≡ max (bit a p) (bit b p)
bit-or a b p =
    ap (λ (x : ℕ). bit x p) (bit_or-bitwise a b)
    ∙ bit-digits (λ y. y) max (λ x y h k. omega arith) (λ y q. omega arith) a a b p (omega arith)

pub bit-and : (a b p : ℕ) → bit (bit_and a b) p ≡ min (bit a p) (bit b p)
bit-and a b p =
    ap (λ (x : ℕ). bit x p) (bit_and-bitwise a b)
    ∙ bit-digits (λ y. 0) min (λ x y h k. omega arith) (λ y q. omega (arith, bit-zero q)) a a b p
        (omega arith)

-- The operations keep a word within its width.
pub or-lt : (w a b : ℕ) → a < 2 ^ w → b < 2 ^ w → bit_or a b < 2 ^ w
or-lt w a b h k = omega (
  arith,
  bit_or-bitwise a b,
  digits-lt (λ y. y) max (λ x y h k. omega arith) (λ y. omega arith) a w a b h k,
)

pub and-lt : (w a b : ℕ) → a < 2 ^ w → b < 2 ^ w → bit_and a b < 2 ^ w
and-lt w a b h k = omega (
  arith,
  bit_and-bitwise a b,
  digits-lt (λ y. 0) min (λ x y h k. omega arith) (λ y. omega arith) a w a b h k,
)

half-pow : (p : ℕ) → 2 ^ suc p / 2 ≡ 2 ^ p
half-pow p = omega (arith, pow-suc 2 p)

-- The mask `1 << p` has the one digit `p`.
pub bit-pow : (p q : ℕ) → bit (2 ^ p) q ≡ (if p == q then 1 else 0)
unfolding bit
bit-pow zero zero = refl
bit-pow zero (suc q) = ground (arith, bit-zero q)
bit-pow (suc p) zero = ground (arith, pow-suc 2 p)
bit-pow (suc p) (suc q) = rw (half-pow p) (ground (arith, bit-pow p q))

-- `~x` on `w` digits.
pub bit-complement : (w x q : ℕ) → x < 2 ^ w → q < w → bit (2 ^ w - 1 - x) q ≡ 1 - bit x q
unfolding bit
bit-complement zero x q h k = absurd (omega arith)
bit-complement (suc w) x zero h k = omega (arith, pow-suc 2 w)
bit-complement (suc w) x (suc q) h k =
    let half : (2 ^ suc w - 1 - x) / 2 ≡ 2 ^ w - 1 - x / 2 = omega (arith, pow-suc 2 w) in
    rw half (bit-complement w (x / 2) q (omega (arith, pow-suc 2 w)) (omega arith))

abbrev and_digits : ℕ → ℕ → ℕ → ℕ
and_digits = digits (λ y. 0) min

and_digits-zero : (rounds x : ℕ) → and_digits rounds x 0 ≡ 0
and_digits-zero zero x = refl
and_digits-zero (suc rounds) zero = refl
and_digits-zero (suc rounds) (suc x) = omega (arith, and_digits-zero rounds (suc x / 2))

and_digits-pow : (rounds x p : ℕ) → x ≤ rounds → and_digits rounds x (2 ^ p) ≡ bit x p * 2 ^ p
unfolding bit
and_digits-pow zero zero p h = omega (arith, ap (λ (d : ℕ). d * 2 ^ p) (bit-zero p))
and_digits-pow zero (suc x) p h = absurd (omega arith)
and_digits-pow (suc rounds) zero p h = omega (arith, ap (λ (d : ℕ). d * 2 ^ p) (bit-zero p))
and_digits-pow (suc rounds) (suc x) zero h = omega (arith, and_digits-zero rounds (suc x / 2))
and_digits-pow (suc rounds) (suc x) (suc p) h = omega (
  arith,
  ap (λ (t : ℕ). and_digits rounds (suc x / 2) t) (half-pow p),
  and_digits-pow rounds (suc x / 2) p (omega arith),
  pow-suc 2 p,
  ap (λ (t : ℕ). bit (suc x / 2) p * t) (pow-suc 2 p),
)

-- `x & (1 << p)` is 0 or the mask itself.
pub and-pow : (x p : ℕ) → bit_and x (2 ^ p) ≡ bit x p * 2 ^ p
and-pow x p = bit_and-bitwise x (2 ^ p) ∙ and_digits-pow x x p (omega arith)

shift-bit : (x p : ℕ) → x / 2 ^ p % 2 ≡ bit x p
unfolding bit
shift-bit x zero = omega arith
shift-bit x (suc p) = rw (pow-succ', ← div-div-eq-div-mul x 2 (2 ^ p)) (shift-bit (x / 2) p)

-- `(x >> p) & 1`.
pub and-one : (x p : ℕ) → bit_and (x / 2 ^ p) 1 ≡ bit x p
unfolding bit
and-one x p = omega (arith, and-pow (x / 2 ^ p) 0, shift-bit x p)
