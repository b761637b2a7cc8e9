-- ===== src/InputLine/Arrays.antt =====
-- The three loops of kernel/input_line.c over arrays of chars: they stay in bounds, and each leaves one
-- array at every index as the loop's comment says.
use native.Mathlib.Nat.{suc-add}
use makh.Prelude.{
  ℕ, zero, suc, ◌+◌, ◌-◌, ◌≤◌, ◌<◌, ◌≡◌, refl, ap, ◌&&◌, some, List, [], ◌∷◌, ◌++◌, length, get_or,
  set, ltb, leb, if◌then◌else◌, arith, get_or-set, length-set,
}
use makh.InputLine.{shift_right, shift_left, copy_out}

-- The char at an index of an array.
abbrev pub at : List ℕ → ℕ → ℕ
at a i = get_or a i 0

pub shift_right-some :
    (from n : ℕ) (a : List ℕ)
    → from + n < length a
    → (a' : List ℕ) × (shift_right from n a ≡ some a')
      × (length a' ≡ length a)
      × ((j : ℕ) → at a' j ≡ (if ltb from j && leb j (from + n) then at a (j - 1) else at a j))
unfolding shift_right
shift_right-some from zero a h = (a, refl, refl, λ j. ground arith)
shift_right-some from (suc n) a h =
    let a1 = set a (from + n + 1) (at a (from + n)) in
    let size : length a1 ≡ length a = length-set a (from + n + 1) (at a (from + n)) in
    let (a', run, len, shifted) = shift_right-some from n a1 (omega arith) in
    (
      a',
      ground arith,
      omega arith,
      λ j. ground (
        arith,
        shifted j,
        get_or-set a (from + n + 1) (j - 1) (at a (from + n)) 0,
        get_or-set a (from + n + 1) j (at a (from + n)) 0,
      ),
    )

pub shift_left-some :
    (by from n : ℕ) (a : List ℕ)
    → from + n + by ≤ length a
    → (a' : List ℕ) × (shift_left by from n a ≡ some a')
      × (length a' ≡ length a)
      × ((j : ℕ) → at a' j ≡ (if leb from j && ltb j (from + n) then at a (j + by) else at a j))
unfolding shift_left
shift_left-some by from zero a h = (a, refl, refl, λ j. ground arith)
shift_left-some by from (suc n) a h =
    let a1 = set a from (at a (from + by)) in
    let size : length a1 ≡ length a = length-set a from (at a (from + by)) in
    let (a', run, len, shifted) = shift_left-some by (from + 1) n a1 (omega arith) in
    (
      a',
      ground arith,
      omega arith,
      λ j. ground (
        arith,
        shifted j,
        get_or-set a from (j + by) (at a (from + by)) 0,
        get_or-set a from j (at a (from + by)) 0,
      ),
    )

pub copy_out-some :
    (a : List ℕ) (from start n : ℕ) (to : List ℕ)
    → from + start + n ≤ length a
    → start + n ≤ length to
    → (to' : List ℕ) × (copy_out a from start n to ≡ some to')
      × (length to' ≡ length to)
      × ((j : ℕ)
          → at to' j ≡ (if leb start j && ltb j (start + n) then at a (from + j) else at to j))
unfolding copy_out
copy_out-some a from start zero to h k = (to, refl, refl, λ j. ground arith)
copy_out-some a from start (suc n) to h k =
    let to1 = set to start (at a (from + start)) in
    let size : length to1 ≡ length to = length-set to start (at a (from + start)) in
    let (to', run, len, copied) =
      copy_out-some a from (start + 1) n to1 (omega arith) (omega arith) in
    (
      to',
      ground arith,
      omega arith,
      λ j. ground (arith, copied j, get_or-set to start j (at a (from + start)) 0),
    )

-- The `n` chars of an array from `i` on.
unfoldable pub window : List ℕ → ℕ → ℕ → List ℕ
window a i zero = []
window a i (suc n) = at a i ∷ window a (i + 1) n

pub length-window : (a : List ℕ) (i n : ℕ) → length (window a i n) ≡ n
unfolding window
length-window a i zero = refl
length-window a i (suc n) = ap suc (length-window a (i + 1) n)

-- Two windows agree where their chars do.
pub window-same :
    (a b : List ℕ) (i j n : ℕ)
    → ((k : ℕ) → k < n → at a (i + k) ≡ at b (j + k))
    → window a i n ≡ window b j n
unfolding window
window-same a b i j zero h = refl
window-same a b i j (suc n) h =
    ground (arith, h 0, window-same a b (i + 1) (j + 1) n (λ k lt. ground (arith, h (k + 1))))

pub window_start :
    (a b : List ℕ) (n : ℕ) → ((j : ℕ) → j < n → at a j ≡ at b j) → window a 0 n ≡ window b 0 n
window_start a b n h = window-same a b 0 0 n (λ j lt. ground (arith, h j lt))

pub window-append :
    (a : List ℕ) (i m n : ℕ) → window a i (m + n) ≡ window a i m ++ window a (i + m) n
unfolding window
window-append a i zero n = ground arith
window-append a i (suc m) n = rw suc-add (ground (arith, window-append a (i + 1) m n))

pub at-window : (a : List ℕ) (i n k : ℕ) → k < n → at (window a i n) k ≡ at a (i + k)
unfolding window
at-window a i zero k h = absurd (omega arith)
at-window a i (suc n) zero h = ground arith
at-window a i (suc n) (suc k) h = ground (arith, at-window a (i + 1) n k (omega arith))

-- A window of `t` chars in two parts, the second from `k` on.
pub window-split :
    (a : List ℕ) (i m n k t : ℕ)
    → i + m ≡ k
    → m + n ≡ t
    → window a i t ≡ window a i m ++ window a k n
window-split a i m n k t e f = rw (← e, ← f) (window-append a i m n)

pub window_snoc :
    (a : List ℕ) (i n k t : ℕ)
    → i + n ≡ k
    → n + 1 ≡ t
    → window a i t ≡ window a i n ++ (at a k ∷ [])
unfolding window
window_snoc a i n k t e f = window-split a i n 1 k t e f

pub window_cons : (a : List ℕ) (i n t : ℕ) → n + 1 ≡ t → window a i t ≡ at a i ∷ window a (i + 1) n
unfolding window
window_cons a i n t f = let e : t ≡ suc n = omega arith in rw e refl

pub window_none : (a : List ℕ) (i : ℕ) → window a i 0 ≡ []
unfolding window
window_none a i = refl
