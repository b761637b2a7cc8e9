-- ===== src/Strings/Copy.antt =====
-- kernel/lib/string.c: the functions that copy strings.
use mathlib.Core.Path.{ap₂}
use makh.Prelude.{
  ℕ, zero, suc, ◌+◌, ◌-◌, ◌≤◌, ◌<◌, ◌≡◌, ◌≢◌, ◌⊎◌, inl, inr, refl, sym, ◌∙◌, ap, some, length, set,
  arith, get_or-set, length-set, subst,
}
use makh.Prelude.Checked.{◌>>=◌}
use makh.Strings.{
  Memory, copy_string, strcpy, copy_at_most, string_end, strcat, strlen_from, strlen,
}
use makh.Strings.Blocks.{byte, Copied, Copied-step}

-- The string at `p` has `k` chars, and its terminator lies in the memory.
pub record IsString (p k : ℕ) (m : Memory) : Type 0 where
  pub fits : p + k < length m
  pub terminated : byte m (p + k) ≡ 0
  pub chars : (j : ℕ) → j < k → byte m (p + j) ≢ 0

pub tail-IsString : {p k : ℕ} {m : Memory} → IsString p (suc k) m → IsString (p + 1) k m
tail-IsString {p} {k} {m} v = record {
  fits = omega (arith, v.fits);
  terminated = ap (byte m) (omega arith) ∙ v.terminated;
  chars = λ j h z. v.chars (j + 1) (omega arith) (ap (byte m) (omega arith) ∙ z);
}

-- A write outside a string keeps it.
kept-IsString :
    {p k : ℕ} {m : Memory} (d c : ℕ)
    → (d < p) ⊎ (p + k < d)
    → IsString p k m
    → IsString p k (set m d c)
kept-IsString {p} {k} {m} d c out v =
    let size = length-set m d c in
    record {
      fits = omega (arith, v.fits);
      terminated = same k (omega arith) ∙ v.terminated;
      chars = λ j h z. v.chars j h (sym (same j (omega arith)) ∙ z);
    }
  where
    same : (j : ℕ) → j ≤ k → byte (set m d c) (p + j) ≡ byte m (p + j)
    same j h = elim out [
      | inl before ↦ ground (arith, get_or-set m d (p + j) c 0)
      | inr behind ↦ ground (arith, get_or-set m d (p + j) c 0)
    ]

strlen_from-some :
    (fuel p k : ℕ) (m : Memory) → IsString p k m → k < fuel → strlen_from fuel p m ≡ some k
unfolding strlen_from
strlen_from-some zero p k m v enough = absurd (omega arith)
strlen_from-some (suc fuel) p zero m v enough =
    ground (arith, v.fits, v.terminated, ap (byte m) (p_zero p))
  where
    p_zero : (p : ℕ) → p + 0 ≡ p
    p_zero p = omega arith
strlen_from-some (suc fuel) p (suc k) m v enough =
    let rest = strlen_from-some fuel (p + 1) k m (tail-IsString v) (omega arith) in
    ground (arith, v.fits, v.chars 0 (omega arith), ap (byte m) (p_zero p))
  where
    p_zero : (p : ℕ) → p + 0 ≡ p
    p_zero p = omega arith

-- `strlen` counts the chars before the terminator.
pub strlen_text : (p k : ℕ) (m : Memory) → IsString p k m → strlen p m ≡ some k
unfolding strlen
strlen_text p k m v = strlen_from-some (length m) p k m v (omega (arith, v.fits))

-- The first char of a string.
pub first_char : {p k : ℕ} {m : Memory} → IsString p (suc k) m → (p < length m) × (byte m p ≢ 0)
first_char {p} {k} {m} v =
    (omega (arith, v.fits), λ z. v.chars 0 (omega arith) (ap (byte m) (omega arith) ∙ z))

pub empty_string : {p : ℕ} {m : Memory} → IsString p 0 m → (p < length m) × (byte m p ≡ 0)
empty_string {p} {m} v = (omega (arith, v.fits), ap (byte m) (omega arith) ∙ v.terminated)

abbrev Apart : ℕ → ℕ → ℕ → Type 0
Apart d s n = (d ≤ s) ⊎ (s + n ≤ d)

Apart-next : (d s n : ℕ) → Apart d s (suc n) → Apart (d + 1) (s + 1) n
Apart-next d s n apart = elim apart [
  | inl below ↦ inl (omega arith)
  | inr above ↦ inr (omega arith)
]

Apart-tail : (d s k : ℕ) → Apart d s (suc (suc k)) → (d < s + 1) ⊎ (s + 1 + k < d)
Apart-tail d s k apart = elim apart [
  | inl below ↦ inl (omega arith)
  | inr above ↦ inr (omega arith)
]

copy_string-Copied :
    (fuel d s k : ℕ) (m : Memory)
    → IsString s k m
    → Apart d s (suc k)
    → d + k < length m
    → k < fuel
    → Copied d s (suc k) m (copy_string fuel d s m)
unfolding copy_string
copy_string-Copied zero d s k m v apart room enough = absurd (omega arith)
copy_string-Copied (suc fuel) d s zero m v apart room enough =
    let (inside, ends) = empty_string v in
    let m1 = set m d (byte m s) in
    let here : d < length m = omega arith in
    let run : copy_string (suc fuel) d s m ≡ some m1 = ground arith in
    rw run (Copied-step d s 0 m (some m1) apart here (m1, refl, refl, λ j. ground arith))
copy_string-Copied (suc fuel) d s (suc k) m v apart room enough =
    let (inside, goes_on) = first_char v in
    let m1 = set m d (byte m s) in
    let here : d < length m = omega arith in
    let size : length m1 ≡ length m = length-set m d (byte m s) in
    let rest =
      copy_string-Copied fuel (d + 1) (s + 1) k m1
        (kept-IsString d (byte m s) (Apart-tail d s k apart) (tail-IsString v))
        (Apart-next d s (suc k) apart) (omega arith) (omega arith) in
    let run : copy_string (suc fuel) d s m ≡ copy_string fuel (d + 1) (s + 1) m1 = ground arith in
    subst (Copied d s (suc (suc k)) m) (sym run) (Copied-step d s (suc k) m _ apart here rest)

-- `strcpy` to a place in the memory that has room and does not begin inside the string copies the
-- string with its terminator, and changes nothing else.
pub strcpy-Copied :
    (d s k : ℕ) (m : Memory)
    → IsString s k m
    → (d ≤ s) ⊎ (s + suc k ≤ d)
    → d + k < length m
    → Copied d s (suc k) m (strcpy d s m)
unfolding strcpy
strcpy-Copied d s k m v apart room =
    copy_string-Copied (length m) d s k m v apart room (omega (arith, v.fits))

pub string_end-some :
    (fuel p k : ℕ) (m : Memory) → IsString p k m → k < fuel → string_end fuel p m ≡ some (p + k)
unfolding string_end
string_end-some zero p k m v enough = absurd (omega arith)
string_end-some (suc fuel) p zero m v enough =
    let (inside, ends) = empty_string v in let here : p + 0 ≡ p = omega arith in ground arith
string_end-some (suc fuel) p (suc k) m v enough =
    let (inside, goes_on) = first_char v in
    let rest = string_end-some fuel (p + 1) k m (tail-IsString v) (omega arith) in
    let here : p + 1 + k ≡ p + suc k = omega arith in ground arith

-- `strcat` copies the string with its terminator to the end of the other one, and changes nothing
-- else, where there is room and that end does not lie inside the string behind its start.
pub strcat-Copied :
    (d i s k : ℕ) (m : Memory)
    → IsString d i m
    → IsString s k m
    → (d + i ≤ s) ⊎ (s + suc k ≤ d + i)
    → d + i + k < length m
    → Copied (d + i) s (suc k) m (strcat d s m)
unfolding strcat
strcat-Copied d i s k m u v apart room =
    let run : strcat d s m ≡ copy_string (length m) (d + i) s m =
      ap (λ o. o >>= λ e. copy_string (length m) e s m)
        (string_end-some (length m) d i m u (omega (arith, u.fits))) in
    subst (Copied (d + i) s (suc k) m) (sym run)
      (copy_string-Copied (length m) (d + i) s k m v apart room (omega (arith, v.fits)))

-- A string that is shorter than the limit is copied with its terminator, which the limit does not count.
pub copy_at_most-short :
    (n d s k : ℕ) (m : Memory)
    → IsString s k m
    → k < n
    → Apart d s (suc k)
    → d + k < length m
    → (m' : Memory) × (copy_at_most d s n m ≡ some (m', (n - k, d + k + 1)))
      × Copied d s (suc k) m (some m')
unfolding copy_at_most
copy_at_most-short zero d s k m v short apart room = absurd (omega arith)
copy_at_most-short (suc n) d s zero m v short apart room =
    let (inside, ends) = empty_string v in
    let m1 = set m d (byte m s) in
    let here : d < length m = omega arith in
    let next : d + 0 + 1 ≡ d + 1 = omega arith in
    (m1, ground arith, Copied-step d s 0 m (some m1) apart here (m1, refl, refl, λ j. ground arith))
copy_at_most-short (suc n) d s (suc k) m v short apart room =
    let (inside, goes_on) = first_char v in
    let m1 = set m d (byte m s) in
    let here : d < length m = omega arith in
    let size : length m1 ≡ length m = length-set m d (byte m s) in
    let (m', run, copied) =
      copy_at_most-short n (d + 1) (s + 1) k m1
        (kept-IsString d (byte m s) (Apart-tail d s k apart) (tail-IsString v)) (omega arith)
        (Apart-next d s (suc k) apart) (omega arith) in
    let next : d + 1 + k + 1 ≡ d + suc k + 1 = omega arith in
    let left : n - k ≡ suc n - suc k = omega arith in
    let step : copy_at_most d s (suc n) m ≡ copy_at_most (d + 1) (s + 1) n m1 = ground arith in
    (
      m',
      step ∙ run ∙ ap (λ (x : ℕ × ℕ). some (m', x)) (ap₂ (λ (a b : ℕ). (a, b)) left next),
      Copied-step d s (suc k) m (some m') apart here copied,
    )
