-- ===== src/Strings/Limits.antt =====
-- kernel/lib/string.c: `strncpy` and `strncat` of a string that is shorter than the limit.
use makh.Prelude.{
  ℕ, zero, suc, ◌+◌, ◌-◌, ◌%◌, ◌≤◌, ◌<◌, ◌≡◌, ◌⊎◌, inl, inr, ◌∙◌, ap, none, some, length, set,
  if◌then◌else◌, arith, length-set, get_or-set, dec_lt, ◌==◌,
}
use makh.Prelude.Checked.{◌>>=◌, store}
use makh.Strings.{Memory, memset, copy_at_most, strncpy, strncat}
use makh.Strings.Blocks.{byte, within, Copied-block, memset-bytes}
use makh.Strings.Copy.{IsString, string_end-some, copy_at_most-short}

memset-none : (p c n : ℕ) (m : Memory) → p ≤ length m → length m < p + n → memset p c n m ≡ none
unfolding memset
memset-none p c zero m low high = absurd (omega arith)
memset-none p c (suc n) m low high = elim (dec_lt p (length m)) [
  | no out ↦ ground arith
  | yes inside ↦
      let size = length-set m p (c % 256) in
      let rest = memset-none (p + 1) c n (set m p (c % 256)) (omega arith) (omega arith) in
      ground arith
]

module _ (d s k n : ℕ) (m : Memory) (v : IsString s k m) (short : k < n)
    (apart : (d ≤ s) ⊎ (s + suc k ≤ d)) where
  -- `strncpy` with a limit that is longer than the string fills one byte more than the limit with zeros: those
  -- behind the copied terminator are as many as if the terminator had not been counted.
  pub strncpy-one_more :
      d + n < length m
      → (m' : Memory) × (strncpy d s n m ≡ some m')
        × ((j : ℕ)
            → byte m' j ≡ (
                if within d (suc k) j
                then byte m (s + (j - d))
                else if within d (suc n) j
                then 0
                else byte m j))
  unfolding strncpy
  strncpy-one_more room =
      let (m1, run, block) = copy_at_most-short n d s k m v short apart (omega arith) in
      let (size, copied) = Copied-block d s (suc k) m m1 block in
      let (m', filled, _, bytes) = memset-bytes (d + k + 1) 0 (n - k) m1 (omega arith) in
      (
        m',
        ap (λ o. o >>= λ r. memset r.1.1 0 r.1.0 r.0) run ∙ filled,
        λ j. ground (arith, bytes j, copied j),
      )

  -- Where the destination is the last `n` bytes of the memory and does not begin inside the source,
  -- `strncpy` of a string shorter than `n` writes behind the memory.
  pub strncpy_overruns : d + n ≡ length m → strncpy d s n m ≡ none
  unfolding strncpy
  strncpy_overruns exact =
      let (m1, run, block) = copy_at_most-short n d s k m v short apart (omega arith) in
      let (size, copied) = Copied-block d s (suc k) m m1 block in
      ap (λ o. o >>= λ r. memset r.1.1 0 r.1.0 r.0) run
      ∙ memset-none (d + k + 1) 0 (n - k) m1 (omega arith) (omega arith)

-- `strncat` of the string of `k` chars at `s` to the string of `i` chars at `d`, with a limit longer than `k`, a
-- place that does not begin inside the source and room for the result with its terminator, copies the string with
-- its terminator behind the first one's chars and writes a second zero behind that terminator, and nothing else;
-- where the terminator takes the last byte of the memory, that write is out of bounds.
pub strncat_overruns :
    (d i s k n : ℕ) (m : Memory)
    → IsString d i m
    → IsString s k m
    → k < n
    → (d + i ≤ s) ⊎ (s + suc k ≤ d + i)
    → d + i + k + 1 ≤ length m
    → ((d + i + k + 1 < length m)
        × ((m' : Memory) × (strncat d s n m ≡ some m')
            × ((j : ℕ)
                → byte m' j ≡ (
                    if within (d + i) (suc k) j
                    then byte m (s + (j - (d + i)))
                    else if j == d + i + k + 1
                    then 0
                    else byte m j))))
      ⊎ ((d + i + k + 1 ≡ length m) × (strncat d s n m ≡ none))
unfolding strncat
strncat_overruns d i s k n m u v short apart fits =
    let (m1, run, block) = copy_at_most-short n (d + i) s k m v short apart (omega arith) in
    let (size, copied) = Copied-block (d + i) s (suc k) m m1 block in
    let ends =
      ap (λ o. o >>= λ e. copy_at_most e s n m >>= λ r. store r.0 r.1.1 0)
        (string_end-some (length m) d i m u (omega (arith, u.fits)))
      ∙ ap (λ o. o >>= λ r. store r.0 r.1.1 0) run in
    elim (dec_lt (d + i + k + 1) (length m)) [
      | yes room ↦ inl (
        room,
        (
          set m1 (d + i + k + 1) 0,
          ends ∙ ground arith,
          λ j. ground (arith, copied j, get_or-set m1 (d + i + k + 1) j 0 0),
        ),
      )
      | no full ↦ inr (omega arith, ends ∙ ground arith)
    ]
