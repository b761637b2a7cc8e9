-- ===== src/Strings/Blocks.antt =====
-- kernel/lib/string.c: `memset`, `memcpy` and `memmove` at every index of the memory.
use makh.Prelude.{
  ℕ, zero, suc, ◌+◌, ◌-◌, ◌%◌, ◌≤◌, ◌<◌, ◌≡◌, ◌⊎◌, inl, inr, refl, ◌∙◌, Bool, ◌&&◌, Option, some,
  length, get_or, set, ltb, leb, if◌then◌else◌, arith, get_or-set, length-set, Bool-cases, dec_lt,
  ap, subst, sym,
}
use makh.Strings.{Memory, memset, memcpy, copy_down, memmove}

-- The byte at an address.
abbrev pub byte : Memory → ℕ → ℕ
byte m p = get_or m p 0

-- `p` lies in the `n` bytes from `d` on.
abbrev pub within : ℕ → ℕ → ℕ → Bool
within d n p = leb d p && ltb p (d + n)

-- `memset` sets the bytes of the block to the lowest byte of its argument and keeps the others.
pub memset-bytes :
    (p c n : ℕ) (m : Memory)
    → p + n ≤ length m
    → (m' : Memory) × (memset p c n m ≡ some m')
      × (length m' ≡ length m)
      × ((j : ℕ) → byte m' j ≡ (if within p n j then c % 256 else byte m j))
unfolding memset
memset-bytes p c zero m h = (m, refl, refl, λ j. ground arith)
memset-bytes p c (suc n) m h =
    let m1 = set m p (c % 256) in
    let size : length m1 ≡ length m = length-set m p (c % 256) in
    let (m', run, len, bytes) = memset-bytes (p + 1) c n m1 (omega arith) in
    (m', ground arith, omega arith, λ j. ground (arith, bytes j, get_or-set m p j (c % 256) 0))

-- What a copy leaves at every address.
abbrev pub Copied : ℕ → ℕ → ℕ → Memory → Option Memory → Type 0
Copied d s n m out =
    (m' : Memory) × (out ≡ some m')
    × (length m' ≡ length m)
    × ((j : ℕ) → byte m' j ≡ (if within d n j then byte m (s + (j - d)) else byte m j))

-- What is read of a copy that is there.
pub Copied-block :
    (d s n : ℕ) (m m' : Memory)
    → Copied d s n m (some m')
    → (length m' ≡ length m)
      × ((j : ℕ) → byte m' j ≡ (if within d n j then byte m (s + (j - d)) else byte m j))
Copied-block d s n m m' (m2, same, len, bytes) =
    let e : m' ≡ m2 = cc in (ap length e ∙ len, λ j. ap (λ x. byte x j) e ∙ bytes j)

at_start : (s d j : ℕ) → j ≡ d → s + (j - d) ≡ s
at_start s d j e = omega arith

at_end : (s d n j : ℕ) → j ≡ d + n → s + (j - d) ≡ s + n
at_end s d n j e = omega arith

-- One round of a loop that counts up, before the rest.
pub Copied-step :
    (d s n : ℕ) (m : Memory) (out : Option Memory)
    → (d ≤ s) ⊎ (s + suc n ≤ d)
    → d < length m
    → Copied (d + 1) (s + 1) n (set m d (byte m s)) out
    → Copied d s (suc n) m out
Copied-step d s n m out apart room (m', run, len, bytes) =
    let m1 = set m d (byte m s) in
    let size : length m1 ≡ length m = length-set m d (byte m s) in
    (
      m',
      run,
      len ∙ size,
      λ j. elim (dec_lt d j) [
        | no early ↦ ground (
          arith,
          bytes j,
          get_or-set m d j (byte m s) 0,
          λ (e : j ≡ d). ap (byte m) (at_start s d j e),
        )
        | yes later ↦
            let source : s + 1 + (j - (d + 1)) ≡ s + (j - d) = omega arith in
            ground (
              arith,
              bytes j,
              get_or-set m d j (byte m s) 0,
              get_or-set m d (s + (j - d)) (byte m s) 0,
              ap (byte m1) source,
            )
      ],
    )

-- A loop that counts up copies a block to one that does not begin inside it.
pub memcpy-Copied :
    (d s n : ℕ) (m : Memory)
    → (d ≤ s) ⊎ (s + n ≤ d)
    → d + n ≤ length m
    → s + n ≤ length m
    → Copied d s n m (memcpy d s n m)
unfolding memcpy
memcpy-Copied d s zero m apart hd hs = (m, refl, refl, λ j. ground arith)
memcpy-Copied d s (suc n) m apart hd hs =
    let m1 = set m d (byte m s) in
    let here : d < length m = omega arith in
    let size : length m1 ≡ length m = length-set m d (byte m s) in
    let apart' : (d + 1 ≤ s + 1) ⊎ (s + 1 + n ≤ d + 1) = elim apart [
      | inl below ↦ inl (omega arith)
      | inr above ↦ inr (omega arith)
    ] in
    let rest = memcpy-Copied (d + 1) (s + 1) n m1 apart' (omega arith) (omega arith) in
    let run : memcpy d s (suc n) m ≡ memcpy (d + 1) (s + 1) n m1 = ground arith in
    subst (Copied d s (suc n) m) (sym run) (Copied-step d s n m _ apart here rest)

copy_down-Copied :
    (d s n : ℕ) (m : Memory)
    → s ≤ d
    → d + n ≤ length m
    → s + n ≤ length m
    → Copied d s n m (copy_down d s n m)
unfolding copy_down
copy_down-Copied d s zero m order hd hs = (m, refl, refl, λ j. ground arith)
copy_down-Copied d s (suc n) m order hd hs =
    let m1 = set m (d + n) (byte m (s + n)) in
    let size : length m1 ≡ length m = length-set m (d + n) (byte m (s + n)) in
    let (m', run, len, bytes) = copy_down-Copied d s n m1 order (omega arith) (omega arith) in
    (
      m',
      ground arith,
      omega arith,
      λ j. ground (
        arith,
        bytes j,
        get_or-set m (d + n) j (byte m (s + n)) 0,
        get_or-set m (d + n) (s + (j - d)) (byte m (s + n)) 0,
        λ (e : j ≡ d + n). ap (byte m) (at_end s d n j e),
      ),
    )

-- `memmove` of a block, where both blocks lie in the memory, copies it as it was before the call,
-- however they overlap, and changes no other byte.
pub memmove-Copied :
    (d s n : ℕ) (m : Memory)
    → d + n ≤ length m
    → s + n ≤ length m
    → Copied d s n m (memmove d s n m)
unfolding memmove
memmove-Copied d s n m hd hs = elim (Bool-cases (ltb d s)) [
  | inl below ↦ rw below (memcpy-Copied d s n m (inl (ground arith)) hd hs)
  | inr above ↦ rw above (copy_down-Copied d s n m (ground arith) hd hs)
]
