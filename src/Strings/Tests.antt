-- ===== src/Strings/Tests.antt =====
-- Runs of kernel/lib/string.c, and the theorems at concrete inputs.
use makh.Prelude.{
  ℕ, zero, suc, ◌+◌, ◌-◌, ◌<◌, ◌≡◌, ◌≢◌, ◌⊎◌, ◌==◌, length, if◌then◌else◌, inr, refl, none, some,
  [], ◌∷◌, arith,
}
use makh.Prelude.Int.{pos}
use makh.Strings.{
  Memory, byte_diff, memmove, memcmp, strlen_from, strlen, strcpy, strncpy, strcat, strncat, strcmp,
  strncmp, strchr, strrchr, is_prefix, find_string, strstr,
}
use makh.Strings.Blocks.{byte, within, Copied, memmove-Copied}
use makh.Strings.Copy.{IsString, strcpy-Copied, strcat-Copied}
use makh.Strings.Limits.{strncpy_overruns, strncat_overruns}
use makh.Strings.Search.{
  Compared, strcmp-Compared, FirstFound, strchr-FirstFound, strrchr_terminator,
}

-- "abc" at 0, "ab" at 4, and five bytes at the end
abbrev memory : Memory
memory = b'a' ∷ b'b' ∷ b'c' ∷ 0 ∷ b'a' ∷ b'b' ∷ 0 ∷ 7 ∷ 7 ∷ 7 ∷ 7 ∷ 7 ∷ []

abc-IsString : IsString 0 3 memory
abc-IsString = record { fits = omega arith; terminated = refl; chars = nonzero }
  where
    nonzero : (j : ℕ) → j < 3 → byte memory (0 + j) ≢ 0
    nonzero zero h z = absurd (omega arith)
    nonzero (suc zero) h z = absurd (omega arith)
    nonzero (suc (suc zero)) h z = absurd (omega arith)
    nonzero (suc (suc (suc j))) h z = absurd (omega arith)

ab-IsString : IsString 4 2 memory
ab-IsString = record { fits = omega arith; terminated = refl; chars = nonzero }
  where
    nonzero : (j : ℕ) → j < 2 → byte memory (4 + j) ≢ 0
    nonzero zero h z = absurd (omega arith)
    nonzero (suc zero) h z = absurd (omega arith)
    nonzero (suc (suc j)) h z = absurd (omega arith)

strlen_runs : strlen 0 memory ≡ some 3
unfolding strlen strlen_from
strlen_runs = refl

memcmp_runs : memcmp 0 4 3 memory ≡ some (pos 99)
unfolding memcmp byte_diff
memcmp_runs = refl

strncmp_runs : strncmp 0 4 2 memory ≡ some (pos 0)
unfolding strncmp byte_diff
strncmp_runs = refl

strstr_runs : strstr 0 5 memory ≡ some (some 1)
unfolding strstr find_string is_prefix
strstr_runs = refl

memmove-Copied_example : Copied 1 0 4 memory (memmove 1 0 4 memory)
memmove-Copied_example = memmove-Copied 1 0 4 memory (omega arith) (omega arith)

strcpy-Copied_here : Copied 7 0 4 memory (strcpy 7 0 memory)
strcpy-Copied_here = strcpy-Copied 7 0 3 memory abc-IsString (inr (omega arith)) (omega arith)

strcat-Copied_here : Copied 6 0 4 memory (strcat 4 0 memory)
strcat-Copied_here =
    strcat-Copied 4 2 0 3 memory ab-IsString abc-IsString (inr (omega arith)) (omega arith)

strncpy_overruns_example : strncpy 7 4 5 memory ≡ none
strncpy_overruns_example =
    strncpy_overruns 7 4 2 5 memory ab-IsString (omega arith) (inr (omega arith)) refl

strncat_overruns_example :
    ((10 < length memory)
      × ((m' : Memory) × (strncat 4 0 5 memory ≡ some m')
          × ((j : ℕ)
              → byte m' j ≡ (
                  if within 6 4 j
                  then byte memory (0 + (j - 6))
                  else if j == 10
                  then 0
                  else byte memory j))))
    ⊎ ((10 ≡ length memory) × (strncat 4 0 5 memory ≡ none))
strncat_overruns_example =
    strncat_overruns 4 2 0 3 5 memory ab-IsString abc-IsString (omega arith) (inr (omega arith))
      (omega arith)

strcmp-Compared_here : Compared 0 3 4 2 memory (strcmp 0 4 memory)
strcmp-Compared_here = strcmp-Compared 0 3 4 2 memory abc-IsString ab-IsString

strchr-FirstFound_here : FirstFound 0 3 b'c' memory (strchr 0 b'c' memory)
strchr-FirstFound_here = strchr-FirstFound 0 3 b'c' memory abc-IsString (omega arith)

strrchr_terminator_example :
    (strrchr 0 0 memory ≡ some none) × (strchr 0 0 memory ≡ some (some (0 + 3)))
strrchr_terminator_example = strrchr_terminator 0 3 memory abc-IsString
