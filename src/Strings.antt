-- ===== src/Strings.antt =====
-- kernel/lib/string.c: blocks of memory and C strings.
-- Memory is one array of bytes and a pointer is an index, so that two blocks may overlap; `none` is an
-- access outside the memory.
pub mod Blocks
pub mod Copy
pub mod Limits
pub mod Search
mod Tests
use makh.Prelude.{
  ℕ, zero, suc, ◌+◌, ◌-◌, ◌%◌, Bool, true, false, not, ◌&&◌, ◌||◌, Option, none, some, List, length,
  ltb, ◌==◌, if◌then◌else◌,
}
use makh.Prelude.Int.{ℤ, pos, negsuc}
use makh.Prelude.Checked.{◌>>=◌, load, store}

abbrev pub Memory : Type 0
Memory = List ℕ

-- `a - b` of two bytes
pub byte_diff : ℕ → ℕ → ℤ
byte_diff a b = if ltb a b then negsuc (b - a - 1) else pos (a - b)

pub memset : ℕ → ℕ → ℕ → Memory → Option Memory
memset p c zero m = some m
memset p c (suc n) m = store m p (c % 256) >>= λ m'. memset (p + 1) c n m'

pub memcpy : ℕ → ℕ → ℕ → Memory → Option Memory
memcpy d s zero m = some m
memcpy d s (suc n) m = load m s >>= λ c. store m d c >>= λ m'. memcpy (d + 1) (s + 1) n m'

-- `d += n; s += n; while (n--) *--d = *--s;`
pub copy_down : ℕ → ℕ → ℕ → Memory → Option Memory
copy_down d s zero m = some m
copy_down d s (suc n) m = load m (s + n) >>= λ c. store m (d + n) c >>= λ m'. copy_down d s n m'

pub memmove : ℕ → ℕ → ℕ → Memory → Option Memory
memmove d s n m = if ltb d s then memcpy d s n m else copy_down d s n m

pub memcmp : ℕ → ℕ → ℕ → Memory → Option ℤ
memcmp p q zero m = some (pos 0)
memcmp p q (suc n) m =
    let rest = memcmp (p + 1) (q + 1) n m in
    load m p >>= λ a. load m q >>= λ b. if not (a == b) then some (byte_diff a b) else rest

-- The loops over a string end at its terminator or at an access outside the memory: as many rounds as the
-- memory has bytes are enough.
pub strlen_from : ℕ → ℕ → Memory → Option ℕ
strlen_from zero p m = none
strlen_from (suc fuel) p m =
    let rest = strlen_from fuel (p + 1) m in
    load m p >>= λ c. if c == 0 then some 0 else (rest >>= λ n. some (n + 1))

pub strlen : ℕ → Memory → Option ℕ
strlen p m = strlen_from (length m) p m

-- `while ((*d++ = *src++) != '\0');`
pub copy_string : ℕ → ℕ → ℕ → Memory → Option Memory
copy_string zero d s m = none
copy_string (suc fuel) d s m = load m s >>= λ c.
    store m d c >>= λ m'. if c == 0 then some m' else copy_string fuel (d + 1) (s + 1) m'

pub strcpy : ℕ → ℕ → Memory → Option Memory
strcpy d s m = copy_string (length m) d s m

-- `while (n && (*d++ = *src++)) n--;`, with the `n` and the `d` it ends at
pub copy_at_most : ℕ → ℕ → ℕ → Memory → Option (Memory × (ℕ × ℕ))
copy_at_most d s zero m = some (m, (0, d))
copy_at_most d s (suc n) m = load m s >>= λ c. store m d c >>= λ m'.
    if c == 0 then some (m', (suc n, d + 1)) else copy_at_most (d + 1) (s + 1) n m'

pub strncpy : ℕ → ℕ → ℕ → Memory → Option Memory
strncpy d s n m = copy_at_most d s n m >>= λ (m', (left, d')). memset d' 0 left m'

-- `while (*d) d++;`
pub string_end : ℕ → ℕ → Memory → Option ℕ
string_end zero d m = none
string_end (suc fuel) d m =
    let rest = string_end fuel (d + 1) m in load m d >>= λ c. if c == 0 then some d else rest

pub strcat : ℕ → ℕ → Memory → Option Memory
strcat d s m = string_end (length m) d m >>= λ e. copy_string (length m) e s m

-- `while (n-- && (*d++ = *src++)); *d = '\0';` leaves `d` behind the last char that was written, the
-- terminator included.
pub strncat : ℕ → ℕ → ℕ → Memory → Option Memory
strncat d s n m =
    string_end (length m) d m >>= λ e. copy_at_most e s n m >>= λ (m', (left, d')). store m' d' 0

pub compare_from : ℕ → ℕ → ℕ → Memory → Option ℤ
compare_from zero p q m = none
compare_from (suc fuel) p q m =
    let rest = compare_from fuel (p + 1) (q + 1) m in
    load m p >>= λ a.
    load m q >>= λ b. if not (a == 0) && (a == b) then rest else some (byte_diff a b)

pub strcmp : ℕ → ℕ → Memory → Option ℤ
strcmp p q m = compare_from (length m) p q m

pub strncmp : ℕ → ℕ → ℕ → Memory → Option ℤ
strncmp p q zero m = some (pos 0)
strncmp p q (suc n) m =
    let rest = strncmp (p + 1) (q + 1) n m in
    load m p >>= λ a.
    load m q >>= λ b. if not (a == 0) && (a == b) then rest else some (byte_diff a b)

-- A pointer that is returned, `none` being NULL.
pub find_char : ℕ → ℕ → ℕ → Memory → Option (Option ℕ)
find_char zero p c m = none
find_char (suc fuel) p c m =
    let rest = find_char fuel (p + 1) c m in
    load m p >>= λ x. if x == c then some (some p) else if x == 0 then some none else rest

pub strchr : ℕ → ℕ → Memory → Option (Option ℕ)
strchr p c m = find_char (length m) p (c % 256) m

pub find_last : ℕ → ℕ → ℕ → Option ℕ → Memory → Option (Option ℕ)
find_last zero p c last m = none
find_last (suc fuel) p c last m =
    let here = find_last fuel (p + 1) c (some p) m in
    let rest = find_last fuel (p + 1) c last m in
    load m p >>= λ x. if x == 0 then some last else if x == c then here else rest

pub strrchr : ℕ → ℕ → Memory → Option (Option ℕ)
strrchr p c m = find_last (length m) p (c % 256) none m

-- `while (*h && *n && *h == *n) { h++; n++; }`, and whether `n` ends at its terminator
pub is_prefix : ℕ → ℕ → ℕ → Memory → Option Bool
is_prefix zero h n m = none
is_prefix (suc fuel) h n m =
    let rest = is_prefix fuel (h + 1) (n + 1) m in
    load m h >>= λ a.
    load m n >>= λ b. if not (a == 0) && (not (b == 0) && (a == b)) then rest else some (b == 0)

pub find_string : ℕ → ℕ → ℕ → Memory → Option (Option ℕ)
find_string zero h n m = none
find_string (suc fuel) h n m =
    let rest = find_string fuel (h + 1) n m in
    load m h >>= λ a.
    if a == 0
    then some none
    else (is_prefix (length m) h n m >>= λ ends. if ends then some (some h) else rest)

pub strstr : ℕ → ℕ → Memory → Option (Option ℕ)
strstr h n m = load m n >>= λ c. if c == 0 then some (some h) else find_string (length m) h n m
