-- ===== src/Fs/Path.antt =====
-- kernel/fs/path.c: a path and the current directory become an absolute path in a buffer.
pub mod Words
pub mod Buffer
pub mod Stack
pub mod Canonical
pub mod Pieces
pub mod Walk
pub mod Clean
mod Tests
use makh.Prelude.{
  ℕ, zero, suc, ◌+◌, ◌-◌, Bool, true, false, not, ◌&&◌, ◌||◌, Option, none, some, List, [], ◌∷◌,
  length, get_or, set, replicate, ltb, leb, ◌==◌, if◌then◌else◌,
}
use makh.Prelude.Checked.{◌>>=◌, load, store}

abbrev pub path_max_comps : ℕ
path_max_comps = 64

abbrev pub slash : ℕ
slash = 47

abbrev pub dot : ℕ
dot = 46

abbrev pub einval : ℕ
einval = 22

abbrev pub erange : ℕ
erange = 34

-- The local variables: the buffer, the length so far, the length behind each component, their number.
pub record Canon : Type 0 where
  pub out : List ℕ
  pub len : ℕ
  pub end : List ℕ
  pub ncomp : ℕ

-- What goes on, or the error that is returned with a minus sign.
pub data Status : Type 0 where
  going : Canon → Status
  failed : ℕ → Status

-- A string is the list of its chars before the terminator, so a pointer into it is what is left of it.
abbrev pub Chars : Type 0
Chars = List ℕ

-- `while (*p == '/') p++;`
pub skip_separators : Chars → Chars
skip_separators [] = []
skip_separators (c ∷ p) = if c == slash then skip_separators p else c ∷ p

-- `while (*p && *p != '/') p++;`: the component, and what is left
pub component : Chars → Chars × Chars
component [] = ([], [])
component (c ∷ p) =
    let (st, rest) = component p in if c == slash then ([], c ∷ p) else (c ∷ st, rest)

-- `clen == 1 && st[0] == '.'`
pub is_dot : Chars → Bool
is_dot (a ∷ []) = a == dot
is_dot _ = false

-- `clen == 2 && st[0] == '.' && st[1] == '.'`
pub is_dot_dot : Chars → Bool
is_dot_dot (a ∷ (b ∷ [])) = (a == dot) && (b == dot)
is_dot_dot _ = false

-- `out[len++] = c;`
pub put : ℕ → Canon → Option Canon
put c s = do out' ← store s.out s.len c; some (record s { out = out'; len = s.len + 1 })

-- `for (i = 0; i < clen; i++) out[len++] = st[i];`
pub put_all : Chars → Canon → Option Canon
put_all [] s = some s
put_all (c ∷ st) s = put c s >>= λ s'. put_all st s'

-- `if (len != 1) out[len++] = '/';` and the loop behind it
pub write_piece : Chars → Canon → Option Canon
write_piece st s = (if s.len == 1 then some s else put slash s) >>= λ s1. put_all st s1

-- `if (ncomp > 0) { ncomp--; len = ncomp ? end[ncomp - 1] : 1; }`
pub go_up : Canon → Option Canon
go_up s =
    let n = s.ncomp - 1 in
    if s.ncomp == 0
    then some s
    else if n == 0
    then some (record s { ncomp = n; len = 1 })
    else (load s.end (n - 1) >>= λ l. some (record s { ncomp = n; len = l }))

-- The rest of the loop's body: a component is appended, if there is room.
pub append : ℕ → Chars → Canon → Option Status
append outsz st s =
    let need = (if s.len == 1 then 0 else 1) + length st in
    if leb path_max_comps s.ncomp
    then some (failed erange)
    else if ltb outsz (s.len + need + 1)
    then some (failed erange)
    else do
      s2 ← write_piece st s
      end' ← store s2.end s2.ncomp s2.len
      some (going (record s2 { end = end'; ncomp = s2.ncomp + 1 }))

-- The body of the loop, at a component.
pub visit : ℕ → Chars → Canon → Option Status
visit outsz st s =
    if is_dot st
    then some (going s)
    else if is_dot_dot st
    then (go_up s >>= λ s'. some (going s'))
    else append outsz st s

-- What comes behind a step: nothing more, after an error.
abbrev pub and_then : Option Status → (Canon → Option Status) → Option Status
and_then none f = none
and_then (some (failed e)) f = some (failed e)
and_then (some (going s)) f = f s

-- `!*p`
abbrev pub is_empty : Chars → Bool
is_empty [] = true
is_empty (c ∷ p) = false

-- `while (*p) ...`, on the rounds left; no result where they do not suffice or an access is out of bounds
pub walk : ℕ → ℕ → Chars → Canon → Option Status
walk zero outsz p s = none
walk (suc n) outsz p s =
    let q = skip_separators p in
    let (st, rest) = component q in
    if is_empty q then some (going s) else and_then (visit outsz st s) (λ s'. walk n outsz rest s')

-- A walk of a whole string, which has fewer components than chars.
pub walk_string : ℕ → Chars → Canon → Option Status
walk_string outsz p s = walk (length p + 1) outsz p s

-- `out[0] = '/'; len = 1;`
pub start : List ℕ → Option Canon
start out = do
  out' ← store out 0 slash
  some (record { out = out'; len = 1; end = replicate path_max_comps 0; ncomp = 0 })

-- `path[0] != '/'`
pub is_relative : Chars → Bool
is_relative [] = true
is_relative (c ∷ p) = not (c == slash)

-- `(cwd && cwd[0]) ? cwd : "/"`, where there is a directory at all
pub base_of : Option Chars → Chars
base_of none = slash ∷ []
base_of (some []) = slash ∷ []
base_of (some (c ∷ p)) = c ∷ p

-- `out[len] = '\0'; return 0;`
pub finish : Status → Option (ℕ × List ℕ)
finish (failed e) = some (e, [])
finish (going s) = store s.out s.len 0 >>= λ out'. some (0, out')

-- The error, 0 for none, and the buffer where there is none.
pub path_canonicalize : Option Chars → Option Chars → Option (List ℕ) → ℕ → Option (ℕ × List ℕ)
path_canonicalize cwd none out outsz = some (einval, [])
path_canonicalize cwd (some path) none outsz = some (einval, [])
path_canonicalize cwd (some path) (some out) outsz = if ltb outsz 2 then some (einval, []) else do
  s ← start out
  r ←
      and_then (if is_relative path then walk_string outsz (base_of cwd) s else some (going s))
        (λ s'. walk_string outsz path s')
  finish r
