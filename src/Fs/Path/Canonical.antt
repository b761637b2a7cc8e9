-- ===== src/Fs/Path/Canonical.antt =====
-- kernel/fs/path.c: `path_canonicalize` against the stack of components.
use makh.Prelude.{
  ℕ, ◌+◌, ◌≡◌, ◌≤◌, inl, inr, refl, true, false, Option, none, some, List, [], ◌∷◌, ◌++◌, ltb,
  if◌then◌else◌, length, set, arith, Bool-cases, length-replicate, replicate,
}
use makh.Prelude.Checked.{◌>>=◌}
use makh.Fs.Path.{
  Chars, Canon, Status, going, slash, erange, path_max_comps, and_then, is_relative, base_of, start,
  finish, walk_string, path_canonicalize,
}
use makh.Fs.Path.Words.{words}
use makh.Fs.Path.Stack.{text, Starts, nothing, first, Stands}
use makh.Fs.Path.Buffer.{Starts-snoc}
use makh.Fs.Path.Pieces.{Result}
use makh.Fs.Path.Walk.{apply_all, walk-Result}

-- The stack of a path: that of the current directory for a relative path, and then its components.
abbrev pub stack_of : ℕ → Option Chars → Chars → Option (List Chars)
stack_of outsz cwd path =
    (if is_relative path then apply_all outsz (words (base_of cwd)) [] else some []) >>= λ ws.
    apply_all outsz (words path) ws

-- The buffer holds the text and a terminator behind it.
abbrev pub IsString : List ℕ → Chars → Type 0
IsString out t = Starts out (t ++ (0 ∷ []))

abbrev pub Canonical : Option (List Chars) → Option (ℕ × List ℕ) → Type 0
Canonical none r = r ≡ some (erange, [])
Canonical (some ws) r = (out : List ℕ) × (r ≡ some (0, out)) × IsString out (text ws)

start-Stands :
    (outsz : ℕ) (out : List ℕ)
    → 2 ≤ outsz
    → outsz ≤ length out
    → (s : Canon) × (start out ≡ some s) × Stands outsz s []
unfolding start text
start-Stands outsz [] big room = absurd (omega arith)
start-Stands outsz (c ∷ out) big room =
    let test : ltb 0 (length (c ∷ out)) ≡ true = ground arith in
    let s : Canon = record {
      out = slash ∷ out;
      len = 1;
      end = replicate path_max_comps 0;
      ncomp = 0;
    } in
    (
      s,
      rw test refl,
      record {
        starts = first nothing;
        len_text = refl;
        count = refl;
        ends = tt;
        few = omega arith;
        fits = omega arith;
        room = room;
        slots = length-replicate {A = ℕ} path_max_comps 0;
        real = tt;
      },
    )

finish-Canonical :
    (outsz : ℕ) (o : Option (List Chars)) (r : Option Status)
    → Result outsz o r
    → Canonical o (r >>= finish)
unfolding finish
finish-Canonical outsz none r h = rw h refl
finish-Canonical outsz (some ws) r (s, run, v) =
    let inside : ltb s.len (length s.out) ≡ true = ground (arith, v.len_text, v.fits, v.room) in
    (
      set s.out s.len 0,
      rw (run, inside) refl,
      rw v.len_text (Starts-snoc s.out (text ws) 0 v.starts (omega (arith, v.fits, v.room))),
    )

start-Result :
    (outsz : ℕ) (cwd : Option Chars) (path : Chars) (s : Canon)
    → Stands outsz s []
    → Result outsz
        (if is_relative path then apply_all outsz (words (base_of cwd)) [] else some [])
        (if is_relative path then walk_string outsz (base_of cwd) s else some (going s))
unfolding walk_string
start-Result outsz cwd path s v = elim (Bool-cases (is_relative path)) [
  | inl e ↦ rw e (walk-Result (length (base_of cwd) + 1) outsz (base_of cwd) s [] v (omega arith))
  | inr e ↦ rw e (s, refl, v)
]

and_walk-Result :
    (outsz : ℕ) (path : Chars) (o : Option (List Chars)) (r : Option Status)
    → Result outsz o r
    → Result outsz
        (o >>= λ ws. apply_all outsz (words path) ws)
        (and_then r (λ s'. walk_string outsz path s'))
unfolding walk_string
and_walk-Result outsz path none r h = rw h refl
and_walk-Result outsz path (some ws) r (s, run, v) =
    rw run (walk-Result (length path + 1) outsz path s ws v (omega arith))

-- `path_canonicalize`, with a path, a buffer of at least the size that it is told and a size of at least 2,
-- returns, reads and writes inside its arrays only, and does what a stack of components does: it returns
-- ERANGE exactly when the stack passes 64 components or the text the size, and otherwise leaves the text of
-- the stack and a terminator in the buffer and returns 0.
pub path_canonicalize-Canonical :
    (cwd : Option Chars) (path : Chars) (out : List ℕ) (outsz : ℕ)
    → 2 ≤ outsz
    → outsz ≤ length out
    → Canonical (stack_of outsz cwd path) (path_canonicalize cwd (some path) (some out) outsz)
unfolding path_canonicalize
path_canonicalize-Canonical cwd path out outsz big room =
    let small : ltb outsz 2 ≡ false = ground arith in
    let (s, run, v) = start-Stands outsz out big room in
    rw (small, run)
      (finish-Canonical outsz (stack_of outsz cwd path) _
        (and_walk-Result outsz path _ _ (start-Result outsz cwd path s v)))
