-- ===== src/Fs/Path/Clean.antt =====
-- kernel/fs/path.c: the form of the paths that come out.
use makh.Prelude.{
  ℕ, ◌+◌, ◌≡◌, ◌≢◌, ◌≤◌, inl, inr, sym, ◌∙◌, ap, false, Option, none, some, List, [], ◌∷◌, ◌==◌,
  ltb, leb, ◌||◌, length, arith, Bool-cases, subst, All,
}
use makh.Prelude.Checked.{◌>>=◌}
use makh.Fs.Path.{
  Chars, slash, path_max_comps, is_dot, is_dot_dot, is_relative, base_of, erange, path_canonicalize,
}
use makh.Fs.Path.Words.{words, attach, glue}
use makh.Fs.Path.Stack.{apply, popped, text}
use makh.Fs.Path.Walk.{apply_all}
use makh.Fs.Path.Canonical.{stack_of, Canonical, IsString, path_canonicalize-Canonical}
use makh.Fs.Path.Pieces.{length-shorter}

-- A run of chars without a separator that is not empty.
abbrev pub IsWord : Chars → Type 0
IsWord w = (1 ≤ length w) × All (λ c. c ≢ slash) w

-- A name in the tree of files: a word other than "." and "..".
abbrev pub IsName : Chars → Type 0
IsName w = IsWord w × (is_dot w ≡ false) × (is_dot_dot w ≡ false)

glue-IsWord : (c : ℕ) (ws : List Chars) → c ≢ slash → All IsWord ws → All IsWord (glue c ws)
glue-IsWord c [] h a = ((omega arith, (h, tt)), tt)
glue-IsWord c (w ∷ ws) h a = ((omega arith, (h, a.0.1)), a.1)

attach-IsWord :
    (c : ℕ) (p : Chars) (ws : List Chars) → c ≢ slash → All IsWord ws → All IsWord (attach c p ws)
attach-IsWord c [] ws h a = ((omega arith, (h, tt)), a)
attach-IsWord c (d ∷ p) ws h a = elim (Bool-cases (d == slash)) [
  | inl e ↦ rw e ((omega arith, (h, tt)), a)
  | inr e ↦ rw e (glue-IsWord c ws h a)
]

words-IsWord : (p : Chars) → All IsWord (words p)
unfolding words
words-IsWord [] = tt
words-IsWord (c ∷ p) = elim (Bool-cases (c == slash)) [
  | inl e ↦ rw e (words-IsWord p)
  | inr e ↦ rw e (attach-IsWord c p (words p) (λ h. ground (arith, e)) (words-IsWord p))
]

-- The names of a stack, and the limits it keeps.
pub record IsClean (outsz : ℕ) (ws : List Chars) : Type 0 where
  pub names : All IsName ws
  pub few : length ws ≤ path_max_comps
  pub fits : length (text ws) + 1 ≤ outsz

-- The stacks that come out.
abbrev Cleans : ℕ → Option (List Chars) → Type 0
Cleans outsz none = Unit
Cleans outsz (some ws) = IsClean outsz ws

popped-IsClean : (outsz : ℕ) (ws : List Chars) → IsClean outsz ws → IsClean outsz (popped ws)
popped-IsClean outsz [] v = v
popped-IsClean outsz (w ∷ ws) v = record {
  names = v.names.1;
  few = omega (arith, v.few);
  fits = omega (arith, v.fits, length-shorter w ws);
}

apply-Cleans :
    (outsz : ℕ) (w : Chars) (ws : List Chars)
    → IsWord w
    → IsClean outsz ws
    → Cleans outsz (apply outsz w ws)
unfolding apply
apply-Cleans outsz w ws real v = elim (Bool-cases (is_dot w)) [
  | inl e ↦ rw e v
  | inr e ↦ elim (Bool-cases (is_dot_dot w)) [
    | inl f ↦ rw (e, f) (popped-IsClean outsz ws v)
    | inr f ↦
        elim (Bool-cases
          (leb path_max_comps (length ws) || ltb outsz (length (text (w ∷ ws)) + 1))) [
            | inl over ↦ rw (e, f, over) tt
            | inr within ↦
                rw (e, f, within)
                  (record {
                    names = ((real, e, f), v.names);
                    few = ground (arith, within);
                    fits = ground (arith, within);
                  })
          ]
  ]
]

bound-Cleans :
    (outsz : ℕ) (o : Option (List Chars)) (f : List Chars → Option (List Chars))
    → Cleans outsz o
    → ((ws : List Chars) → IsClean outsz ws → Cleans outsz (f ws))
    → Cleans outsz (o >>= f)
bound-Cleans outsz none f c h = tt
bound-Cleans outsz (some ws) f c h = h ws c

apply_all-Cleans :
    (outsz : ℕ) (us ws : List Chars)
    → All IsWord us
    → IsClean outsz ws
    → Cleans outsz (apply_all outsz us ws)
unfolding apply_all
apply_all-Cleans outsz [] ws real v = v
apply_all-Cleans outsz (u ∷ us) ws real v =
    bound-Cleans outsz (apply outsz u ws) (apply_all outsz us) (apply-Cleans outsz u ws real.0 v)
      (λ vs c. apply_all-Cleans outsz us vs real.1 c)

empty-IsClean : (outsz : ℕ) → 2 ≤ outsz → IsClean outsz []
unfolding text
empty-IsClean outsz big = record { names = tt; few = omega arith; fits = omega arith }

stack_of-Cleans :
    (outsz : ℕ) (cwd : Option Chars) (path : Chars)
    → 2 ≤ outsz
    → Cleans outsz (stack_of outsz cwd path)
stack_of-Cleans outsz cwd path big =
    let empty = empty-IsClean outsz big in
    bound-Cleans outsz _ (apply_all outsz (words path))
      (elim (Bool-cases (is_relative path)) [
        | inl e ↦
            rw e
              (apply_all-Cleans outsz (words (base_of cwd)) [] (words-IsWord (base_of cwd)) empty)
        | inr e ↦ rw e empty
      ])
      (λ ws c. apply_all-Cleans outsz (words path) ws (words-IsWord path) c)

code : Option (ℕ × List ℕ) → ℕ
code none = 0
code (some (c, out)) = c

buffer : Option (ℕ × List ℕ) → List ℕ
buffer none = []
buffer (some (c, out)) = out

error_ne : erange ≢ 0
error_ne = omega arith

-- Where `path_canonicalize` returns 0, the buffer holds an absolute path of at most 64 names that fits the
-- size: "/" in front of each name, or "/" alone; each name is not empty, has no "/" in it, and is neither
-- "." nor "..".
pub path_canonicalize-IsClean :
    (cwd : Option Chars) (path : Chars) (out : List ℕ) (outsz : ℕ) (out' : List ℕ)
    → 2 ≤ outsz
    → outsz ≤ length out
    → path_canonicalize cwd (some path) (some out) outsz ≡ some (0, out')
    → (ws : List Chars) × IsString out' (text ws) × IsClean outsz ws
unfolding code buffer
path_canonicalize-IsClean cwd path out outsz out' big room e =
    by_stack (stack_of outsz cwd path) (path_canonicalize-Canonical cwd path out outsz big room)
      (stack_of-Cleans outsz cwd path big)
  where
    by_stack :
        (o : Option (List Chars))
        → Canonical o (path_canonicalize cwd (some path) (some out) outsz)
        → Cleans outsz o
        → (ws : List Chars) × IsString out' (text ws) × IsClean outsz ws
    by_stack none c v = absurd (error_ne (ap code (sym c ∙ e)))
    by_stack (some ws) (out1, run, string) v =
        (ws, subst (λ l. IsString l (text ws)) (ap buffer (sym run ∙ e)) string, v)
