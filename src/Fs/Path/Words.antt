-- ===== src/Fs/Path/Words.antt =====
-- kernel/fs/path.c: the components of a path, against a definition by its chars.
use makh.Prelude.{
  ℕ, ◌≡◌, ◌≢◌, ◌≤◌, ◌<◌, inl, inr, refl, sym, ◌∙◌, ap, false, List, [], ◌∷◌, ◌==◌, if◌then◌else◌,
  length, get_or, arith, Bool-cases,
}
use makh.Fs.Path.{Chars, slash, skip_separators, component}

-- A char in front of the first word.
abbrev pub glue : ℕ → List Chars → List Chars
glue c [] = (c ∷ []) ∷ []
glue c (w ∷ ws) = (c ∷ w) ∷ ws

-- A char in front of what follows: of its first word, unless a separator comes next, or nothing.
abbrev pub attach : ℕ → Chars → List Chars → List Chars
attach c [] ws = (c ∷ []) ∷ ws
attach c (d ∷ p) ws = if d == slash then (c ∷ []) ∷ ws else glue c ws

-- The runs of chars between separators.
unfoldable pub words : Chars → List Chars
words [] = []
words (c ∷ p) = if c == slash then words p else attach c p (words p)

pub words_empty : words [] ≡ []
unfolding words
words_empty = refl

pub words-skip : (p : Chars) → words (skip_separators p) ≡ words p
unfolding words skip_separators
words-skip [] = refl
words-skip (c ∷ p) = elim (Bool-cases (c == slash)) [
  | inl e ↦ rw e (words-skip p)
  | inr e ↦ rw e (rw e refl)
]

pub words-component :
    (c : ℕ) (p : Chars)
    → (c == slash) ≡ false
    → words (c ∷ p) ≡ (component (c ∷ p)).0 ∷ words (component (c ∷ p)).1
unfolding words component
words-component c [] e = rw e refl
words-component c (d ∷ p) e = elim (Bool-cases (d == slash)) [
  | inl f ↦ ground (arith, e, f)
  | inr f ↦
      let rest : words (d ∷ p) ≡ (component (d ∷ p)).0 ∷ words (component (d ∷ p)).1 =
        words-component d p f in
      let here : words (c ∷ (d ∷ p)) ≡ glue c (words (d ∷ p)) = ground (arith, e, f) in
      here ∙ ap (glue c) rest ∙ rw e refl
]

-- The chars that are left after a component are fewer.
pub length-skip : (p : Chars) → length (skip_separators p) ≤ length p
unfolding skip_separators
length-skip [] = omega arith
length-skip (c ∷ p) = ground (arith, length-skip p)

pub length-component :
    (c : ℕ) (p : Chars) → (c == slash) ≡ false → length (component (c ∷ p)).1 < length (c ∷ p)
unfolding component
length-component c [] e = rw e (omega arith)
length-component c (d ∷ p) e = elim (Bool-cases (d == slash)) [
  | inl f ↦ rw (e, f) (omega arith)
  | inr f ↦ let rest = length-component d p f in rw e (ground (arith, rest))
]

-- Behind the separators no separator comes.
pub skip-first : (p : Chars) (c : ℕ) (q : Chars) → skip_separators p ≡ c ∷ q → (c == slash) ≡ false
unfolding skip_separators
skip-first [] c q e = absurd (nil_cons e)
  where
    nil_cons : [] ≢ c ∷ q
    nil_cons e = ground arith
skip-first (d ∷ p) c q e = elim (Bool-cases (d == slash)) [
  | inl f ↦ skip-first p c q (rw f at e)
  | inr f ↦ ap (λ x. x == slash) (ap (λ l. get_or l 0 0) (sym (rw f at e))) ∙ f
]
