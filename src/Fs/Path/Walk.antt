-- ===== src/Fs/Path/Walk.antt =====
-- kernel/fs/path.c: a walk of a string, on the buffer and on the stack.
use makh.Prelude.{
  ℕ, zero, suc, ◌+◌, ◌≡◌, ◌≤◌, ◌<◌, inl, inr, refl, ◌∙◌, ap, true, false, Option, none, some, List,
  [], ◌∷◌, ◌==◌, ltb, leb, if◌then◌else◌, length, arith, Bool-cases, subst,
}
use makh.Prelude.Checked.{◌>>=◌}
use makh.Fs.Path.{
  Chars, Canon, Status, failed, slash, erange, path_max_comps, is_dot, is_dot_dot, append, visit,
  walk, and_then, skip_separators, component,
}
use makh.Fs.Path.Words.{
  words, words_empty, words-skip, words-component, length-skip, length-component, skip-first,
}
use makh.Fs.Path.Stack.{text, apply, Stands}
use makh.Fs.Path.Pieces.{Result, go_up-Stands, need-text, append-Stands}

pub append-full :
    (outsz : ℕ) (w : Chars) (s : Canon) (ws : List Chars)
    → Stands outsz s ws
    → leb path_max_comps (length ws) ≡ true
    → append outsz w s ≡ some (failed erange)
unfolding append
append-full outsz w s ws v full =
    let n1 : leb path_max_comps s.ncomp ≡ true = ap (leb path_max_comps) v.count ∙ full in
    rw n1 refl

pub append-long :
    (outsz : ℕ) (w : Chars) (s : Canon) (ws : List Chars)
    → Stands outsz s ws
    → leb path_max_comps (length ws) ≡ false
    → ltb outsz (length (text (w ∷ ws)) + 1) ≡ true
    → append outsz w s ≡ some (failed erange)
unfolding append
append-long outsz w s ws v few long =
    let n1 : leb path_max_comps s.ncomp ≡ false = ap (leb path_max_comps) v.count ∙ few in
    let n2 : ltb outsz (s.len + ((if s.len == 1 then 0 else 1) + length w) + 1) ≡ true =
      ap (λ n. ltb outsz (n + 1)) (need-text outsz w s ws v) ∙ long in
    rw (n1, n2) refl

pub visit-Result :
    (outsz : ℕ) (w : Chars) (s : Canon) (ws : List Chars)
    → Stands outsz s ws
    → 1 ≤ length w
    → Result outsz (apply outsz w ws) (visit outsz w s)
unfolding visit apply
visit-Result outsz w s ws v real = elim (Bool-cases (is_dot w)) [
  | inl e ↦ rw e (s, refl, v)
  | inr e ↦ elim (Bool-cases (is_dot_dot w)) [
    | inl f ↦ let (s', run, up) = go_up-Stands outsz s ws v in rw (e, f, run) (s', refl, up)
    | inr f ↦ elim (Bool-cases (leb path_max_comps (length ws))) [
      | inl full ↦ rw (e, f, full) (append-full outsz w s ws v full)
      | inr few ↦ elim (Bool-cases (ltb outsz (length (text (w ∷ ws)) + 1))) [
        | inl long ↦ rw (e, f, few, long) (append-long outsz w s ws v few long)
        | inr fits ↦ rw (e, f, few, fits) (append-Stands outsz w s ws v real few fits)
      ]
    ]
  ]
]

-- A whole walk, on the stack.
unfoldable pub apply_all : ℕ → List Chars → List Chars → Option (List Chars)
apply_all outsz [] ws = some ws
apply_all outsz (u ∷ us) ws = apply outsz u ws >>= λ vs. apply_all outsz us vs

pub real-component : (c : ℕ) (q : Chars) → (c == slash) ≡ false → 1 ≤ length (component (c ∷ q)).0
unfolding component
real-component c q e = rw e (omega arith)

-- The walks of the strings that are left.
abbrev pub Walks : ℕ → ℕ → Type 0
Walks n outsz =
    (q : Chars) (s : Canon) (ws : List Chars)
    → Stands outsz s ws
    → length q < n
    → Result outsz (apply_all outsz (words q) ws) (walk n outsz q s)

pub and_then-Result :
    (n outsz : ℕ) (q : Chars) (o : Option (List Chars)) (r : Option Status)
    → Walks n outsz
    → length q < n
    → Result outsz o r
    → Result outsz (o >>= λ vs. apply_all outsz (words q) vs) (and_then r (λ s'. walk n outsz q s'))
and_then-Result n outsz q none r more short h = rw h refl
and_then-Result n outsz q (some vs) r more short (s', run, u) = rw run (more q s' vs u short)

pub walk-step :
    (n outsz : ℕ) (p q : Chars) (s : Canon) (ws : List Chars)
    → Walks n outsz
    → Stands outsz s ws
    → length p < suc n
    → skip_separators p ≡ q
    → Result outsz (apply_all outsz (words q) ws) (walk (suc n) outsz p s)
unfolding walk apply_all
walk-step n outsz p [] s ws more v enough e = rw (e, words_empty) (s, refl, v)
walk-step n outsz p (c ∷ q) s ws more v enough e =
    let out = skip-first p c q e in
    let (w, rest) = component (c ∷ q) in
    let short : length rest < n =
      omega (arith, length-component c q out, length-skip p, ap length e) in
    rw (e, words-component c q out)
      (and_then-Result n outsz rest (apply outsz w ws) (visit outsz w s) more short
        (visit-Result outsz w s ws v (real-component c q out)))

pub walk-Result : (n outsz : ℕ) → Walks n outsz
walk-Result zero outsz p s ws v enough = absurd (omega arith)
walk-Result (suc n) outsz p s ws v enough =
    subst (λ l. Result outsz (apply_all outsz l ws) (walk (suc n) outsz p s)) (words-skip p)
      (walk-step n outsz p (skip_separators p) s ws (walk-Result n outsz) v enough refl)
