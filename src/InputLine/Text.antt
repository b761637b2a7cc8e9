-- ===== src/InputLine/Text.antt =====
-- kernel/input_line.c: the editing functions on the text before and after the cursor.
use mathlib.Core.Path.{ap₂}
use makh.Prelude.{
  ℕ, ◌+◌, ◌-◌, ◌≤◌, ◌<◌, ◌≡◌, refl, sym, ◌∙◌, ap, none, some, List, [], ◌∷◌, ◌++◌, length,
  length-append, arith,
}
use makh.InputLine.{Editor, ◌>>=◌, put_char, insert, backspace, delete}
use makh.InputLine.Arrays.{
  at, window, length-window, window-same, window-split, window_snoc, window_cons,
}
use makh.InputLine.Valid.{IsValid, SameClip, Closed, close_gap-some, Placed, put_char-some}

abbrev pub before : Editor → List ℕ
before e = window e.buffer 0 e.cursor

abbrev pub after : Editor → List ℕ
after e = window e.buffer e.cursor (e.len - e.cursor)

abbrev pub text : Editor → List ℕ
text e = window e.buffer 0 e.len

abbrev pub clip_text : Editor → List ℕ
clip_text e = window e.clip 0 e.clip_len

pub before-append-after : (e : Editor) → IsValid e → before e ++ after e ≡ text e
before-append-after e v =
    sym (
      window-split e.buffer 0 e.cursor (e.len - e.cursor) e.cursor e.len (omega arith)
        (omega arith))

module _ (c : ℕ) {e e' : Editor} (v : IsValid e) (p : Placed c e e') where
  pub before-Placed : before e' ≡ before e ++ (c ∷ [])
  before-Placed =
      window_snoc e'.buffer 0 e.cursor e.cursor e'.cursor (omega arith) (omega (arith, p.cursor))
      ∙ ap₂ (λ l (x : ℕ). l ++ (x ∷ []))
          (window-same e'.buffer e.buffer 0 0 e.cursor (λ k h. ground (arith, p.chars k)))
          (ground (arith, p.chars e.cursor))

  pub after-Placed : after e' ≡ after e
  after-Placed =
      let rest : e'.len - e'.cursor ≡ e.len - e.cursor = omega arith in
      rw rest (
        window-same e'.buffer e.buffer e'.cursor e.cursor (e.len - e.cursor)
          (λ k h. ground (arith, p.chars (e'.cursor + k), ap (at e.buffer) (shifted k))))
    where
      shifted : (k : ℕ) → e'.cursor + k - 1 ≡ e.cursor + k
      shifted k = omega (arith, p.cursor)

module _ {from k cur : ℕ} {e e' : Editor} (v : IsValid e) (room : from + k ≤ e.len)
    (c : Closed from k cur e e') where
  -- the chars before the gap stay, those behind it move up
  pub window_before_gap : (n : ℕ) → n ≤ from → window e'.buffer 0 n ≡ window e.buffer 0 n
  window_before_gap n h = window-same e'.buffer e.buffer 0 0 n (λ j lt. ground (arith, c.chars j))

  pub window_behind_gap :
      (i n : ℕ) → from ≤ i → i + n ≤ e.len - k → window e'.buffer i n ≡ window e.buffer (i + k) n
  window_behind_gap i n h fits =
      window-same e'.buffer e.buffer i (i + k) n
        (λ j lt. ground (arith, c.chars (i + j), ap (at e.buffer) (moved j)))
    where
      moved : (j : ℕ) → i + j + k ≡ i + k + j
      moved j = omega arith

module _ {from k : ℕ} {e e' : Editor} (v : IsValid e) (room : from + k ≤ e.len)
    (c : Closed from k from e e') where
  pub before-Closed : before e' ≡ window e.buffer 0 from
  before-Closed = ap (window e'.buffer 0) c.cursor ∙ window_before_gap v room c from (omega arith)

  pub after-Closed : after e' ≡ window e.buffer (from + k) (e.len - k - from)
  after-Closed =
      ap₂ (window e'.buffer) c.cursor (omega (arith, c.cursor, c.len))
      ∙ window_behind_gap v room c from (e.len - k - from) (omega arith) (omega arith)

insert_unselected : (c : ℕ) (e : Editor) → e.sel ≡ none → insert c e ≡ put_char c e
unfolding insert
insert_unselected c e u = ground arith

-- `input_line_insert` with nothing selected and room in the line: the char goes before the cursor, and
-- the text behind it stays.
pub insert_text :
    (c : ℕ) (e : Editor)
    → IsValid e
    → e.sel ≡ none
    → e.len < 255
    → (e' : Editor) × (insert c e ≡ some e')
      × IsValid e'
      × (before e' ≡ before e ++ (c ∷ []))
      × (after e' ≡ after e)
      × SameClip e e'
      × (e'.len ≡ e.len + 1)
insert_text c e v unselected room =
    let (e', run, p) = put_char-some c e v room in
    (
      e',
      insert_unselected c e unselected ∙ run,
      p.valid,
      before-Placed c v p,
      after-Placed c v p,
      p.others,
      p.len,
    )

-- `input_line_backspace` with nothing selected takes the char before the cursor away.
pub backspace_text :
    (e : Editor)
    → IsValid e
    → e.sel ≡ none
    → 0 < e.cursor
    → (e' : Editor) × (backspace e ≡ some e')
      × IsValid e'
      × (before e ≡ before e' ++ (at e.buffer (e.cursor - 1) ∷ []))
      × (after e' ≡ after e)
      × SameClip e e'
unfolding backspace
backspace_text e v unselected some_left =
    let room : e.cursor - 1 + 1 ≤ e.len = omega arith in
    let (e', run, c) = close_gap-some (e.cursor - 1) 1 (e.cursor - 1) e v room (omega arith) in
    (
      e',
      ground arith,
      c.valid,
      window_snoc e.buffer 0 (e.cursor - 1) (e.cursor - 1) e.cursor (omega arith) (omega arith)
          ∙ ap (λ l. l ++ (at e.buffer (e.cursor - 1) ∷ [])) (sym (before-Closed v room c)),
      after-Closed v room c ∙ ap₂ (window e.buffer) (omega arith) (omega arith),
      c.others,
    )

-- `input_line_delete` with nothing selected takes the char behind the cursor away.
pub delete_text :
    (e : Editor)
    → IsValid e
    → e.sel ≡ none
    → e.cursor < e.len
    → (e' : Editor) × (delete e ≡ some e')
      × IsValid e'
      × (before e' ≡ before e)
      × (after e ≡ at e.buffer e.cursor ∷ after e')
      × SameClip e e'
unfolding delete
delete_text e v unselected some_right =
    let room : e.cursor + 1 ≤ e.len = omega arith in
    let (e', run, c) = close_gap-some e.cursor 1 e.cursor e v room (omega arith) in
    (
      e',
      ground arith,
      c.valid,
      before-Closed v room c,
      window_cons e.buffer e.cursor (e.len - 1 - e.cursor) (e.len - e.cursor) (omega arith)
          ∙ ap (λ l. at e.buffer e.cursor ∷ l) (sym (after-Closed v room c)),
      c.others,
    )

snoc_injective : (xs ys : List ℕ) (x y : ℕ) → xs ++ (x ∷ []) ≡ ys ++ (y ∷ []) → xs ≡ ys
snoc_injective [] [] x y e = refl
snoc_injective [] (b ∷ ys) x y e = absurd (omega (arith, ap length e, length-append ys (y ∷ [])))
snoc_injective (a ∷ xs) [] x y e = absurd (omega (arith, ap length e, length-append xs (x ∷ [])))
snoc_injective (a ∷ xs) (b ∷ ys) x y e =
    let tails : xs ++ (x ∷ []) ≡ ys ++ (y ∷ []) = cc e in
    ap₂ ◌∷◌ (cc e) (snoc_injective xs ys x y tails)

-- In a valid editor with nothing selected and room for a char, an insertion is undone by a backspace:
-- the text before and after the cursor is as it was.
pub backspace-insert :
    (c : ℕ) (e : Editor)
    → IsValid e
    → e.sel ≡ none
    → e.len < 255
    → (e' : Editor) × ((insert c e >>= backspace) ≡ some e')
      × (before e' ≡ before e)
      × (after e' ≡ after e)
backspace-insert c e v unselected room =
    let (p, run, p_valid, p_before, p_after, p_same, _) = insert_text c e v unselected room in
    let moved : 0 < p.cursor = omega (
      arith,
      ap length p_before,
      length-window p.buffer 0 p.cursor,
      length-append (before e) (c ∷ []),
    ) in
    let (q, run', _, q_before, q_after, _) =
      backspace_text p p_valid (p_same.sel ∙ unselected) moved in
    (
      q,
      ap (λ r. r >>= backspace) run ∙ run',
      snoc_injective (before q) (before e) _ c (sym q_before ∙ p_before),
      q_after ∙ p_after,
    )
