-- ===== src/InputLine/Safety.antt =====
-- kernel/input_line.c, kernel/kernel.c: no key reads or writes outside the arrays.
use makh.Prelude.{
  ℕ, zero, suc, ◌+◌, ◌-◌, ◌≤◌, ◌<◌, ◌≡◌, ◌≢◌, refl, sym, ◌∙◌, Bool, not, Option, none, some, List,
  length, ◌==◌, if◌then◌else◌, arith, dec_lt, Option-cases, subst, inl, inr, Bool-cases,
}
use makh.InputLine.{
  Editor, skip_space_left, skip_word_left, skip_right, word_start, sel_delete, put_char, insert,
}
use makh.InputLine.Arrays.{at}
use makh.InputLine.Valid.{IsValid, SelWithin, put_char-some, put_char_full}
use makh.InputLine.Kill.{sel_delete_text}

skip_space_left-some :
    (a : List ℕ) (i : ℕ) → i < length a → (r : ℕ) × (skip_space_left a i ≡ some r) × (r ≤ i)
unfolding skip_space_left
skip_space_left-some a zero h = (0, refl, omega arith)
skip_space_left-some a (suc i) h =
    let (r, run, below) = skip_space_left-some a i (omega arith) in
    elim (Bool-cases (at a (suc i) == b' ')) [
      | inl space ↦ (r, ground arith, omega arith)
      | inr other ↦ (suc i, ground arith, omega arith)
    ]

skip_word_left-some :
    (a : List ℕ) (i : ℕ) → i ≤ length a → (r : ℕ) × (skip_word_left a i ≡ some r) × (r ≤ i)
unfolding skip_word_left
skip_word_left-some a zero h = (0, refl, omega arith)
skip_word_left-some a (suc i) h =
    let (r, run, below) = skip_word_left-some a i (omega arith) in
    elim (Bool-cases (at a i == b' ')) [
      | inl space ↦ (suc i, ground arith, omega arith)
      | inr other ↦ (r, ground arith, omega arith)
    ]

pub skip_right-some :
    (space : Bool) (a : List ℕ) (n i : ℕ)
    → i + n ≤ length a
    → (r : ℕ) × (skip_right space a n i ≡ some r) × (i ≤ r) × (r ≤ i + n)
unfolding skip_right
skip_right-some space a zero i h = (i, refl, omega arith, omega arith)
skip_right-some space a (suc n) i h =
    let (r, run, above, below) = skip_right-some space a n (i + 1) (omega arith) in
    elim (Bool-cases (if space then at a i == b' ' else not (at a i == b' '))) [
      | inl goes_on ↦ (r, ground arith, omega arith, omega arith)
      | inr stops ↦ (i, ground arith, omega arith, omega arith)
    ]

pub word_start-some :
    (e : Editor) → IsValid e → 0 < e.cursor → (r : ℕ) × (word_start e ≡ some r) × (r < e.cursor)
unfolding word_start
word_start-some e v left =
    let (i, run, below) =
      skip_space_left-some e.buffer (e.cursor - 1) (omega (arith, v.buffer_size)) in
    let (r, run', below') = skip_word_left-some e.buffer i (omega (arith, v.buffer_size)) in
    (r, ground arith, omega arith)

-- An operation's outcome: no fault, and the invariant with the selection in the text.
pub record Good (e : Editor) : Type 0 where
  pub valid : IsValid e
  pub selection : SelWithin e.sel e.len

abbrev pub Safe : Option Editor → Type 0
Safe out = (e' : Editor) × (out ≡ some e') × Good e'

pub moved :
    (e : Editor) (cur : ℕ) → IsValid e → cur ≤ e.len → Good (record e { sel = none; cursor = cur })
moved e cur v h = record {
  valid = record {
    buffer_size = v.buffer_size;
    clip_size = v.clip_size;
    fits = v.fits;
    within = h;
    terminated = v.terminated;
    clip_fits = v.clip_fits;
  };
  selection = tt;
}

pub Good-none : {e : Editor} → IsValid e → e.sel ≡ none → Good e
Good-none {e} v u = record { valid = v; selection = subst (λ s. SelWithin s e.len) (sym u) tt }

pub sel_delete-Safe :
    (e : Editor)
    → Good e
    → e.sel ≢ none
    → (e' : Editor) × (sel_delete e ≡ some e') × IsValid e' × (e'.sel ≡ none)
sel_delete-Safe e g selected = elim (Option-cases e.sel) [
  | inl nothing ↦ absurd (selected nothing)
  | inr ((a, b), some_ab) ↦
      let (ha, hb) = subst (λ s. SelWithin s e.len) some_ab g.selection in
      let (e', run, v, u, _, _, _) = sel_delete_text e a b g.valid some_ab ha hb in (e', run, v, u)
]

put_char-Safe :
    (c : ℕ) (e : Editor)
    → IsValid e
    → e.sel ≡ none
    → (e' : Editor) × (put_char c e ≡ some e') × IsValid e' × (e'.sel ≡ none)
put_char-Safe c e v u = elim (dec_lt e.len 255) [
  | yes room ↦ let (e', run, p) = put_char-some c e v room in (e', run, p.valid, p.others.sel ∙ u)
  | no full ↦ (e, put_char_full c e (omega arith), v, u)
]

pub insert-Safe :
    (c : ℕ) (e : Editor)
    → Good e
    → (e' : Editor) × (insert c e ≡ some e') × IsValid e' × (e'.sel ≡ none)
unfolding insert
insert-Safe c e g = elim (Option-cases e.sel) [
  | inl nothing ↦
      let (e', run, v, u) = put_char-Safe c e g.valid nothing in (e', ground arith, v, u)
  | inr (ab, selected) ↦
      let (d, cut, dv, du) = sel_delete-Safe e g (λ n. cc) in
      let (e', run, v, u) = put_char-Safe c d dv du in (e', ground arith, v, u)
]
