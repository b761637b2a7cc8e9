-- ===== src/InputLine/Press.antt =====
-- kernel/kernel.c: whatever key is pressed, the editor stays inside its arrays.
use makh.Prelude.{
  ℕ, zero, suc, ◌+◌, ◌-◌, ◌≤◌, ◌<◌, ◌≡◌, refl, ◌∙◌, inl, inr, true, Option, none, some, ltb,
  if◌then◌else◌, arith, dec_lt, ℕ_discrete, Option-cases, Bool-cases,
}
use makh.InputLine.{
  Editor, word_start, backspace, delete, move_left, move_right, move_home, move_end, kill_to_end,
  kill_to_start, kill_word_back, yank_from, yank, extend_from, sel_extend_left, sel_extend_right,
}
use makh.InputLine.Arrays.{at}
use makh.InputLine.Valid.{IsValid, SelWithin}
use makh.InputLine.Text.{backspace_text, delete_text}
use makh.InputLine.Kill.{Cut, Cut-some, kill_to_start_text, kill_to_end_text}
use makh.InputLine.Safety.{
  Good, Safe, Good-none, moved, word_start-some, sel_delete-Safe, insert-Safe,
}
use makh.InputLine.Keys.{
  Key, printable, erase, delete_key, arrow_left, arrow_right, select_left, select_right, ctrl_a,
  ctrl_e, ctrl_k, ctrl_u, ctrl_w, ctrl_y, ctrl_l, press, is_kill,
}

backspace-Safe : (e : Editor) → Good e → Safe (backspace e)
unfolding backspace
backspace-Safe e g = elim (Option-cases e.sel) [
  | inr (ab, selected) ↦
      let (d, cut, v, u) = sel_delete-Safe e g (λ n. cc) in (d, ground arith, Good-none v u)
  | inl nothing ↦ elim (ℕ_discrete e.cursor 0) [
    | yes at_start ↦ (e, ground arith, g)
    | no inside ↦
        let (d, run, v, _, _, same) = backspace_text e g.valid nothing (omega arith) in
        (d, unfold backspace in run, Good-none v (same.sel ∙ nothing))
  ]
]

delete-Safe : (e : Editor) → Good e → Safe (delete e)
unfolding delete
delete-Safe e g = elim (Option-cases e.sel) [
  | inr (ab, selected) ↦
      let (d, cut, v, u) = sel_delete-Safe e g (λ n. cc) in (d, ground arith, Good-none v u)
  | inl nothing ↦ elim (dec_lt e.cursor e.len) [
    | no at_end ↦ (e, ground arith, g)
    | yes inside ↦
        let (d, run, v, _, _, same) = delete_text e g.valid nothing inside in
        (d, run, Good-none v (same.sel ∙ nothing))
  ]
]

kill_to_end-Safe : (e : Editor) → Good e → e.sel ≡ none → Safe (kill_to_end e)
unfolding kill_to_end
kill_to_end-Safe e g u = elim (dec_lt e.cursor e.len) [
  | no at_end ↦ (e, ground arith, g)
  | yes inside ↦
      let (d, run, v, _, _, _, same, _, _) = kill_to_end_text e g.valid inside in
      (d, run, Good-none v (same ∙ u))
]

kill_to_start-Safe : (e : Editor) → Good e → e.sel ≡ none → Safe (kill_to_start e)
unfolding kill_to_start
kill_to_start-Safe e g u = elim (ℕ_discrete e.cursor 0) [
  | yes at_start ↦ (e, ground arith, g)
  | no inside ↦
      let (d, run, v, _, _, _, same) = kill_to_start_text e g.valid (omega arith) in
      (d, run, Good-none v (same ∙ u))
]

-- `input_line_kill_word_back` with the cursor behind some text cuts a non-empty run of chars that ends at
-- the cursor.
pub kill_word_back_text :
    (e : Editor)
    → IsValid e
    → 0 < e.cursor
    → (i : ℕ) × (i < e.cursor)
      × (word_start e ≡ some i)
      × ((e' : Editor) × (kill_word_back e ≡ some e') × Cut i (e.cursor - i) e e')
unfolding kill_word_back
kill_word_back_text e v left =
    let (i, found, below) = word_start-some e v left in
    let (d, run, c) = Cut-some i (e.cursor - i) e v (omega arith) in
    (i, below, found, (d, ground arith, c))

kill_word_back-Safe : (e : Editor) → Good e → e.sel ≡ none → Safe (kill_word_back e)
unfolding kill_word_back
kill_word_back-Safe e g u = elim (ℕ_discrete e.cursor 0) [
  | yes at_start ↦ (e, ground arith, g)
  | no inside ↦
      let (i, _, _, (d, run, c)) = kill_word_back_text e g.valid (omega arith) in
      (d, run, Good-none c.valid (c.sel ∙ u))
]

-- At most 255 chars are on the clipboard in every round, so 256 rounds end the loop.
yank_from-Safe :
    (fuel start : ℕ) (e : Editor)
    → Good e
    → start < 256
    → 256 ≤ start + fuel
    → Safe (yank_from fuel start e)
unfolding yank_from
yank_from-Safe zero start e g low enough = absurd (omega arith)
yank_from-Safe (suc fuel) start e g low enough = elim (dec_lt start e.clip_len) [
  | no done ↦ (e, ground arith, g)
  | yes more ↦
      let short : e.clip_len < 256 = g.valid.clip_fits in
      let size = g.valid.clip_size in
      let (p, run, v, u) = insert-Safe (at e.clip start) e g in
      let (e', run', g') =
        yank_from-Safe fuel (start + 1) p (Good-none v u) (omega arith) (omega arith) in
      (e', ground arith, g')
]

-- `input_line_yank` with any selection and any clipboard ends within the 256 rounds.
yank-Safe : (e : Editor) → Good e → Safe (yank e)
unfolding yank
yank-Safe e g = yank_from-Safe 256 0 e g (omega arith) (omega arith)

reselected :
    (e : Editor) (a b cur : ℕ)
    → IsValid e
    → a ≤ e.len
    → b ≤ e.len
    → cur ≤ e.len
    → Good (record e { sel = some (a, b); cursor = cur })
reselected e a b cur v ha hb h = record {
  valid = record {
    buffer_size = v.buffer_size;
    clip_size = v.clip_size;
    fits = v.fits;
    within = h;
    terminated = v.terminated;
    clip_fits = v.clip_fits;
  };
  selection = (ha, hb);
}

extend_from-within :
    (sel : Option (ℕ × ℕ)) (cursor n : ℕ)
    → SelWithin sel n
    → cursor ≤ n
    → SelWithin (some (extend_from sel cursor)) n
extend_from-within none cursor n s h = (h, h)
extend_from-within (some ab) cursor n s h = s

extend_left-Good : (e : Editor) → Good e → Good (sel_extend_left e)
unfolding sel_extend_left
extend_left-Good e g =
    let h = g.valid.within in
    let (ha, hb) = extend_from-within e.sel e.cursor e.len g.selection h in
    elim (Bool-cases (ltb 0 e.cursor)) [
      | inl t ↦ rw t (reselected e _ _ _ g.valid ha (omega arith) (omega arith))
      | inr f ↦ rw f (reselected e _ _ _ g.valid ha hb h)
    ]

extend_right-Good : (e : Editor) → Good e → Good (sel_extend_right e)
unfolding sel_extend_right
extend_right-Good e g =
    let h = g.valid.within in
    let (ha, hb) = extend_from-within e.sel e.cursor e.len g.selection h in
    elim (Bool-cases (ltb e.cursor e.len)) [
      | inl t ↦ rw t (reselected e _ _ _ g.valid ha (ground arith) (ground arith))
      | inr f ↦ rw f (reselected e _ _ _ g.valid ha hb h)
    ]

-- No key makes the editor read or write outside its arrays, from any state that satisfies the invariant
-- with the selection inside the text, and the key leaves such a state; the three kill keys are included
-- where nothing is selected.
pub press-Good :
    (k : Key) (e : Editor)
    → Good e
    → (is_kill k ≡ true → e.sel ≡ none)
    → (e' : Editor) × (press k e ≡ some e') × Good e'
unfolding press move_left move_right move_home move_end
press-Good (printable c) e g u =
    let (e', run, v, none_left) = insert-Safe c e g in (e', run, Good-none v none_left)
press-Good erase e g u = backspace-Safe e g
press-Good delete_key e g u = delete-Safe e g
press-Good arrow_left e g u =
    (_, refl, moved e (e.cursor - 1) g.valid (omega (arith, g.valid.within)))
press-Good arrow_right e g u = (
  _,
  refl,
  moved e (if ltb e.cursor e.len then e.cursor + 1 else e.cursor) g.valid (ground (arith, g.valid)),
)
press-Good select_left e g u = (_, refl, extend_left-Good e g)
press-Good select_right e g u = (_, refl, extend_right-Good e g)
press-Good ctrl_a e g u = (_, refl, moved e 0 g.valid (omega arith))
press-Good ctrl_e e g u = (_, refl, moved e e.len g.valid (omega arith))
press-Good ctrl_k e g u = kill_to_end-Safe e g (u refl)
press-Good ctrl_u e g u = kill_to_start-Safe e g (u refl)
press-Good ctrl_w e g u = kill_word_back-Safe e g (u refl)
press-Good ctrl_y e g u = yank-Safe e g
press-Good ctrl_l e g u = (e, refl, g)
