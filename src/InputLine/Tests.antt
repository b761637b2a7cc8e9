-- ===== src/InputLine/Tests.antt =====
-- Runs of kernel/input_line.c, and the theorems at concrete inputs.
use makh.Prelude.{
  ℕ, ◌-◌, ◌<◌, ◌≡◌, ◌≢◌, refl, true, Option, none, some, [], ◌∷◌, ◌++◌, length, replicate, List,
  zero, suc, get_or, if◌then◌else◌, arith,
}
use makh.InputLine.{
  Editor, ◌>>=◌, lower, upper, shift_right, shift_left, copy_out, save_clip, set_length, close_gap,
  sel_delete, put_char, insert, backspace, skip_space_left, skip_word_left, word_start, kill_to_end,
  kill_word_back, yank_from, yank,
}
use makh.InputLine.Arrays.{at, window}
use makh.InputLine.Valid.{IsValid}
use makh.InputLine.Text.{text, before, after, clip_text, backspace-insert}
use makh.InputLine.Kill.{Cut, sel_delete_text}
use makh.InputLine.Yank.{yank_text, yank-kill_to_end}
use makh.InputLine.Keys.{ctrl_y, press}
use makh.InputLine.Safety.{Good, Good-none}
use makh.InputLine.Press.{press-Good, kill_word_back_text}
use makh.InputLine.Stale.{backspace-kill_to_end}
use makh.InputLine.History.{History, history_push, arrow_up, arrow_down}
use makh.InputLine.History.Recall.{
  IsLine, IsHistory, Pushed, Loaded, history_push-Pushed, arrow_up-history_push, arrow-IsValid,
}

-- "ls -l" with the cursor before the dash and "xy" on the clipboard.
abbrev typed : Editor
typed = record {
  buffer = b'l' ∷ b's' ∷ b' ' ∷ b'-' ∷ b'l' ∷ replicate 251 0;
  len = 5;
  cursor = 3;
  sel = none;
  clip = b'x' ∷ b'y' ∷ replicate 254 0;
  clip_len = 2;
}

typed-IsValid : IsValid typed
typed-IsValid = record {
  buffer_size = refl;
  clip_size = refl;
  fits = omega arith;
  within = omega arith;
  terminated = refl;
  clip_fits = omega arith;
}

word_start_runs : word_start typed ≡ some 0
unfolding word_start skip_space_left skip_word_left
word_start_runs = refl

abbrev shown_text : Option Editor → Option (List ℕ)
shown_text none = none
shown_text (some e) = some (text e)

-- With the first two chars selected, the paste shows the chars that the first insertion has put on the
-- clipboard in place of those that were there.
yank_overwritten :
    shown_text (yank (record typed { sel = some (0, 2) }))
    ≡ some (b'x' ∷ b's' ∷ b' ' ∷ b'-' ∷ b'l' ∷ [])
unfolding yank yank_from insert put_char sel_delete save_clip set_length close_gap shift_right
    shift_left copy_out window
yank_overwritten = refl

press-Good_example : (e' : Editor) × (press ctrl_y typed ≡ some e') × Good e'
press-Good_example = press-Good ctrl_y typed (Good-none typed-IsValid refl) (λ q. refl)

kill_word_back_text_here :
    (i : ℕ) × (i < 3)
    × (word_start typed ≡ some i)
    × ((e' : Editor) × (kill_word_back typed ≡ some e') × Cut i (3 - i) typed e')
kill_word_back_text_here = kill_word_back_text typed typed-IsValid (omega arith)

abbrev half_selected : Editor
half_selected = record typed { cursor = 1; sel = some (5, 1) }

half_selected-IsValid : IsValid half_selected
half_selected-IsValid = record {
  buffer_size = refl;
  clip_size = refl;
  fits = omega arith;
  within = omega arith;
  terminated = refl;
  clip_fits = omega arith;
}

backspace-kill_to_end_example : (kill_to_end half_selected >>= backspace) ≡ none
backspace-kill_to_end_example =
    backspace-kill_to_end half_selected half_selected-IsValid refl (omega arith)

sel_delete_text_here :
    (e' : Editor) × (sel_delete half_selected ≡ some e')
    × IsValid e'
    × (e'.sel ≡ none)
    × (before e' ≡ window half_selected.buffer 0 (lower 5 1))
    × (after e' ≡ window half_selected.buffer (upper 5 1) (5 - upper 5 1))
    × (clip_text e' ≡ window half_selected.buffer (lower 5 1) (upper 5 1 - lower 5 1))
sel_delete_text_here =
    sel_delete_text half_selected 5 1 half_selected-IsValid refl (omega arith) (omega arith)

backspace-insert_here :
    (e' : Editor) × ((insert b'a' typed >>= backspace) ≡ some e')
    × (before e' ≡ before typed)
    × (after e' ≡ after typed)
backspace-insert_here = backspace-insert b'a' typed typed-IsValid refl (omega arith)

yank_text_here :
    (e' : Editor) × (yank typed ≡ some e')
    × IsValid e'
    × (before e' ≡ before typed ++ clip_text typed)
    × (after e' ≡ after typed)
yank_text_here = yank_text typed typed-IsValid refl (omega arith)

yank-kill_to_end_here :
    (e' : Editor) × ((kill_to_end typed >>= yank) ≡ some e') × (text e' ≡ text typed)
yank-kill_to_end_here = yank-kill_to_end typed typed-IsValid refl (omega arith)

abbrev no_lines : History
no_lines = record { entries = replicate 50 (replicate 256 0); count = 0; current = 0 }

full_rows : (n i : ℕ) → i < n → length {A = ℕ} (get_or (replicate n (replicate 256 0)) i []) ≡ 256
full_rows zero i h = absurd (omega arith)
full_rows (suc n) zero h = refl
full_rows (suc n) (suc i) h = full_rows n i (omega arith)

no_lines-IsHistory : IsHistory no_lines
no_lines-IsHistory = record {
  rows = refl;
  sizes = λ i h. full_rows 50 i h;
  lines = λ i h. absurd (omega arith);
  fits = omega arith;
  within = omega arith;
}

typed-IsLine : IsLine 5 typed.buffer
typed-IsLine = record { size = refl; fits = omega arith; terminated = refl; chars = nonzero }
  where
    nonzero : (j : ℕ) → j < 5 → at typed.buffer j ≢ 0
    nonzero zero h z = absurd (omega arith)
    nonzero (suc zero) h z = absurd (omega arith)
    nonzero (suc (suc zero)) h z = absurd (omega arith)
    nonzero (suc (suc (suc zero))) h z = absurd (omega arith)
    nonzero (suc (suc (suc (suc zero)))) h z = absurd (omega arith)
    nonzero (suc (suc (suc (suc (suc j))))) h z = absurd (omega arith)

history_push-Pushed_here :
    (h' : History) × (history_push typed.buffer no_lines ≡ some h')
    × Pushed 5 typed.buffer no_lines h'
history_push-Pushed_here =
    history_push-Pushed 5 typed.buffer no_lines typed-IsLine no_lines-IsHistory

arrow_up-history_push_example :
    (e' : Editor) × (h' : History) × ((history_push typed.buffer no_lines
        >>= arrow_up half_selected)
      ≡ some (e', h'))
    × IsHistory h'
    × Loaded 5 typed.buffer e'
arrow_up-history_push_example =
    arrow_up-history_push 5 typed.buffer no_lines half_selected typed-IsLine no_lines-IsHistory
      half_selected-IsValid

arrow-IsValid_here :
    (e' : Editor) × (h' : History) × ((if true
        then arrow_down typed no_lines
        else arrow_up typed no_lines)
      ≡ some (e', h'))
    × IsValid e'
    × IsHistory h'
arrow-IsValid_here = arrow-IsValid true typed no_lines typed-IsValid no_lines-IsHistory
