-- ===== src/InputLine/Keys.antt =====
-- kernel/kernel.c: the keys of the console's main loop that edit the line. The keys of the history are in
-- `History`; Enter runs the line.
use makh.Prelude.{ℕ, Bool, true, false, Option, some}
use makh.InputLine.{
  Editor, insert, backspace, delete, move_left, move_right, move_home, move_end, kill_to_end,
  kill_to_start, kill_word_back, yank, sel_extend_left, sel_extend_right,
}

pub data Key : Type 0 where
  printable : ℕ → Key
  erase delete_key arrow_left arrow_right select_left select_right : Key
  ctrl_a ctrl_e ctrl_k ctrl_u ctrl_w ctrl_y ctrl_l : Key

-- The branch of the loop that the key takes; Ctrl+L clears the screen and leaves the line alone.
unfoldable pub press : Key → Editor → Option Editor
press (printable c) e = insert c e
press erase e = backspace e
press delete_key e = delete e
press arrow_left e = some (move_left e)
press arrow_right e = some (move_right e)
press select_left e = some (sel_extend_left e)
press select_right e = some (sel_extend_right e)
press ctrl_a e = some (move_home e)
press ctrl_e e = some (move_end e)
press ctrl_k e = kill_to_end e
press ctrl_u e = kill_to_start e
press ctrl_w e = kill_word_back e
press ctrl_y e = yank e
press ctrl_l e = some e

-- The keys whose functions neither use nor clear a selection but shorten the text.
abbrev pub is_kill : Key → Bool
is_kill ctrl_k = true
is_kill ctrl_u = true
is_kill ctrl_w = true
is_kill _ = false
