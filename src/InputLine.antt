-- ===== src/InputLine.antt =====
-- kernel/input_line.c: the line editor of the console, its clipboard and its history.
-- An operation answers `none` where the C code would read or write outside an array.
pub mod Arrays
pub mod Valid
pub mod Text
pub mod Kill
pub mod Yank
pub mod Keys
pub mod Safety
pub mod Press
pub mod Stale
pub mod History
mod Tests
pub use makh.Prelude.Checked.{◌>>=◌, load, store}
use makh.Prelude.{
  ℕ, zero, suc, ◌+◌, ◌-◌, ◌≤◌, ◌<◌, Bool, true, false, not, ◌&&◌, Option, none, some, List, [], ◌∷◌,
  length, get_or, set, replicate, ltb, leb, ◌==◌, if◌then◌else◌,
}

abbrev pub input_line_max : ℕ
input_line_max = 256

abbrev pub input_clipboard_max : ℕ
input_clipboard_max = 256

-- `input_line_t` with the two globals of the clipboard. A negative `sel_start` means that nothing is
-- selected; `sel_start` and `sel_end` are set and cleared together.
pub record Editor : Type 0 where
  pub buffer : List ℕ
  pub len : ℕ
  pub cursor : ℕ
  pub sel : Option (ℕ × ℕ)
  pub clip : List ℕ
  pub clip_len : ℕ

-- `for (i = from + n; i > from; i--) a[i] = a[i - 1];`
pub shift_right : ℕ → ℕ → List ℕ → Option (List ℕ)
shift_right from zero a = some a
shift_right from (suc n) a = do
  c ← load a (from + n)
  a' ← store a (from + n + 1) c
  shift_right from n a'

-- `for (i = from; i < from + n; i++) a[i] = a[i + by];`
pub shift_left : ℕ → ℕ → ℕ → List ℕ → Option (List ℕ)
shift_left by from zero a = some a
shift_left by from (suc n) a = do
  c ← load a (from + by)
  a' ← store a from c
  shift_left by (from + 1) n a'

-- `for (i = at; i < at + n; i++) to[i] = a[from + i];`
pub copy_out : List ℕ → ℕ → ℕ → ℕ → List ℕ → Option (List ℕ)
copy_out a from at zero to = some to
copy_out a from at (suc n) to = do
  c ← load a (from + at)
  to' ← store to at c
  copy_out a from (at + 1) n to'

-- What `input_line_init` leaves in the line; the clipboard is another object.
pub init : Editor → Editor
init e = record e { buffer = replicate input_line_max 0; len = 0; cursor = 0; sel = none }

-- Save `kill_len` characters from `from` on to the clipboard, as every killing function does.
pub save_clip : ℕ → ℕ → Editor → Option Editor
save_clip from kill_len e = do
  let n = if ltb (input_clipboard_max - 1) kill_len then input_clipboard_max - 1 else kill_len
  clip ← copy_out e.buffer from 0 n e.clip
  clip' ← store clip n 0
  some (record e { clip = clip'; clip_len = n })

-- `line->length = n; line->buffer[line->length] = '\0'`
pub set_length : ℕ → Editor → Option Editor
set_length n e = do buffer ← store e.buffer n 0; some (record e { len = n; buffer = buffer })

-- Shift the characters from `from + kill_len` on down to `from`, take `kill_len` off the length, put the
-- cursor at `cur` and terminate. A length below 0 is an index out of the buffer.
pub close_gap : ℕ → ℕ → ℕ → Editor → Option Editor
close_gap from kill_len cur e = if ltb e.len kill_len then none else (do
  buffer ← shift_left kill_len from (e.len - kill_len - from) e.buffer
  set_length (e.len - kill_len) (record e { buffer = buffer; cursor = cur }))

abbrev pub sel_clear : Editor → Editor
sel_clear e = record e { sel = none }

abbrev pub lower : ℕ → ℕ → ℕ
lower a b = if ltb a b then a else b

abbrev pub upper : ℕ → ℕ → ℕ
upper a b = if ltb a b then b else a

abbrev pub delete_between : Option (ℕ × ℕ) → Editor → Option Editor
delete_between none e = some e
delete_between (some (a, b)) e = do
  let kill_len = upper a b - lower a b
  e' ← save_clip (lower a b) kill_len e
  e'' ← close_gap (lower a b) kill_len (lower a b) e'
  some (sel_clear e'')

pub sel_delete : Editor → Option Editor
sel_delete e = delete_between e.sel e

-- the part of `input_line_insert` after the selection is gone
pub put_char : ℕ → Editor → Option Editor
put_char c e = if leb (input_line_max - 1) e.len then some e else (do
  shifted ← shift_right e.cursor (e.len - e.cursor) e.buffer
  buffer ← store shifted e.cursor c
  set_length (e.len + 1) (record e { buffer = buffer; cursor = e.cursor + 1 }))

abbrev pub is_selected : Option (ℕ × ℕ) → Bool
is_selected none = false
is_selected (some _) = true

pub insert : ℕ → Editor → Option Editor
insert c e = do e' ← (if is_selected e.sel then sel_delete e else some e); put_char c e'

pub backspace : Editor → Option Editor
backspace e =
    if is_selected e.sel
    then sel_delete e
    else if e.cursor == 0
    then some e
    else close_gap (e.cursor - 1) 1 (e.cursor - 1) e

pub delete : Editor → Option Editor
delete e =
    if is_selected e.sel
    then sel_delete e
    else if leb e.len e.cursor
    then some e
    else close_gap e.cursor 1 e.cursor e

pub move_left : Editor → Editor
move_left e = record e { sel = none; cursor = e.cursor - 1 }

pub move_right : Editor → Editor
move_right e = record e {
  sel = none;
  cursor = if ltb e.cursor e.len then e.cursor + 1 else e.cursor;
}

pub move_home : Editor → Editor
move_home e = record e { sel = none; cursor = 0 }

pub move_end : Editor → Editor
move_end e = record e { sel = none; cursor = e.len }

-- `while (i > 0 && a[i] == ' ') i--;`
pub skip_space_left : List ℕ → ℕ → Option ℕ
skip_space_left a zero = some 0
skip_space_left a (suc i) =
    let rest = skip_space_left a i in
    load a (suc i) >>= λ c. if c == b' ' then rest else some (suc i)

-- `while (i > 0 && a[i - 1] != ' ') i--;`
pub skip_word_left : List ℕ → ℕ → Option ℕ
skip_word_left a zero = some 0
skip_word_left a (suc i) =
    let rest = skip_word_left a i in load a i >>= λ c. if c == b' ' then some (suc i) else rest

-- `while (i < end && (a[i] == ' ') == space) i++;`, on the rounds left
pub skip_right : Bool → List ℕ → ℕ → ℕ → Option ℕ
skip_right space a zero i = some i
skip_right space a (suc n) i =
    let rest = skip_right space a n (i + 1) in
    load a i >>= λ c. if (if space then c == b' ' else not (c == b' ')) then rest else some i

pub word_start : Editor → Option ℕ
word_start e = do i ← skip_space_left e.buffer (e.cursor - 1); skip_word_left e.buffer i

pub move_word_left : Editor → Option Editor
move_word_left e =
    if e.cursor == 0
    then some (sel_clear e)
    else (do i ← word_start e; some (record e { sel = none; cursor = i }))

pub move_word_right : Editor → Option Editor
move_word_right e = if leb e.len e.cursor then some (sel_clear e) else (do
  i ← skip_right false e.buffer (e.len - e.cursor) e.cursor
  j ← skip_right true e.buffer (e.len - i) i
  some (record e { sel = none; cursor = j }))

pub kill_to_end : Editor → Option Editor
kill_to_end e =
    if leb e.len e.cursor
    then some e
    else (do e' ← save_clip e.cursor (e.len - e.cursor) e; set_length e.cursor e')

pub kill_to_start : Editor → Option Editor
kill_to_start e =
    if e.cursor == 0 then some e else (do e' ← save_clip 0 e.cursor e; close_gap 0 e.cursor 0 e')

pub kill_word_back : Editor → Option Editor
kill_word_back e =
    if e.cursor == 0
    then some e
    else (do i ← word_start e; e' ← save_clip i (e.cursor - i) e; close_gap i (e.cursor - i) i e')

-- `for (i = at; i < input_clipboard_len; i++) input_line_insert(line, input_clipboard[i]);` The
-- clipboard and its length are read anew in each round, after the insertions before it. At most 255
-- characters are on it, so 256 rounds are enough.
pub yank_from : ℕ → ℕ → Editor → Option Editor
yank_from zero at e = none
yank_from (suc fuel) at e =
    let round = load e.clip at >>= λ c. insert c e >>= λ e'. yank_from fuel (at + 1) e' in
    if ltb at e.clip_len then round else some e

pub yank : Editor → Option Editor
yank e = yank_from input_clipboard_max 0 e

abbrev pub extend_from : Option (ℕ × ℕ) → ℕ → ℕ × ℕ
extend_from none cursor = (cursor, cursor)
extend_from (some r) cursor = r

pub sel_extend_left : Editor → Editor
sel_extend_left e =
    let (a, b) = extend_from e.sel e.cursor in
    if ltb 0 e.cursor
    then record e { sel = some (a, e.cursor - 1); cursor = e.cursor - 1 }
    else record e { sel = some (a, b) }

pub sel_extend_right : Editor → Editor
sel_extend_right e =
    let (a, b) = extend_from e.sel e.cursor in
    if ltb e.cursor e.len
    then record e { sel = some (a, e.cursor + 1); cursor = e.cursor + 1 }
    else record e { sel = some (a, b) }
