-- ===== src/InputLine/History.antt =====
-- kernel/input_line.c, kernel/kernel.c: the history of the lines that were run, and the keys that walk it.
pub mod Recall
use makh.Prelude.{
  ℕ, zero, suc, ◌+◌, ◌-◌, Option, none, some, List, [], length, get_or, set, replicate, ltb, leb,
  ◌==◌, if◌then◌else◌,
}
use makh.InputLine.{Editor, input_line_max, ◌>>=◌, load, store, init}

abbrev pub input_history_max : ℕ
input_history_max = 50

-- `input_history_t`
pub record History : Type 0 where
  pub entries : List (List ℕ)
  pub count : ℕ
  pub current : ℕ

abbrev pub row : List (List ℕ) → ℕ → List ℕ
row rows i = get_or rows i []

pub history_init : History → History
history_init h = record {
  entries = replicate input_history_max (replicate input_line_max 0);
  count = 0;
  current = 0;
}

-- `while (line[i] && i < INPUT_LINE_MAX - 1) { to[i] = line[i]; i++; }`, on the rounds left; with the `i`
-- it ends at
pub copy_line : ℕ → ℕ → List ℕ → List ℕ → Option (List ℕ × ℕ)
copy_line zero i line to = load line i >>= λ c. some (to, i)
copy_line (suc n) i line to = load line i >>= λ c.
    if c == 0 then some (to, i) else (store to i c >>= λ to'. copy_line n (i + 1) line to')

-- The copy with its terminator, and the length.
pub copy_terminated : List ℕ → List ℕ → Option (List ℕ × ℕ)
copy_terminated line to = do
  (to', i) ← copy_line (input_line_max - 1) 0 line to
  to'' ← store to' i 0
  some (to'', i)

-- `for (i = from; i < from + n; i++) entries[i] = entries[i + 1];`, the inner loop over the chars of a row
-- as one step
pub shift_rows : ℕ → ℕ → List (List ℕ) → List (List ℕ)
shift_rows from zero rows = rows
shift_rows from (suc n) rows = shift_rows (from + 1) n (set rows from (row rows (from + 1)))

-- the part of `input_history_push` that makes room
pub make_room : History → History
make_room h =
    if leb input_history_max h.count
    then record h {
      entries = shift_rows 0 (input_history_max - 1) h.entries;
      count = input_history_max - 1;
    }
    else h

pub history_push : List ℕ → History → Option History
history_push line h =
    let r = make_room h in
    if ltb r.count (length r.entries)
    then (do
      (entry, i) ← copy_terminated line (row r.entries r.count)
      some (record {
        entries = set r.entries r.count entry;
        count = r.count + 1;
        current = r.count + 1;
      }))
    else none

-- The pointer that `input_history_prev` returns is the number of a row, and `none` is NULL.
pub history_prev : History → Option ℕ × History
history_prev h =
    if ltb 0 h.current
    then (some (h.current - 1), record h { current = h.current - 1 })
    else (none, h)

-- With no entry at all, `count - 1` is negative in the source and 0 here: `current` is below neither.
pub history_next : History → Option ℕ × History
history_next h =
    if ltb h.current (h.count - 1)
    then (some (h.current + 1), record h { current = h.current + 1 })
    else (none, record h { current = h.count })

pub history_load : List ℕ → Editor → Option Editor
history_load entry e = do
  let fresh = init e
  (buffer, i) ← copy_terminated entry fresh.buffer
  some (record fresh { buffer = buffer; len = i; cursor = i })

-- What the main loop makes of the row that a pointer names, or of NULL.
abbrev pub shown : List (List ℕ) → Option ℕ → Editor → Editor → Option Editor
shown rows none if_null e = some if_null
shown rows (some i) if_null e = history_load (row rows i) e

abbrev pub with_history : History → Option Editor → Option (Editor × History)
with_history h e = e >>= λ e'. some (e', h)

-- The keys Up and Down of the main loop.
pub arrow_up : Editor → History → Option (Editor × History)
arrow_up e h = let (i, h') = history_prev h in with_history h' (shown h.entries i e e)

pub arrow_down : Editor → History → Option (Editor × History)
arrow_down e h = let (i, h') = history_next h in with_history h' (shown h.entries i (init e) e)
