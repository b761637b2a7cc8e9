-- ===== src/Tty.antt =====
-- kernel/tty/tty.c: the line discipline of the terminal.
-- The first `line_len` bytes of `line` and the first `ready_len` of `ready` are lists. What is echoed leaves
-- no trace; an operation answers the signal that it sends to the foreground group.
pub mod Bounds
pub mod Lines
mod Tests
use makh.Prelude.{
  ℕ, zero, suc, ◌+◌, ◌-◌, ◌%◌, Bool, true, false, not, ◌&&◌, ◌||◌, Option, none, some, List, [],
  ◌∷◌, ◌++◌, length, get_or, set, take, drop, ltb, ◌==◌, if◌then◌else◌,
}

-- `c_lflag` by its three bits, and the entries of `c_cc` in use
pub record Termios : Type 0 where
  pub icanon : Bool
  pub echo : Bool
  pub isig : Bool
  pub vintr : ℕ
  pub vquit : ℕ
  pub verase : ℕ
  pub veof : ℕ
  pub vsusp : ℕ

-- The file-scope variables besides the wait queue.
pub record Tty : Type 0 where
  pub termios : Termios
  pub fg_pgid : ℕ
  pub line : List ℕ
  pub ready : List ℕ
  pub ready_has : Bool
  pub ready_eof : Bool
  pub raw_q : List ℕ
  pub raw_head : ℕ
  pub raw_tail : ℕ
  pub tty_active : Bool

abbrev pub tty_line_max : ℕ
tty_line_max = 256

abbrev pub tty_raw_q : ℕ
tty_raw_q = 256

pub tty_set_active : Bool → Tty → Tty
tty_set_active on t = record t { tty_active = on }

pub tty_set_foreground : ℕ → Tty → Tty
tty_set_foreground pgid t = record t { fg_pgid = pgid }

unfoldable pub tty_init : Tty → Tty
tty_init t = record t {
  termios = record {
    icanon = true;
    echo = true;
    isig = true;
    vintr = 3;
    vquit = 28;
    verase = 127;
    veof = 4;
    vsusp = 26;
  };
  fg_pgid = 0;
  line = [];
  ready = [];
  ready_has = false;
  ready_eof = false;
  raw_head = 0;
  raw_tail = 0;
}

pub line_complete : Tty → Tty
line_complete t = record t { ready = t.line; ready_has = true; line = [] }

-- The last char of the line goes.
pub drop_last : List ℕ → List ℕ
drop_last [] = []
drop_last (c ∷ []) = []
drop_last (c ∷ d ∷ cs) = c ∷ drop_last (d ∷ cs)

-- raw mode: one byte into the ring, which drops it when it is full
pub raw_input : ℕ → Tty → Tty
raw_input c t =
    let nh = (t.raw_head + 1) % tty_raw_q in
    if nh == t.raw_tail then t else record t { raw_q = set t.raw_q t.raw_head c; raw_head = nh }

abbrev pub end_of_file : Tty → Tty
end_of_file t =
    let u = line_complete t in if length u.ready == 0 then record u { ready_eof = true } else u

abbrev pub end_line : Tty → Tty
end_line t =
    line_complete
      (if ltb (length t.line) tty_line_max then record t { line = t.line ++ (b'\n' ∷ []) } else t)

pub canonical_input : ℕ → Tty → Tty
canonical_input c t =
    if c == t.termios.veof
    then end_of_file t
    else if c == t.termios.verase || c == 8
    then record t { line = drop_last t.line }
    else if c == b'\n' || c == b'\r'
    then end_line t
    else if ltb (length t.line) (tty_line_max - 1)
    then record t { line = t.line ++ (c ∷ []) }
    else t

-- SIGINT, SIGTSTP and SIGQUIT
unfoldable pub signal_of : ℕ → Termios → Option ℕ
signal_of c s =
    if not s.isig
    then none
    else if c == s.vintr
    then some 2
    else if c == s.vsusp
    then some 20
    else if c == s.vquit
    then some 3
    else none

abbrev pub input_unsignalled : ℕ → Tty → Option ℕ → Tty × Option ℕ
input_unsignalled c t (some sig) = (t, some sig)
input_unsignalled c t none = (if t.termios.icanon then canonical_input c t else raw_input c t, none)

pub tty_input : ℕ → Tty → Tty × Option ℕ
tty_input c t = input_unsignalled c t (signal_of c t.termios)

pub tty_line_ready : Tty → Bool
tty_line_ready t =
    if not t.termios.icanon
    then not (t.raw_head == t.raw_tail)
      || ((t.ready_has && not (length t.ready == 0)) || t.ready_eof)
    else t.ready_has || t.ready_eof

-- `while (k < n && raw_tail != raw_head)`, on the room left
pub drain : ℕ → Tty → List ℕ × Tty
drain zero t = ([], t)
drain (suc n) t =
    let (rest, u) = drain n (record t { raw_tail = (t.raw_tail + 1) % tty_raw_q }) in
    if t.raw_tail == t.raw_head then ([], t) else (get_or t.raw_q t.raw_tail 0 ∷ rest, u)

-- The bytes that the reader gets.
pub take_ready : ℕ → Tty → List ℕ × Tty
take_ready n t = (take n t.ready, record t { ready = drop n t.ready })

abbrev pub bridge : ℕ → Tty → List ℕ × Tty
bridge n t =
    if t.ready_has && not (length t.ready == 0)
    then (let (bytes, u) = take_ready n t in
        (bytes, if length u.ready == 0 then record u { ready_has = false } else u))
    else if t.ready_eof
    then ([], record t { ready_eof = false })
    else ([], t)

abbrev pub read_raw : ℕ → Tty → List ℕ × Tty
read_raw n t = let (bytes, u) = drain n t in if length bytes == 0 then bridge n u else (bytes, u)

abbrev pub read_canonical : ℕ → Tty → List ℕ × Tty
read_canonical n t =
    if t.ready_eof && (length t.ready == 0)
    then ([], record t { ready_eof = false })
    else if not t.ready_has
    then ([], t)
    else (let (bytes, u) = take_ready n t in
        (
          bytes,
          if length u.ready == 0 then record u { ready_has = false; ready_eof = false } else u,
        ))

pub tty_read : ℕ → Tty → List ℕ × Tty
tty_read n t = if not t.termios.icanon then read_raw n t else read_canonical n t
