-- ===== src/Tty/Tests.antt =====
-- Runs of kernel/tty/tty.c, and the theorems at concrete inputs.
use makh.Prelude.{ℕ, none, ◌≡◌, refl, true, false, [], ◌∷◌, replicate, length-replicate, arith}
use makh.Tty.{Tty, tty_init, signal_of, tty_input, tty_line_ready, raw_input, drain, tty_read}
use makh.Tty.Bounds.{Fits, tty_input-Fits}
use makh.Tty.Lines.{IsPlain, IsCanonical, typed, read-typed, eof_is_read_twice}

abbrev at_boot : Tty
at_boot = tty_init (record {
  termios = record {
    icanon = false;
    echo = false;
    isig = false;
    vintr = 0;
    vquit = 0;
    verase = 0;
    veof = 0;
    vsusp = 0;
  };
  fg_pgid = 0;
  line = [];
  ready = [];
  ready_has = false;
  ready_eof = false;
  raw_q = replicate 256 0;
  raw_head = 0;
  raw_tail = 0;
  tty_active = false;
})

raw_runs : (drain 4 (raw_input b'j' (raw_input b'k' at_boot))).0 ≡ b'k' ∷ b'j' ∷ []
unfolding drain raw_input tty_init
raw_runs = refl

boot-Fits : Fits at_boot
unfolding tty_init
boot-Fits = record {
  line = omega arith;
  ready = omega arith;
  ring = length-replicate {A = ℕ} 256 0;
  head = omega arith;
  tail = omega arith;
}

tty_input-Fits_example : Fits (tty_input b'x' at_boot).0
tty_input-Fits_example = tty_input-Fits b'x' boot-Fits

boot-IsCanonical : IsCanonical at_boot.termios
unfolding tty_init signal_of
boot-IsCanonical = record { icanon = refl; no_signal = refl; no_eof = refl; no_erase = refl }

h-IsPlain : IsPlain at_boot.termios b'h'
unfolding tty_init signal_of
h-IsPlain = record { no_signal = refl; no_eof = refl; no_erase = refl; no_newline = refl }

no_line : at_boot.line ≡ []
unfolding tty_init
no_line = refl

read-typed_example : tty_read 80 (tty_input b'\n' (typed (b'h' ∷ b'h' ∷ []) at_boot)).0 ≡ (
  b'h' ∷ b'h' ∷ b'\n' ∷ [],
  record at_boot { line = []; ready = []; ready_has = false; ready_eof = false },
)
read-typed_example =
    read-typed (b'h' ∷ b'h' ∷ []) 80 at_boot boot-IsCanonical no_line (h-IsPlain, (h-IsPlain, tt))
      (omega arith) (omega arith)

no_signal : signal_of at_boot.termios.veof at_boot.termios ≡ none
unfolding tty_init signal_of
no_signal = refl

eof_is_read_twice_example :
    ((tty_read 80 (tty_input at_boot.termios.veof at_boot).0).0 ≡ [])
    × (tty_line_ready (tty_read 80 (tty_input at_boot.termios.veof at_boot).0).1 ≡ true)
    × ((tty_read 80 (tty_read 80 (tty_input at_boot.termios.veof at_boot).0).1).0 ≡ [])
eof_is_read_twice_example = eof_is_read_twice 80 at_boot boot-IsCanonical.icanon no_signal no_line
