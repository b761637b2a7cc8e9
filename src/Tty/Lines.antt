-- ===== src/Tty/Lines.antt =====
-- kernel/tty/tty.c: what a reader in canonical mode gets of what was typed.
use makh.Prelude.{
  ℕ, zero, suc, ◌+◌, ◌≤◌, ◌<◌, ◌≡◌, inl, inr, refl, sym, ◌∙◌, ap, true, false, ◌||◌, none, List, [],
  ◌∷◌, ◌++◌, length, take, drop, ltb, ◌==◌, arith, length-append, All, Bool-cases,
}
use makh.Tty.{
  Termios, Tty, line_complete, canonical_input, signal_of, tty_input, tty_line_ready, take_ready,
  tty_read,
}

-- The char raises no signal and does not end or edit the line.
pub record IsPlain (s : Termios) (c : ℕ) : Type 0 where
  pub no_signal : signal_of c s ≡ none
  pub no_eof : (c == s.veof) ≡ false
  pub no_erase : (c == s.verase || c == 8) ≡ false
  pub no_newline : (c == b'\n' || c == b'\r') ≡ false

-- The terminal is in canonical mode, and the newline has no other meaning there.
pub record IsCanonical (s : Termios) : Type 0 where
  pub icanon : s.icanon ≡ true
  pub no_signal : signal_of b'\n' s ≡ none
  pub no_eof : (b'\n' == s.veof) ≡ false
  pub no_erase : (b'\n' == s.verase) ≡ false

pub typed : List ℕ → Tty → Tty
typed [] t = t
typed (c ∷ cs) t = typed cs (tty_input c t).0

plain_input :
    (c : ℕ) (t : Tty)
    → IsCanonical t.termios
    → IsPlain t.termios c
    → length t.line < 255
    → (tty_input c t).0 ≡ record t { line = t.line ++ (c ∷ []) }
unfolding tty_input canonical_input
plain_input c t s p room =
    rw (p.no_signal, s.icanon, p.no_eof, p.no_erase, p.no_newline)
      (let fits : ltb (length t.line) 255 ≡ true = ground arith in rw fits refl)

append_snoc : (xs ys : List ℕ) (c : ℕ) → (xs ++ (c ∷ [])) ++ ys ≡ xs ++ (c ∷ ys)
append_snoc [] ys c = refl
append_snoc (x ∷ xs) ys c = ap (λ l. x ∷ l) (append_snoc xs ys c)

append_none : (xs : List ℕ) → xs ++ [] ≡ xs
append_none [] = refl
append_none (x ∷ xs) = ap (λ l. x ∷ l) (append_none xs)

typed-IsPlain :
    (cs : List ℕ) (t : Tty)
    → IsCanonical t.termios
    → All (IsPlain t.termios) cs
    → length t.line + length cs ≤ 255
    → typed cs t ≡ record t { line = t.line ++ cs }
unfolding typed
typed-IsPlain [] t s p room = ap (λ l. record t { line = l }) (sym (append_none t.line))
typed-IsPlain (c ∷ cs) t s (p, ps) room =
    ap (typed cs) (plain_input c t s p (omega arith))
    ∙ typed-IsPlain cs (record t { line = t.line ++ (c ∷ []) }) s ps
        (omega (arith, length-append t.line (c ∷ [])))
    ∙ ap (λ l. record t { line = l }) (append_snoc t.line cs c)

newline_input :
    (t : Tty)
    → IsCanonical t.termios
    → length t.line < 256
    → (tty_input b'\n' t).0
      ≡ record t { ready = t.line ++ (b'\n' ∷ []); ready_has = true; line = [] }
unfolding tty_input canonical_input line_complete
newline_input t s room =
    let fits : ltb (length t.line) 256 ≡ true = ground arith in
    rw (s.no_signal, s.icanon, s.no_eof, s.no_erase, fits) refl

take_all : (n : ℕ) (l : List ℕ) → length l ≤ n → take n l ≡ l
take_all zero [] h = refl
take_all zero (x ∷ l) h = absurd (omega arith)
take_all (suc n) [] h = refl
take_all (suc n) (x ∷ l) h = ap (λ r. x ∷ r) (take_all n l (omega arith))

drop_all : (n : ℕ) (l : List ℕ) → length l ≤ n → drop n l ≡ []
drop_all zero [] h = refl
drop_all zero (x ∷ l) h = absurd (omega arith)
drop_all (suc n) [] h = refl
drop_all (suc n) (x ∷ l) h = drop_all n l (omega arith)

read_all :
    (n : ℕ) (t : Tty)
    → t.termios.icanon ≡ true
    → t.ready_has ≡ true
    → 0 < length t.ready
    → length t.ready ≤ n
    → tty_read n t ≡ (t.ready, record t { ready = []; ready_has = false; ready_eof = false })
unfolding tty_read take_ready
read_all n t mode has full room =
    let more : (length t.ready == 0) ≡ false = ground arith in
    let given = take_all n t.ready room in
    let left = drop_all n t.ready room in
    elim (Bool-cases t.ready_eof) [
      | inl at_end ↦ rw (mode, at_end, more, has, given, left) refl
      | inr open_end ↦ rw (mode, open_end, has, given, left) refl
    ]

-- A line of at most 255 plain chars that is typed on an empty line in canonical mode and ended by a
-- newline is what the next read with enough room gets, with the newline; nothing is left, and a
-- completed line that nobody had read is lost.
pub read-typed :
    (cs : List ℕ) (n : ℕ) (t : Tty)
    → IsCanonical t.termios
    → t.line ≡ []
    → All (IsPlain t.termios) cs
    → length cs ≤ 255
    → length cs < n
    → tty_read n (tty_input b'\n' (typed cs t)).0 ≡ (
      cs ++ (b'\n' ∷ []),
      record t { line = []; ready = []; ready_has = false; ready_eof = false },
    )
read-typed cs n t s empty p short room =
    let u = record t { line = cs } in
    let w = record u { ready = cs ++ (b'\n' ∷ []); ready_has = true; line = [] } in
    let written : typed cs t ≡ u =
      typed-IsPlain cs t s p (omega (arith, ap length empty))
      ∙ ap (λ l. record t { line = l ++ cs }) empty in
    let size = length-append cs (b'\n' ∷ []) in
    ap (λ x. tty_read n (tty_input b'\n' x).0) written
    ∙ ap (tty_read n) (newline_input u s (omega arith))
    ∙ read_all n w s.icanon refl (omega arith) (omega arith)

at_eof : Tty → Tty
at_eof t = record t { ready = []; ready_has = true; line = []; ready_eof = true }

eof_input :
    (t : Tty)
    → t.termios.icanon ≡ true
    → signal_of t.termios.veof t.termios ≡ none
    → t.line ≡ []
    → (tty_input t.termios.veof t).0 ≡ at_eof t
unfolding tty_input canonical_input line_complete at_eof
eof_input t mode plain empty =
    let itself : (t.termios.veof == t.termios.veof) ≡ true = ground arith in
    rw (plain, mode, itself, empty) refl

first_read :
    (n : ℕ) (t : Tty)
    → t.termios.icanon ≡ true
    → tty_read n (at_eof t) ≡ ([], record (at_eof t) { ready_eof = false })
unfolding tty_read at_eof
first_read n t mode = rw mode refl

second_read :
    (n : ℕ) (t : Tty)
    → t.termios.icanon ≡ true
    → (tty_read n (record (at_eof t) { ready_eof = false })).0 ≡ []
unfolding tty_read at_eof take_ready
second_read n t mode = rw mode (take_all n [] (omega arith))

still_ready :
    (t : Tty)
    → t.termios.icanon ≡ true
    → tty_line_ready (record (at_eof t) { ready_eof = false }) ≡ true
unfolding tty_line_ready at_eof
still_ready t mode = rw mode refl

-- In canonical mode, where the end-of-file char raises no signal, an end of file that is typed on an
-- empty line is read twice: the first read consumes the mark of the end of file and leaves the empty
-- completed line, and the terminal is still ready.
pub eof_is_read_twice :
    (n : ℕ) (t : Tty)
    → t.termios.icanon ≡ true
    → signal_of t.termios.veof t.termios ≡ none
    → t.line ≡ []
    → ((tty_read n (tty_input t.termios.veof t).0).0 ≡ [])
      × (tty_line_ready (tty_read n (tty_input t.termios.veof t).0).1 ≡ true)
      × ((tty_read n (tty_read n (tty_input t.termios.veof t).0).1).0 ≡ [])
eof_is_read_twice n t mode plain empty =
    let after : tty_read n (tty_input t.termios.veof t).0
        ≡ ([], record (at_eof t) { ready_eof = false }) =
      ap (tty_read n) (eof_input t mode plain empty) ∙ first_read n t mode in
    (
      ap (λ r. r.0) after,
      ap (λ r. tty_line_ready r.1) after ∙ still_ready t mode,
      ap (λ r. (tty_read n r.1).0) after ∙ second_read n t mode,
    )
