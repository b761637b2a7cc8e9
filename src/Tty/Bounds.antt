-- ===== src/Tty/Bounds.antt =====
-- kernel/tty/tty.c: the line and the completed line stay within their arrays, and the ring within its indices.
use makh.Prelude.Branches.{either_way}
use makh.Prelude.{
  ℕ, ◌+◌, ◌%◌, ◌≤◌, ◌<◌, ◌≡◌, inl, inr, ◌∙◌, Bool, true, ◌||◌, Option, none, some, List, [], ◌∷◌,
  ◌++◌, length, ltb, ◌==◌, arith, length-append, length-set, Bool-cases,
}
use makh.Tty.{
  Tty, line_complete, drop_last, raw_input, end_line, canonical_input, signal_of, input_unsignalled,
  tty_input,
}

-- Between two calls the line has room for its newline.
pub record Fits (t : Tty) : Type 0 where
  pub line : length t.line < 256
  pub ready : length t.ready ≤ 256
  pub ring : length t.raw_q ≡ 256
  pub head : t.raw_head < 256
  pub tail : t.raw_tail < 256

drop_last-le : (l : List ℕ) → length (drop_last l) ≤ length l
unfolding drop_last
drop_last-le [] = omega arith
drop_last-le (c ∷ []) = omega arith
drop_last-le (c ∷ d ∷ cs) = omega (arith, drop_last-le (d ∷ cs))

relined : {t : Tty} (l : List ℕ) → length l < 256 → Fits t → Fits (record t { line = l })
relined l h v = record { line = h; ready = v.ready; ring = v.ring; head = v.head; tail = v.tail }

raw_input-Fits : {t : Tty} (c : ℕ) → Fits t → Fits (raw_input c t)
unfolding raw_input
raw_input-Fits {t} c v = either_way Fits ((t.raw_head + 1) % 256 == t.raw_tail) v (record {
  line = v.line;
  ready = v.ready;
  ring = length-set t.raw_q t.raw_head c ∙ v.ring;
  head = omega arith;
  tail = v.tail;
})

canonical_input-Fits : {t : Tty} (c : ℕ) → Fits t → Fits (canonical_input c t)
unfolding canonical_input line_complete
canonical_input-Fits {t} c v =
    either_way Fits (c == t.termios.veof) (either_way Fits (length t.line == 0) completed completed)
      (either_way Fits (c == t.termios.verase || c == 8)
        (relined (drop_last t.line) (omega (arith, drop_last-le t.line)) v)
        (either_way Fits (c == b'\n' || c == b'\r') ended
          (elim (Bool-cases (ltb (length t.line) 255)) [
            | inl room ↦
                rw room
                  (relined (t.line ++ (c ∷ [])) (ground (arith, length-append t.line (c ∷ []))) v)
            | inr full ↦ rw full v
          ])))
  where
    completed :
        {b : Bool} → Fits (record t { ready = t.line; ready_has = true; line = []; ready_eof = b })
    completed = record {
      line = omega arith;
      ready = omega (arith, v.line);
      ring = v.ring;
      head = v.head;
      tail = v.tail;
    }

    ended : Fits (end_line t)
    ended = elim (Bool-cases (ltb (length t.line) 256)) [
      | inl room ↦ rw room (record {
        line = omega arith;
        ready = omega (arith, length-append t.line (b'\n' ∷ []), v.line);
        ring = v.ring;
        head = v.head;
        tail = v.tail;
      })
      | inr full ↦ rw full completed
    ]

-- No byte that is typed, in either mode, overflows the line, the completed line or the ring.
pub tty_input-Fits : (c : ℕ) {t : Tty} → Fits t → Fits (tty_input c t).0
unfolding tty_input
tty_input-Fits c {t} v = go (signal_of c t.termios)
  where
    go : (o : Option ℕ) → Fits (input_unsignalled c t o).0
    go (some sig) = v
    go none = either_way Fits t.termios.icanon (canonical_input-Fits c v) (raw_input-Fits c v)
