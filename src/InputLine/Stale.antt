-- ===== src/InputLine/Stale.antt =====
-- kernel/input_line.c: what the functions that kill text do to a selection.
use makh.Prelude.{
  ℕ, ◌+◌, ◌-◌, ◌≤◌, ◌<◌, ◌≡◌, ◌∙◌, ap, none, some, ltb, if◌then◌else◌, arith, inl, inr,
  Option-cases,
}
use makh.InputLine.{
  Editor, ◌>>=◌, lower, upper, sel_clear, sel_delete, backspace, kill_to_end, delete_between,
  copy_out, store, save_clip, close_gap,
}
use makh.InputLine.Valid.{IsValid}
use makh.InputLine.Kill.{kill_to_end_text}

-- A gap longer than the text drives the length below 0.
close_gap-none : (from k cur : ℕ) (e : Editor) → e.len < k → close_gap from k cur e ≡ none
unfolding close_gap
close_gap-none from k cur e h = ground arith

save_clip-len : (from n : ℕ) (e d : Editor) → save_clip from n e ≡ some d → d.len ≡ e.len
unfolding save_clip
save_clip-len from n e d run =
    let m = if ltb 255 n then 255 else n in
    elim (Option-cases (copy_out e.buffer from 0 m e.clip)) [
      | inl fault ↦ ground arith
      | inr (c, copied) ↦ elim (Option-cases (store c m 0)) [
        | inl fault ↦ ground arith
        | inr (c', stored) ↦ ground arith
      ]
    ]

-- A selection longer than the text drives the length below 0.
delete_between-none :
    (a b : ℕ) (d : Editor) → b ≤ a → d.len < a - b → delete_between (some (a, b)) d ≡ none
delete_between-none a b d h long =
    let k = upper a b - lower a b in
    let width : k ≡ a - b = ground arith in
    elim (Option-cases (save_clip (lower a b) k d)) [
      | inl fault ↦
          ap
            (λ o.
              o >>= λ e'. close_gap (lower a b) k (lower a b) e' >>= λ e''. some (sel_clear e''))
            fault
      | inr (s, saved) ↦
          let same : s.len ≡ d.len = save_clip-len (lower a b) k d s saved in
          let too_long = close_gap-none (lower a b) k (lower a b) s (omega arith) in
          ap
            (λ o.
              o >>= λ e'. close_gap (lower a b) k (lower a b) e' >>= λ e''. some (sel_clear e''))
            saved
          ∙ ap (λ o. o >>= λ e''. some (sel_clear e'')) too_long
    ]

-- In a valid editor with the cursor in the first half of the text and everything behind it selected
-- towards the cursor, Ctrl+K keeps the selection, although the text it covers is gone, and the next
-- Backspace takes more chars off the length than there are: it writes the terminator at a negative
-- index.
pub backspace-kill_to_end :
    (e : Editor)
    → IsValid e
    → e.sel ≡ some (e.len, e.cursor)
    → e.cursor + e.cursor < e.len
    → (kill_to_end e >>= backspace) ≡ none
unfolding backspace sel_delete
backspace-kill_to_end e v selected half =
    let (d, run, _, _, _, _, same, _, len) = kill_to_end_text e v (omega arith) in
    let stale : d.sel ≡ some (e.len, e.cursor) = same ∙ selected in
    let fault : backspace d ≡ none =
      rw stale (delete_between-none e.len e.cursor d (omega arith) (omega arith)) in
    ap (λ o. o >>= backspace) run ∙ fault
