-- ===== src/InputLine/Yank.antt =====
-- kernel/input_line.c: `input_line_yank`.
use mathlib.Core.Path.{ap₂}
use mathlib.Core.List.{append_assoc, append-nil}
use makh.Prelude.{
  ℕ, zero, suc, ◌+◌, ◌-◌, ◌≤◌, ◌<◌, ◌≡◌, refl, sym, ◌∙◌, ap, Option, none, some, [], ◌∷◌, ◌++◌,
  length, arith, ℕ_discrete,
}
use makh.InputLine.{Editor, ◌>>=◌, insert, kill_to_end, yank_from, yank}
use makh.InputLine.Arrays.{at, window, window_cons, window_none}
use makh.InputLine.Valid.{IsValid, SameClip}
use makh.InputLine.Text.{before, after, text, clip_text, before-append-after, insert_text}
use makh.InputLine.Kill.{kill_to_end_text}

yank_step :
    (fuel start : ℕ) (e p : Editor)
    → start < e.clip_len
    → e.clip_len < 256
    → length e.clip ≡ 256
    → insert (at e.clip start) e ≡ some p
    → yank_from (suc fuel) start e ≡ yank_from fuel (start + 1) p
unfolding yank_from
yank_step fuel start e p more fits size run = ground arith

yank_stop :
    (fuel start : ℕ) (e : Editor) → start ≡ e.clip_len → yank_from (suc fuel) start e ≡ some e
unfolding yank_from
yank_stop fuel start e done = ground arith

-- What a yank of the clipboard from `start` on leaves.
abbrev Yanked : ℕ → Editor → Option Editor → Type 0
Yanked start e out =
    (e' : Editor) × (out ≡ some e')
    × IsValid e'
    × (before e' ≡ before e ++ window e.clip start (e.clip_len - start))
    × (after e' ≡ after e)

Yanked-next :
    (start : ℕ) (e p : Editor)
    → start < e.clip_len
    → before p ≡ before e ++ (at e.clip start ∷ [])
    → after p ≡ after e
    → SameClip e p
    → (out : Option Editor) → Yanked (start + 1) p out
    → Yanked start e out
Yanked-next start e p more b a same out (e', run, v, b', a') = (
  e',
  run,
  v,
  b'
      ∙ ap₂ ◌++◌ b (ap₂ (λ c n. window c (start + 1) (n - (start + 1))) same.clip same.clip_len)
      ∙ append_assoc (before e) (at e.clip start ∷ [])
          (window e.clip (start + 1) (e.clip_len - (start + 1)))
      ∙ ap (λ l. before e ++ l)
          (sym (
            window_cons e.clip start (e.clip_len - (start + 1)) (e.clip_len - start)
              (omega arith))),
  a' ∙ a,
)

Yanked-step :
    (start : ℕ) (e : Editor) (out out' : Option Editor)
    → out ≡ out'
    → Yanked start e out'
    → Yanked start e out
Yanked-step start e out out' same (e', run, v, b, a) = (e', same ∙ run, v, b, a)

yank_from_text :
    (fuel start : ℕ) (e : Editor)
    → IsValid e
    → e.sel ≡ none
    → start ≤ e.clip_len
    → e.clip_len < start + fuel
    → e.len + (e.clip_len - start) < 256
    → Yanked start e (yank_from fuel start e)
yank_from_text zero start e v u h enough room = absurd (omega arith)
yank_from_text (suc fuel) start e v u h enough room = elim (ℕ_discrete start e.clip_len) [
  | yes done ↦
      let none_left : e.clip_len - start ≡ 0 = omega arith in
      (
        e,
        yank_stop fuel start e done,
        v,
        sym (
            ap (λ n. before e ++ window e.clip start n) none_left
            ∙ ap (λ l. before e ++ l) (window_none e.clip start)
            ∙ append-nil (before e)),
        refl,
      )
  | no more ↦
      let left : start < e.clip_len = omega arith in
      let (p, run, pv, b, a, same, longer) = insert_text (at e.clip start) e v u (omega arith) in
      let rest : Yanked (start + 1) p (yank_from fuel (start + 1) p) =
        yank_from_text fuel (start + 1) p pv (same.sel ∙ u) (omega (arith, same.clip_len))
          (omega (arith, same.clip_len)) (omega (arith, same.clip_len)) in
      Yanked-step start e _ _ (yank_step fuel start e p left v.clip_fits v.clip_size run)
        (Yanked-next start e p left b a same (yank_from fuel (start + 1) p) rest)
]

-- `input_line_yank` with nothing selected and room in the line puts the whole clipboard before the
-- cursor and leaves the text behind it.
pub yank_text :
    (e : Editor)
    → IsValid e
    → e.sel ≡ none
    → e.len + e.clip_len < 256
    → (e' : Editor) × (yank e ≡ some e')
      × IsValid e'
      × (before e' ≡ before e ++ clip_text e)
      × (after e' ≡ after e)
unfolding yank
yank_text e v u room =
    let (e', run, v', b, a) =
      yank_from_text 256 0 e v u (omega arith) (omega arith) (omega arith) in
    (e', run, v', b ∙ ap (λ n. before e ++ window e.clip 0 n) (omega arith), a)

-- In a valid editor with nothing selected and text behind the cursor, `input_line_kill_to_end`
-- followed by `input_line_yank` gives the text back.
pub yank-kill_to_end :
    (e : Editor)
    → IsValid e
    → e.sel ≡ none
    → e.cursor < e.len
    → (e' : Editor) × ((kill_to_end e >>= yank) ≡ some e') × (text e' ≡ text e)
yank-kill_to_end e v u some_right =
    let (k, killed, kv, k_before, k_after, k_clip, k_sel, k_clip_len, k_len) =
      kill_to_end_text e v some_right in
    let (y, yanked, yv, y_before, y_after) = yank_text k kv (k_sel ∙ u) (omega arith) in
    (
      y,
      ap (λ o. o >>= yank) killed ∙ yanked,
      sym (before-append-after y yv)
          ∙ ap₂ ◌++◌ (y_before ∙ ap₂ ◌++◌ k_before k_clip) (y_after ∙ k_after)
          ∙ append-nil (before e ++ after e)
          ∙ before-append-after e v,
    )
