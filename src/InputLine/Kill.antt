-- ===== src/InputLine/Kill.antt =====
-- kernel/input_line.c: what is cut out of the text goes to the clipboard, and comes back by a yank.
use mathlib.Core.Path.{ap₂}
use makh.Prelude.{
  ℕ, ◌+◌, ◌-◌, ◌≤◌, ◌<◌, ◌≡◌, refl, sym, ◌∙◌, ap, Option, none, some, [], length-set, get_or-set,
  set, arith,
}
use makh.InputLine.{
  Editor, ◌>>=◌, lower, upper, delete_between, sel_delete, close_gap, save_clip, set_length,
  sel_clear, kill_to_end, kill_to_start,
}
use makh.InputLine.Arrays.{at, window, window-same, window_none}
use makh.InputLine.Valid.{IsValid, Closed, close_gap-some, Saved, save_clip-some}
use makh.InputLine.Text.{before, after, clip_text, before-Closed, after-Closed}

pub >>=_assoc {ℓ κ μ} :
    {A : Type ℓ} {B : Type κ} {C : Type μ} (m : Option A) (f : A → Option B) (g : B → Option C)
    → ((m >>= f) >>= g) ≡ (m >>= λ x. f x >>= g)
>>=_assoc none f g = refl
>>=_assoc (some a) f g = refl

-- The `k` chars from `from` on are on the clipboard and no longer in the text; the cursor is where they
-- stood.
pub record Cut (from k : ℕ) (e t : Editor) : Type 0 where
  pub valid : IsValid t
  pub sel : t.sel ≡ e.sel
  pub len : t.len ≡ e.len - k
  pub before_gap : before t ≡ window e.buffer 0 from
  pub behind_gap : after t ≡ window e.buffer (from + k) (e.len - k - from)
  pub clipped : clip_text t ≡ window e.buffer from k
  pub clip_len : t.clip_len ≡ k

Saved-Closed-Cut :
    {from k : ℕ} {e s t : Editor}
    → IsValid e
    → from + k ≤ e.len
    → Saved from k e s
    → Closed from k from s t
    → Cut from k e t
Saved-Closed-Cut {from} {k} {e} {s} {t} v room sv c =
    let room' : from + k ≤ s.len = omega (arith, sv.len) in
    record {
      valid = c.valid;
      sel = c.others.sel ∙ sv.sel;
      len = omega (arith, c.len, sv.len);
      before_gap = before-Closed sv.valid room' c ∙ ap (λ x. window x 0 from) sv.buffer;
      behind_gap =
          after-Closed sv.valid room' c
          ∙ ap₂ (λ x n. window x (from + k) (n - k - from)) sv.buffer sv.len;
      clipped =
          ap₂ (λ x n. window x 0 n) c.others.clip (c.others.clip_len ∙ sv.clip_len)
          ∙ window-same s.clip e.buffer 0 from k (λ j h. ground (arith, sv.chars j));
      clip_len = c.others.clip_len ∙ sv.clip_len;
    }

pub Cut-some :
    (from k : ℕ) (e : Editor)
    → IsValid e
    → from + k ≤ e.len
    → (t : Editor) × ((save_clip from k e >>= close_gap from k from) ≡ some t) × Cut from k e t
Cut-some from k e v room =
    let (s, saved, sv) = save_clip-some from k e v room in
    let (t, closed, c) =
      close_gap-some from k from s sv.valid (omega (arith, sv.len)) (omega (arith, sv.len)) in
    (t, ap (λ o. o >>= close_gap from k from) saved ∙ closed, Saved-Closed-Cut v room sv c)

pub sel_clear-IsValid : {e : Editor} → IsValid e → IsValid (sel_clear e)
sel_clear-IsValid v = record {
  buffer_size = v.buffer_size;
  clip_size = v.clip_size;
  fits = v.fits;
  within = v.within;
  terminated = v.terminated;
  clip_fits = v.clip_fits;
}

pub delete_between_step :
    (e t : Editor) (a b : ℕ)
    → (save_clip (lower a b) (upper a b - lower a b) e
        >>= close_gap (lower a b) (upper a b - lower a b) (lower a b))
      ≡ some t
    → delete_between (some (a, b)) e ≡ some (sel_clear t)
delete_between_step e t a b run =
    sym (>>=_assoc (save_clip (lower a b) (upper a b - lower a b) e) _ _)
    ∙ ap (λ o. o >>= λ x. some (sel_clear x)) run

-- `input_line_sel_delete` takes out the text between the ends of a selection in the text, leaves the
-- cursor there and nothing selected, and puts the text that it took out on the clipboard.
pub sel_delete_text :
    (e : Editor) (a b : ℕ)
    → IsValid e
    → e.sel ≡ some (a, b)
    → a ≤ e.len
    → b ≤ e.len
    → (e' : Editor) × (sel_delete e ≡ some e')
      × IsValid e'
      × (e'.sel ≡ none)
      × (before e' ≡ window e.buffer 0 (lower a b))
      × (after e' ≡ window e.buffer (upper a b) (e.len - upper a b))
      × (clip_text e' ≡ window e.buffer (lower a b) (upper a b - lower a b))
unfolding sel_delete
sel_delete_text e a b v selected ha hb =
    let room : lower a b + (upper a b - lower a b) ≤ e.len = ground arith in
    let ends : lower a b + (upper a b - lower a b) ≡ upper a b = ground arith in
    let (t, run, c) = Cut-some (lower a b) (upper a b - lower a b) e v room in
    (
      sel_clear t,
      ap (λ o. delete_between o e) selected ∙ delete_between_step e t a b run,
      sel_clear-IsValid c.valid,
      refl,
      c.before_gap,
      c.behind_gap ∙ ap₂ (window e.buffer) ends (omega arith),
      c.clipped,
    )

-- `input_line_kill_to_start` cuts the text before the cursor.
pub kill_to_start_text :
    (e : Editor)
    → IsValid e
    → 0 < e.cursor
    → (e' : Editor) × (kill_to_start e ≡ some e')
      × IsValid e'
      × (before e' ≡ [])
      × (after e' ≡ after e)
      × (clip_text e' ≡ before e)
      × (e'.sel ≡ e.sel)
unfolding kill_to_start
kill_to_start_text e v some_left =
    let (t, run, c) = Cut-some 0 e.cursor e v (omega arith) in
    (
      t,
      ground arith,
      c.valid,
      c.before_gap ∙ window_none e.buffer 0,
      c.behind_gap ∙ ap₂ (window e.buffer) (omega arith) (omega arith),
      c.clipped,
      c.sel,
    )

-- What is left of a line cut at the cursor.
record Truncated (e t : Editor) : Type 0 where
  valid : IsValid t
  sel : t.sel ≡ e.sel
  cursor : t.cursor ≡ e.cursor
  len : t.len ≡ e.cursor
  chars : (j : ℕ) → j < e.cursor → at t.buffer j ≡ at e.buffer j
  clip : t.clip ≡ e.clip
  clip_len : t.clip_len ≡ e.clip_len

truncate-some :
    (e : Editor) → IsValid e → (t : Editor) × (set_length e.cursor e ≡ some t) × Truncated e t
unfolding set_length
truncate-some e v = (
  record e { buffer = set e.buffer e.cursor 0; len = e.cursor },
  ground (arith, v.buffer_size),
  record {
    valid = record {
      buffer_size = length-set e.buffer e.cursor 0 ∙ v.buffer_size;
      clip_size = v.clip_size;
      fits = omega arith;
      within = omega arith;
      terminated = ground (arith, get_or-set e.buffer e.cursor e.cursor 0 0, v.buffer_size);
      clip_fits = v.clip_fits;
    };
    sel = refl;
    cursor = refl;
    len = refl;
    chars = λ j h. ground (arith, get_or-set e.buffer e.cursor j 0 0);
    clip = refl;
    clip_len = refl;
  },
)

-- `input_line_kill_to_end` cuts the text from the cursor on.
pub kill_to_end_text :
    (e : Editor)
    → IsValid e
    → e.cursor < e.len
    → (e' : Editor) × (kill_to_end e ≡ some e')
      × IsValid e'
      × (before e' ≡ before e)
      × (after e' ≡ [])
      × (clip_text e' ≡ after e)
      × (e'.sel ≡ e.sel)
      × (e'.clip_len ≡ e.len - e.cursor)
      × (e'.len ≡ e.cursor)
unfolding kill_to_end
kill_to_end_text e v some_right =
    let n = e.len - e.cursor in
    let (s, saved, sv) = save_clip-some e.cursor n e v (omega arith) in
    let (t, cut, c) = truncate-some s sv.valid in
    (
      t,
      killed s t saved (ap (λ k. set_length k s) (sym sv.cursor) ∙ cut),
      c.valid,
      before_kept s t sv c,
      nothing_after s t c,
      ap₂ (λ x k. window x 0 k) c.clip (c.clip_len ∙ sv.clip_len)
          ∙ window-same s.clip e.buffer 0 e.cursor n (λ j h. ground (arith, sv.chars j)),
      c.sel ∙ sv.sel,
      c.clip_len ∙ sv.clip_len,
      c.len ∙ sv.cursor,
    )
  where
    killed :
        (s t : Editor)
        → save_clip e.cursor (e.len - e.cursor) e ≡ some s
        → set_length e.cursor s ≡ some t
        → kill_to_end e ≡ some t
    killed s t saved cut = ground arith

    before_kept :
        (s t : Editor) → Saved e.cursor (e.len - e.cursor) e s → Truncated s t → before t ≡ before e
    before_kept s t sv c =
        ap (window t.buffer 0) (c.cursor ∙ sv.cursor)
        ∙ window-same t.buffer e.buffer 0 0 e.cursor
            (λ j h. ground (arith, c.chars j, sv.cursor, ap (λ x. at x j) sv.buffer))

    nothing_after : (s t : Editor) → Truncated s t → after t ≡ []
    nothing_after s t c =
        let none_left : t.len - t.cursor ≡ 0 = omega (arith, c.cursor, c.len) in
        ap (window t.buffer t.cursor) none_left ∙ window_none t.buffer t.cursor
