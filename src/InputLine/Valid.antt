-- ===== src/InputLine/Valid.antt =====
-- kernel/input_line.c: the invariant of the editor, and what the steps of an operation do to it.
use makh.Prelude.{
  ℕ, ◌+◌, ◌-◌, ◌≤◌, ◌<◌, ◌≡◌, refl, ◌∙◌, Option, none, some, length, set, ltb, ◌==◌, if◌then◌else◌,
  arith, get_or-set, length-set,
}
use makh.InputLine.{Editor, save_clip, set_length, close_gap, put_char}
use makh.InputLine.Arrays.{at, shift_right-some, shift_left-some, copy_out-some}

-- The arrays have their size, the cursor lies in the text, the text is terminated, and the clipboard
-- leaves room for its terminator.
pub record IsValid (e : Editor) : Type 0 where
  pub buffer_size : length e.buffer ≡ 256
  pub clip_size : length e.clip ≡ 256
  pub fits : e.len < 256
  pub within : e.cursor ≤ e.len
  pub terminated : at e.buffer e.len ≡ 0
  pub clip_fits : e.clip_len < 256

-- The selection lies in the text.
abbrev pub SelWithin : Option (ℕ × ℕ) → ℕ → Type 0
SelWithin none n = Unit
SelWithin (some (a, b)) n = (a ≤ n) × (b ≤ n)

-- Nothing but the text and the cursor differ.
pub record SameClip (e e' : Editor) : Type 0 where
  pub clip : e'.clip ≡ e.clip
  pub clip_len : e'.clip_len ≡ e.clip_len
  pub sel : e'.sel ≡ e.sel

-- `k` chars from `from` on are taken out of the text.
pub record Closed (from k cur : ℕ) (e e' : Editor) : Type 0 where
  pub valid : IsValid e'
  pub others : SameClip e e'
  pub len : e'.len ≡ e.len - k
  pub cursor : e'.cursor ≡ cur
  pub chars :
      (j : ℕ)
      → j < e.len - k
      → at e'.buffer j ≡ (if ltb j from then at e.buffer j else at e.buffer (j + k))

module _ (from k cur : ℕ) (e : Editor) (v : IsValid e) (room : from + k ≤ e.len)
    (in_text : cur ≤ e.len - k) where
  pub close_gap-some : (e' : Editor) × (close_gap from k cur e ≡ some e') × Closed from k cur e e'
  unfolding close_gap set_length
  close_gap-some =
      let (b, run, size, chars) =
        shift_left-some k from (e.len - k - from) e.buffer (omega (arith, v.buffer_size)) in
      let b' = set b (e.len - k) 0 in
      let size' : length b' ≡ 256 = length-set b (e.len - k) 0 ∙ size ∙ v.buffer_size in
      (
        record e { buffer = b'; len = e.len - k; cursor = cur },
        ground arith,
        record {
          valid = record {
            buffer_size = size';
            clip_size = v.clip_size;
            fits = omega arith;
            within = in_text;
            terminated = ground (arith, get_or-set b (e.len - k) (e.len - k) 0 0);
            clip_fits = v.clip_fits;
          };
          others = record { clip = refl; clip_len = refl; sel = refl };
          len = refl;
          cursor = refl;
          chars = λ j h. ground (arith, chars j, get_or-set b (e.len - k) j 0 0);
        },
      )

-- The clipboard holds the `n` chars of the text from `from` on.
pub record Saved (from n : ℕ) (e e' : Editor) : Type 0 where
  pub valid : IsValid e'
  pub buffer : e'.buffer ≡ e.buffer
  pub len : e'.len ≡ e.len
  pub cursor : e'.cursor ≡ e.cursor
  pub sel : e'.sel ≡ e.sel
  pub clip_len : e'.clip_len ≡ n
  pub chars : (j : ℕ) → j < n → at e'.clip j ≡ at e.buffer (from + j)

pub save_clip-some :
    (from n : ℕ) (e : Editor)
    → IsValid e
    → from + n ≤ e.len
    → (e' : Editor) × (save_clip from n e ≡ some e') × Saved from n e e'
unfolding save_clip
save_clip-some from n e v room =
    let (c, run, size, chars) =
      copy_out-some e.buffer from 0 n e.clip (omega (arith, v.buffer_size))
        (omega (arith, v.clip_size)) in
    let c' = set c n 0 in
    let size' : length c' ≡ 256 = length-set c n 0 ∙ size ∙ v.clip_size in
    (
      record e { clip = c'; clip_len = n },
      ground arith,
      record {
        valid = record {
          buffer_size = v.buffer_size;
          clip_size = size';
          fits = v.fits;
          within = v.within;
          terminated = v.terminated;
          clip_fits = omega arith;
        };
        buffer = refl;
        len = refl;
        cursor = refl;
        sel = refl;
        clip_len = refl;
        chars = λ j h. ground (arith, chars j, get_or-set c n j 0 0);
      },
    )

-- A char is put at the cursor.
pub record Placed (c : ℕ) (e e' : Editor) : Type 0 where
  pub valid : IsValid e'
  pub others : SameClip e e'
  pub len : e'.len ≡ e.len + 1
  pub cursor : e'.cursor ≡ e.cursor + 1
  pub chars :
      (j : ℕ)
      → j ≤ e.len
      → at e'.buffer j ≡ (
          if ltb j e.cursor
          then at e.buffer j
          else if j == e.cursor
          then c
          else at e.buffer (j - 1))

pub put_char-some :
    (c : ℕ) (e : Editor)
    → IsValid e
    → e.len < 255
    → (e' : Editor) × (put_char c e ≡ some e') × Placed c e e'
unfolding put_char set_length
put_char-some c e v room =
    let (b, run, size, chars) =
      shift_right-some e.cursor (e.len - e.cursor) e.buffer (omega (arith, v.buffer_size)) in
    let b1 = set b e.cursor c in
    let size1 : length b1 ≡ 256 = length-set b e.cursor c ∙ size ∙ v.buffer_size in
    let b2 = set b1 (e.len + 1) 0 in
    let size2 : length b2 ≡ 256 = length-set b1 (e.len + 1) 0 ∙ size1 in
    (
      record e { buffer = b2; len = e.len + 1; cursor = e.cursor + 1 },
      ground arith,
      record {
        valid = record {
          buffer_size = size2;
          clip_size = v.clip_size;
          fits = omega arith;
          within = omega arith;
          terminated = ground (arith, get_or-set b1 (e.len + 1) (e.len + 1) 0 0);
          clip_fits = v.clip_fits;
        };
        others = record { clip = refl; clip_len = refl; sel = refl };
        len = refl;
        cursor = refl;
        chars = λ j h.
            ground (arith, chars j, get_or-set b e.cursor j c 0, get_or-set b1 (e.len + 1) j 0 0);
      },
    )

pub put_char_full : (c : ℕ) (e : Editor) → 255 ≤ e.len → put_char c e ≡ some e
unfolding put_char
put_char_full c e full = ground arith
