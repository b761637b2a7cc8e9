-- ===== src/InputLine/History/Recall.antt =====
-- kernel/input_line.c: a line that was run comes back.
use makh.Prelude.{
  ℕ, zero, suc, ◌+◌, ◌-◌, ◌≤◌, ◌<◌, ◌≡◌, ◌≢◌, refl, sym, ◌∙◌, ap, subst, inl, inr, Bool, true,
  false, ◌&&◌, none, some, List, [], length, set, replicate, ltb, leb, if◌then◌else◌, arith, dec_lt,
  ℕ_discrete, Bool-cases, get_or-set, length-set,
}
use makh.InputLine.{Editor, ◌>>=◌, init}
use makh.InputLine.Arrays.{at, window, window_start}
use makh.InputLine.Valid.{IsValid}
use makh.InputLine.Text.{text}
use makh.InputLine.History.{
  History, row, copy_line, copy_terminated, shift_rows, make_room, history_push, history_prev,
  history_next, history_load, arrow_up, arrow_down,
}

-- `k` is the index of the terminator of the line.
pub record IsLine (k : ℕ) (line : List ℕ) : Type 0 where
  pub size : length line ≡ 256
  pub fits : k < 256
  pub terminated : at line k ≡ 0
  pub chars : (j : ℕ) → j < k → at line j ≢ 0

-- The rounds end at the terminator, and the chars before it are copied.
copy_line-some :
    (n i k : ℕ) (line to : List ℕ)
    → IsLine k line
    → length to ≡ 256
    → i ≤ k
    → i + n ≡ 255
    → (to' : List ℕ) × (copy_line n i line to ≡ some (to', k))
      × (length to' ≡ 256)
      × ((j : ℕ) → at to' j ≡ (if leb i j && ltb j k then at line j else at to j))
unfolding copy_line
copy_line-some zero i k line to l size h enough =
    let same : i ≡ k = omega (arith, l.fits) in
    (to, ground (arith, l.size), size, λ j. ground arith)
copy_line-some (suc n) i k line to l size h enough = elim (ℕ_discrete i k) [
  | yes here ↦
      (to, ground (arith, l.size, l.terminated, ap (at line) here), size, λ j. ground arith)
  | no before_it ↦
      let to1 = set to i (at line i) in
      let size1 : length to1 ≡ 256 = length-set to i (at line i) ∙ size in
      let (to', run, size', copied) =
        copy_line-some n (i + 1) k line to1 l size1 (omega arith) (omega arith) in
      (
        to',
        ground (arith, l.size, l.chars i (omega arith)),
        size',
        λ j. ground (arith, copied j, get_or-set to i j (at line i) 0),
      )
]

pub copy_terminated-some :
    (k : ℕ) (line to : List ℕ)
    → IsLine k line
    → length to ≡ 256
    → (to' : List ℕ) × (copy_terminated line to ≡ some (to', k))
      × IsLine k to'
      × ((j : ℕ) → j < k → at to' j ≡ at line j)
unfolding copy_terminated
copy_terminated-some k line to l size =
    let (b, run, size', copied) = copy_line-some 255 0 k line to l size (omega arith) refl in
    let b' = set b k 0 in
    let bsize : length b' ≡ 256 = length-set b k 0 ∙ size' in
    let same : (j : ℕ) → j < k → at b' j ≡ at line j =
      λ j h. ground (arith, copied j, get_or-set b k j 0 0) in
    (
      b',
      ground (arith, l.fits),
      record {
        size = bsize;
        fits = l.fits;
        terminated = ground (arith, l.fits, get_or-set b k k 0 0);
        chars = λ j h z. l.chars j h (sym (same j h) ∙ z);
      },
      same,
    )

-- The history has its size, and every entry up to `count` is a line.
pub record IsHistory (h : History) : Type 0 where
  pub rows : length h.entries ≡ 50
  pub sizes : (i : ℕ) → i < 50 → length (row h.entries i) ≡ 256
  pub lines : (i : ℕ) → i < h.count → (k : ℕ) × IsLine k (row h.entries i)
  pub fits : h.count ≤ 50
  pub within : h.current ≤ h.count

shift_rows-row :
    (from n : ℕ) (rows : List (List ℕ))
    → from + n < length rows
    → (length (shift_rows from n rows) ≡ length rows)
      × ((j : ℕ)
          → row (shift_rows from n rows) j
            ≡ (if leb from j && ltb j (from + n) then row rows (j + 1) else row rows j))
unfolding shift_rows
shift_rows-row from zero rows h = (refl, λ j. ground arith)
shift_rows-row from (suc n) rows h =
    let rows1 = set rows from (row rows (from + 1)) in
    let size : length rows1 ≡ length rows = length-set rows from (row rows (from + 1)) in
    let (len, shifted) = shift_rows-row (from + 1) n rows1 (omega arith) in
    (
      len ∙ size,
      λ j. ground (
        arith,
        shifted j,
        get_or-set rows from (j + 1) (row rows (from + 1)) [],
        get_or-set rows from j (row rows (from + 1)) [],
      ),
    )

-- Room is made by dropping the oldest entry.
record RoomMade (h r : History) : Type 0 where
  rows : length r.entries ≡ 50
  sizes : (i : ℕ) → i < 50 → length (row r.entries i) ≡ 256
  fits : r.count < 50
  count : r.count ≡ (if ltb h.count 50 then h.count else 49)
  kept : (i : ℕ) → i < r.count → row r.entries i ≡ row h.entries (i + (h.count - r.count))

make_room-RoomMade : (h : History) → IsHistory h → RoomMade h (make_room h)
unfolding make_room
make_room-RoomMade h v = elim (Bool-cases (leb 50 h.count)) [
  | inr room ↦ rw room (record {
    rows = v.rows;
    sizes = v.sizes;
    fits = ground arith;
    count = ground arith;
    kept = λ i lt. ap (row h.entries) (omega arith);
  })
  | inl full ↦
      let (len, shifted) = shift_rows-row 0 49 h.entries (omega (arith, v.rows)) in
      let all_used : h.count ≡ 50 = ground (arith, v.fits) in
      let moved : (i : ℕ) → i < 49 → row (shift_rows 0 49 h.entries) i ≡ row h.entries (i + 1) =
        λ i lt. ground (arith, shifted i) in
      rw full (record {
        rows = len ∙ v.rows;
        sizes = λ i lt. elim (dec_lt i 49) [
          | yes below ↦ ap length (moved i below) ∙ v.sizes (i + 1) (omega arith)
          | no last ↦
              ap length (
                let e : row (shift_rows 0 49 h.entries) i ≡ row h.entries i =
                  ground (arith, shifted i) in
                e)
              ∙ v.sizes i lt
        ];
        fits = omega arith;
        count = ground arith;
        kept = λ i lt. moved i lt ∙ ap (row h.entries) (omega arith);
      })
]

-- What `input_history_push` of a line makes of the history.
pub record Pushed (k : ℕ) (line : List ℕ) (h h' : History) : Type 0 where
  pub valid : IsHistory h'
  pub count : h'.count ≡ (if ltb h.count 50 then h.count + 1 else 50)
  pub current : h'.current ≡ h'.count
  pub newest : IsLine k (row h'.entries (h'.count - 1))
  pub chars : (j : ℕ) → j < k → at (row h'.entries (h'.count - 1)) j ≡ at line j
  pub older :
      (i : ℕ) → i < h'.count - 1 → row h'.entries i ≡ row h.entries (i + (h.count + 1 - h'.count))

-- `input_history_push` of a line appends it with its chars, keeps the entries before it in their order, and
-- drops the oldest one when 50 are there.
pub history_push-Pushed :
    (k : ℕ) (line : List ℕ) (h : History)
    → IsLine k line
    → IsHistory h
    → (h' : History) × (history_push line h ≡ some h') × Pushed k line h h'
unfolding history_push
history_push-Pushed k line h l v =
    let r = make_room h in
    let m = make_room-RoomMade h v in
    let (entry, run, el, copied) =
      copy_terminated-some k line (row r.entries r.count) l (m.sizes r.count m.fits) in
    let rows = set r.entries r.count entry in
    let here : row rows r.count ≡ entry =
      ground (arith, m.fits, m.rows, get_or-set r.entries r.count r.count entry []) in
    let other : (i : ℕ) → i ≢ r.count → row rows i ≡ row r.entries i =
      λ i n. ground (arith, get_or-set r.entries r.count i entry []) in
    let last : r.count + 1 - 1 ≡ r.count = omega arith in
    (
      record { entries = rows; count = r.count + 1; current = r.count + 1 },
      ground (arith, m.fits, m.rows),
      record {
        valid = record {
          rows = length-set r.entries r.count entry ∙ m.rows;
          sizes = λ i lt. elim (ℕ_discrete i r.count) [
            | yes new ↦ ap length (ap (row rows) new ∙ here) ∙ el.size
            | no old ↦ ap length (other i old) ∙ m.sizes i lt
          ];
          lines = λ i lt. elim (ℕ_discrete i r.count) [
            | yes new ↦ (k, subst (IsLine k) (sym (ap (row rows) new ∙ here)) el)
            | no old ↦
                let (j, lj) = v.lines (i + (h.count - r.count)) (ground (arith, m.count)) in
                (j, subst (IsLine j) (sym (other i old ∙ m.kept i (omega arith))) lj)
          ];
          fits = omega (arith, m.fits);
          within = omega arith;
        };
        count = ground (arith, m.count, v.fits);
        current = refl;
        newest = subst (IsLine k) (sym (ap (row rows) last ∙ here)) el;
        chars = λ j lt. ap (λ x. at x j) (ap (row rows) last ∙ here) ∙ copied j lt;
        older = λ i lt.
            other i (omega arith)
            ∙ m.kept i (omega arith)
            ∙ ap (row h.entries) (omega (arith, m.fits));
      },
    )

-- A line from the history in the editor.
pub record Loaded (k : ℕ) (line : List ℕ) (e' : Editor) : Type 0 where
  pub valid : IsValid e'
  pub sel : e'.sel ≡ none
  pub len : e'.len ≡ k
  pub cursor : e'.cursor ≡ k
  pub text : text e' ≡ window line 0 k

history_load-Loaded :
    (k : ℕ) (line : List ℕ) (e : Editor)
    → IsLine k line
    → IsValid e
    → (e' : Editor) × (history_load line e ≡ some e') × Loaded k line e'
unfolding history_load init
history_load-Loaded k line e l v =
    let (b, run, bl, copied) = copy_terminated-some k line (replicate 256 0) l refl in
    (
      record e { buffer = b; len = k; cursor = k; sel = none },
      ap (λ o. o >>= λ r. some (record e { buffer = r.0; len = r.1; cursor = r.1; sel = none }))
          run,
      record {
        valid = record {
          buffer_size = bl.size;
          clip_size = v.clip_size;
          fits = bl.fits;
          within = omega arith;
          terminated = bl.terminated;
          clip_fits = v.clip_fits;
        };
        sel = refl;
        len = refl;
        cursor = refl;
        text = window_start b line k copied;
      },
    )

walked : (h : History) (i : ℕ) → IsHistory h → i ≤ h.count → IsHistory (record h { current = i })
walked h i v le = record {
  rows = v.rows;
  sizes = v.sizes;
  lines = v.lines;
  fits = v.fits;
  within = le;
}

-- Up after a line was run, in a valid editor with whatever text and with a valid history, puts that
-- line's text there with the cursor at its end, also where the history was full.
pub arrow_up-history_push :
    (k : ℕ) (line : List ℕ) (h : History) (e : Editor)
    → IsLine k line
    → IsHistory h
    → IsValid e
    → (e' : Editor) × (h' : History) × ((history_push line h >>= arrow_up e) ≡ some (e', h'))
      × IsHistory h'
      × Loaded k line e'
unfolding arrow_up history_prev
arrow_up-history_push k line h e l v ev =
    let (p, pushed, pu) = history_push-Pushed k line h l v in
    let (e', loaded, lo) = history_load-Loaded k (row p.entries (p.count - 1)) e pu.newest ev in
    let i = p.current - 1 in
    let newest : i ≡ p.count - 1 = omega (arith, pu.current) in
    let run : history_load (row p.entries i) e ≡ some e' =
      ap (λ j. history_load (row p.entries j) e) newest ∙ loaded in
    (
      e',
      record p { current = i },
      ap (λ o. o >>= arrow_up e) pushed ∙ ground (arith, pu.count, pu.current),
      walked p i pu.valid (omega (arith, pu.current)),
      record {
        valid = lo.valid;
        sel = lo.sel;
        len = lo.len;
        cursor = lo.cursor;
        text = lo.text ∙ window_start _ line k pu.chars;
      },
    )

-- The keys Up and Down, in a valid editor and at any place in a valid history, read only lines that
-- were run and leave the editor and the history valid.
pub arrow-IsValid :
    (down : Bool) (e : Editor) (h : History)
    → IsValid e
    → IsHistory h
    → (e' : Editor) × (h' : History) × ((if down then arrow_down e h else arrow_up e h)
        ≡ some (e', h'))
      × IsValid e'
      × IsHistory h'
unfolding arrow_down arrow_up history_prev history_next init
arrow-IsValid false e h ev v = elim (dec_lt 0 h.current) [
  | no oldest ↦ (e, h, ground arith, ev, v)
  | yes more ↦
      let (k, l) = v.lines (h.current - 1) (omega (arith, v.within)) in
      let (e', run, lo) = history_load-Loaded k _ e l ev in
      (
        e',
        record h { current = h.current - 1 },
        ground arith,
        lo.valid,
        walked h _ v (omega (arith, v.within)),
      )
]
arrow-IsValid true e h ev v = elim (dec_lt h.current (h.count - 1)) [
  | no newest ↦ (
    init e,
    record h { current = h.count },
    ground arith,
    init-IsValid e ev,
    walked h _ v (omega arith),
  )
  | yes more ↦
      let (k, l) = v.lines (h.current + 1) (omega arith) in
      let (e', run, lo) = history_load-Loaded k _ e l ev in
      (e', record h { current = h.current + 1 }, ground arith, lo.valid, walked h _ v (omega arith))
]
  where
    init-IsValid : (e : Editor) → IsValid e → IsValid (init e)
    init-IsValid e v = record {
      buffer_size = refl;
      clip_size = v.clip_size;
      fits = omega arith;
      within = omega arith;
      terminated = refl;
      clip_fits = v.clip_fits;
    }
