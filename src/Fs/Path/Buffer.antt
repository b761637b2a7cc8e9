-- ===== src/Fs/Path/Buffer.antt =====
-- kernel/fs/path.c: the writes to the buffer.
use mathlib.Core.List.{append_assoc, append-nil}
use makh.Prelude.{
  ℕ, ◌+◌, ◌≡◌, ◌≤◌, ◌<◌, refl, sym, ◌∙◌, ap, true, some, List, [], ◌∷◌, ◌++◌, ltb, length, set,
  length-append, length-set, arith, get_or-set, subst,
}
use makh.Fs.Path.{Chars, Canon, put, put_all}
use makh.Fs.Path.Stack.{Starts, nothing, first, Ends}

pub Starts-prefix : (out : List ℕ) (t u : Chars) → Starts out (t ++ u) → Starts out t
Starts-prefix out [] u v = nothing
Starts-prefix [] (c ∷ t) u v = elim v [ ]
Starts-prefix (d ∷ out) (c ∷ t) u (first v) = first (Starts-prefix out t u v)

pub Starts-snoc :
    (out : List ℕ) (t : Chars) (c : ℕ)
    → Starts out t
    → length t < length out
    → Starts (set out (length t) c) (t ++ (c ∷ []))
Starts-snoc [] t c v room = absurd (omega arith)
Starts-snoc (d ∷ out) [] c v room = first nothing
Starts-snoc (d ∷ out) (e ∷ t) c (first v) room = first (Starts-snoc out t c v (omega arith))

-- A state that differs in the buffer only, which holds the text.
pub record Wrote (s : Canon) (t : Chars) (s' : Canon) : Type 0 where
  pub starts : Starts s'.out t
  pub len_text : s'.len ≡ length t
  pub size : length s'.out ≡ length s.out
  pub same_end : s'.end ≡ s.end
  pub same_ncomp : s'.ncomp ≡ s.ncomp

pub put-Wrote :
    (c : ℕ) (t : Chars) (s : Canon)
    → Starts s.out t
    → s.len ≡ length t
    → length t < length s.out
    → (s' : Canon) × (put c s ≡ some s') × Wrote s (t ++ (c ∷ [])) s'
unfolding put
put-Wrote c t s v at room =
    let inside : ltb s.len (length s.out) ≡ true = ground arith in
    (
      record s { out = set s.out s.len c; len = s.len + 1 },
      rw inside refl,
      record {
        starts = rw at (Starts-snoc s.out t c v room);
        len_text = rw at (omega (arith, length-append t (c ∷ [])));
        size = length-set s.out s.len c;
        same_end = refl;
        same_ncomp = refl;
      },
    )

pub put_all-Wrote :
    (st t : Chars) (s : Canon)
    → Starts s.out t
    → s.len ≡ length t
    → length t + length st ≤ length s.out
    → (s' : Canon) × (put_all st s ≡ some s') × Wrote s (t ++ st) s'
unfolding put_all
put_all-Wrote [] t s v at room = (
  s,
  refl,
  record {
    starts = subst (Starts s.out) (sym (append-nil t)) v;
    len_text = at ∙ ap length (sym (append-nil t));
    size = refl;
    same_end = refl;
    same_ncomp = refl;
  },
)
put_all-Wrote (c ∷ st) t s v at room =
    let (s1, run1, w1) = put-Wrote c t s v at (omega arith) in
    let (s2, run2, w2) =
      put_all-Wrote st (t ++ (c ∷ [])) s1 w1.starts w1.len_text
        (omega (arith, length-append t (c ∷ []), w1.size)) in
    (
      s2,
      rw run1 run2,
      record {
        starts = subst (Starts s2.out) (append_assoc t (c ∷ []) st) w2.starts;
        len_text = w2.len_text ∙ ap length (append_assoc t (c ∷ []) st);
        size = w2.size ∙ w1.size;
        same_end = w2.same_end ∙ w1.same_end;
        same_ncomp = w2.same_ncomp ∙ w1.same_ncomp;
      },
    )

pub Ends-set :
    (end : List ℕ) (i v : ℕ) (ws : List Chars) → length ws ≤ i → Ends end ws → Ends (set end i v) ws
Ends-set end i v [] below e = tt
Ends-set end i v (w ∷ ws) below (here, rest) =
    (ground (arith, get_or-set end i (length ws) v 0, here), Ends-set end i v ws (omega arith) rest)
