-- ===== src/Fs/Path/Pieces.antt =====
-- kernel/fs/path.c: a component that is written or taken back, on the buffer and on the stack.
use mathlib.Core.List.{append_assoc}
use makh.Prelude.{
  ℕ, ◌+◌, ◌-◌, ◌≡◌, ◌≤◌, refl, sym, ◌∙◌, ap, true, false, Option, none, some, List, [], ◌∷◌, ◌++◌,
  ◌==◌, ltb, leb, if◌then◌else◌, length, get_or, set, length-append, length-set, arith, get_or-set,
  subst, All,
}
use makh.Fs.Path.{
  Chars, Canon, Status, going, failed, slash, erange, path_max_comps, write_piece, go_up, append,
}
use makh.Fs.Path.Stack.{text, popped, Starts, Ends, Stands}
use makh.Fs.Path.Buffer.{Wrote, put-Wrote, put_all-Wrote, Starts-prefix, Ends-set}

-- What a run of the program stands for: a stack, or the error of the limits.
abbrev pub Result : ℕ → Option (List Chars) → Option Status → Type 0
Result outsz none r = r ≡ some (failed erange)
Result outsz (some ws) r = (s : Canon) × (r ≡ some (going s)) × Stands outsz s ws

pub text-shorter :
    (w : Chars) (ws : List Chars) → (rest : Chars) × (text (w ∷ ws) ≡ text ws ++ rest)
unfolding text
text-shorter w [] = (w, refl)
text-shorter w (v ∷ ws) = (slash ∷ w, refl)

pub shorter-Starts :
    (out : List ℕ) (w : Chars) (ws : List Chars) → Starts out (text (w ∷ ws)) → Starts out (text ws)
shorter-Starts out w ws v =
    let (rest, e) = text-shorter w ws in Starts-prefix out (text ws) rest (subst (Starts out) e v)

pub length-shorter : (w : Chars) (ws : List Chars) → length (text ws) ≤ length (text (w ∷ ws))
length-shorter w ws =
    let (rest, e) = text-shorter w ws in rw e (omega (arith, length-append (text ws) rest))

pub go_up-Stands :
    (outsz : ℕ) (s : Canon) (ws : List Chars)
    → Stands outsz s ws
    → (s' : Canon) × (go_up s ≡ some s') × Stands outsz s' (popped ws)
unfolding go_up text
go_up-Stands outsz s [] v =
    let test : (s.ncomp == 0) ≡ true = ground (arith, v.count) in (s, rw test refl, v)
go_up-Stands outsz s (w ∷ []) v =
    let test : (s.ncomp == 0) ≡ false = ground (arith, v.count) in
    let last : (s.ncomp - 1 == 0) ≡ true = ground (arith, v.count) in
    (
      record s { ncomp = s.ncomp - 1; len = 1 },
      rw (test, last) refl,
      record {
        starts = shorter-Starts s.out w [] v.starts;
        len_text = refl;
        count = omega (arith, v.count);
        ends = tt;
        few = omega arith;
        fits = omega (arith, v.fits, length-shorter w []);
        room = v.room;
        slots = v.slots;
        real = tt;
      },
    )
go_up-Stands outsz s (w ∷ (u ∷ ws)) v =
    let test : (s.ncomp == 0) ≡ false = ground (arith, v.count) in
    let last : (s.ncomp - 1 == 0) ≡ false = ground (arith, v.count) in
    let inside : ltb (s.ncomp - 1 - 1) (length s.end) ≡ true =
      ground (arith, v.count, v.slots, v.few) in
    (
      record s { ncomp = s.ncomp - 1; len = get_or s.end (s.ncomp - 1 - 1) 0 },
      rw (test, last, inside) refl,
      record {
        starts = shorter-Starts s.out w (u ∷ ws) v.starts;
        len_text = ap (λ i. get_or s.end i 0) (omega (arith, v.count)) ∙ v.ends.1.0;
        count = omega (arith, v.count);
        ends = v.ends.1;
        few = omega (arith, v.few);
        fits = omega (arith, v.fits, length-shorter w (u ∷ ws));
        room = v.room;
        slots = v.slots;
        real = v.real.1;
      },
    )

pub longer :
    (u : Chars) (ws : List Chars) → All (λ w. 1 ≤ length w) (u ∷ ws) → 2 ≤ length (text (u ∷ ws))
unfolding text
longer u [] real = omega (arith, real.0)
longer u (v ∷ ws) real = omega (arith, real.0, length-append (text (v ∷ ws)) (slash ∷ u))

-- What is written for a component behind a stack.
abbrev pub piece : Chars → List Chars → Chars
piece w [] = w
piece w (v ∷ ws) = slash ∷ w

pub text-piece : (w : Chars) (ws : List Chars) → text (w ∷ ws) ≡ text ws ++ piece w ws
unfolding text
text-piece w [] = refl
text-piece w (v ∷ ws) = refl

pub write_piece-Wrote :
    (outsz : ℕ) (w : Chars) (s : Canon) (ws : List Chars)
    → Stands outsz s ws
    → length (text (w ∷ ws)) ≤ length s.out
    → (s' : Canon) × (write_piece w s ≡ some s') × Wrote s (text (w ∷ ws)) s'
unfolding write_piece text
write_piece-Wrote outsz w s [] v room =
    let test : (s.len == 1) ≡ true = ground (arith, v.len_text) in
    let (s', run, d) = put_all-Wrote w (slash ∷ []) s v.starts v.len_text (omega (arith, room)) in
    (s', rw test run, d)
write_piece-Wrote outsz w s (u ∷ ws) v room =
    let t = text (u ∷ ws) in
    let long : 2 ≤ length t = longer u ws v.real in
    let test : (s.len == 1) ≡ false = ground (arith, v.len_text, long) in
    let size = length-append t (slash ∷ w) in
    let (s1, run1, d1) = put-Wrote slash t s v.starts v.len_text (omega (arith, room, size)) in
    let (s', run, d) =
      put_all-Wrote w (t ++ (slash ∷ [])) s1 d1.starts d1.len_text
        (omega (arith, room, size, length-append t (slash ∷ []), d1.size)) in
    (
      s',
      rw (test, run1) run,
      record {
        starts = subst (Starts s'.out) (append_assoc t (slash ∷ []) w) d.starts;
        len_text = d.len_text ∙ ap length (append_assoc t (slash ∷ []) w);
        size = d.size ∙ d1.size;
        same_end = d.same_end ∙ d1.same_end;
        same_ncomp = d.same_ncomp ∙ d1.same_ncomp;
      },
    )

pub need-text :
    (outsz : ℕ) (w : Chars) (s : Canon) (ws : List Chars)
    → Stands outsz s ws
    → s.len + ((if s.len == 1 then 0 else 1) + length w) ≡ length (text (w ∷ ws))
unfolding text
need-text outsz w s [] v = ground (arith, v.len_text)
need-text outsz w s (u ∷ ws) v =
    ground (arith, v.len_text, longer u ws v.real, length-append (text (u ∷ ws)) (slash ∷ w))

pub append-Stands :
    (outsz : ℕ) (w : Chars) (s : Canon) (ws : List Chars)
    → Stands outsz s ws
    → 1 ≤ length w
    → leb path_max_comps (length ws) ≡ false
    → ltb outsz (length (text (w ∷ ws)) + 1) ≡ false
    → (s' : Canon) × (append outsz w s ≡ some (going s')) × Stands outsz s' (w ∷ ws)
unfolding append
append-Stands outsz w s ws v real few fits =
    let (s2, run, d) = write_piece-Wrote outsz w s ws v (ground (arith, fits, v.room)) in
    let n1 : leb path_max_comps s.ncomp ≡ false = ap (leb path_max_comps) v.count ∙ few in
    let n2 : ltb outsz (s.len + ((if s.len == 1 then 0 else 1) + length w) + 1) ≡ false =
      ap (λ n. ltb outsz (n + 1)) (need-text outsz w s ws v) ∙ fits in
    let size : length s2.end ≡ path_max_comps = ap length d.same_end ∙ v.slots in
    let n3 : ltb s2.ncomp (length s2.end) ≡ true = ground (arith, d.same_ncomp, n1, size) in
    let at : s2.ncomp ≡ length ws = d.same_ncomp ∙ v.count in
    let wrote_end : get_or (set s2.end s2.ncomp s2.len) (length ws) 0 ≡ length (text (w ∷ ws)) =
      ground (arith, get_or-set s2.end s2.ncomp (length ws) s2.len 0, d.len_text, at, n3) in
    (
      record s2 { end = set s2.end s2.ncomp s2.len; ncomp = s2.ncomp + 1 },
      rw (n1, n2, run, n3) refl,
      record {
        starts = d.starts;
        len_text = d.len_text;
        count = omega (arith, d.same_ncomp, v.count);
        ends = (
          wrote_end,
          Ends-set s2.end s2.ncomp s2.len ws (omega (arith, at))
              (subst (λ l. Ends l ws) (sym d.same_end) v.ends),
        );
        few = ground (arith, few);
        fits = ground (arith, fits);
        room = omega (arith, v.room, d.size);
        slots = length-set s2.end s2.ncomp s2.len ∙ size;
        real = (real, v.real);
      },
    )
