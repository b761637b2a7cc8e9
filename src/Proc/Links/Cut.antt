-- ===== src/Proc/Links/Cut.antt =====
-- kernel/proc/: a thread taken out of the middle of a linked list.
use mathlib.Core.List.{append_assoc, append-nil}
use makh.Prelude.{
  ◌≡◌, ◌≢◌, refl, sym, ◌∙◌, ap, List, [], ◌∷◌, ◌++◌, ◌==◌, subst, true, false, if◌then◌else◌, arith,
  ℕ_discrete,
}
use makh.Proc.Links.{
  Ptr, null, upd, count, last, Chain, Distinct, Chain-frame, Chain-pop, Chain-null, count-append,
  last-in, last-append,
}

-- `*link = x->next; x->next = NULL;`, where `link` is the head or the field of `prev`.
abbrev pub cut_next : (Ptr → Ptr) → Ptr → Ptr → Ptr → Ptr
cut_next next prev x = if prev == null then upd next x null else upd (upd next prev (next x)) x null

abbrev pub cut_head : (Ptr → Ptr) → Ptr → Ptr → Ptr → Ptr
cut_head next head prev x = if prev == null then next x else head

-- The links of the addresses before `x` do not change, but for the last one's, which skips `x`.
Chain-skip :
    {next next' : Ptr → Ptr} (h y x : Ptr) (ys post : List Ptr)
    → Chain next h (y ∷ (ys ++ (x ∷ post)))
    → Distinct (y ∷ (ys ++ (x ∷ post)))
    → next' (last (y ∷ ys)) ≡ next x
    → ((a : Ptr) → a ≢ x → a ≢ last (y ∷ ys) → next' a ≡ next a)
    → Chain next' h (y ∷ (ys ++ post))
Chain-skip {next} {next'} h y x [] post (here, there, (here', there', rest)) once linked same = (
  here,
  there,
  subst (λ p. Chain next' p post) (sym linked)
      (Chain-frame (next x) post
        (λ a m.
          same a (λ e. m (ap (λ b. count b post) e ∙ ground (arith, once x)))
            (λ e. m (ap (λ b. count b post) e ∙ ground (arith, once y))))
        rest),
)
Chain-skip {next} {next'} h y x (z ∷ zs) post (here, there, rest) once linked same =
    let all = z ∷ (zs ++ (x ∷ post)) in
    let free : count y all ≡ 0 = ground (arith, once y) in
    let not_x : y ≢ x = λ e.
      ground (arith, count-append x (z ∷ zs) (x ∷ post), subst (λ a. count a all ≡ 0) e free) in
    let not_last : y ≢ last (z ∷ zs) = λ e. last-in z zs (
      ground (
        arith,
        count-append (last (z ∷ zs)) (z ∷ zs) (x ∷ post),
        subst (λ a. count a all ≡ 0) e free,
      )) in
    (
      here,
      there,
      subst (λ p. Chain next' p (z ∷ (zs ++ post))) (sym (same y not_x not_last))
          (Chain-skip (next y) z x zs post rest (λ a. ground (arith, once a)) linked same),
    )

pub two_places : (x : Ptr) (pre post : List Ptr) → Distinct (pre ++ (x ∷ post)) → count x pre ≡ 0
two_places x pre post once = ground (arith, once x, count-append x pre (x ∷ post))

-- A thread is taken out of the list of which it is a part.
pub Chain-cut :
    (next : Ptr → Ptr) (h prev x : Ptr) (pre post : List Ptr)
    → Chain next h (pre ++ (x ∷ post))
    → Distinct (pre ++ (x ∷ post))
    → prev ≡ last pre
    → Chain (cut_next next prev x) (cut_head next h prev x) (pre ++ post)
Chain-cut next h prev x [] post c once ends =
    let (here, there, rest) = c in
    let popped = Chain-pop next h x post c once in
    rw ends (subst (λ a. Chain (upd next a null) (next a) post) here popped)
Chain-cut next h prev x (y ∷ ys) post c once ends =
    let z = last (y ∷ ys) in
    let inside : count z (y ∷ ys) ≢ 0 = last-in y ys in
    let some_prev : prev ≢ null = λ e. inside (
      ground (
        arith,
        count-append z (y ∷ ys) (x ∷ post),
        subst (λ a. count a (y ∷ (ys ++ (x ∷ post))) ≡ 0) (sym e ∙ ends)
            (Chain-null next h (y ∷ (ys ++ (x ∷ post))) c),
      )) in
    let other : prev ≢ x = λ e.
      let e' : x ≡ z = sym e ∙ ends in
      subst (λ a. count a (y ∷ ys) ≢ 0) (sym e') inside (two_places x (y ∷ ys) post once) in
    let at : cut_head next h prev x ≡ h = ground arith in
    rw at
      (Chain-skip h y x ys post c once (ground (arith, ends)) (λ a a_x a_z. ground (arith, ends)))

pub last-append_cons : (x : Ptr) (pre post : List Ptr) → last (pre ++ (x ∷ post)) ≡ last (x ∷ post)
last-append_cons x [] post = refl
last-append_cons x (y ∷ []) post = refl
last-append_cons x (y ∷ (z ∷ zs)) post = last-append_cons x (z ∷ zs) post

-- `if (tail == x) tail = prev;`
pub tail-cut :
    (prev x tail : Ptr) (pre post : List Ptr)
    → Distinct (pre ++ (x ∷ post))
    → prev ≡ last pre
    → tail ≡ last (pre ++ (x ∷ post))
    → (if tail == x then prev else tail) ≡ last (pre ++ post)
tail-cut prev x tail pre [] once start ends =
    let same : tail ≡ x = ends ∙ last-append x pre in
    let test : (tail == x) ≡ true = ground arith in rw (test, append-nil pre) start
tail-cut prev x tail pre (y ∷ ys) once start ends =
    let at : tail ≡ last (y ∷ ys) = ends ∙ last-append_cons x pre (y ∷ ys) in
    let apart : tail ≢ x = λ e. last-in y ys (
      subst (λ a. count a (y ∷ ys) ≡ 0) (sym e ∙ at)
        (ground (arith, once x, count-append x pre (x ∷ (y ∷ ys))))) in
    let test : (tail == x) ≡ false = ground arith in rw test (at ∙ sym (last-append_cons y pre ys))

pub Distinct-cut :
    (x : Ptr) (pre post : List Ptr) → Distinct (pre ++ (x ∷ post)) → Distinct (pre ++ post)
Distinct-cut x pre post once a =
    ground (arith, once a, count-append a pre (x ∷ post), count-append a pre post)

-- The list without the first place of an address.
abbrev pub erase : Ptr → List Ptr → List Ptr
erase t [] = []
erase t (x ∷ xs) = if x == t then xs else x ∷ erase t xs

-- The place of a loop in a list: the addresses that it has passed, none of them `t`, and those to come.
pub record IsAt (next : Ptr → Ptr) (head prev at t : Ptr) (pre post : List Ptr) : Type 0 where
  pub all : Chain next head (pre ++ post)
  pub once : Distinct (pre ++ post)
  pub here : Chain next at post
  pub behind : prev ≡ last pre
  pub passed : count t pre ≡ 0

pub start-IsAt :
    {next : Ptr → Ptr} {head t : Ptr} {xs : List Ptr}
    → Chain next head xs
    → Distinct xs
    → IsAt next head null head t [] xs
start-IsAt c once = record { all = c; once = once; here = c; behind = refl; passed = refl }

-- A loop goes on to the next address.
pub next-IsAt :
    (next : Ptr → Ptr) (head prev at t x : Ptr) (pre post : List Ptr)
    → IsAt next head prev at t pre (x ∷ post)
    → x ≢ t
    → IsAt next head at (next at) t (pre ++ (x ∷ [])) post
next-IsAt next head prev at t x pre post v other =
    let (here, there, rest) = v.here in
    let same : (pre ++ (x ∷ [])) ++ post ≡ pre ++ (x ∷ post) = append_assoc pre (x ∷ []) post in
    record {
      all = rw same v.all;
      once = rw same v.once;
      here = rw here rest;
      behind = here ∙ sym (last-append x pre);
      passed = ground (arith, v.passed, count-append t pre (x ∷ []));
    }

-- The last address that a loop has passed does not come again.
last-apart :
    (prev x : Ptr) (pre post : List Ptr)
    → Distinct (pre ++ (x ∷ post))
    → prev ≡ last pre
    → prev ≢ null
    → count prev post ≡ 0
last-apart prev x [] post once behind proper = absurd (proper behind)
last-apart prev x (y ∷ ys) post once behind proper =
    let inside : count prev (y ∷ ys) ≢ 0 =
      subst (λ a. count a (y ∷ ys) ≢ 0) (sym behind) (last-in y ys) in
    ground (arith, once prev, count-append prev (y ∷ ys) (x ∷ post))

-- A loop that takes the address at its place out of the list goes on behind it.
pub cut-IsAt :
    (next : Ptr → Ptr) (head prev at t x : Ptr) (pre post : List Ptr)
    → IsAt next head prev at t pre (x ∷ post)
    → IsAt (cut_next next prev x) (cut_head next head prev x) prev (next at) t pre post
cut-IsAt next head prev at t x pre post v =
    let (here, there, rest) = v.here in
    record {
      all = Chain-cut next head prev x pre post v.all v.once v.behind;
      once = Distinct-cut x pre post v.once;
      here = rw here (Chain-frame (next x) post untouched rest);
      behind = v.behind;
      passed = v.passed;
    }
  where
    untouched : (a : Ptr) → count a post ≢ 0 → cut_next next prev x a ≡ next a
    untouched a m =
        let new : count x post ≡ 0 = ground (arith, v.once x, count-append x pre (x ∷ post)) in
        let not_x : a ≢ x = λ e. m (ap (λ b. count b post) e ∙ new) in
        elim (ℕ_discrete prev null) [
          | yes start ↦ ground arith
          | no behind ↦
              let not_prev : a ≢ prev = λ e.
                m (ap (λ b. count b post) e ∙ last-apart prev x pre post v.once v.behind behind) in
              ground arith
        ]
