-- ===== src/Proc/Links.antt =====
-- kernel/proc/: threads as addresses, the null pointer among them, a struct's fields as one map each, and
-- the lists that are linked through such a field.
pub mod Cut
use makh.Prelude.{
  ℕ, zero, suc, ◌+◌, ◌≡◌, ◌≢◌, refl, sym, ◌∙◌, ap, List, [], ◌∷◌, ◌++◌, ◌==◌, ◌≤◌, subst,
  if◌then◌else◌, arith,
}

abbrev pub Ptr : Type 0
Ptr = ℕ

abbrev pub null : Ptr
null = 0

-- A field of every thread, and `t->field = v`.
abbrev pub upd : {A : Type 0} → (Ptr → A) → Ptr → A → Ptr → A
upd f t v a = if a == t then v else f a

-- How often an address stands in a list.
abbrev pub count : Ptr → List Ptr → ℕ
count a [] = 0
count a (x ∷ xs) = (if x == a then 1 else 0) + count a xs

-- The last address of a list, null for the empty one.
abbrev pub last : List Ptr → Ptr
last [] = null
last (x ∷ []) = x
last (x ∷ (y ∷ ys)) = last (y ∷ ys)

-- From `h` the links lead through the addresses of the list to null.
abbrev pub Chain : (Ptr → Ptr) → Ptr → List Ptr → Type 0
Chain next h [] = h ≡ null
Chain next h (x ∷ xs) = (h ≡ x) × (x ≢ null) × Chain next (next x) xs

-- Every address is in the list at most once.
abbrev pub Distinct : List Ptr → Type 0
Distinct xs = (a : Ptr) → count a xs ≤ 1

pub count-append : (a : Ptr) (xs ys : List Ptr) → count a (xs ++ ys) ≡ count a xs + count a ys
count-append a [] ys = omega arith
count-append a (x ∷ xs) ys = omega (arith, count-append a xs ys)

pub Chain-frame :
    {next next' : Ptr → Ptr} (h : Ptr) (xs : List Ptr)
    → ((a : Ptr) → count a xs ≢ 0 → next' a ≡ next a)
    → Chain next h xs
    → Chain next' h xs
Chain-frame h [] same c = c
Chain-frame {next} {next'} h (x ∷ xs) same (here, there, rest) = (
  here,
  there,
  subst (λ p. Chain next' p xs) (sym (same x (ground arith)))
      (Chain-frame (next x) xs (λ a m. same a (ground (arith, m))) rest),
)

pub last-in : (x : Ptr) (xs : List Ptr) → count (last (x ∷ xs)) (x ∷ xs) ≢ 0
last-in x [] = ground arith
last-in x (y ∷ ys) = ground (arith, last-in y ys)

pub last-append : (t : Ptr) (xs : List Ptr) → last (xs ++ (t ∷ [])) ≡ t
last-append t [] = refl
last-append t (x ∷ []) = refl
last-append t (x ∷ (y ∷ ys)) = last-append t (y ∷ ys)

-- No address of a list is null.
pub Chain-null : (next : Ptr → Ptr) (h : Ptr) (xs : List Ptr) → Chain next h xs → count null xs ≡ 0
Chain-null next h [] c = refl
Chain-null next h (x ∷ xs) (here, there, rest) =
    ground (arith, Chain-null next (next x) xs rest, there)

-- The last address gets a successor that has none.
pub Chain-append :
    {next next' : Ptr → Ptr} (h t x : Ptr) (xs : List Ptr)
    → Chain next h (x ∷ xs)
    → Distinct (x ∷ xs)
    → ((a : Ptr) → count a (x ∷ xs) ≢ 0 → a ≢ last (x ∷ xs) → next' a ≡ next a)
    → next' (last (x ∷ xs)) ≡ t
    → t ≢ null
    → next' t ≡ null
    → Chain next' h (x ∷ (xs ++ (t ∷ [])))
Chain-append h t x [] (here, there, rest) once same linked proper end =
    (here, there, (linked, proper, end))
Chain-append {next} {next'} h t x (y ∷ ys) (here, there, rest) once same linked proper end =
    let free : count x (y ∷ ys) ≡ 0 = ground (arith, once x) in
    let inner : x ≢ last (y ∷ ys) = λ e. last-in y ys (subst (λ p. count p (y ∷ ys) ≡ 0) e free) in
    let at : next' x ≡ next x = same x (ground arith) inner in
    (
      here,
      there,
      subst (λ p. Chain next' p (y ∷ (ys ++ (t ∷ [])))) (sym at)
          (Chain-append (next x) t y ys rest (λ a. ground (arith, once a))
            (λ a m e. same a (ground (arith, m)) e) linked proper end),
    )

-- `t->next = NULL; if (tail) tail->next = t; else head = t; tail = t;`
abbrev pub push_next : (Ptr → Ptr) → Ptr → Ptr → Ptr → Ptr
push_next next tail t = if tail == null then upd next t null else upd (upd next t null) tail t

abbrev pub push_head : Ptr → Ptr → Ptr → Ptr
push_head head tail t = if tail == null then t else head

pub push_next-elsewhere :
    (next : Ptr → Ptr) (tail t a : Ptr) → a ≢ t → a ≢ tail → push_next next tail t a ≡ next a
push_next-elsewhere next tail t a ht hl = ground arith

pub last-null :
    (next : Ptr → Ptr) (h x : Ptr) (xs : List Ptr) → Chain next h (x ∷ xs) → last (x ∷ xs) ≢ null
last-null next h x xs c e =
    last-in x xs (subst (λ p. count p (x ∷ xs) ≡ 0) (sym e) (Chain-null next h (x ∷ xs) c))

-- A push appends to the list that a queue holds.
pub Chain-push :
    (next : Ptr → Ptr) (head tail t : Ptr) (xs : List Ptr)
    → Chain next head xs
    → Distinct xs
    → tail ≡ last xs
    → count t xs ≡ 0
    → t ≢ null
    → Chain (push_next next tail t) (push_head head tail t) (xs ++ (t ∷ []))
Chain-push next head tail t [] c once ends new proper = (ground arith, proper, ground arith)
Chain-push next head tail t (x ∷ xs) c once ends new proper =
    let some_tail : tail ≢ null = λ e. last-null next head x xs c (sym ends ∙ e) in
    let here : push_head head tail t ≡ head = ground arith in
    let apart : last (x ∷ xs) ≢ t =
      λ e. last-in x xs (subst (λ p. count p (x ∷ xs) ≡ 0) (sym e) new) in
    rw here (
      Chain-append head t x xs c once
        (λ a m e.
          push_next-elsewhere next tail t a
            (λ same. m (subst (λ p. count p (x ∷ xs) ≡ 0) (sym same) new))
            (λ same. e (same ∙ ends)))
        (ground (arith, ends)) proper (ground (arith, ends)))

-- A write to an address that is not in the list keeps it.
pub Chain-upd :
    (next : Ptr → Ptr) (h t p : Ptr) (xs : List Ptr)
    → count t xs ≡ 0
    → Chain next h xs
    → Chain (upd next t p) h xs
Chain-upd next h t p xs out c =
    Chain-frame h xs (λ a m. ground (arith, λ (e : a ≡ t). m (ap (λ b. count b xs) e ∙ out))) c

-- The rest of a queue whose head is taken off, as long as no address stands in it twice.
pub Chain-pop :
    (next : Ptr → Ptr) (h x : Ptr) (xs : List Ptr)
    → Chain next h (x ∷ xs)
    → Distinct (x ∷ xs)
    → Chain (upd next h null) (next h) xs
Chain-pop next h x xs (here, there, rest) once =
    rw here (Chain-upd next (next x) x null xs (ground (arith, once x)) rest)

-- `if (!head) tail = NULL;`
pub tail-pop :
    (next : Ptr → Ptr) (h x tail : Ptr) (xs : List Ptr)
    → Chain next h (x ∷ xs)
    → tail ≡ last (x ∷ xs)
    → (if next h == null then null else tail) ≡ last xs
tail-pop next h x tail [] (here, there, rest) ends = rw (here, rest) refl
tail-pop next h x tail (y ∷ ys) (here, there, (here', there', rest)) ends =
    rw (here, here') (ground (arith, ends))

abbrev pub length : List Ptr → ℕ
length [] = 0
length (x ∷ xs) = suc (length xs)
