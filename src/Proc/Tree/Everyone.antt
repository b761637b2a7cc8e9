-- ===== src/Proc/Tree/Everyone.antt =====
-- kernel/proc/list/list.c: the list of all processes, linked both ways.
use mathlib.Core.List.{append-nil}
use makh.Prelude.{
  ◌+◌, ◌≡◌, ◌≢◌, ◌<◌, refl, sym, ◌∙◌, ap, true, false, List, [], ◌∷◌, ◌++◌, ◌==◌, if◌then◌else◌,
  arith,
}
use makh.Proc.Links.{
  Ptr, null, upd, count, last, length, Chain, Distinct, Chain-push, count-append, last-append,
  Chain-null,
}
use makh.Proc.Links.Cut.{Chain-cut, Distinct-cut, two_places, last-append_cons}
use makh.Proc.Sched.Wait.{max_processes}
use makh.Proc.Tree.{Procs, all_list_add, all_list_remove}
use makh.Proc.Tree.Families.{length-append}

-- Each address has the one before it, `p` for the first, as its `prev`.
abbrev pub Backs : (Ptr → Ptr) → Ptr → List Ptr → Type 0
Backs prev p [] = Unit
Backs prev p (x ∷ xs) = (prev x ≡ p) × Backs prev x xs

-- The last address of a list, `p` for the empty one.
abbrev pub last_or : Ptr → List Ptr → Ptr
last_or p [] = p
last_or p (x ∷ xs) = last_or x xs

last_or-last : (x : Ptr) (xs : List Ptr) → last_or x xs ≡ last (x ∷ xs)
last_or-last x [] = refl
last_or-last x (y ∷ ys) = last_or-last y ys

pub last_or-null : (xs : List Ptr) → last_or null xs ≡ last xs
last_or-null [] = refl
last_or-null (x ∷ xs) = last_or-last x xs

Backs-frame :
    (prev prev' : Ptr → Ptr) (p : Ptr) (xs : List Ptr)
    → ((a : Ptr) → count a xs ≢ 0 → prev' a ≡ prev a)
    → Backs prev p xs
    → Backs prev' p xs
Backs-frame prev prev' p [] same b = tt
Backs-frame prev prev' p (x ∷ xs) same (here, rest) = (
  same x (ground arith) ∙ here,
  Backs-frame prev prev' x xs (λ a m. same a (ground (arith, m))) rest,
)

Backs-join :
    (prev : Ptr → Ptr) (p : Ptr) (xs ys : List Ptr)
    → Backs prev p xs
    → Backs prev (last_or p xs) ys
    → Backs prev p (xs ++ ys)
Backs-join prev p [] ys b c = c
Backs-join prev p (x ∷ xs) ys (here, rest) c = (here, Backs-join prev x xs ys rest c)

Backs-front :
    (prev : Ptr → Ptr) (p : Ptr) (xs ys : List Ptr) → Backs prev p (xs ++ ys) → Backs prev p xs
Backs-front prev p [] ys b = tt
Backs-front prev p (x ∷ xs) ys (here, rest) = (here, Backs-front prev x xs ys rest)

Backs-back :
    (prev : Ptr → Ptr) (p : Ptr) (xs ys : List Ptr)
    → Backs prev p (xs ++ ys)
    → Backs prev (last_or p xs) ys
Backs-back prev p [] ys b = b
Backs-back prev p (x ∷ xs) ys (here, rest) = Backs-back prev x xs ys rest

-- The list of all processes is the given one, both ways.
pub record Everyone (s : Procs) (xs : List Ptr) : Type 0 where
  pub chain : Chain s.all_next s.all_head xs
  pub backs : Backs s.all_prev null xs
  pub tails : s.all_tail ≡ last xs
  pub once : Distinct xs
  pub number : s.all_count ≡ length xs

-- `all_list_add` puts a process that is not on the list at its end, where it is shorter than the table.
pub all_list_add-Everyone :
    (s : Procs) (c : Ptr) (xs : List Ptr)
    → Everyone s xs
    → c ≢ null
    → count c xs ≡ 0
    → length xs < max_processes
    → Everyone (all_list_add c s) (xs ++ (c ∷ []))
unfolding all_list_add
all_list_add-Everyone s c xs v proper new few =
    let test : (c == null) ≡ false = ground arith in
    let here : (c == c) ≡ true = ground arith in
    rw test (record {
      chain = Chain-push s.all_next s.all_head s.all_tail c xs v.chain v.once v.tails new proper;
      backs =
          Backs-join (upd s.all_prev c s.all_tail) null xs (c ∷ [])
            (Backs-frame s.all_prev (upd s.all_prev c s.all_tail) null xs (λ a m. untouched a m)
              v.backs)
            (rw here (v.tails ∙ sym (last_or-null xs)), tt);
      tails = sym (last-append c xs);
      once = λ a. ground (arith, v.once a, count-append a xs (c ∷ []), new);
      number = omega (arith, v.number, length-append xs (c ∷ []));
    })
  where
    untouched : (a : Ptr) → count a xs ≢ 0 → upd s.all_prev c s.all_tail a ≡ s.all_prev a
    untouched a m = let other : a ≢ c = λ e. m (ap (λ b. count b xs) e ∙ new) in ground arith

abbrev head_or : Ptr → List Ptr → Ptr
head_or p [] = p
head_or p (x ∷ xs) = x

-- What `all_list_remove` makes of the links back.
abbrev back_links : (Ptr → Ptr) → Ptr → Ptr → Ptr → Ptr → Ptr
back_links prev before after c =
    if after == null then upd prev c null else upd (upd prev after before) c null

-- The links back of the others skip the process that leaves.
leave-Backs :
    (prev : Ptr → Ptr) (c : Ptr) (p : Ptr) (pre post : List Ptr) (prev' : Ptr → Ptr)
    → Backs prev p (pre ++ (c ∷ post))
    → Distinct (pre ++ (c ∷ post))
    → prev' ≡ back_links prev (prev c) (head_or null post) c
    → count null (pre ++ (c ∷ post)) ≡ 0
    → Backs prev' p (pre ++ post)
leave-Backs prev c p pre [] prev' b once at none_null =
    let out : count c pre ≡ 0 = two_places c pre [] once in
    rw (append-nil pre, at)
      (Backs-frame prev (upd prev c null) p pre
        (λ a m. let other : a ≢ c = λ e. m (ap (λ b. count b pre) e ∙ out) in ground arith)
        (Backs-front prev p pre (c ∷ []) b))
leave-Backs prev c p pre (y ∷ ys) prev' b once at none_null =
    let (mine, (next, rest)) = Backs-back prev p pre (c ∷ (y ∷ ys)) b in
    let split : (a : Ptr) → count a (pre ++ (c ∷ (y ∷ ys))) ≡ count a pre + count a (c ∷ (y ∷ ys)) =
      λ a. count-append a pre (c ∷ (y ∷ ys)) in
    let there : y ≢ null = ground (arith, none_null, split null) in
    let apart : y ≢ c = ground (arith, once c, split c) in
    let linked : prev' y ≡ prev c = rw at (ground arith) in
    let same : (a : Ptr) → a ≢ c → a ≢ y → prev' a ≡ prev a = λ a a_c a_y. rw at (ground arith) in
    Backs-join prev' p pre (y ∷ ys)
      (Backs-frame prev prev' p pre
        (λ a m.
          same a (λ e. m (ap (λ b. count b pre) e ∙ ground (arith, once c, split c)))
            (λ e. m (ap (λ b. count b pre) e ∙ ground (arith, once y, split y))))
        (Backs-front prev p pre (c ∷ (y ∷ ys)) b))
      (
        linked ∙ mine,
        Backs-frame prev prev' y ys
            (λ a m.
              same a (λ e. m (ap (λ b. count b ys) e ∙ ground (arith, once c, split c)))
                (λ e. m (ap (λ b. count b ys) e ∙ ground (arith, once y, split y))))
            rest,
      )

-- The list behind a process starts with its successor.
next_head :
    (next : Ptr → Ptr) (h : Ptr) (post : List Ptr) → Chain next h post → h ≡ head_or null post
next_head next h [] c = c
next_head next h (x ∷ xs) (here, there, rest) = here

Chain-behind :
    (next : Ptr → Ptr) (h c : Ptr) (pre post : List Ptr)
    → Chain next h (pre ++ (c ∷ post))
    → Chain next (next c) post
Chain-behind next h c [] post (here, there, rest) = rest
Chain-behind next h c (x ∷ pre) post (here, there, rest) =
    Chain-behind next (next x) c pre post rest

-- The tail moves back where the last process leaves.
tail_moves :
    (next : Ptr → Ptr) (h before tail c : Ptr) (pre post : List Ptr)
    → Chain next h post
    → before ≡ last pre
    → tail ≡ last (pre ++ (c ∷ post))
    → (if h == null then before else tail) ≡ last (pre ++ post)
tail_moves next h before tail c pre [] end start ends =
    let test : (h == null) ≡ true = ground (arith, end) in rw (test, append-nil pre) start
tail_moves next h before tail c pre (y ∷ ys) (here, there, rest) start ends =
    let test : (h == null) ≡ false = ground arith in
    rw test (ends ∙ last-append_cons c pre (y ∷ ys) ∙ sym (last-append_cons y pre ys))

-- `all_list_remove` takes a process off the list wherever it stands in it, and keeps the order of the others
-- both ways.
pub all_list_remove-Everyone :
    (s : Procs) (c : Ptr) (pre post : List Ptr)
    → Everyone s (pre ++ (c ∷ post))
    → Everyone (all_list_remove c s) (pre ++ post)
unfolding all_list_remove
all_list_remove-Everyone s c pre post v =
    let split = count-append null pre (c ∷ post) in
    let none_null = Chain-null s.all_next s.all_head (pre ++ (c ∷ post)) v.chain in
    let proper : (c == null) ≡ false = ground (arith, split, none_null) in
    let (mine, rest) = Backs-back s.all_prev null pre (c ∷ post) v.backs in
    let before : s.all_prev c ≡ last pre = mine ∙ last_or-null pre in
    let behind = Chain-behind s.all_next s.all_head c pre post v.chain in
    let after = next_head s.all_next (s.all_next c) post behind in
    rw proper (record {
      chain = Chain-cut s.all_next s.all_head (s.all_prev c) c pre post v.chain v.once before;
      backs =
          leave-Backs s.all_prev c null pre post _ v.backs v.once
            (ap (λ h. back_links s.all_prev (s.all_prev c) h c) after) none_null;
      tails =
          tail_moves s.all_next (s.all_next c) (s.all_prev c) s.all_tail c pre post behind before
            v.tails;
      once = Distinct-cut c pre post v.once;
      number = omega (arith, v.number, length-append pre (c ∷ post), length-append pre post);
    })
