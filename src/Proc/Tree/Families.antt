-- ===== src/Proc/Tree/Families.antt =====
-- kernel/proc/tree/tree.c: the children of a process, as a list.
use mathlib.Core.List.{append_assoc}
use makh.Prelude.{
  ℕ, zero, suc, ◌+◌, ◌-◌, ◌%◌, ◌^◌, ◌≡◌, ◌≢◌, ◌≤◌, ◌<◌, refl, sym, ◌∙◌, ap, subst, true, false,
  ◌||◌, some, List, [], ◌∷◌, ◌++◌, ◌==◌, if◌then◌else◌, arith, ℕ_discrete,
}
use makh.Prelude.Int.{pos}
use makh.Proc.Links.{
  Ptr, null, upd, count, last, length, Chain, Distinct, Chain-push, Chain-frame, push_next,
  push_head, push_next-elsewhere, count-append, last-append, last-in, Chain-null,
}
use makh.Proc.Links.Cut.{
  cut_next, cut_head, Chain-cut, tail-cut, Distinct-cut, erase, IsAt, start-IsAt, next-IsAt,
}
use makh.Proc.Sched.Wait.{max_processes}
use makh.Proc.Tree.{
  Procs, proc_add_child, unlink_child, remove_child_from, proc_remove_child, proc_find,
}

-- The children of `p` are those of the list, in this order.
pub record Family (s : Procs) (p : Ptr) (cs : List Ptr) : Type 0 where
  pub chain : Chain s.sibling_next (s.children_head p) cs
  pub tails : s.children_tail p ≡ last cs
  pub once : Distinct cs
  pub number : s.child_count p ≡ length cs
  pub parents : (c : Ptr) → count c cs ≢ 0 → s.parent_pid c ≡ s.pid p

pub length-append : (xs ys : List Ptr) → length (xs ++ ys) ≡ length xs + length ys
length-append [] ys = omega arith
length-append (x ∷ xs) ys = omega (arith, length-append xs ys)

-- Where a child joins the family of `p`, with `n` for the number of its parent.
abbrev pub joined : Ptr → Ptr → ℕ → Procs → Procs
joined p c n s = record s {
  parent_pid = upd s.parent_pid c n;
  sibling_next = push_next s.sibling_next (s.children_tail p) c;
  children_head = if s.children_tail p == null then upd s.children_head p c else s.children_head;
  children_tail = upd s.children_tail p c;
  child_count = upd s.child_count p ((s.child_count p + 1) % 2 ^ 32);
}

head_here :
    (s : Procs) (p c n : Ptr)
    → (joined p c n s).children_head p ≡ push_head (s.children_head p) (s.children_tail p) c
head_here s p c n = ground arith

head_there :
    (s : Procs) (p c n r : Ptr) → r ≢ p → (joined p c n s).children_head r ≡ s.children_head r
head_there s p c n r other = ground arith

pub joined-Family :
    (s : Procs) (p c n : Ptr) (cs : List Ptr)
    → Family s p cs
    → c ≢ null
    → count c cs ≡ 0
    → n ≡ s.pid p
    → length cs + 1 < 2 ^ 32
    → Family (joined p c n s) p (cs ++ (c ∷ []))
joined-Family s p c n cs v proper new same few =
    let here : (p == p) ≡ true = ground arith in
    record {
      chain = rw (head_here s p c n) (
          Chain-push s.sibling_next (s.children_head p) (s.children_tail p) c cs v.chain v.once
            v.tails new proper);
      tails = rw here (sym (last-append c cs));
      once = λ a. ground (arith, v.once a, count-append a cs (c ∷ []), new);
      number = rw here (omega (arith, v.number, length-append cs (c ∷ [])));
      parents = λ a m. ground (arith, v.parents a, count-append a cs (c ∷ []), m, same);
    }

-- The families of other processes stay as they are.
pub joined-Other :
    (s : Procs) (p c n r : Ptr) (cs ds : List Ptr)
    → Family s p cs
    → Family s r ds
    → r ≢ p
    → count c ds ≡ 0
    → ((a : Ptr) → count a cs ≢ 0 → count a ds ≡ 0)
    → Family (joined p c n s) r ds
joined-Other s p c n r cs ds v w other new apart =
    let there : (r == p) ≡ false = ground arith in
    record {
      chain =
          rw (head_there s p c n r other) (Chain-frame (s.children_head r) ds untouched w.chain);
      tails = rw there w.tails;
      once = w.once;
      number = rw there w.number;
      parents = λ a m. ground (arith, w.parents a m, not_new a m);
    }
  where
    not_new : (a : Ptr) → count a ds ≢ 0 → a ≢ c
    not_new a m e = m (ap (λ b. count b ds) e ∙ new)

    tail_apart : (xs : List Ptr) → cs ≡ xs → (a : Ptr) → count a ds ≢ 0 → a ≢ last xs
    tail_apart [] same a m e =
        m (ap (λ b. count b ds) e ∙ Chain-null s.sibling_next (s.children_head r) ds w.chain)
    tail_apart (x ∷ xs) same a m e = m (
        apart a (
          subst (λ l. count a l ≢ 0) (sym same)
            (subst (λ b. count b (x ∷ xs) ≢ 0) (sym e) (last-in x xs))))

    untouched :
        (a : Ptr)
        → count a ds ≢ 0
        → push_next s.sibling_next (s.children_tail p) c a ≡ s.sibling_next a
    untouched a m =
        push_next-elsewhere s.sibling_next (s.children_tail p) c a (not_new a m)
          (λ e. tail_apart cs refl a m (e ∙ v.tails))

-- `proc_add_child` puts the child at the end of the children of the parent and counts it, and every other
-- process keeps its children, where the child is not among them, no process is in two families, and the parent
-- has fewer than 256 children.
pub proc_add_child-Family :
    (s : Procs) (p c : Ptr) (cs : List Ptr)
    → Family s p cs
    → p ≢ null
    → c ≢ null
    → count c cs ≡ 0
    → length cs < max_processes
    → Family (proc_add_child p c s) p (cs ++ (c ∷ []))
      × ((r : Ptr) (ds : List Ptr)
          → Family s r ds
          → r ≢ p
          → count c ds ≡ 0
          → ((a : Ptr) → count a cs ≢ 0 → count a ds ≡ 0)
          → Family (proc_add_child p c s) r ds)
unfolding proc_add_child
proc_add_child-Family s p c cs v there proper new few =
    let t1 : ((p == null) || (c == null)) ≡ false = ground arith in
    rw t1 (
      joined-Family s p c (s.pid p) cs v proper new refl (omega arith),
      λ r ds w other out apart. joined-Other s p c (s.pid p) r cs ds v w other out apart,
    )

unlinked : Ptr → Ptr → Ptr → Procs → Procs
unlinked p prev c s = record s {
  sibling_next = cut_next s.sibling_next prev c;
  children_head =
      if prev == null then upd s.children_head p (s.sibling_next c) else s.children_head;
  children_tail = if c == s.children_tail p then upd s.children_tail p prev else s.children_tail;
  child_count = upd s.child_count p (s.child_count p - 1);
}

unlinked-Family :
    (s : Procs) (p prev c : Ptr) (pre post : List Ptr)
    → Family s p (pre ++ (c ∷ post))
    → prev ≡ last pre
    → Family (unlinked p prev c s) p (pre ++ post)
unfolding unlinked
unlinked-Family s p prev c pre post v behind =
    let here : (p == p) ≡ true = ground arith in
    let head : (unlinked p prev c s).children_head p
        ≡ cut_head s.sibling_next (s.children_head p) prev c =
      ground arith in
    let tail : (unlinked p prev c s).children_tail p
        ≡ (if s.children_tail p == c then prev else s.children_tail p) =
      ground arith in
    record {
      chain =
          rw head
            (Chain-cut s.sibling_next (s.children_head p) prev c pre post v.chain v.once behind);
      tails = rw tail (tail-cut prev c (s.children_tail p) pre post v.once behind v.tails);
      once = Distinct-cut c pre post v.once;
      number =
          rw here (omega (arith, v.number, length-append pre (c ∷ post), length-append pre post));
      parents = λ a m.
          v.parents a (ground (arith, m, count-append a pre (c ∷ post), count-append a pre post));
    }

remove_child_from-Family :
    (n : ℕ) (s : Procs) (p prev cur c : Ptr) (pre post : List Ptr)
    → Family s p (pre ++ post)
    → IsAt s.sibling_next (s.children_head p) prev cur c pre post
    → length post < n
    → (s' : Procs) × (remove_child_from n p prev cur c s ≡ some s')
      × Family s' p (pre ++ erase c post)
unfolding remove_child_from unlink_child unlinked
remove_child_from-Family zero s p prev cur c pre post v at enough = absurd (omega arith)
remove_child_from-Family (suc n) s p prev cur c pre [] v at enough =
    let test : (cur == null) ≡ true = ground (arith, at.here) in (s, rw test refl, v)
remove_child_from-Family (suc n) s p prev cur c pre (x ∷ post) v at enough =
    let (here, there, rest) = at.here in
    let test : (cur == null) ≡ false = ground arith in
    elim (ℕ_discrete x c) [
      | yes found ↦
          let hit : (cur == c) ≡ true = ground arith in
          let cut : (x == c) ≡ true = ground arith in
          (
            unlinked p prev c s,
            rw (test, hit) refl,
            rw cut (
                unlinked-Family s p prev c pre post
                  (subst (λ a. Family s p (pre ++ (a ∷ post))) found v) at.behind),
          )
      | no other ↦
          let miss : (cur == c) ≡ false = ground arith in
          let skip : (x == c) ≡ false = ground arith in
          let same = append_assoc pre (x ∷ []) post in
          let (s', run, w) =
            remove_child_from-Family n s p cur (s.sibling_next cur) c (pre ++ (x ∷ [])) post
              (subst (Family s p) (sym same) v)
              (next-IsAt s.sibling_next (s.children_head p) prev cur c x pre post at other)
              (omega arith) in
          (
            s',
            rw (test, miss) run,
            rw skip (subst (Family s' p) (append_assoc pre (x ∷ []) (erase c post)) w),
          )
    ]

-- `proc_remove_child`, for a child whose parent `p` is the process in the table with its parent's number,
-- returns and takes the child off the children of `p`, wherever it stands among them.
pub proc_remove_child-Family :
    (s : Procs) (p c : Ptr) (cs : List Ptr)
    → Family s p cs
    → c ≢ null
    → p ≢ null
    → proc_find (pos (s.parent_pid c)) s ≡ p
    → length cs ≤ max_processes
    → (s' : Procs) × (proc_remove_child c s ≡ some s') × Family s' p (erase c cs)
unfolding proc_remove_child
proc_remove_child-Family s p c cs v proper there found few =
    let t1 : (c == null) ≡ false = ground arith in
    let t2 : (p == null) ≡ false = ground arith in
    rw (found, t1, t2)
      (remove_child_from-Family (max_processes + 1) s p null (s.children_head p) c [] cs v
        (start-IsAt v.chain v.once) (omega arith))
