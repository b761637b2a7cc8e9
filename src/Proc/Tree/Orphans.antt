-- ===== src/Proc/Tree/Orphans.antt =====
-- kernel/proc/tree/tree.c: the children of a process that ends go to init.
use mathlib.Core.List.{append_assoc, append-nil}
use makh.Prelude.{
  ℕ, zero, suc, ◌+◌, ◌^◌, ◌≡◌, ◌≢◌, ◌≤◌, ◌<◌, refl, sym, ◌∙◌, ap, subst, true, false, not, ◌&&◌,
  some, List, [], ◌∷◌, ◌++◌, ◌==◌, arith, ℕ_discrete,
}
use makh.Prelude.Int.{pos}
use makh.Proc.Links.{
  Ptr, null, upd, count, last, length, Chain, Distinct, Chain-frame, push_next-elsewhere,
  count-append, last-in, Chain-null,
}
use makh.Proc.Sched.Wait.{max_processes}
use makh.Proc.Tree.{Procs, adopt, reparent_from, proc_reparent_orphans, proc_find}
use makh.Proc.Tree.Families.{Family, joined, joined-Family, length-append}

-- No process is in both lists.
abbrev pub Apart : List Ptr → List Ptr → Type 0
Apart cs ds = (a : Ptr) → count a cs ≢ 0 → count a ds ≡ 0

-- The links of the children to come do not change when one is adopted.
joined-Chain :
    (s : Procs) (i c n h : Ptr) (cs ds : List Ptr)
    → Family s i cs
    → count c ds ≡ 0
    → Apart cs ds
    → Chain s.sibling_next h ds
    → Chain (joined i c n s).sibling_next h ds
joined-Chain s i c n h cs ds v new apart chain =
    Chain-frame h ds
      (λ a m.
        push_next-elsewhere s.sibling_next (s.children_tail i) c a
          (λ e. m (ap (λ b. count b ds) e ∙ new)) (λ e. tail_apart cs refl a m (e ∙ v.tails)))
      chain
  where
    tail_apart : (xs : List Ptr) → cs ≡ xs → (a : Ptr) → count a ds ≢ 0 → a ≢ last xs
    tail_apart [] same a m e = m (ap (λ b. count b ds) e ∙ Chain-null s.sibling_next h ds chain)
    tail_apart (x ∷ xs) same a m e = m (
        apart a (
          subst (λ l. count a l ≢ 0) (sym same)
            (subst (λ b. count b (x ∷ xs) ≢ 0) (sym e) (last-in x xs))))

reparent_from-Family :
    (n : ℕ) (s : Procs) (i d child : Ptr) (cs ds : List Ptr)
    → i ≢ null
    → i ≢ d
    → s.pid i ≡ 1
    → Family s i cs
    → Chain s.sibling_next child ds
    → Distinct ds
    → Apart cs ds
    → length cs + length ds < 2 ^ 32
    → length ds < n
    → (s' : Procs) × (reparent_from n i d child s ≡ some s') × Family s' i (cs ++ ds)
unfolding reparent_from adopt
reparent_from-Family zero s i d child cs ds there other first v chain once apart few enough =
    absurd (omega arith)
reparent_from-Family (suc n) s i d child cs [] there other first v chain once apart few enough =
    let test : (child == null) ≡ true = ground (arith, chain) in
    (s, rw test refl, subst (Family s i) (sym (append-nil cs)) v)
reparent_from-Family (suc n) s i d child cs (x ∷ ds) there other first v (here, proper, rest) once
      apart few enough =
    let test : (child == null) ≡ false = ground arith in
    let goes : (not (i == null) && not (i == d)) ≡ true = ground arith in
    let out : count x ds ≡ 0 = ground (arith, once x) in
    let new : count x cs ≡ 0 = not_in x in
    let moved = joined i child 1 s in
    let (s', run, w) =
      reparent_from-Family n moved i d (s.sibling_next child) (cs ++ (x ∷ [])) ds there other first
        (subst (λ c. Family moved i (cs ++ (c ∷ []))) here
          (joined-Family s i child 1 cs v (λ e. proper (sym here ∙ e)) (rw here new) (sym first)
            (omega arith)))
        (joined-Chain s i child 1 (s.sibling_next child) cs ds v (rw here out)
          (λ a m. ground (arith, apart a m)) (rw here rest))
        (λ a. ground (arith, once a)) (λ a m. joined_apart a m)
        (omega (arith, length-append cs (x ∷ []))) (omega arith) in
    (s', rw (test, goes) run, subst (Family s' i) (append_assoc cs (x ∷ []) ds) w)
  where
    not_in : (x' : Ptr) → count x cs ≡ 0
    not_in x' = elim (ℕ_discrete (count x cs) 0) [
      | yes e ↦ e
      | no m ↦ absurd (ground (arith, apart x m))
    ]

    joined_apart : (a : Ptr) → count a (cs ++ (x ∷ [])) ≢ 0 → count a ds ≡ 0
    joined_apart a m = ground (arith, m, once a, apart a, count-append a cs (x ∷ []))

-- `proc_reparent_orphans` of a process that is not init, with init in the table, returns and gives all of its
-- children, in their order, to init behind init's own, and leaves it without children, where no process is a
-- child of both and the table has room for all.
pub proc_reparent_orphans-Family :
    (s : Procs) (i d : Ptr) (cs ds : List Ptr)
    → proc_find (pos 1) s ≡ i
    → i ≢ null
    → d ≢ null
    → i ≢ d
    → s.pid i ≡ 1
    → Family s i cs
    → Family s d ds
    → Apart cs ds
    → length cs + length ds ≤ max_processes
    → (s' : Procs) × (proc_reparent_orphans d s ≡ some s') × Family s' i (cs ++ ds) × Family s' d []
unfolding proc_reparent_orphans
proc_reparent_orphans-Family s i d cs ds found there proper other first v w apart few =
    let t1 : (d == null) ≡ false = ground arith in
    let (r, run, u) =
      reparent_from-Family (max_processes + 1) s i d (s.children_head d) cs ds there other first v
        w.chain w.once apart (omega arith) (omega arith) in
    let mine : (i == d) ≡ false = ground arith in
    let here : (d == d) ≡ true = ground arith in
    (
      record r {
        children_head = upd r.children_head d null;
        children_tail = upd r.children_tail d null;
        child_count = upd r.child_count d 0;
      },
      rw (t1, found, run) refl,
      record {
        chain = rw mine u.chain;
        tails = rw mine u.tails;
        once = u.once;
        number = rw mine u.number;
        parents = u.parents;
      },
      record {
        chain = rw here refl;
        tails = rw here refl;
        once = λ a. omega arith;
        number = rw here refl;
        parents = λ a m. absurd (m refl);
      },
    )
