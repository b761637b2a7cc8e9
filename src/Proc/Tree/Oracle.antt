-- ===== src/Proc/Tree/Oracle.antt =====
-- kernel/proc/table/table.c: what `proc_tree_check` answers of.
use makh.Prelude.{
  ℕ, zero, suc, ◌+◌, ◌≡◌, ◌≢◌, ◌≤◌, ◌<◌, ◌⊎◌, ◌↔◌, inl, inr, refl, sym, ◌∙◌, ap, subst, Bool, true,
  false, not, ◌&&◌, ◌||◌, Option, none, some, List, [], ◌∷◌, ltb, ◌==◌, arith, ℕ_discrete,
  Bool-cases,
}
use makh.Proc.Links.{Ptr, null, count, length, last, Chain}
use makh.Proc.Sched.Wait.{max_processes}
use makh.Proc.Tree.{
  Procs, in_table, check_children, totals_match, check_parent, check_slots, proc_tree_check,
}
use makh.Proc.Tree.Everyone.{last_or, last_or-null}

in_table-count : (p : Ptr) (xs : List Ptr) → (in_table p xs ≡ true) ↔ (count p xs ≢ 0)
unfolding in_table
in_table-count p [] = (λ e. ground (arith, e), λ m. absurd (m refl))
in_table-count p (x ∷ xs) =
    (λ e. ground (arith, e, in_table-count p xs), λ m. ground (arith, m, in_table-count p xs))

-- The processes of a list are in the table and have `p` for their parent.
abbrev pub AllOf : Procs → Ptr → List Ptr → Type 0
AllOf s p [] = Unit
AllOf s p (c ∷ cs) = (count c s.table ≢ 0) × (s.parent_pid c ≡ s.pid p) × AllOf s p cs

-- The children of `p` form a list that ends, in which all are in the table and name `p`, with the tail and the number
-- that `p` has.
pub record Good (s : Procs) (p : Ptr) : Type 0 where
  pub children : List Ptr
  pub chain : Chain s.sibling_next (s.children_head p) children
  pub all : AllOf s p children
  pub tails : last children ≡ s.children_tail p
  pub number : length children ≡ s.child_count p
  pub few : length children ≤ max_processes

-- What a walk has found, where it finds nothing bad.
abbrev Walked : Procs → Ptr → Ptr → ℕ → Ptr → Option (ℕ × Ptr) → Type 0
Walked s p c n l r =
    (cs : List Ptr) × Chain s.sibling_next c cs
    × AllOf s p cs
    × (r ≡ some (n + length cs, last_or l cs))
    × (n + length cs ≤ max_processes)

-- Is a child bad, or one too many?
abbrev is_bad : Procs → Ptr → Ptr → ℕ → Bool
is_bad s p c n =
    not (in_table c s.table) || not (s.parent_pid c == s.pid p) || ltb max_processes (n + 1)

check_children-Walked :
    (k : ℕ) (s : Procs) (p c : Ptr) (n : ℕ) (l : Ptr)
    → n ≤ max_processes
    → (check_children k p c n l s ≡ none) ⊎ Walked s p c n l (check_children k p c n l s)
unfolding check_children
check_children-Walked zero s p c n l small = inl refl
check_children-Walked (suc k) s p c n l small = elim (ℕ_discrete c null) [
  | yes end ↦
      let test : (c == null) ≡ true = ground arith in
      inr ([], end, tt, rw test (ap (λ m. some (m, l)) (omega arith)), omega (arith, small))
  | no proper ↦
      let test : (c == null) ≡ false = ground arith in
      elim (Bool-cases (is_bad s p c n)) [
        | inl bad ↦ inl (rw (test, bad) refl)
        | inr good ↦
            let next = s.sibling_next c in
            let room : n + 1 ≤ max_processes = ground (arith, good) in
            let inside : count c s.table ≢ 0 =
              (in_table-count c s.table).0 (ground (arith, good)) in
            let mine : s.parent_pid c ≡ s.pid p = ground (arith, good) in
            elim (check_children-Walked k s p next (n + 1) c room) [
              | inl stop ↦ inl (rw (test, good) stop)
              | inr (cs, chain, all, found, few) ↦ inr (
                c ∷ cs,
                (refl, proper, chain),
                (inside, mine, all),
                rw (test, good) (found ∙ ap (λ m. some (m, last_or c cs)) (omega arith)),
                omega (arith, few),
              )
            ]
      ]
]

-- Good children are walked to their end.
check_children-some :
    (k : ℕ) (s : Procs) (p c : Ptr) (n : ℕ) (l : Ptr) (cs : List Ptr)
    → Chain s.sibling_next c cs
    → AllOf s p cs
    → n + length cs ≤ max_processes
    → length cs < k
    → check_children k p c n l s ≡ some (n + length cs, last_or l cs)
unfolding check_children
check_children-some zero s p c n l cs chain all few enough = absurd (omega (arith, enough))
check_children-some (suc k) s p c n l [] chain all few enough =
    let test : (c == null) ≡ true = ground (arith, chain) in
    rw test (ap (λ m. some (m, l)) (omega arith))
check_children-some (suc k) s p c n l (x ∷ cs) (here, proper, rest) (inside, mine, all) few enough =
    let test : (c == null) ≡ false = ground (arith, here, proper) in
    let found : in_table c s.table ≡ true = rw here ((in_table-count x s.table).1 inside) in
    let good : is_bad s p c n ≡ false = ground (arith, found, mine, here, few) in
    rw (test, good)
      (check_children-some k s p (s.sibling_next c) (n + 1) c cs (rw here rest) all
          (omega (arith, few)) (omega (arith, enough))
        ∙ rw here (ap (λ m. some (m, last_or x cs)) (omega arith)))

check_parent-Good : (s : Procs) (p : Ptr) → (check_parent p s ≡ true) ↔ Good s p
unfolding check_parent totals_match
check_parent-Good s p = (sound, complete)
  where
    sound : check_parent p s ≡ true → Good s p
    sound e =
        elim (check_children-Walked (max_processes + 1) s p (s.children_head p) 0 null
          (omega arith)) [
            | inl stop ↦ absurd (ground (arith, subst (λ r. totals_match p s r ≡ true) stop e))
            | inr (cs, chain, all, found, few) ↦
                let ends : ((last_or null cs == s.children_tail p)
                      && (0 + length cs == s.child_count p))
                    ≡ true =
                  subst (λ r. totals_match p s r ≡ true) found e in
                record {
                  children = cs;
                  chain = chain;
                  all = all;
                  tails = sym (last_or-null cs) ∙ ground (arith, ends);
                  number = ground (arith, ends);
                  few = omega (arith, few);
                }
          ]

    complete : Good s p → check_parent p s ≡ true
    complete g =
        let run =
          check_children-some (max_processes + 1) s p (s.children_head p) 0 null g.children g.chain
            g.all (omega (arith, g.few)) (omega (arith, g.few)) in
        rw run (ground (arith, g.tails, g.number, last_or-null g.children))

zero-Good :
    (i : ℕ) (xs : List Ptr) (s : Procs)
    → check_slots i xs s ≡ 0
    → (p : Ptr) → p ≢ null
    → count p xs ≢ 0
    → Good s p
unfolding check_slots
zero-Good i [] s e p proper m = absurd (m refl)
zero-Good i (x ∷ xs) s e p proper m = elim (Bool-cases ((x == null) || check_parent x s)) [
  | inr bad ↦ absurd (ground (arith, e, bad))
  | inl fine ↦ elim (ℕ_discrete x p) [
    | yes same ↦
        subst (Good s) same ((check_parent-Good s x).0 (ground (arith, fine, same, proper)))
    | no other ↦
        zero-Good (i + 1) xs s (ground (arith, e, fine)) p proper (ground (arith, m, other))
  ]
]

Good-zero :
    (i : ℕ) (xs : List Ptr) (s : Procs)
    → ((p : Ptr) → p ≢ null → count p xs ≢ 0 → Good s p)
    → check_slots i xs s ≡ 0
unfolding check_slots
Good-zero i [] s good = refl
Good-zero i (x ∷ xs) s good =
    let rest = Good-zero (i + 1) xs s (λ p proper m. good p proper (ground (arith, m))) in
    elim (ℕ_discrete x null) [
      | yes empty ↦ let test : (x == null) ≡ true = ground arith in rw test rest
      | no proper ↦
          let here = (check_parent-Good s x).1 (good x proper (ground arith)) in
          let test : (x == null) ≡ false = ground arith in rw (test, here) rest
    ]

-- `proc_tree_check` answers 0 exactly where the children of every process in the table form a list that ends, of at
-- most 256 processes of the table that name it as their parent, with its tail and its count.
pub proc_tree_check-Good :
    (s : Procs) → (proc_tree_check s ≡ 0) ↔ ((p : Ptr) → p ≢ null → count p s.table ≢ 0 → Good s p)
unfolding proc_tree_check
proc_tree_check-Good s = (zero-Good 0 s.table s, Good-zero 0 s.table s)
