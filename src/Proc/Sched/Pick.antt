-- ===== src/Proc/Sched/Pick.antt =====
-- kernel/proc/sched/sched.c: which thread the scheduler takes off the run queues.
use makh.Prelude.{
  ℕ, zero, suc, ◌+◌, ◌≡◌, ◌≢◌, ◌⊎◌, inl, inr, refl, sym, ◌∙◌, ap, Bool, true, false, List, [], ◌∷◌,
  ◌==◌, ◌≤◌, ◌<◌, subst, arith, ℕ_discrete, Option, none, some,
}
use makh.Proc.Links.{Ptr, null, upd, Chain}
use makh.Proc.Sched.{Sched, pop_head, pop_from, runq_pop_highest, prio_levels}
use makh.Proc.Sched.Queues.{IsQueues}

-- What a search of the levels from `p` on, `n` of them, finds and leaves.
pub data Outcome (s : Sched) (q : ℕ → List Ptr) (p n : ℕ) : Ptr × Sched → Type 0 where
  nobody : ((r : ℕ) → p ≤ r → r < p + n → q r ≡ []) → Outcome s q p n (null, s)
  took :
      (r : ℕ) (xs : List Ptr)
      → r < p + n
      → q r ≡ s.runq_head r ∷ xs
      → ((l : ℕ) → p ≤ l → l < r → q l ≡ [])
      → Outcome s q p n (s.runq_head r, pop_head r s)

List-cases : (xs : List Ptr) → (xs ≡ []) ⊎ ((x : Ptr) × (ys : List Ptr) × (xs ≡ x ∷ ys))
List-cases [] = inl refl
List-cases (x ∷ ys) = inr (x, ys, refl)

module _ (mem : Ptr → Bool) (s : Sched) (q : ℕ → List Ptr) (v : IsQueues mem s q) where
  head-null : (p : ℕ) → q p ≡ [] → s.runq_head p ≡ null
  head-null p e = subst (Chain s.run_next (s.runq_head p)) e (v.chain p)

  pub head-first :
      (p : ℕ) (x : Ptr) (xs : List Ptr) → q p ≡ x ∷ xs → (s.runq_head p ≡ x) × (x ≢ null)
  head-first p x xs e =
      let (here, there, rest) = subst (Chain s.run_next (s.runq_head p)) e (v.chain p) in
      (here, there)

  later :
      (p n : ℕ) (out : Ptr × Sched)
      → q p ≡ []
      → Outcome s q (p + 1) n out
      → Outcome s q p (suc n) out
  later p n out e (nobody all) = nobody (λ r lo hi. elim (ℕ_discrete r p) [
    | yes same ↦ ap q same ∙ e
    | no other ↦ all r (omega arith) (omega arith)
  ])
  later p n out e (took r xs hi at none_above) = took r xs (omega arith) at (λ l lo below.
      elim (ℕ_discrete l p) [
        | yes same ↦ ap q same ∙ e
        | no other ↦ none_above l (omega arith) below
      ])

  pop_from-Outcome : (n p : ℕ) → Outcome s q p n (pop_from n p s)
  unfolding pop_from
  pop_from-Outcome zero p = nobody (λ r lo hi. absurd (omega arith))
  pop_from-Outcome (suc n) p = elim (List-cases (q p)) [
    | inl e ↦
        let test : (s.runq_head p == null) ≡ true = ground (arith, head-null p e) in
        rw test (later p n _ e (pop_from-Outcome n (p + 1)))
    | inr (x, xs, e) ↦
        let (here, there) = head-first p x xs e in
        let test : (s.runq_head p == null) ≡ false = ground arith in
        rw test (
          took p xs (omega arith) (e ∙ ap (λ b. b ∷ xs) (sym here))
            (λ l lo hi. absurd (omega arith)))
  ]

  -- `runq_pop_highest` takes the first thread of the first level that has one.
  pub pop_highest-Outcome : Outcome s q 0 prio_levels (runq_pop_highest s)
  unfolding runq_pop_highest
  pop_highest-Outcome = pop_from-Outcome prio_levels 0

-- The first list that is not empty, of the lists from `p` on, `n` of them: its head, and what is left.
abbrev found :
    List Ptr → ℕ → (ℕ → List Ptr) → Option (Ptr × (ℕ → List Ptr)) → Option (Ptr × (ℕ → List Ptr))
found [] p q rest = rest
found (x ∷ xs) p q rest = some (x, upd q p xs)

pub take_first : ℕ → ℕ → (ℕ → List Ptr) → Option (Ptr × (ℕ → List Ptr))
take_first zero p q = none
take_first (suc n) p q = let rest = take_first n (p + 1) q in found (q p) p q rest

pub take_first-none :
    (n p : ℕ) (q : ℕ → List Ptr)
    → ((r : ℕ) → p ≤ r → r < p + n → q r ≡ [])
    → take_first n p q ≡ none
unfolding take_first
take_first-none zero p q all = refl
take_first-none (suc n) p q all =
    ap (λ l. found l p q (take_first n (p + 1) q)) (all p (omega arith) (omega arith))
    ∙ take_first-none n (p + 1) q (λ r lo hi. all r (omega arith) (omega arith))

pub take_first-some :
    (n p r : ℕ) (x : Ptr) (xs : List Ptr) (q : ℕ → List Ptr)
    → p ≤ r
    → r < p + n
    → q r ≡ x ∷ xs
    → ((l : ℕ) → p ≤ l → l < r → q l ≡ [])
    → take_first n p q ≡ some (x, upd q r xs)
unfolding take_first
take_first-some zero p r x xs q lo hi e above = absurd (omega arith)
take_first-some (suc n) p r x xs q lo hi e above = elim (ℕ_discrete p r) [
  | yes same ↦
      ap (λ l. found l p q (take_first n (p + 1) q)) (ap q same ∙ e)
      ∙ ap (λ i. some (x, upd q i xs)) same
  | no other ↦
      ap (λ l. found l p q (take_first n (p + 1) q)) (above p (omega arith) (omega arith))
      ∙ take_first-some n (p + 1) r x xs q (omega arith) (omega arith) e
          (λ l lo' hi'. above l (omega arith) hi')
]
