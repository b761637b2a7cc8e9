-- ===== src/Proc/Sched/Queues.antt =====
-- kernel/proc/sched/sched.c: the run queues as lists.
use makh.Prelude.{
  ℕ, ◌≡◌, ◌≢◌, inl, inr, refl, sym, ◌∙◌, ap, Bool, true, false, ◌&&◌, List, [], ◌∷◌, ◌++◌, ◌==◌,
  subst, if◌then◌else◌, arith, Bool-cases, ℕ_discrete,
}
use makh.Proc.Links.{
  Ptr, null, upd, count, last, Chain, Distinct, Chain-push, Chain-frame, push_next, push_head,
  push_next-elsewhere, count-append, last-append, last-in, Chain-null, Chain-upd, Chain-pop,
  tail-pop,
}
use makh.Proc.Sched.{Sched, level, runq_push, pop_head}

-- The queues hold the lists `q`, and each thread with `mem` stands in the queue of its level, once, and in no
-- other.
pub record IsQueues (mem : Ptr → Bool) (s : Sched) (q : ℕ → List Ptr) : Type 0 where
  pub chain : (p : ℕ) → Chain s.run_next (s.runq_head p) (q p)
  pub tails : (p : ℕ) → s.runq_tail p ≡ last (q p)
  pub counts : (p : ℕ) (t : Ptr) → count t (q p) ≡ (if mem t && (level s t == p) then 1 else 0)

-- `q` with `t` at the end of its level.
abbrev pub pushed : Sched → Ptr → (ℕ → List Ptr) → ℕ → List Ptr
pushed s t q = upd q (level s t) (q (level s t) ++ (t ∷ []))

push-run_next :
    (t : Ptr) (s : Sched)
    → (runq_push t s).run_next ≡ push_next s.run_next (s.runq_tail (level s t)) t
unfolding runq_push
push-run_next t s = elim (Bool-cases (s.runq_tail (level s t) == null)) [
  | inl e ↦ rw e refl
  | inr e ↦ rw e refl
]

push-runq_head :
    (t : Ptr) (s : Sched) (p : ℕ)
    → (runq_push t s).runq_head p
      ≡ (if p == level s t then push_head (s.runq_head p) (s.runq_tail p) t else s.runq_head p)
unfolding runq_push
push-runq_head t s p = ground arith

push-runq_tail :
    (t : Ptr) (s : Sched) (p : ℕ)
    → (runq_push t s).runq_tail p ≡ (if p == level s t then t else s.runq_tail p)
unfolding runq_push
push-runq_tail t s p = ground arith

module _ (mem : Ptr → Bool) (s : Sched) (q : ℕ → List Ptr) (v : IsQueues mem s q) where
  pub queue-Distinct : (p : ℕ) → Distinct (q p)
  queue-Distinct p a = ground (arith, v.counts p a)

  queue_unique : (a : Ptr) (p r : ℕ) → count a (q p) ≢ 0 → count a (q r) ≢ 0 → p ≡ r
  queue_unique a p r hp hr = ground (arith, v.counts p a, v.counts r a)

  -- The tail of a queue is in no other.
  tail-apart : (p r : ℕ) → p ≢ r → count (s.runq_tail r) (q p) ≢ 0 → s.runq_tail r ≡ null
  tail-apart p r apart m = by_list (q r) refl
    where
      by_list : (xs : List Ptr) → q r ≡ xs → s.runq_tail r ≡ null
      by_list [] e = v.tails r ∙ ap last e
      by_list (x ∷ xs) e =
          let ends : s.runq_tail r ≡ last (x ∷ xs) = v.tails r ∙ ap last e in
          let inside : count (s.runq_tail r) (q r) ≢ 0 = λ z.
            last-in x xs
              (subst (λ b. count b (x ∷ xs) ≡ 0) ends (ap (count (s.runq_tail r)) (sym e) ∙ z)) in
          absurd (apart (queue_unique (s.runq_tail r) p r m inside))

  module _ (t : Ptr) (new : mem t ≡ false) (proper : t ≢ null) where
    absent : (p : ℕ) → count t (q p) ≡ 0
    absent p = rw (v.counts p t, new) refl

    push-Chain :
        (p : ℕ) → Chain (runq_push t s).run_next ((runq_push t s).runq_head p) (pushed s t q p)
    push-Chain p =
        rw (push-run_next t s, push-runq_head t s p)
          (elim (ℕ_discrete p (level s t)) [
            | yes same ↦
                let test : (p == level s t) ≡ true = ground arith in
                rw (test, sym same)
                  (Chain-push s.run_next (s.runq_head p) (s.runq_tail p) t (q p) (v.chain p)
                    (queue-Distinct p) (v.tails p) (absent p) proper)
            | no other ↦
                let test : (p == level s t) ≡ false = ground arith in
                rw test (
                  Chain-frame (s.runq_head p) (q p)
                    (λ a m.
                      push_next-elsewhere s.run_next (s.runq_tail (level s t)) t a
                        (λ e. m (ap (λ b. count b (q p)) e ∙ absent p))
                        (λ e. is_null a p m (
                          e ∙ tail-apart p (level s t) other (subst (λ b. count b (q p) ≢ 0) e m))))
                    (v.chain p))
          ])
      where
        is_null : (a : Ptr) (p : ℕ) → count a (q p) ≢ 0 → a ≢ null
        is_null a p m e =
            m (ap (λ b. count b (q p)) e ∙ Chain-null s.run_next (s.runq_head p) (q p) (v.chain p))

    push-tail : (p : ℕ) → (runq_push t s).runq_tail p ≡ last (pushed s t q p)
    push-tail p = ground (arith, push-runq_tail t s p, v.tails p, last-append t (q p))

    push-level : (a : Ptr) → level (runq_push t s) a ≡ level s a
    unfolding runq_push
    push-level a = ground arith

    push-count :
        (p : ℕ) (a : Ptr)
        → count a (pushed s t q p)
          ≡ (if upd mem t true a && (level (runq_push t s) a == p) then 1 else 0)
    push-count p a = ground (arith, v.counts p a, push-level a, count-append a (q p) (t ∷ []))

    -- A push makes the thread the last one of the queue of its level.
    pub push-IsQueues : IsQueues (upd mem t true) (runq_push t s) (pushed s t q)
    push-IsQueues = record { chain = push-Chain; tails = push-tail; counts = push-count }

  pub pop-IsQueues :
      (p : ℕ) (x : Ptr) (xs : List Ptr)
      → q p ≡ x ∷ xs
      → IsQueues (upd mem x false) (pop_head p s) (upd q p xs)
  pop-IsQueues p x xs e =
      let c : Chain s.run_next (s.runq_head p) (x ∷ xs) =
        subst (Chain s.run_next (s.runq_head p)) e (v.chain p) in
      let once : Distinct (x ∷ xs) = subst Distinct e (queue-Distinct p) in
      let ends : s.runq_tail p ≡ last (x ∷ xs) = v.tails p ∙ ap last e in
      record {
        chain = λ r. elim (ℕ_discrete r p) [
          | yes same ↦
              let test : (r == p) ≡ true = ground arith in
              rw test (Chain-pop s.run_next (s.runq_head p) x xs c once)
          | no other ↦
              let test : (r == p) ≡ false = ground arith in
              rw test (
                Chain-upd s.run_next (s.runq_head r) (s.runq_head p) null (q r)
                  (ground (arith, other, queue_unique (s.runq_head p) r p, head_in p x xs e c))
                  (v.chain r))
        ];
        tails = λ r.
            ground
              (arith, v.tails r, tail-pop s.run_next (s.runq_head p) x (s.runq_tail p) xs c ends);
        counts = λ r a. ground (arith, v.counts r a, v.counts p a, count_head p x xs a e);
      }
    where
      count_head :
          (p : ℕ) (x : Ptr) (xs : List Ptr) (a : Ptr)
          → q p ≡ x ∷ xs
          → count a (q p) ≡ count a (x ∷ xs)
      count_head p x xs a e = ap (count a) e

      head_in :
          (p : ℕ) (x : Ptr) (xs : List Ptr)
          → q p ≡ x ∷ xs
          → Chain s.run_next (s.runq_head p) (x ∷ xs)
          → count (s.runq_head p) (q p) ≢ 0
      head_in p x xs e (here, there, rest) = rw (here, e) (ground arith)
