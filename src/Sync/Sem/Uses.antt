-- ===== src/Sync/Sem/Uses.antt =====
-- kernel/pthread/sem.c: how often a semaphore can be taken.
use makh.Prelude.{
  ℕ, zero, suc, ◌+◌, ◌^◌, ◌≡◌, ◌≢◌, ◌<◌, refl, sym, ◌∙◌, ap, subst, false, not, ◌&&◌, none, some,
  ◌==◌, arith, Bool-cases, Option-cases, inl, inr, lt→ltb,
}
use makh.Prelude.Int.{ℤ, pos, negsuc, inc32, dec32, inc32-pos}
use makh.Proc.Sched.{Sched, is_zero}
use makh.Proc.Sched.Wait.{wq_wake_one}
use makh.Proc.Sched.Sleep.{wait_end}
use makh.Proc.Sched.Invariant.{unique}
use makh.Sync.Sem.{
  Sem, as_int, sem_init, Call, returned, sleeping, take_one, sem_wait, sem_wait_again, sem_trywait,
  abstime_to_ticks, sem_timedwait, sem_timedwait_again, sem_post,
}

-- What a call adds to the tokens that were taken: one where it returns 0.
abbrev pub succeeds : ℤ → ℕ
succeeds (pos zero) = 1
succeeds (pos (suc n)) = 0
succeeds (negsuc n) = 0

abbrev pub takes : Call Sem → ℕ
takes (returned r s k) = succeeds r
takes (sleeping s k) = 0

-- The semaphore that a call leaves.
abbrev pub sem_of : Call Sem → Sem
sem_of (returned r s k) = s
sem_of (sleeping s k) = s

-- A semaphore that was started at `v`, taken `t` times and posted `p` times. The waits are cut at the switch: a
-- waking is what a wait does once its thread runs again, whatever woke it.
pub data Uses (v : ℕ) : ℕ → ℕ → Sem → Type 0 where
  started : Uses v 0 0 (sem_init v)
  attempting :
      {t p : ℕ} {s : Sem}
      → Uses v t p s
      → Uses v (t + succeeds (sem_trywait s).0) p (sem_trywait s).1
  waiting :
      {t p : ℕ} {s : Sem} (now : ℕ) (k : Sched)
      → Uses v t p s
      → Uses v (t + takes (sem_wait now s k)) p (sem_of (sem_wait now s k))
  waking :
      {t p : ℕ} {s : Sem} (cur now : ℕ) (k : Sched) (c : Call Sem)
      → Uses v t p s
      → sem_wait_again cur now s k ≡ some c
      → Uses v (t + takes c) p (sem_of c)
  waiting_in_time :
      {t p : ℕ} {s : Sem} (dl ms now : ℕ) (k : Sched)
      → Uses v t p s
      → Uses v (t + takes (sem_timedwait dl ms now s k)) p (sem_of (sem_timedwait dl ms now s k))
  waking_in_time :
      {t p : ℕ} {s : Sem} (cur dl ms now : ℕ) (k : Sched) (c : Call Sem)
      → Uses v t p s
      → sem_timedwait_again cur dl ms now s k ≡ some c
      → Uses v (t + takes c) p (sem_of c)
  posting :
      {t p : ℕ} {s s' : Sem} (k k' : Sched)
      → Uses v t p s
      → sem_post s k ≡ some (s', k')
      → Uses v t (p + 1) s'

-- What is left of the tokens.
abbrev pub Left : ℕ → ℕ → ℕ → Sem → Type 0
Left v t p s = (n : ℕ) × (s.value ≡ pos n) × (n + t ≡ v + p)

-- A call takes a token, or none.
abbrev Counts : ℕ → ℕ → ℕ → Call Sem → Type 0
Counts v t p c = Left v (t + takes c) p (sem_of c)

take_one-Left :
    (v t p : ℕ) (s : Sem) → is_zero s.value ≡ false → Left v t p s → Left v (t + 1) p (take_one s)
take_one-Left v t p s there (zero, at, sum) = absurd (ground (arith, there, ap is_zero at))
take_one-Left v t p s there (suc n, at, sum) = (n, ap dec32 at, omega arith)

-- A call that takes nothing.
same-Left :
    (v t p : ℕ) (x : ℤ)
    → (n : ℕ) × (x ≡ pos n) × (n + t ≡ v + p)
    → (n : ℕ) × (x ≡ pos n) × (n + (t + 0) ≡ v + p)
same-Left v t p x (n, at, sum) = (n, at, omega (arith, sum))

sem_wait-Counts :
    (v t p now : ℕ) (s : Sem) (k : Sched) → Left v t p s → Counts v t p (sem_wait now s k)
unfolding sem_wait
sem_wait-Counts v t p now s k h = elim (Bool-cases (is_zero s.value)) [
  | inl e ↦ rw e (same-Left v t p s.value h)
  | inr e ↦ rw e (take_one-Left v t p s e h)
]

sem_timedwait-Counts :
    (v t p dl ms now : ℕ) (s : Sem) (k : Sched)
    → Left v t p s
    → Counts v t p (sem_timedwait dl ms now s k)
unfolding sem_timedwait
sem_timedwait-Counts v t p dl ms now s k h = elim (Bool-cases (is_zero s.value)) [
  | inr e ↦ rw e (take_one-Left v t p s e h)
  | inl e ↦ elim (Bool-cases (abstime_to_ticks dl ms == 0)) [
    | inl f ↦ rw (e, f) (same-Left v t p s.value h)
    | inr f ↦ rw (e, f) (same-Left v t p s.value h)
  ]
]

pub none-ne-some : {A : Type 0} (a : A) → none ≢ some a
none-ne-some a e = ground arith

sem_wait_again-Counts :
    (v t p cur now : ℕ) (s : Sem) (k : Sched) (c : Call Sem)
    → Left v t p s
    → sem_wait_again cur now s k ≡ some c
    → Counts v t p c
unfolding sem_wait_again
sem_wait_again-Counts v t p cur now s k c h e = elim (Option-cases (wait_end cur s.wq k)) [
  | inl fails ↦ absurd (none-ne-some c (rw fails at e))
  | inr ((rc, wq, k'), runs) ↦
      let s' = record s { wq = wq } in
      subst (Counts v t p) (unique refl (rw runs at e)) (sem_wait-Counts v t p now s' k' h)
]

sem_timedwait_again-Counts :
    (v t p cur dl ms now : ℕ) (s : Sem) (k : Sched) (c : Call Sem)
    → Left v t p s
    → sem_timedwait_again cur dl ms now s k ≡ some c
    → Counts v t p c
unfolding sem_timedwait_again
sem_timedwait_again-Counts v t p cur dl ms now s k c h e =
    elim (Option-cases (wait_end cur s.wq k)) [
      | inl fails ↦ absurd (none-ne-some c (rw fails at e))
      | inr ((rc, wq, k'), runs) ↦
          let s' = record s { wq = wq } in
          elim (Bool-cases (not (rc == 0) && is_zero s.value)) [
            | inl late ↦
                subst (Counts v t p) (unique refl (rw (runs, late) at e))
                  (same-Left v t p s.value h)
            | inr on ↦
                subst (Counts v t p) (unique refl (rw (runs, on) at e))
                  (sem_timedwait-Counts v t p dl ms now s' k' h)
          ]
    ]

sem_trywait-Left :
    (v t p : ℕ) (s : Sem)
    → Left v t p s
    → Left v (t + succeeds (sem_trywait s).0) p (sem_trywait s).1
unfolding sem_trywait
sem_trywait-Left v t p s h = elim (Bool-cases (is_zero s.value)) [
  | inl z ↦ rw z (same-Left v t p s.value h)
  | inr z ↦ rw z (take_one-Left v t p s z h)
]

sem_post-Left :
    (v t p : ℕ) (s s' : Sem) (k k' : Sched)
    → v + p + 1 < 2 ^ 31
    → Left v t p s
    → sem_post s k ≡ some (s', k')
    → Left v t (p + 1) s'
unfolding sem_post
sem_post-Left v t p s s' k k' few (n, at, sum) e = elim (Option-cases (wq_wake_one s.wq k)) [
  | inl fails ↦ absurd (none-ne-some (s', k') (rw fails at e))
  | inr ((wq, k1), runs) ↦
      let same : inc32 s.value ≡ s'.value =
        ap (λ (o : Sem × Sched). o.0.value) (unique refl (rw runs at e)) in
      (n + 1, sym same ∙ ap inc32 at ∙ inc32-pos n (omega (arith, few, sum)), omega (arith, sum))
]

-- In every use of a semaphore by waits with and without a deadline, tries and posts, in which the initial value and
-- the posts add up to less than 2^31, the waits and tries that have succeeded and the value add up to the initial
-- value and the posts, so the value is never negative and no more waits succeed than there are tokens.
pub Uses-Left : (v t p : ℕ) (s : Sem) → v + p < 2 ^ 31 → Uses v t p s → Left v t p s
unfolding sem_init as_int
Uses-Left v t p s small started = (v, rw (lt→ltb v (2 ^ 31) (omega (arith, small))) refl, refl)
Uses-Left v t p s small (attempting {t = a} {s = r} u) =
    sem_trywait-Left v a p r (Uses-Left v a p r small u)
Uses-Left v t p s small (waiting {t = a} {s = r} now k u) =
    sem_wait-Counts v a p now r k (Uses-Left v a p r small u)
Uses-Left v t p s small (waking {t = a} {s = r} cur now k c u e) =
    sem_wait_again-Counts v a p cur now r k c (Uses-Left v a p r small u) e
Uses-Left v t p s small (waiting_in_time {t = a} {s = r} dl ms now k u) =
    sem_timedwait-Counts v a p dl ms now r k (Uses-Left v a p r small u)
Uses-Left v t p s small (waking_in_time {t = a} {s = r} cur dl ms now k c u e) =
    sem_timedwait_again-Counts v a p cur dl ms now r k c (Uses-Left v a p r small u) e
Uses-Left v t p s small (posting {p = q} {s = r} k k' u e) =
    sem_post-Left v t q r s k k' (omega (arith, small)) (Uses-Left v t q r (omega (arith, small)) u)
      e
