-- ===== src/Proc/Sched/Expiry.antt =====
-- kernel/proc/sched/sched.c: `wake_expired_sleepers`, against the list of the threads that sleep.
use mathlib.Core.List.{append-nil}
use makh.Prelude.{
  ℕ, zero, suc, ◌+◌, ◌≡◌, ◌≢◌, refl, sym, ◌∙◌, ap, Bool, true, false, ◌&&◌, some, List, [], ◌∷◌,
  ◌++◌, ◌==◌, ◌≤◌, ◌<◌, subst, if◌then◌else◌, arith, ℕ_discrete, Bool-cases, ◌⊎◌, inl, inr,
}
use makh.Proc.Links.{Ptr, null, upd, count, length, Chain, Distinct, count-append}
use makh.Proc.Links.Cut.{cut_next, cut_head, IsAt, start-IsAt, next-IsAt, cut-IsAt}
use makh.Proc.Sched.{Sched, proc_ready, is_blocked}
use makh.Proc.Sched.Wait.{max_processes}
use makh.Proc.Sched.Sleep.{
  unlink_sleeper, expired, wake_late, visit_sleeper, stays, expire_from, wake_expired_sleepers,
}
use makh.Proc.Sched.Queues.{pushed}
use makh.Proc.Sched.Ready.{
  IsSound, other_fields-IsSound, make_ready-IsSound, resched-IsSound, push-record, push-state,
}
use makh.Proc.Sched.Waking.{blocked-not_idle}

-- The thread sleeps and its time has come.
abbrev pub late : ℕ → Ptr → Sched → Bool
late now t s = is_blocked (s.state t) && expired now (s.wake_tick t)

-- What the loop leaves of the threads to come.
pub record Expired (now : ℕ) (s : Sched) (pre post : List Ptr) (s' : Sched) : Type 0 where
  pub left : List Ptr
  pub chain : Chain s'.sleep_next s'.sleep_list left
  pub once : Distinct left
  pub members : (t : Ptr) → count t left ≡ count t pre + (if stays now t s then count t post else 0)
  pub sound : (q : ℕ → List Ptr) × IsSound s' q
  pub woken :
      (t : Ptr)
      → count t post ≢ 0
      → late now t s ≡ true
      → (s'.state t ≡ proc_ready) × (s'.timed_out t ≡ true)
  pub others :
      (t : Ptr)
      → (count t post ≡ 0) ⊎ (late now t s ≡ false)
      → (s'.state t ≡ s.state t) × (s'.timed_out t ≡ s.timed_out t)

-- What one round changes, at the thread `x` behind `prev`.
record Visited (now : ℕ) (prev x : Ptr) (s s' : Sched) : Type 0 where
  sound : (q : ℕ → List Ptr) × IsSound s' q
  next : s'.sleep_next ≡ (if stays now x s then s.sleep_next else cut_next s.sleep_next prev x)
  head :
      s'.sleep_list
      ≡ (if stays now x s then s.sleep_list else cut_head s.sleep_next s.sleep_list prev x)
  wakes : s'.wake_tick ≡ s.wake_tick
  states : (t : Ptr) → s'.state t ≡ (if (t == x) && late now x s then proc_ready else s.state t)
  flags : (t : Ptr) → s'.timed_out t ≡ (if (t == x) && late now x s then true else s.timed_out t)

abbrev pub cut_sleeper : Ptr → Ptr → Sched → Sched
cut_sleeper prev x s = record s {
  sleep_list = cut_head s.sleep_next s.sleep_list prev x;
  sleep_next = cut_next s.sleep_next prev x;
}

pub unlink_sleeper-cut : (prev x : Ptr) (s : Sched) → unlink_sleeper prev x s ≡ cut_sleeper prev x s
unfolding unlink_sleeper
unlink_sleeper-cut prev x s = elim (Bool-cases (prev == null)) [
  | inl e ↦ rw e refl
  | inr e ↦ rw e refl
]

pub cut_sleeper-IsSound :
    (prev x : Ptr) (s : Sched) (q : ℕ → List Ptr) → IsSound s q → IsSound (cut_sleeper prev x s) q
cut_sleeper-IsSound prev x s q v =
    other_fields-IsSound s q s.need_resched (cut_head s.sleep_next s.sleep_list prev x)
      (cut_next s.sleep_next prev x) s.wq_next s.wake_tick s.timed_out s.sig_interrupt s.ticks_left
      s.preempt_count v

wake_late-IsSound :
    (x : Ptr) (s : Sched) (q : ℕ → List Ptr)
    → IsSound s q
    → x ≢ null
    → is_blocked (s.state x) ≡ true
    → IsSound (wake_late x s) (pushed s x q)
wake_late-IsSound x s q v proper waits = resched-IsSound true (
    make_ready-IsSound _ q
      (other_fields-IsSound s q s.need_resched s.sleep_list s.sleep_next s.wq_next s.wake_tick
        (upd s.timed_out x true) s.sig_interrupt s.ticks_left s.preempt_count v)
      x proper (blocked-not_idle s q x v proper waits) (ground (arith, waits)))

visit-Visited :
    (now : ℕ) (prev x : Ptr) (s : Sched) (q : ℕ → List Ptr)
    → IsSound s q
    → x ≢ null
    → Visited now prev x s (visit_sleeper now prev x s)
unfolding visit_sleeper
visit-Visited now prev x s q v proper = elim (Bool-cases (is_blocked (s.state x))) [
  | inr stale ↦
      rw (stale, unlink_sleeper-cut prev x s)
        (record {
          sound = (q, cut_sleeper-IsSound prev x s q v);
          next = rw stale refl;
          head = rw stale refl;
          wakes = refl;
          states = λ t. rw stale (ground arith);
          flags = λ t. rw stale (ground arith);
        })
  | inl waits ↦ elim (Bool-cases (expired now (s.wake_tick x))) [
    | inl due ↦
        let cut = cut_sleeper prev x s in
        rw (waits, due, unlink_sleeper-cut prev x s)
          (record {
            sound = (
              pushed cut x q,
              wake_late-IsSound x cut q (cut_sleeper-IsSound prev x s q v) proper waits,
            );
            next = rw (waits, due) (ap (λ r. r.sleep_next) (push-record x _));
            head = rw (waits, due) (ap (λ r. r.sleep_list) (push-record x _));
            wakes = ap (λ r. r.wake_tick) (push-record x _);
            states = λ t. rw (waits, due) (ap (λ f. f t) (push-state x _) ∙ ground arith);
            flags = λ t. rw (waits, due) (ap (λ r. r.timed_out t) (push-record x _) ∙ ground arith);
          })
    | inr early ↦
        rw (waits, early)
          (record {
            sound = (q, v);
            next = rw (waits, early) refl;
            head = rw (waits, early) refl;
            wakes = refl;
            states = λ t. rw (waits, early) (ground arith);
            flags = λ t. rw (waits, early) (ground arith);
          })
  ]
]

-- The threads that the loop has passed and that are still on the list.
abbrev passing : ℕ → Ptr → Sched → List Ptr → List Ptr
passing now x s pre = if stays now x s then pre ++ (x ∷ []) else pre

-- A round and the rounds behind it.
Expired-step :
    (now : ℕ) (prev x : Ptr) (s s1 s' : Sched) (pre post : List Ptr)
    → Visited now prev x s s1
    → count x post ≡ 0
    → Expired now s1 (passing now x s pre) post s'
    → Expired now s pre (x ∷ post) s'
Expired-step now prev x s s1 s' pre post d new done = record {
  left = done.left;
  chain = done.chain;
  once = done.once;
  members = λ t. elim (ℕ_discrete t x) [
    | yes same ↦ rw same (ground (arith, done.members x, new, count-append x pre (x ∷ [])))
    | no other ↦
        let kept : stays now t s1 ≡ stays now t s = stays_kept t other in
        ground (arith, done.members t, kept, count-append t pre (x ∷ []))
  ];
  sound = done.sound;
  woken = λ t m due. elim (ℕ_discrete t x) [
    | yes same ↦
        let due' : late now x s ≡ true = ap (λ a. late now a s) (sym same) ∙ due in
        let (state, flag) = done.others x (inl new) in
        rw same
          (state ∙ d.states x ∙ rw due' (ground arith), flag ∙ d.flags x ∙ rw due' (ground arith))
    | no other ↦ done.woken t (ground (arith, m, other)) (late_kept t other ∙ due)
  ];
  others = λ t out. elim (ℕ_discrete t x) [
    | yes same ↦
        let early : late now x s ≡ false = elim out [
          | inl absent ↦ absurd (ground (arith, absent, same))
          | inr e ↦ ap (λ a. late now a s) (sym same) ∙ e
        ] in
        let (state, flag) = done.others x (inl new) in
        rw same
          (state ∙ d.states x ∙ rw early (ground arith), flag ∙ d.flags x ∙ rw early (ground arith))
    | no other ↦
        let (state, flag) = done.others t (elim out [
          | inl absent ↦ inl (ground (arith, absent))
          | inr e ↦ inr (late_kept t other ∙ e)
        ]) in
        (state ∙ state_kept t other, flag ∙ d.flags t ∙ ground (arith, other))
  ];
}
  where
    state_kept : (t : Ptr) → t ≢ x → s1.state t ≡ s.state t
    state_kept t other = d.states t ∙ ground (arith, other)

    stays_kept : (t : Ptr) → t ≢ x → stays now t s1 ≡ stays now t s
    stays_kept t other = rw (state_kept t other, d.wakes) refl

    late_kept : (t : Ptr) → t ≢ x → late now t s1 ≡ late now t s
    late_kept t other = rw (state_kept t other, d.wakes) refl

-- Where the loop is after a round.
next-place :
    (now : ℕ) (prev at x : Ptr) (s s1 : Sched) (pre post : List Ptr)
    → IsAt s.sleep_next s.sleep_list prev at null pre (x ∷ post)
    → Visited now prev x s s1
    → IsAt s1.sleep_next s1.sleep_list
        (if stays now x s then at else prev)
        (s.sleep_next at)
        null
        (passing now x s pre)
        post
next-place now prev at x s s1 pre post v d = elim (Bool-cases (stays now x s)) [
  | inl e ↦
      let (here, there, rest) = v.here in
      let next : s1.sleep_next ≡ s.sleep_next = d.next ∙ rw e refl in
      let head : s1.sleep_list ≡ s.sleep_list = d.head ∙ rw e refl in
      rw (e, next, head) (next-IsAt s.sleep_next s.sleep_list prev at null x pre post v there)
  | inr e ↦
      let next : s1.sleep_next ≡ cut_next s.sleep_next prev x = d.next ∙ rw e refl in
      let head : s1.sleep_list ≡ cut_head s.sleep_next s.sleep_list prev x = d.head ∙ rw e refl in
      rw (e, next, head) (cut-IsAt s.sleep_next s.sleep_list prev at null x pre post v)
]

expire_from-Expired :
    (n now : ℕ) (prev at : Ptr) (s : Sched) (q : ℕ → List Ptr) (pre post : List Ptr)
    → IsSound s q
    → IsAt s.sleep_next s.sleep_list prev at null pre post
    → length post < n
    → (s' : Sched) × (expire_from n now prev at s ≡ some s') × Expired now s pre post s'
unfolding expire_from
expire_from-Expired zero now prev at s q pre post v place enough = absurd (omega arith)
expire_from-Expired (suc n) now prev at s q pre [] v place enough =
    let test : (at == null) ≡ true = ground (arith, place.here) in
    (
      s,
      rw test refl,
      record {
        left = pre;
        chain = subst (Chain s.sleep_next s.sleep_list) (append-nil pre) place.all;
        once = subst Distinct (append-nil pre) place.once;
        members = λ t. ground arith;
        sound = (q, v);
        woken = λ t m due. absurd (ground (arith, m));
        others = λ t out. (refl, refl);
      },
    )
expire_from-Expired (suc n) now prev at s q pre (x ∷ post) v place enough =
    let (here, there, rest) = place.here in
    let proper : at ≢ null = ground arith in
    let place' : IsAt s.sleep_next s.sleep_list prev at null pre (at ∷ post) =
      subst (λ a. IsAt s.sleep_next s.sleep_list prev at null pre (a ∷ post)) (sym here) place in
    let d = visit-Visited now prev at s q v proper in
    let s1 = visit_sleeper now prev at s in
    let (q1, v1) = d.sound in
    let (s', run, done) =
      expire_from-Expired n now (if stays now at s then at else prev) (s.sleep_next at) s1 q1
        (passing now at s pre) post v1 (next-place now prev at at s s1 pre post place' d)
        (omega arith) in
    let test : (at == null) ≡ false = ground arith in
    let new : count at post ≡ 0 = ground (arith, place'.once at, count-append at pre (at ∷ post)) in
    (
      s',
      rw test run,
      subst (λ a. Expired now s pre (a ∷ post) s') here
          (Expired-step now prev at s s1 s' pre post d new done),
    )

-- `wake_expired_sleepers` returns: it takes off the sleep list every thread that does not block any more or
-- whose time has come, and no other; each thread of the list that blocks and whose time has come is ready,
-- with its timeout noted, and waits in the run queue of its level.
pub wake_expired_sleepers-Expired :
    (now : ℕ) (s : Sched) (q : ℕ → List Ptr) (ts : List Ptr)
    → IsSound s q
    → Chain s.sleep_next s.sleep_list ts
    → Distinct ts
    → length ts ≤ max_processes
    → (s' : Sched) × (wake_expired_sleepers now s ≡ some s') × Expired now s [] ts s'
unfolding wake_expired_sleepers
wake_expired_sleepers-Expired now s q ts v chain once few =
    expire_from-Expired (max_processes + 1) now null s.sleep_list s q [] ts v
      (start-IsAt chain once) (omega arith)
