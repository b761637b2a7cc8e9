-- ===== src/Proc/Sched/Waking.antt =====
-- kernel/proc/sched/sched.c: what waking a wait queue does, against the list of the threads that wait on it.
use makh.Prelude.{
  ℕ, zero, suc, ◌+◌, ◌≡◌, ◌≢◌, ◌⊎◌, inl, inr, refl, sym, ◌∙◌, ap, true, false, ◌&&◌, ◌||◌, Option,
  none, some, List, [], ◌∷◌, ◌==◌, ◌≤◌, ◌<◌, subst, if◌then◌else◌, arith, ℕ_discrete, Bool-cases,
}
use makh.Proc.Links.{Ptr, null, upd, count, last, length, Chain, Distinct, Chain-pop, tail-pop}
use makh.Proc.Sched.{Sched, ProcState, proc_ready, is_ready, is_running, is_blocked}
use makh.Proc.Sched.Queues.{pushed}
use makh.Proc.Sched.Ready.{
  IsSound, SameSleep, other_fields-IsSound, resched-IsSound, make_ready-IsSound, push-record,
  push-state,
}
use makh.Proc.Sched.Wait.{
  WaitQueue, max_processes, wake_up, wq_pop, wake_one_from, wq_wake_one, wake_all_from, wq_wake_all,
}

-- The wait queue holds the threads of the list, in this order.
pub record Holds (wq : WaitQueue) (s : Sched) (ws : List Ptr) : Type 0 where
  pub chain : Chain s.wq_next wq.head ws
  pub tails : wq.tail ≡ last ws
  pub once : Distinct ws

-- The first blocked thread of a list, with those behind it.
unfoldable pub first_blocked : (Ptr → ProcState) → List Ptr → Option (Ptr × List Ptr)
first_blocked state [] = none
first_blocked state (w ∷ ws) = if is_blocked (state w) then some (w, ws) else first_blocked state ws

-- What a wake of one thread leaves.
abbrev pub WokenOne : Sched → (ℕ → List Ptr) → Option (Ptr × List Ptr) → WaitQueue → Sched → Type 0
WokenOne s q none wq s' = Holds wq s' [] × IsSound s' q × (s'.state ≡ s.state) × SameSleep s s'
WokenOne s q (some (t, ws)) wq s' =
    Holds wq s' ws
    × IsSound s' (pushed s t q)
    × (s'.state ≡ upd s.state t proc_ready)
    × SameSleep s s'

pub blocked-not_idle :
    (s : Sched) (q : ℕ → List Ptr) (t : Ptr)
    → IsSound s q
    → t ≢ null
    → is_blocked (s.state t) ≡ true
    → t ≢ s.idle_thread
blocked-not_idle s q t v proper waits same =
    let up = v.idle_up in
    let up' : t ≢ null → (is_ready (s.state t) || is_running (s.state t)) ≡ true = rw same up in
    ground (arith, up', waits)

wake_up-IsSound :
    (s : Sched) (q : ℕ → List Ptr) (t : Ptr)
    → IsSound s q
    → t ≢ null
    → is_blocked (s.state t) ≡ true
    → IsSound (wake_up t s) (pushed s t q)
wake_up-IsSound s q t v proper waits = resched-IsSound true (
    make_ready-IsSound _ q
      (other_fields-IsSound s q s.need_resched s.sleep_list s.sleep_next s.wq_next s.wake_tick
        (upd s.timed_out t false) s.sig_interrupt s.ticks_left s.preempt_count v)
      t proper (blocked-not_idle s q t v proper waits) (ground (arith, waits)))

wake_up-state : (t : Ptr) (s : Sched) → (wake_up t s).state ≡ upd s.state t proc_ready
wake_up-state t s = push-state t _

wake_up-wq_next : (t : Ptr) (s : Sched) → (wake_up t s).wq_next ≡ s.wq_next
wake_up-wq_next t s = ap (λ r. r.wq_next) (push-record t _)

wake_up-SameSleep : (t : Ptr) (s : Sched) → SameSleep s (wake_up t s)
wake_up-SameSleep t s =
    (ap (λ r. r.sleep_list) (push-record t _), ap (λ r. r.sleep_next) (push-record t _))

pop-empty : (wq : WaitQueue) (s : Sched) → Holds wq s [] → wq_pop wq s ≡ (null, wq, s)
unfolding wq_pop
pop-empty wq s h = rw h.chain refl

-- The scheduler without the head of a wait queue.
abbrev unlinked : WaitQueue → Sched → Sched
unlinked wq s = record s { wq_next = upd s.wq_next wq.head null }

abbrev shorter : WaitQueue → Sched → WaitQueue
shorter wq s = record {
  head = s.wq_next wq.head;
  tail = if s.wq_next wq.head == null then null else wq.tail;
}

pop-first :
    (wq : WaitQueue) (s : Sched) (w : Ptr) (ws : List Ptr)
    → Holds wq s (w ∷ ws)
    → (wq_pop wq s ≡ (wq.head, shorter wq s, unlinked wq s))
      × (wq.head ≡ w)
      × (w ≢ null)
      × Holds (shorter wq s) (unlinked wq s) ws
unfolding wq_pop
pop-first wq s w ws h =
    let (here, there, rest) = h.chain in
    let test : (wq.head == null) ≡ false = ground arith in
    (
      rw test refl,
      here,
      there,
      record {
        chain = Chain-pop s.wq_next wq.head w ws h.chain h.once;
        tails = tail-pop s.wq_next wq.head w wq.tail ws h.chain h.tails;
        once = λ a. ground (arith, h.once a);
      },
    )

unlinked-IsSound :
    (wq : WaitQueue) (s : Sched) (q : ℕ → List Ptr) → IsSound s q → IsSound (unlinked wq s) q
unlinked-IsSound wq s q v =
    other_fields-IsSound s q s.need_resched s.sleep_list s.sleep_next (upd s.wq_next wq.head null)
      s.wake_tick s.timed_out s.sig_interrupt s.ticks_left s.preempt_count v

-- A wake does not change the rest of the wait queue.
wake_up-Holds :
    (wq : WaitQueue) (t : Ptr) (s : Sched) (ws : List Ptr)
    → Holds wq s ws
    → Holds wq (wake_up t s) ws
wake_up-Holds wq t s ws h = record {
  chain = rw (wake_up-wq_next t s) h.chain;
  tails = h.tails;
  once = h.once;
}

woken_here :
    (wq : WaitQueue) (s : Sched) (q : ℕ → List Ptr) (ws : List Ptr)
    → IsSound (unlinked wq s) q
    → Holds (shorter wq s) (unlinked wq s) ws
    → wq.head ≢ null
    → is_blocked (s.state wq.head) ≡ true
    → WokenOne s q (some (wq.head, ws)) (shorter wq s) (wake_up wq.head (unlinked wq s))
woken_here wq s q ws v h proper waits = (
  wake_up-Holds (shorter wq s) wq.head (unlinked wq s) ws h,
  wake_up-IsSound (unlinked wq s) q wq.head v proper waits,
  wake_up-state wq.head (unlinked wq s),
  wake_up-SameSleep wq.head (unlinked wq s),
)

wake_one_from-WokenOne :
    (n : ℕ) (wq : WaitQueue) (s : Sched) (q : ℕ → List Ptr) (ws : List Ptr)
    → IsSound s q
    → Holds wq s ws
    → length ws < n
    → (wq' : WaitQueue) × (s' : Sched) × (wake_one_from n wq s ≡ some (wq', s'))
      × WokenOne s q (first_blocked s.state ws) wq' s'
unfolding wake_one_from first_blocked
wake_one_from-WokenOne zero wq s q ws v h enough = absurd (omega arith)
wake_one_from-WokenOne (suc n) wq s q [] v h enough =
    (wq, s, rw (pop-empty wq s h) refl, (h, v, refl, (refl, refl)))
wake_one_from-WokenOne (suc n) wq s q (w ∷ ws) v h enough =
    let (run, here, there, rest) = pop-first wq s w ws h in
    let v' = unlinked-IsSound wq s q v in
    let more = wake_one_from-WokenOne n (shorter wq s) (unlinked wq s) q ws v' rest (omega arith) in
    let proper : wq.head ≢ null = ground arith in
    let test : (wq.head == null) ≡ false = ground arith in
    elim (Bool-cases (is_blocked (s.state w))) [
      | inl waits ↦
          let waits' : is_blocked (s.state wq.head) ≡ true = rw here waits in
          (
            shorter wq s,
            wake_up wq.head (unlinked wq s),
            rw (run, test, waits') refl,
            rw waits (
                subst
                  (λ x.
                    WokenOne s q (some (x, ws)) (shorter wq s) (wake_up wq.head (unlinked wq s)))
                  here (woken_here wq s q ws v' rest proper waits')),
          )
      | inr stale ↦
          let stale' : is_blocked (s.state wq.head) ≡ false = rw here stale in
          let (wq', s', run', woken) = more in
          (wq', s', rw (run, test, stale') run', rw stale woken)
    ]

-- `wq_wake_one` returns, drops the threads at the front of the wait queue that do not block any more, takes
-- the first that does off it and makes it wait at the end of the run queue of its level; the others stay on
-- the wait queue, and without a blocked thread it only becomes empty.
pub wq_wake_one-WokenOne :
    (wq : WaitQueue) (s : Sched) (q : ℕ → List Ptr) (ws : List Ptr)
    → IsSound s q
    → Holds wq s ws
    → length ws ≤ max_processes
    → (wq' : WaitQueue) × (s' : Sched) × (wq_wake_one wq s ≡ some (wq', s'))
      × WokenOne s q (first_blocked s.state ws) wq' s'
unfolding wq_wake_one
wq_wake_one-WokenOne wq s q ws v h few =
    wake_one_from-WokenOne (max_processes + 1) wq s q ws v h (omega arith)

-- What a wake of all threads leaves.
pub record WokenAll (s : Sched) (ws : List Ptr) (wq : WaitQueue) (s' : Sched) : Type 0 where
  pub empty : Holds wq s' []
  pub sound : (q : ℕ → List Ptr) × IsSound s' q
  pub woken :
      (w : Ptr) → count w ws ≢ 0 → is_blocked (s.state w) ≡ true → is_ready (s'.state w) ≡ true
  pub asleep : SameSleep s s'
  pub others :
      (t : Ptr) → (count t ws ≡ 0) ⊎ (is_blocked (s.state t) ≡ false) → s'.state t ≡ s.state t

-- The scheduler after the head `w` of a wait queue was taken off, and woken where it blocks.
abbrev handled : WaitQueue → Sched → Sched
handled wq s =
    if is_blocked (s.state wq.head) then wake_up wq.head (unlinked wq s) else unlinked wq s

record Handled (wq : WaitQueue) (s : Sched) (ws : List Ptr) : Type 0 where
  held : Holds (shorter wq s) (handled wq s) ws
  sound : (q : ℕ → List Ptr) × IsSound (handled wq s) q
  asleep : SameSleep s (handled wq s)
  states :
      (t : Ptr)
      → (handled wq s).state t
        ≡ (if (t == wq.head) && is_blocked (s.state wq.head) then proc_ready else s.state t)

handle :
    (wq : WaitQueue) (s : Sched) (q : ℕ → List Ptr) (w : Ptr) (ws : List Ptr)
    → IsSound s q
    → Holds wq s (w ∷ ws)
    → Handled wq s ws
handle wq s q w ws v h =
    let (run, here, there, rest) = pop-first wq s w ws h in
    let v' = unlinked-IsSound wq s q v in
    let proper : wq.head ≢ null = ground arith in
    elim (Bool-cases (is_blocked (s.state wq.head))) [
      | inl waits ↦ record {
        held = rw waits (wake_up-Holds (shorter wq s) wq.head (unlinked wq s) ws rest);
        sound = rw waits (
          pushed (unlinked wq s) wq.head q,
          wake_up-IsSound (unlinked wq s) q wq.head v' proper waits,
        );
        asleep = rw waits (wake_up-SameSleep wq.head (unlinked wq s));
        states = λ t. rw (waits, wake_up-state wq.head (unlinked wq s)) (ground arith);
      }
      | inr stale ↦ record {
        held = rw stale rest;
        sound = rw stale (q, v');
        asleep = rw stale ((refl, refl));
        states = λ t. rw stale (ground arith);
      }
    ]

WokenAll-step :
    (s s1 s' : Sched) (w : Ptr) (ws : List Ptr) (wq : WaitQueue)
    → count w ws ≡ 0
    → ((t : Ptr)
        → s1.state t ≡ (if (t == w) && is_blocked (s.state w) then proc_ready else s.state t))
    → SameSleep s s1
    → WokenAll s1 ws wq s'
    → WokenAll s (w ∷ ws) wq s'
WokenAll-step s s1 s' w ws wq new states same_sleep done = record {
  empty = done.empty;
  sound = done.sound;
  asleep = (done.asleep.0 ∙ same_sleep.0, done.asleep.1 ∙ same_sleep.1);
  woken = λ t m waits. elim (ℕ_discrete t w) [
    | yes same ↦
        let first : s'.state w ≡ s1.state w = done.others w (inl new) in
        let waits' : is_blocked (s.state w) ≡ true =
          ap (λ a. is_blocked (s.state a)) (sym same) ∙ waits in
        let ready : s1.state w ≡ proc_ready = states w ∙ rw waits' (ground arith) in
        rw (same, first, ready) refl
    | no other ↦
        let kept : s1.state t ≡ s.state t = states t ∙ ground (arith, other) in
        done.woken t (ground (arith, m, other)) (rw kept waits)
  ];
  others = λ t out. elim (ℕ_discrete t w) [
    | yes same ↦
        let stale : is_blocked (s.state w) ≡ false = elim out [
          | inl absent ↦ absurd (ground (arith, absent))
          | inr idle ↦ ap (λ a. is_blocked (s.state a)) (sym same) ∙ idle
        ] in
        let kept : s1.state w ≡ s.state w = states w ∙ rw stale (ground arith) in
        rw same (done.others w (inl new) ∙ kept)
    | no other ↦
        let kept : s1.state t ≡ s.state t = states t ∙ ground (arith, other) in
        done.others t
          (elim out [ inl absent ↦ inl (ground (arith, absent)) | inr idle ↦ inr (rw kept idle) ])
        ∙ kept
  ];
}

wake_all_from-WokenAll :
    (n : ℕ) (wq : WaitQueue) (s : Sched) (q : ℕ → List Ptr) (ws : List Ptr)
    → IsSound s q
    → Holds wq s ws
    → length ws < n
    → (wq' : WaitQueue) × (s' : Sched) × (wake_all_from n wq s ≡ some (wq', s'))
      × WokenAll s ws wq' s'
unfolding wake_all_from
wake_all_from-WokenAll zero wq s q ws v h enough = absurd (omega arith)
wake_all_from-WokenAll (suc n) wq s q [] v h enough = (
  wq,
  s,
  rw (pop-empty wq s h) refl,
  record {
    empty = h;
    sound = (q, v);
    woken = λ w m waits. absurd (ground (arith, m));
    asleep = (refl, refl);
    others = λ t out. refl;
  },
)
wake_all_from-WokenAll (suc n) wq s q (w ∷ ws) v h enough =
    let (run, here, there, rest) = pop-first wq s w ws h in
    let d = handle wq s q w ws v h in
    let (q1, v1) = d.sound in
    let (wq', s', run', done) =
      wake_all_from-WokenAll n (shorter wq s) (handled wq s) q1 ws v1 d.held (omega arith) in
    let test : (wq.head == null) ≡ false = ground arith in
    (
      wq',
      s',
      rw (run, test) run',
      WokenAll-step s (handled wq s) s' w ws wq' (ground (arith, h.once w)) (rw (sym here) d.states)
          d.asleep done,
    )

-- `wq_wake_all` returns, leaves the wait queue empty and every thread on it that blocked ready and in the run
-- queue of its level, and changes the state of no other thread.
pub wq_wake_all-WokenAll :
    (wq : WaitQueue) (s : Sched) (q : ℕ → List Ptr) (ws : List Ptr)
    → IsSound s q
    → Holds wq s ws
    → length ws ≤ max_processes
    → (wq' : WaitQueue) × (s' : Sched) × (wq_wake_all wq s ≡ some (wq', s')) × WokenAll s ws wq' s'
unfolding wq_wake_all
wq_wake_all-WokenAll wq s q ws v h few =
    wake_all_from-WokenAll (max_processes + 1) wq s q ws v h (omega arith)
