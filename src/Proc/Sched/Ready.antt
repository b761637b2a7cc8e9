-- ===== src/Proc/Sched/Ready.antt =====
-- kernel/proc/sched/sched.c: which threads the run queues hold, and what waking and queueing do to them.
use makh.Prelude.{
  ℕ, ◌≡◌, ◌≢◌, inl, inr, refl, ap, Bool, true, false, ◌&&◌, ◌||◌, not, List, ◌==◌, if◌then◌else◌,
  arith, Bool-cases,
}
use makh.Prelude.Int.{ℤ}
use makh.Proc.Links.{Ptr, null, upd, count, push_next}
use makh.Proc.Sched.{
  Sched, proc_ready, is_ready, is_running, level, set_state, runq_push, make_ready, sched_wake,
}
use makh.Proc.Sched.Queues.{IsQueues, pushed, push-IsQueues}

-- The thread is ready and is not the idle thread.
abbrev pub waits : Sched → Ptr → Bool
waits s t = is_ready (s.state t) && not (t == s.idle_thread)

-- The run queues hold exactly the threads that wait, each once and at its level; at most the current thread
-- runs; and the idle thread never blocks.
pub record IsSound (s : Sched) (q : ℕ → List Ptr) : Type 0 where
  pub queues : IsQueues (waits s) s q
  pub one_runs : (t : Ptr) → is_running (s.state t) ≡ true → t ≡ s.current
  pub null_rests : is_running (s.state null) ≡ false
  pub idle_up :
      s.idle_thread ≢ null
      → (is_ready (s.state s.idle_thread) || is_running (s.state s.idle_thread)) ≡ true

-- The sleep list is as it was.
abbrev pub SameSleep : Sched → Sched → Type 0
SameSleep s s' = (s'.sleep_list ≡ s.sleep_list) × (s'.sleep_next ≡ s.sleep_next)

-- A push changes the queues only.
pub push-record :
    (t : Ptr) (s : Sched)
    → runq_push t s ≡ record s {
      run_next = push_next s.run_next (s.runq_tail (level s t)) t;
      runq_head =
          if s.runq_tail (level s t) == null then upd s.runq_head (level s t) t else s.runq_head;
      runq_tail = upd s.runq_tail (level s t) t;
    }
unfolding runq_push
push-record t s = elim (Bool-cases (s.runq_tail (level s t) == null)) [
  | inl e ↦ rw e refl
  | inr e ↦ rw e refl
]

pub push-state : (t : Ptr) (s : Sched) → (runq_push t s).state ≡ s.state
push-state t s = ap (λ r. r.state) (push-record t s)

pub push-current : (t : Ptr) (s : Sched) → (runq_push t s).current ≡ s.current
push-current t s = ap (λ r. r.current) (push-record t s)

pub push-idle_thread : (t : Ptr) (s : Sched) → (runq_push t s).idle_thread ≡ s.idle_thread
push-idle_thread t s = ap (λ r. r.idle_thread) (push-record t s)

pub push-SameSleep : (t : Ptr) (s : Sched) → SameSleep s (runq_push t s)
push-SameSleep t s =
    (ap (λ r. r.sleep_list) (push-record t s), ap (λ r. r.sleep_next) (push-record t s))

-- Threads with the same membership stand in the same queues.
pub same-IsQueues :
    {mem : Ptr → Bool} {s : Sched} {q : ℕ → List Ptr} (mem' : Ptr → Bool)
    → ((t : Ptr) → mem' t ≡ mem t)
    → IsQueues mem s q
    → IsQueues mem' s q
same-IsQueues {mem} {s} {q} mem' same v = record {
  chain = v.chain;
  tails = v.tails;
  counts = λ p t. rw (same t) (v.counts p t);
}

module _ (s : Sched) (q : ℕ → List Ptr) (v : IsSound s q) (t : Ptr) (proper : t ≢ null)
    (other : t ≢ s.idle_thread) (idles : is_ready (s.state t) ≡ false) where
  ready-IsQueues : IsQueues (upd (waits s) t true) (make_ready t s) (pushed s t q)
  ready-IsQueues =
      push-IsQueues (waits s) (set_state t proc_ready s) q
        (record { chain = v.queues.chain; tails = v.queues.tails; counts = v.queues.counts }) t
        (rw idles refl) proper

  abbrev now : Sched
  now = set_state t proc_ready s

  waits_as_said : (a : Ptr) → waits (make_ready t s) a ≡ upd (waits s) t true a
  waits_as_said a = rw (push-state t now, push-idle_thread t now) (ground arith)

  still_one :
      (a : Ptr) → is_running ((make_ready t s).state a) ≡ true → a ≡ (make_ready t s).current
  still_one a = rw (push-state t now, push-current t now) (ground (arith, v.one_runs a))

  still_up :
      (make_ready t s).idle_thread ≢ null
      → (is_ready ((make_ready t s).state (make_ready t s).idle_thread)
          || is_running ((make_ready t s).state (make_ready t s).idle_thread))
        ≡ true
  still_up = rw (push-state t now, push-idle_thread t now) (ground (arith, v.idle_up))

  -- A thread that is made ready waits at the end of the queue of its level.
  pub make_ready-IsSound : IsSound (make_ready t s) (pushed s t q)
  make_ready-IsSound = record {
    queues = same-IsQueues (waits (make_ready t s)) waits_as_said ready-IsQueues;
    one_runs = still_one;
    null_rests = rw (push-state t now) (ground (arith, v.null_rests));
    idle_up = still_up;
  }

-- The fields that the run queues do not depend on.
pub other_fields-IsSound :
    (s : Sched) (q : ℕ → List Ptr) (resched : Bool) (sleepers : Ptr) (sleep wait : Ptr → Ptr)
    (wake : Ptr → ℕ) (late interrupted : Ptr → Bool) (ticks count : Ptr → ℤ)
    → IsSound s q
    → IsSound
        (record s {
          need_resched = resched;
          sleep_list = sleepers;
          sleep_next = sleep;
          wq_next = wait;
          wake_tick = wake;
          timed_out = late;
          sig_interrupt = interrupted;
          ticks_left = ticks;
          preempt_count = count;
        })
        q
other_fields-IsSound s q resched sleepers sleep wait wake late interrupted ticks count v = record {
  queues = record { chain = v.queues.chain; tails = v.queues.tails; counts = v.queues.counts };
  one_runs = v.one_runs;
  null_rests = v.null_rests;
  idle_up = v.idle_up;
}

pub resched-IsSound :
    {s : Sched} {q : ℕ → List Ptr} (b : Bool)
    → IsSound s q
    → IsSound (record s { need_resched = b }) q
resched-IsSound {s} {q} b v =
    other_fields-IsSound s q b s.sleep_list s.sleep_next s.wq_next s.wake_tick s.timed_out
      s.sig_interrupt s.ticks_left s.preempt_count v

-- Whether `sched_wake` does something.
abbrev pub wakes : Sched → Ptr → Bool
wakes s t = not ((t == null) || (is_running (s.state t) || is_ready (s.state t)))

-- The idle thread is not one that a wake makes ready.
not_idle :
    (s : Sched) (q : ℕ → List Ptr) (t : Ptr)
    → IsSound s q
    → ((t == null) || (is_running (s.state t) || is_ready (s.state t))) ≡ false
    → t ≢ s.idle_thread
not_idle s q t v e same =
    let up = v.idle_up in
    let up' : t ≢ null → (is_ready (s.state t) || is_running (s.state t)) ≡ true = rw same up in
    ground (arith, up', e)

-- `sched_wake` of any thread keeps the run queues sound: a blocked thread goes to the end of its level, a
-- thread that is ready or runs stays where it is.
pub sched_wake-IsSound :
    (s : Sched) (q : ℕ → List Ptr) (t : Ptr)
    → IsSound s q
    → IsSound (sched_wake t s) (if wakes s t then pushed s t q else q)
unfolding sched_wake
sched_wake-IsSound s q t v =
    elim (Bool-cases ((t == null) || (is_running (s.state t) || is_ready (s.state t)))) [
      | inl e ↦ rw e v
      | inr e ↦ rw e (
          resched-IsSound true (
            make_ready-IsSound s q v t (λ h. ground (arith, e)) (not_idle s q t v e)
              (ground (arith, e))))
    ]
