-- ===== src/Proc/Sched.antt =====
-- kernel/proc/sched/sched.c: the run queues, the switch, the timer, preemption, and waking.
pub mod Queues
mod Tests
pub mod Joining
pub mod Doubled
pub mod Runs
pub mod Invariant
pub mod Blocking
pub mod Expiry
pub mod Leaving
pub mod Sleep
pub mod Waking
pub mod Wait
pub mod Switch
pub mod Ready
pub mod Pick
use makh.Prelude.{
  ℕ, zero, suc, ◌+◌, ◌-◌, ◌%◌, ◌^◌, Bool, true, false, not, ◌&&◌, ◌||◌, Option, none, some, ltb,
  leb, ◌==◌, if◌then◌else◌,
}
use makh.Prelude.Int.{ℤ, pos, negsuc}
use makh.Proc.Links.{Ptr, null, upd}

abbrev pub prio_levels : ℕ
prio_levels = 32

abbrev pub sched_quantum : ℕ
sched_quantum = 5

-- `process_state_t`
pub data ProcState : Type 0 where
  proc_embryo : ProcState
  proc_ready : ProcState
  proc_running : ProcState
  proc_blocked : ProcState
  proc_zombie : ProcState

abbrev pub is_ready : ProcState → Bool
is_ready proc_ready = true
is_ready _ = false

abbrev pub is_running : ProcState → Bool
is_running proc_running = true
is_running _ = false

abbrev pub is_blocked : ProcState → Bool
is_blocked proc_blocked = true
is_blocked _ = false

-- The scheduler's variables, and of each `process_t` the fields the scheduler reads or writes, one map per
-- field. `smashed` says that the canary of the thread's stack is checked and is not there.
pub record Sched : Type 0 where
  pub runq_head : ℕ → Ptr
  pub runq_tail : ℕ → Ptr
  pub idle_thread : Ptr
  pub sleep_list : Ptr
  pub reap_list : Ptr
  pub need_resched : Bool
  pub current : Ptr
  pub state : Ptr → ProcState
  pub priority : Ptr → ℕ
  pub run_next : Ptr → Ptr
  pub sleep_next : Ptr → Ptr
  pub wq_next : Ptr → Ptr
  pub wake_tick : Ptr → ℕ
  pub timed_out : Ptr → Bool
  pub sig_interrupt : Ptr → Bool
  pub ticks_left : Ptr → ℤ
  pub time_slice : Ptr → ℕ
  pub preempt_count : Ptr → ℤ
  pub smashed : Ptr → Bool

-- `if (p >= PRIO_LEVELS) p = PRIO_LEVELS - 1;`
abbrev pub level : Sched → Ptr → ℕ
level s t = if leb prio_levels (s.priority t) then prio_levels - 1 else s.priority t

pub runq_push : Ptr → Sched → Sched
runq_push t s =
    let p = level s t in
    let alone = upd s.run_next t null in
    if s.runq_tail p == null
    then record s {
      run_next = alone;
      runq_head = upd s.runq_head p t;
      runq_tail = upd s.runq_tail p t;
    }
    else record s { run_next = upd alone (s.runq_tail p) t; runq_tail = upd s.runq_tail p t }

-- What the loop does with a queue that is not empty.
abbrev pub pop_head : ℕ → Sched → Sched
pop_head p s =
    let t = s.runq_head p in
    let after = s.run_next t in
    record s {
      runq_head = upd s.runq_head p after;
      runq_tail = if after == null then upd s.runq_tail p null else s.runq_tail;
      run_next = upd s.run_next t null;
    }

-- The loop of `runq_pop_highest` from level `p` on, on the rounds left.
pub pop_from : ℕ → ℕ → Sched → Ptr × Sched
pop_from zero p s = (null, s)
pop_from (suc n) p s =
    let rest = pop_from n (p + 1) s in
    if s.runq_head p == null then rest else (s.runq_head p, pop_head p s)

pub runq_pop_highest : Sched → Ptr × Sched
runq_pop_highest s = pop_from prio_levels 0 s

abbrev pub set_state : Ptr → ProcState → Sched → Sched
set_state t v s = record s { state = upd s.state t v }

-- `t->state = PROC_READY; runq_push(t);`
abbrev pub make_ready : Ptr → Sched → Sched
make_ready t s = runq_push t (set_state t proc_ready s)

-- `schedule`, first part: the outgoing thread is queued again.
pub requeue : Sched → Sched
requeue s =
    let prev = s.current in
    if not (prev == null) && not (prev == s.idle_thread) && is_running (s.state prev)
    then make_ready prev s
    else s

-- `next->ticks_left = next->time_slice ? next->time_slice : SCHED_QUANTUM`, and the switch.
abbrev pub run_next_thread : Ptr → Sched → Sched
run_next_thread next s = record s {
  state = upd s.state next proc_running;
  ticks_left =
      upd s.ticks_left next
        (pos (if s.time_slice next == 0 then sched_quantum else s.time_slice next));
  current = next;
}

-- `if (prev == idle_thread && next != idle_thread) prev->state = PROC_READY;`
abbrev pub rest_idle : Ptr → Ptr → Sched → Sched
rest_idle prev next s = record s {
  state =
      if (prev == s.idle_thread) && not (next == s.idle_thread)
      then upd s.state prev proc_ready
      else s.state;
}

-- `schedule`, second part, with what was taken off the queues: no result where it panics on a smashed
-- canary, or dereferences a null `prev` or `next`.
pub switch_to : Ptr → Ptr → Sched → Option Sched
switch_to prev popped s =
    let next = if popped == null then s.idle_thread else popped in
    let rested = rest_idle prev next s in
    if (prev == null) && (s.idle_thread == null) && not (next == null)
    then none
    else if not (prev == null) && s.smashed prev
    then none
    else if next == null
    then none
    else some (run_next_thread next rested)

pub schedule : Sched → Option Sched
schedule s = let taken = runq_pop_highest (requeue s) in switch_to s.current taken.0 taken.1

-- The decrement of an `int`.
abbrev pub pred : ℤ → ℤ
pred (pos zero) = negsuc 0
pred (pos (suc n)) = pos n
pred (negsuc n) = negsuc (suc n)

abbrev pub is_positive : ℤ → Bool
is_positive (pos n) = ltb 0 n
is_positive (negsuc n) = false

abbrev pub is_zero : ℤ → Bool
is_zero (pos n) = n == 0
is_zero (negsuc n) = false

abbrev pub succ : ℤ → ℤ
succ (pos n) = pos (n + 1)
succ (negsuc zero) = pos 0
succ (negsuc (suc n)) = negsuc n

pub preempt_disable : Sched → Sched
preempt_disable s = if s.current == null then s else record s {
  preempt_count = upd s.preempt_count s.current (succ (s.preempt_count s.current));
}

pub preempt_enable : Sched → Option Sched
preempt_enable s =
    let left = pred (s.preempt_count s.current) in
    let lowered = record s { preempt_count = upd s.preempt_count s.current left } in
    if s.current == null
    then some s
    else if is_zero left && s.need_resched
    then schedule lowered
    else some lowered

pub sched_preempt_if_needed : Sched → Option Sched
sched_preempt_if_needed s =
    if s.need_resched && ((s.current == null) || is_zero (s.preempt_count s.current))
    then schedule (record s { need_resched = false })
    else some s

pub sched_wake : Ptr → Sched → Sched
sched_wake t s =
    if (t == null) || (is_running (s.state t) || is_ready (s.state t))
    then s
    else record (make_ready t s) { need_resched = true }

pub sched_admit : Ptr → Sched → Sched
sched_admit t s = record (make_ready t s) { need_resched = true }

-- `proc_add_to_ready`
pub proc_add_to_ready : Ptr → Sched → Sched
proc_add_to_ready t s = sched_wake t s

pub sched_init : Sched → Sched
sched_init s = record s {
  runq_head = λ p. null;
  runq_tail = λ p. null;
  sleep_list = null;
  reap_list = null;
  need_resched = false;
}
