-- ===== src/Proc/Sched/Runs.antt =====
-- kernel/proc/sched/sched.c: the scheduler in every order of its calls.
use makh.Prelude.{ℕ, suc, ◌≡◌, ◌≢◌, refl, ap, false, some, List, ◌≤◌, subst}
use makh.Proc.Links.{Ptr, null, length}
use makh.Proc.Sched.Invariant.{
  Few, Healthy, Inv, IsBusy, OffList, admit-IsSound, admit-SameSleep, disable-SameSleep,
  disable-Sound, kept-Inv, one-Inv, schedule-Inv, stop-Inv, unique, wake-SameSleep,
}
use makh.Proc.Sched.Blocking.{
  account-Inv, enable-Inv, preempt-Inv, sleep_begin-Healthy, sleep_begin-Inv, slept-run, tick-run,
  wait_begin-Healthy, wait_begin-Inv, wait_end-Inv,
}
use makh.Proc.Sched.{
  Sched, proc_zombie, is_ready, set_state, schedule, preempt_disable, preempt_enable,
  sched_preempt_if_needed, sched_wake, sched_admit,
}
use makh.Proc.Sched.Wait.{WaitQueue, max_processes, wq_wake_one, wq_wake_all, wait_begin}
use makh.Proc.Sched.Sleep.{wait_end, sched_tick, sleep_begin, sched_sleep_ticks}
use makh.Proc.Sched.Ready.{sched_wake-IsSound}
use makh.Proc.Sched.Waking.{Holds, wq_wake_one-WokenOne, wq_wake_all-WokenAll, first_blocked}
use makh.Proc.Sched.Expiry.{wake_expired_sleepers-Expired}

-- One call of the scheduler, with what its caller sees to.
pub data Step (s : Sched) : Sched → Type 0 where
  woke : (t : Ptr) → Step s (sched_wake t s)
  admitted :
      (t : Ptr)
      → t ≢ null
      → t ≢ s.idle_thread
      → is_ready (s.state t) ≡ false
      → Step s (sched_admit t s)
  ticked : (now : ℕ) (s' : Sched) → Few s → sched_tick now s ≡ some s' → Step s s'
  slept :
      (now ticks : ℕ) (s' : Sched)
      → Healthy s
      → IsBusy s
      → OffList s
      → sched_sleep_ticks now (suc ticks) s ≡ some s'
      → Step s s'
  waited :
      (now timeout : ℕ) (wq : WaitQueue) (s' : Sched)
      → Healthy s
      → IsBusy s
      → OffList s
      → schedule (wait_begin now timeout wq s).1 ≡ some s'
      → Step s s'
  returned :
      (t : Ptr) (wq wq' : WaitQueue) (ws : List Ptr) (r : ℕ) (s' : Sched)
      → Holds wq s ws
      → length ws ≤ max_processes
      → Few s
      → wait_end t wq s ≡ some (r, wq', s')
      → Step s s'
  woke_one :
      (wq wq' : WaitQueue) (ws : List Ptr) (s' : Sched)
      → Holds wq s ws
      → length ws ≤ max_processes
      → wq_wake_one wq s ≡ some (wq', s')
      → Step s s'
  woke_all :
      (wq wq' : WaitQueue) (ws : List Ptr) (s' : Sched)
      → Holds wq s ws
      → length ws ≤ max_processes
      → wq_wake_all wq s ≡ some (wq', s')
      → Step s s'
  exited :
      (s' : Sched)
      → Healthy s
      → IsBusy s
      → schedule (set_state s.current proc_zombie s) ≡ some s'
      → Step s s'
  yielded : (s' : Sched) → Healthy s → schedule s ≡ some s' → Step s s'
  disabled : Step s (preempt_disable s)
  enabled : (s' : Sched) → Healthy s → preempt_enable s ≡ some s' → Step s s'
  preempted : (s' : Sched) → Healthy s → sched_preempt_if_needed s ≡ some s' → Step s s'

Step-Inv : {s s' : Sched} → Inv s → Step s s' → Inv s'
Step-Inv {s} v (woke t) =
    let (q, sound) = v.queues in kept-Inv v (_, sched_wake-IsSound s q t sound) (wake-SameSleep s t)
Step-Inv {s} v (admitted t proper other idles) =
    let (q, sound) = v.queues in
    kept-Inv v (_, admit-IsSound s q t sound proper other idles) (admit-SameSleep s t)
Step-Inv {s} v (ticked now s' few e) =
    let (q, sound) = v.queues in
    let (s1, run, d) =
      wake_expired_sleepers-Expired now s q v.sleepers sound v.chain v.once
        (few v.sleepers v.chain) in
    subst Inv (unique (tick-run now s s1 run) e) (
      account-Inv s1
        (record { queues = d.sound; sleepers = d.left; chain = d.chain; once = d.once }))
Step-Inv {s} v (slept now ticks s' h b off e) =
    schedule-Inv (sleep_begin now (suc ticks) s) s'
      (sleep_begin-Inv now (suc ticks) s v b (off v.sleepers v.chain))
      (sleep_begin-Healthy now (suc ticks) s h) (slept-run now ticks s s' e)
Step-Inv {s} v (waited now timeout wq s' h b off e) =
    schedule-Inv (wait_begin now timeout wq s).1 s'
      (wait_begin-Inv now timeout wq s v b (off v.sleepers v.chain))
      (wait_begin-Healthy now timeout wq s h) e
Step-Inv {s} v (returned t wq wq' ws r s' hold short few e) =
    let (r1, wq1, s1, run, done, held) =
      wait_end-Inv t wq ws s v hold short (few v.sleepers v.chain) in
    subst Inv (ap (λ (o : ℕ × WaitQueue × Sched). o.2) (unique run e)) done
Step-Inv {s} v (woke_one wq wq' ws s' hold short e) =
    let (q, sound) = v.queues in
    let (wq1, s1, run, woken) = wq_wake_one-WokenOne wq s q ws sound hold short in
    subst Inv (ap (λ (o : WaitQueue × Sched). o.1) (unique run e))
      (one-Inv s s1 q wq1 (first_blocked s.state ws) v woken)
Step-Inv {s} v (woke_all wq wq' ws s' hold short e) =
    let (q, sound) = v.queues in
    let (wq1, s1, run, woken) = wq_wake_all-WokenAll wq s q ws sound hold short in
    subst Inv (ap (λ (o : WaitQueue × Sched). o.1) (unique run e))
      (kept-Inv v woken.sound woken.asleep)
Step-Inv {s} v (exited s' h b e) =
    schedule-Inv _ s' (stop-Inv s proc_zombie v b refl refl)
      (record { idle_there = h.idle_there; canary = h.canary }) e
Step-Inv {s} v (yielded s' h e) = schedule-Inv s s' v h e
Step-Inv {s} v disabled = kept-Inv v (disable-Sound s v.queues) (disable-SameSleep s)
Step-Inv {s} v (enabled s' h e) = enable-Inv s s' v h e
Step-Inv {s} v (preempted s' h e) = preempt-Inv s s' v h e

-- A run of the scheduler: any number of calls.
pub data Run : Sched → Sched → Type 0 where
  done : {s : Sched} → Run s s
  call : {s s1 s2 : Sched} → Step s s1 → Run s1 s2 → Run s s2

-- In every run of the scheduler whose calls keep the conditions below, each thread that is ready, other than the
-- idle thread, stands exactly once in the run queue of its level and no other thread stands in one, at most the
-- current thread runs, and the sleep list is a list without repetition. The conditions: the run starts from a
-- state like that; the calls that switch are made with an idle thread and an intact canary; a thread is admitted
-- only if it is neither the idle thread nor ready; the calls that block are made by a running thread that is not
-- the idle thread and is not on the sleep list any more, which a sleep that a signal cuts short does not see to;
-- the wait queues of the calls are lists without repetition; and no more than `MAX_PROCESSES` threads are on the
-- sleep list or a wait queue.
pub Run-Inv : {s s' : Sched} → Inv s → Run s s' → Inv s'
Run-Inv v done = v
Run-Inv v (call step run) = Run-Inv (Step-Inv v step) run
