-- ===== src/Proc/Sched/Blocking.antt =====
-- kernel/proc/sched/sched.c: the invariant of the scheduler at the tick, in calls that block, and where a wait ends.
use makh.Prelude.{
  ℕ, suc, ◌≡◌, ◌≢◌, refl, sym, ap, true, false, not, ◌&&◌, ◌||◌, some, List, ◌∷◌, ◌==◌, ◌≤◌, subst,
  if◌then◌else◌, arith, Bool-cases, inl, inr,
}
use makh.Prelude.Branches.{either_way}
use makh.Proc.Links.{Ptr, null, upd, count, length, Chain, Chain-upd}
use makh.Proc.Sched.Invariant.{
  Healthy, Inv, IsBusy, Sound, counted-IsSound, kept-Inv, schedule-Inv, stop-IsSound, unique,
}
use makh.Proc.Sched.{
  pred, is_zero, Sched, ProcState, proc_blocked, is_ready, is_running, set_state, schedule,
  preempt_enable, sched_preempt_if_needed,
}
use makh.Proc.Sched.Wait.{WaitQueue, max_processes, wait_begin}
use makh.Proc.Sched.Sleep.{
  wait_end, sched_tick, account, wake_expired_sleepers, sleep_begin, sched_sleep_ticks,
}
use makh.Proc.Sched.Ready.{IsSound, other_fields-IsSound, resched-IsSound}
use makh.Proc.Sched.Waking.{Holds}
use makh.Proc.Sched.Leaving.{wq_remove-Left, sleep_remove-Woke}
use makh.Proc.Links.Cut.{erase}

pub tick-run :
    (now : ℕ) (s s1 : Sched)
    → wake_expired_sleepers now s ≡ some s1
    → sched_tick now s ≡ some (account s1)
unfolding sched_tick
tick-run now s s1 e = rw e refl

pub account-Inv : (s : Sched) → Inv s → Inv (account s)
unfolding account
account-Inv s v =
    let (q, sound) = v.queues in
    either_way Inv (not (s.current == null) && not (s.current == s.idle_thread))
      (kept-Inv v
        (
          q,
          other_fields-IsSound s q _ s.sleep_list s.sleep_next s.wq_next s.wake_tick s.timed_out
              s.sig_interrupt _ s.preempt_count sound,
        )
        (refl, refl))
      (either_way Inv (s.current == s.idle_thread)
        (kept-Inv v (q, resched-IsSound _ sound) (refl, refl)) v)

pub slept-run :
    (now ticks : ℕ) (s s' : Sched)
    → sched_sleep_ticks now (suc ticks) s ≡ some s'
    → schedule (sleep_begin now (suc ticks) s) ≡ some s'
unfolding sched_sleep_ticks
slept-run now ticks s s' e = let test : (suc ticks == 0) ≡ false = ground arith in rw test at e

pub running_there : (s : Sched) → Inv s → IsBusy s → s.current ≢ null
running_there s v b =
    ground (arith, v.queues.1.null_rests, b.runs, ap (λ a. is_running (s.state a)))

pub stop-Sound :
    (s : Sched) (p : ProcState)
    → Inv s
    → IsBusy s
    → is_ready p ≡ false
    → is_running p ≡ false
    → Sound (set_state s.current p s)
stop-Sound s p v b idles stops =
    let (q, sound) = v.queues in (q, stop-IsSound s q p sound b.other b.runs idles stops)

-- `cur->sleep_next = sleep_list; sleep_list = cur;`
pub cons-Chain :
    (s : Sched) (v : Inv s)
    → IsBusy s
    → count s.current v.sleepers ≡ 0
    → Chain (upd s.sleep_next s.current s.sleep_list) s.current (s.current ∷ v.sleepers)
cons-Chain s v b off =
    let here : (s.current == s.current) ≡ true = ground arith in
    (
      refl,
      running_there s v b,
      rw here (Chain-upd s.sleep_next s.sleep_list s.current s.sleep_list v.sleepers off v.chain),
    )

pub sleep_begin-Inv :
    (now ticks : ℕ) (s : Sched)
    → (v : Inv s) → IsBusy s
    → count s.current v.sleepers ≡ 0
    → Inv (sleep_begin now ticks s)
unfolding sleep_begin
sleep_begin-Inv now ticks s v b off =
    let cur = s.current in
    let (q, sound) = stop-Sound s proc_blocked v b refl refl in
    record {
      queues = (
        q,
        other_fields-IsSound (set_state cur proc_blocked s) q s.need_resched cur
            (upd s.sleep_next cur s.sleep_list) s.wq_next _ s.timed_out s.sig_interrupt s.ticks_left
            s.preempt_count sound,
      );
      sleepers = cur ∷ v.sleepers;
      chain = cons-Chain s v b off;
      once = λ a. ground (arith, v.once a, off);
    }

pub sleep_begin-Healthy :
    (now ticks : ℕ) (s : Sched) → Healthy s → Healthy (sleep_begin now ticks s)
unfolding sleep_begin
sleep_begin-Healthy now ticks s h = record { idle_there = h.idle_there; canary = h.canary }

-- The state after the first part of a wait without a timeout, and with one.
pub wait_begin-Inv :
    (now timeout : ℕ) (wq : WaitQueue) (s : Sched)
    → (v : Inv s) → IsBusy s
    → count s.current v.sleepers ≡ 0
    → Inv (wait_begin now timeout wq s).1
unfolding wait_begin
wait_begin-Inv now timeout wq s v b off =
    let cur = s.current in
    let (q, sound) = stop-Sound s proc_blocked v b refl refl in
    let blocked = set_state cur proc_blocked s in
    either_way Inv (timeout == 0)
      (record {
        queues = (
          q,
          other_fields-IsSound blocked q s.need_resched s.sleep_list s.sleep_next _ s.wake_tick _
              s.sig_interrupt s.ticks_left s.preempt_count sound,
        );
        sleepers = v.sleepers;
        chain = v.chain;
        once = v.once;
      })
      (record {
        queues = (
          q,
          other_fields-IsSound blocked q s.need_resched cur (upd s.sleep_next cur s.sleep_list) _ _
              _ s.sig_interrupt s.ticks_left s.preempt_count sound,
        );
        sleepers = cur ∷ v.sleepers;
        chain = cons-Chain s v b off;
        once = λ a. ground (arith, v.once a, off);
      })

pub wait_begin-Healthy :
    (now timeout : ℕ) (wq : WaitQueue) (s : Sched)
    → Healthy s
    → Healthy (wait_begin now timeout wq s).1
unfolding wait_begin
wait_begin-Healthy now timeout wq s h =
    either_way Healthy (timeout == 0) (record { idle_there = h.idle_there; canary = h.canary })
      (record { idle_there = h.idle_there; canary = h.canary })

pub enable-Inv : (s s' : Sched) → Inv s → Healthy s → preempt_enable s ≡ some s' → Inv s'
unfolding preempt_enable
enable-Inv s s' v h e =
    let left = pred (s.preempt_count s.current) in
    let (q, sound) = v.queues in
    let lowered = upd s.preempt_count s.current left in
    let v' : Inv (record s { preempt_count = lowered }) =
      kept-Inv v (q, counted-IsSound s q lowered sound) (refl, refl) in
    elim (Bool-cases (s.current == null)) [
      | inl t ↦ subst Inv (unique refl (rw t at e)) v
      | inr t ↦ elim (Bool-cases (is_zero left && s.need_resched)) [
        | inl d ↦
            schedule-Inv _ s' v' (record { idle_there = h.idle_there; canary = h.canary })
              (rw (t, d) at e)
        | inr d ↦ subst Inv (unique refl (rw (t, d) at e)) v'
      ]
    ]

pub preempt-Inv : (s s' : Sched) → Inv s → Healthy s → sched_preempt_if_needed s ≡ some s' → Inv s'
unfolding sched_preempt_if_needed
preempt-Inv s s' v h e =
    let (q, sound) = v.queues in
    elim (Bool-cases
      (s.need_resched && ((s.current == null) || is_zero (s.preempt_count s.current)))) [
        | inl t ↦
            schedule-Inv _ s' (kept-Inv v (q, resched-IsSound false sound) (refl, refl))
              (record { idle_there = h.idle_there; canary = h.canary }) (rw t at e)
        | inr t ↦ subst Inv (unique refl (rw t at e)) v
      ]

-- The two lists after the second part of a wait.
pub wait_end-Inv :
    (t : Ptr) (wq : WaitQueue) (ws : List Ptr) (s : Sched)
    → (v : Inv s) → Holds wq s ws
    → length ws ≤ max_processes
    → length v.sleepers ≤ max_processes
    → (r : ℕ) × (wq' : WaitQueue) × (s' : Sched) × (wait_end t wq s ≡ some (r, wq', s'))
      × Inv s'
      × Holds wq' s' (erase t ws)
unfolding wait_end
wait_end-Inv t wq ws s v hold short few =
    let (q, sound) = v.queues in
    let (wq1, s1, run1, left) = wq_remove-Left t wq s ws hold short in
    let same = left.same in
    let sound1 : IsSound s1 q =
      subst (λ r. IsSound r q) (sym same)
        (other_fields-IsSound s q s.need_resched s.sleep_list s.sleep_next s1.wq_next s.wake_tick
          s.timed_out s.sig_interrupt s.ticks_left s.preempt_count sound) in
    let chain1 : Chain s1.sleep_next s1.sleep_list v.sleepers =
      subst (λ r. Chain r.sleep_next r.sleep_list v.sleepers) (sym same) v.chain in
    let (s2, run2, gone) = sleep_remove-Woke t s1 v.sleepers chain1 v.once few in
    let sound2 : IsSound s2 q =
      subst (λ r. IsSound r q) (sym gone.same)
        (other_fields-IsSound s1 q s1.need_resched s2.sleep_list s2.sleep_next s1.wq_next
          s1.wake_tick s1.timed_out s1.sig_interrupt s1.ticks_left s1.preempt_count sound1) in
    let wait2 : s2.wq_next ≡ s1.wq_next = ap (λ r. r.wq_next) gone.same in
    let s3 = record s2 { sig_interrupt = upd s2.sig_interrupt t false } in
    let r = if s2.sig_interrupt t then 2 else if s2.timed_out t then 1 else 0 in
    (
      r,
      wq1,
      s3,
      rw (run1, run2) refl,
      record {
        queues = (
          q,
          other_fields-IsSound s2 q s2.need_resched s2.sleep_list s2.sleep_next s2.wq_next
              s2.wake_tick s2.timed_out s3.sig_interrupt s2.ticks_left s2.preempt_count sound2,
        );
        sleepers = erase t v.sleepers;
        chain = gone.chain;
        once = gone.once;
      },
      record {
        chain = rw wait2 left.holds.chain;
        tails = left.holds.tails;
        once = left.holds.once;
      },
    )
