-- ===== src/Proc/Sched/Tests.antt =====
-- The scheduler with an idle thread, 1, and the threads 2, 3 and 4.
use makh.Prelude.{
  ℕ, ◌≡◌, ◌≢◌, refl, true, false, Option, none, some, List, [], ◌∷◌, ◌==◌, if◌then◌else◌, arith,
}
use makh.Prelude.Checked.{◌>>=◌}
use makh.Prelude.Int.{pos}
use makh.Proc.Links.{Ptr, null}
use makh.Proc.Sched.{
  Sched, proc_embryo, proc_ready, proc_running, proc_blocked, level, runq_push, pop_from,
  runq_pop_highest, requeue, switch_to, schedule, sched_wake, sched_admit,
}
use makh.Proc.Sched.Wait.{WaitQueue, wq_wake_one, wq_wake_all, wait_begin, wq_remove}
use makh.Proc.Sched.Sleep.{sleep_begin, expired, visit_sleeper, expire_from, wake_expired_sleepers}
use makh.Proc.Links.{Distinct}
use makh.Proc.Sched.{preempt_disable, is_blocked}
use makh.Proc.Sched.Ready.{IsSound}
use makh.Proc.Sched.Queues.{pushed}
use makh.Proc.Sched.Invariant.{Inv, admit-IsSound}
use makh.Proc.Sched.Runs.{done, call, woke, disabled, Run-Inv}
use makh.Proc.Sched.Waking.{
  Holds, WokenOne, WokenAll, first_blocked, wq_wake_one-WokenOne, wq_wake_all-WokenAll,
}
use makh.Proc.Sched.Leaving.{Left, wq_remove-Left}
use makh.Proc.Sched.Expiry.{Expired, wake_expired_sleepers-Expired}
use makh.Proc.Sched.Doubled.{sleep_again_hangs}
use makh.Proc.Sched.Joining.{wait_begin-Holds}
use makh.Proc.Sched.Switch.{Plan, Stands, Switched, next_plan, goes_on, schedule-Switched}

-- Thread 2 runs, and nothing else has happened.
abbrev boot : Sched
boot = record {
  runq_head = λ p. 0;
  runq_tail = λ p. 0;
  idle_thread = 1;
  sleep_list = 0;
  reap_list = 0;
  need_resched = false;
  current = 2;
  state = λ t. if t == 1 then proc_ready else if t == 2 then proc_running else proc_embryo;
  priority = λ t. if t == 1 then 31 else 16;
  run_next = λ t. 0;
  sleep_next = λ t. 0;
  wq_next = λ t. 0;
  wake_tick = λ t. 0;
  timed_out = λ t. false;
  sig_interrupt = λ t. false;
  ticks_left = λ t. pos 5;
  time_slice = λ t. 5;
  preempt_count = λ t. pos 0;
  smashed = λ t. false;
}

abbrev nobody : ℕ → List Ptr
nobody p = []

boot-IsSound : IsSound boot nobody
boot-IsSound = record {
  queues = record { chain = λ p. refl; tails = λ p. refl; counts = λ p t. ground arith };
  one_runs = λ t. ground arith;
  null_rests = refl;
  idle_up = λ h. refl;
}

current_after : Option Sched → ℕ
current_after none = 0
current_after (some s) = s.current

-- Two threads of a level take turns.
turns : current_after (schedule (sched_admit 3 boot)) ≡ 3
unfolding current_after schedule switch_to requeue runq_push runq_pop_highest pop_from sched_admit
turns = refl

back : current_after (schedule (sched_admit 3 boot) >>= schedule) ≡ 2
unfolding current_after schedule switch_to requeue runq_push runq_pop_highest pop_from sched_admit
back = refl

-- A sleep, a signal that wakes the thread, and a second sleep: the next tick does not end.
hangs :
    (schedule (sleep_begin 0 9 boot) >>= λ a.
    schedule (sched_wake 2 a) >>= λ b. wake_expired_sleepers 1 (sleep_begin 0 9 b))
    ≡ none
unfolding schedule switch_to requeue runq_push runq_pop_highest pop_from sched_wake sleep_begin
    wake_expired_sleepers expire_from visit_sleeper expired
hangs = refl

boot-Inv : Inv boot
boot-Inv = record {
  queues = (nobody, boot-IsSound);
  sleepers = [];
  chain = refl;
  once = λ t. omega arith;
}

abbrev two : Sched
two = sched_admit 3 boot

abbrev plan : Plan
plan = record { lists = pushed boot 3 nobody; runs = 2 }

two-Stands : Stands two plan
unfolding sched_admit runq_push
two-Stands = record {
  sound = admit-IsSound boot nobody 3 boot-IsSound (omega arith) (omega arith) refl;
  same = refl;
}

idle_there : two.idle_thread ≢ null
unfolding sched_admit runq_push
idle_there = omega arith

canary : two.current ≢ null → two.smashed two.current ≡ false
unfolding sched_admit runq_push
canary h = refl

schedule-Switched_example :
    (s' : Sched) × (schedule two ≡ some s')
    × Switched two s' (next_plan (goes_on two) (level two two.current) two.idle_thread plan)
schedule-Switched_example = schedule-Switched two plan two-Stands idle_there canary

Run-Inv_example : Inv (preempt_disable (sched_wake 4 (sched_wake 3 boot)))
Run-Inv_example = Run-Inv boot-Inv (call (woke 3) (call (woke 4) (call disabled done)))

-- On a wait queue thread 3 does not block any more, and thread 4 does.
abbrev parked : Sched
parked = record boot {
  state = λ t.
      if t == 1
      then proc_ready
      else if t == 2
      then proc_running
      else if t == 4
      then proc_blocked
      else proc_embryo;
  wq_next = λ t. if t == 3 then 4 else 0;
  sleep_list = 3;
  sleep_next = λ t. if t == 3 then 4 else 0;
}

abbrev parking : WaitQueue
parking = record { head = 3; tail = 4 }

parked-IsSound : IsSound parked nobody
parked-IsSound = record {
  queues = record { chain = λ p. refl; tails = λ p. refl; counts = λ p t. ground arith };
  one_runs = λ t. ground arith;
  null_rests = refl;
  idle_up = λ h. refl;
}

three_four-Distinct : Distinct (3 ∷ 4 ∷ [])
three_four-Distinct t = ground arith

parking-Holds : Holds parking parked (3 ∷ 4 ∷ [])
parking-Holds = record {
  chain = (refl, omega arith, (refl, omega arith, refl));
  tails = refl;
  once = three_four-Distinct;
}

wq_wake_one-WokenOne_example :
    (wq' : WaitQueue) × (s' : Sched) × (wq_wake_one parking parked ≡ some (wq', s'))
    × WokenOne parked nobody (first_blocked parked.state (3 ∷ 4 ∷ [])) wq' s'
wq_wake_one-WokenOne_example =
    wq_wake_one-WokenOne parking parked nobody (3 ∷ 4 ∷ []) parked-IsSound parking-Holds
      (omega arith)

wq_wake_all-WokenAll_example :
    (wq' : WaitQueue) × (s' : Sched) × (wq_wake_all parking parked ≡ some (wq', s'))
    × WokenAll parked (3 ∷ 4 ∷ []) wq' s'
wq_wake_all-WokenAll_example =
    wq_wake_all-WokenAll parking parked nobody (3 ∷ 4 ∷ []) parked-IsSound parking-Holds
      (omega arith)

wq_remove-Left_here :
    (wq' : WaitQueue) × (s' : Sched) × (wq_remove parking 4 parked ≡ some (wq', s'))
    × Left parked (3 ∷ []) wq' s'
wq_remove-Left_here = wq_remove-Left 4 parking parked (3 ∷ 4 ∷ []) parking-Holds (omega arith)

wake_expired_sleepers-Expired_example :
    (s' : Sched) × (wake_expired_sleepers 1 parked ≡ some s') × Expired 1 parked [] (3 ∷ 4 ∷ []) s'
wake_expired_sleepers-Expired_example =
    wake_expired_sleepers-Expired 1 parked nobody (3 ∷ 4 ∷ []) parked-IsSound
      (refl, omega arith, (refl, omega arith, refl)) three_four-Distinct (omega arith)

-- Thread 2 is still on the sleep list.
abbrev drowsy : Sched
drowsy = record boot { sleep_list = 2 }

sleep_again_hangs_example :
    expire_from 1000 1 null (sleep_begin 0 9 drowsy).sleep_list (sleep_begin 0 9 drowsy) ≡ none
unfolding expired
sleep_again_hangs_example = sleep_again_hangs 1000 0 9 1 drowsy refl (omega arith) refl

wait_begin-Holds_here :
    Holds (wait_begin 5 0 parking parked).0 (wait_begin 5 0 parking parked).1 (3 ∷ 4 ∷ 2 ∷ [])
    × (is_blocked ((wait_begin 5 0 parking parked).1.state 2) ≡ true)
wait_begin-Holds_here =
    wait_begin-Holds 5 0 parking parked (3 ∷ 4 ∷ []) parking-Holds (omega arith) refl
