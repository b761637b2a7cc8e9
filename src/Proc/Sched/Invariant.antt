-- ===== src/Proc/Sched/Invariant.antt =====
-- kernel/proc/sched/sched.c: the invariant of the scheduler, and the calls that keep the sleep list.
use makh.Prelude.{
  ℕ, ◌≡◌, ◌≢◌, refl, true, false, ◌||◌, Option, none, some, List, ◌==◌, ◌≤◌, subst, arith,
  Bool-cases, inl, inr,
}
use makh.Prelude.Int.{ℤ}
use makh.Prelude.Branches.{either_way}
use makh.Proc.Sched.Queues.{pushed}
use makh.Proc.Links.{Ptr, null, count, length, Chain, Distinct}
use makh.Proc.Sched.{
  Sched, ProcState, proc_embryo, proc_running, proc_ready, proc_blocked, proc_zombie, is_ready,
  is_running, set_state, schedule, preempt_disable, sched_wake, sched_admit,
}
use makh.Proc.Sched.Wait.{WaitQueue, max_processes}
use makh.Proc.Sched.Ready.{
  IsSound, SameSleep, push-SameSleep, other_fields-IsSound, resched-IsSound, make_ready-IsSound,
}
use makh.Proc.Sched.Switch.{schedule-Switched}
use makh.Proc.Sched.Waking.{WokenOne}

-- The run queues are sound for some lists.
abbrev pub Sound : Sched → Type 0
Sound s = (q : ℕ → List Ptr) × IsSound s q

-- The current thread stops running: it blocks or becomes a zombie.
pub stop-IsSound :
    (s : Sched) (q : ℕ → List Ptr) (p : ProcState)
    → IsSound s q
    → s.current ≢ s.idle_thread
    → is_running (s.state s.current) ≡ true
    → is_ready p ≡ false
    → is_running p ≡ false
    → IsSound (set_state s.current p s) q
stop-IsSound s q p v other runs idles stops = record {
  queues = record {
    chain = v.queues.chain;
    tails = v.queues.tails;
    counts = λ l t. ground (
      arith,
      v.queues.counts l t,
      runs,
      idles,
      running_not_ready (s.state s.current) runs,
      idles,
    );
  };
  one_runs = λ t. ground (arith, v.one_runs t, stops);
  null_rests = ground (arith, v.null_rests, stops);
  idle_up = ground (arith, v.idle_up, other);
}
  where
    running_not_ready : (a : ProcState) → is_running a ≡ true → is_ready a ≡ false
    running_not_ready proc_running r = refl
    running_not_ready proc_ready r = ground (arith, r)
    running_not_ready proc_embryo r = refl
    running_not_ready proc_blocked r = refl
    running_not_ready proc_zombie r = refl

-- There is an idle thread, and the canary of the current thread's stack is in its place.
pub record Healthy (s : Sched) : Type 0 where
  pub idle_there : s.idle_thread ≢ null
  pub canary : s.current ≢ null → s.smashed s.current ≡ false

-- A run queue and a sleep list that are sound.
pub record Inv (s : Sched) : Type 0 where
  pub queues : Sound s
  pub sleepers : List Ptr
  pub chain : Chain s.sleep_next s.sleep_list sleepers
  pub once : Distinct sleepers

pub unique : {A : Type 0} {o : Option A} {a b : A} → o ≡ some a → o ≡ some b → a ≡ b
unique {A} {o} {a} {b} e f = cc

-- `schedule` keeps both.
pub schedule-Inv : (s s' : Sched) → Inv s → Healthy s → schedule s ≡ some s' → Inv s'
schedule-Inv s s' v h e =
    let (q, sound) = v.queues in
    let (r, run, d) =
      schedule-Switched s (record { lists = q; runs = s.current })
        (record { sound = sound; same = refl }) h.idle_there h.canary in
    subst Inv (unique run e) (record {
      queues = (_, d.stands.sound);
      sleepers = v.sleepers;
      chain = rw (d.keeps.1, d.keeps.0) v.chain;
      once = v.once;
    })

-- The current thread runs, and is not the idle thread.
pub record IsBusy (s : Sched) : Type 0 where
  pub other : s.current ≢ s.idle_thread
  pub runs : is_running (s.state s.current) ≡ true

-- The current thread is not on the sleep list any more.
abbrev pub OffList : Sched → Type 0
OffList s = (ts : List Ptr) → Chain s.sleep_next s.sleep_list ts → count s.current ts ≡ 0

-- No more threads sleep than there are.
abbrev pub Few : Sched → Type 0
Few s = (ts : List Ptr) → Chain s.sleep_next s.sleep_list ts → length ts ≤ max_processes

-- A call that keeps the sleep list.
pub kept-Inv : {s s' : Sched} → Inv s → Sound s' → SameSleep s s' → Inv s'
kept-Inv {s} {s'} v sound same = record {
  queues = sound;
  sleepers = v.sleepers;
  chain = rw (same.0, same.1) v.chain;
  once = v.once;
}

pub one-Inv :
    (s s' : Sched) (q : ℕ → List Ptr) (wq : WaitQueue) (o : Option (Ptr × List Ptr))
    → Inv s
    → WokenOne s q o wq s'
    → Inv s'
one-Inv s s' q wq none v (hold, sound, states, same) = kept-Inv v (q, sound) same
one-Inv s s' q wq (some (t, ws)) v (hold, sound, states, same) = kept-Inv v (_, sound) same

pub stop-Inv :
    (s : Sched) (p : ProcState)
    → Inv s
    → IsBusy s
    → is_ready p ≡ false
    → is_running p ≡ false
    → Inv (set_state s.current p s)
stop-Inv s p v b idles stops =
    let (q, sound) = v.queues in
    kept-Inv v (q, stop-IsSound s q p sound b.other b.runs idles stops) ((refl, refl))

pub wake-SameSleep : (s : Sched) (t : Ptr) → SameSleep s (sched_wake t s)
unfolding sched_wake
wake-SameSleep s t =
    elim (Bool-cases ((t == null) || (is_running (s.state t) || is_ready (s.state t)))) [
      | inl e ↦ rw e ((refl, refl))
      | inr e ↦ rw e (push-SameSleep t (set_state t proc_ready s))
    ]

pub admit-SameSleep : (s : Sched) (t : Ptr) → SameSleep s (sched_admit t s)
unfolding sched_admit
admit-SameSleep s t = push-SameSleep t (set_state t proc_ready s)

pub admit-IsSound :
    (s : Sched) (q : ℕ → List Ptr) (t : Ptr)
    → IsSound s q
    → t ≢ null
    → t ≢ s.idle_thread
    → is_ready (s.state t) ≡ false
    → IsSound (sched_admit t s) (pushed s t q)
unfolding sched_admit
admit-IsSound s q t v proper other idles =
    resched-IsSound true (make_ready-IsSound s q v t proper other idles)

pub counted-IsSound :
    (s : Sched) (q : ℕ → List Ptr) (f : Ptr → ℤ)
    → IsSound s q
    → IsSound (record s { preempt_count = f }) q
counted-IsSound s q f v =
    other_fields-IsSound s q s.need_resched s.sleep_list s.sleep_next s.wq_next s.wake_tick
      s.timed_out s.sig_interrupt s.ticks_left f v

pub disable-Sound : (s : Sched) → Sound s → Sound (preempt_disable s)
unfolding preempt_disable
disable-Sound s (q, v) =
    (q, either_way (λ r. IsSound r q) (s.current == null) v (counted-IsSound s q _ v))

pub disable-SameSleep : (s : Sched) → SameSleep s (preempt_disable s)
unfolding preempt_disable
disable-SameSleep s = either_way (SameSleep s) (s.current == null) ((refl, refl)) ((refl, refl))
