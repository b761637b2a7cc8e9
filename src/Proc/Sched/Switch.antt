-- ===== src/Proc/Sched/Switch.antt =====
-- kernel/proc/sched/sched.c: `schedule`, against a scheduler that is a list of threads for each level.
use makh.Prelude.{
  ℕ, ◌≡◌, ◌≢◌, inl, inr, refl, ◌∙◌, ap, Bool, true, false, ◌&&◌, not, Option, none, some, List, [],
  ◌∷◌, ◌++◌, ◌==◌, ◌≤◌, ◌<◌, subst, if◌then◌else◌, arith, dec_lt, Bool-cases,
}
use makh.Proc.Links.{Ptr, null, upd, count}
use makh.Proc.Sched.{
  Sched, proc_ready, proc_running, make_ready, is_running, level, set_state, requeue, rest_idle,
  switch_to, run_next_thread, schedule, prio_levels, pop_head, runq_pop_highest,
}
use makh.Proc.Sched.Queues.{pushed, pop-IsQueues}
use makh.Proc.Sched.Pick.{
  Outcome, nobody, took, pop_highest-Outcome, head-first, take_first, take_first-none,
  take_first-some,
}
use makh.Proc.Sched.Ready.{
  waits, IsSound, SameSleep, make_ready-IsSound, push-state, push-current, push-idle_thread,
  push-record,
}

-- Where the outgoing thread is queued again.
abbrev pub goes_on : Sched → Bool
goes_on s =
    not (s.current == null) && not (s.current == s.idle_thread) && is_running (s.state s.current)

abbrev pub requeued : Sched → (ℕ → List Ptr) → ℕ → List Ptr
requeued s q = if goes_on s then pushed s s.current q else q

level_bound : (s : Sched) (t : Ptr) → level s t < prio_levels
level_bound s t = ground arith

-- After `requeue` only the idle thread can still run.
record IsReleased (s r : Sched) (q : ℕ → List Ptr) : Type 0 where
  sound : IsSound r q
  idle_only : (t : Ptr) → is_running (r.state t) ≡ true → t ≡ r.idle_thread
  same_current : r.current ≡ s.current
  same_idle : r.idle_thread ≡ s.idle_thread
  same_smashed : r.smashed ≡ s.smashed
  keeps : SameSleep s r

only_idle_runs :
    (s : Sched) (q : ℕ → List Ptr)
    → IsSound s q
    → goes_on s ≡ true
    → (t : Ptr) → is_running ((make_ready s.current s).state t) ≡ true
    → t ≡ (make_ready s.current s).idle_thread
only_idle_runs s q v e t =
    let now = set_state s.current proc_ready s in
    rw (push-state s.current now, push-idle_thread s.current now) (ground (arith, e, v.one_runs t))

requeue-IsReleased :
    (s : Sched) (q : ℕ → List Ptr) → IsSound s q → IsReleased s (requeue s) (requeued s q)
unfolding requeue
requeue-IsReleased s q v = elim (Bool-cases (goes_on s)) [
  | inl e ↦ rw e (record {
    sound =
        make_ready-IsSound s q v s.current (λ h. ground (arith, e)) (λ h. ground (arith, e))
          (ground (arith, e));
    idle_only = λ t. only_idle_runs s q v e t;
    same_current = push-current s.current _;
    same_idle = push-idle_thread s.current _;
    same_smashed = ap (λ r. r.smashed) (push-record s.current _);
    keeps = (
      ap (λ r. r.sleep_list) (push-record s.current _),
      ap (λ r. r.sleep_next) (push-record s.current _),
    );
  })
  | inr e ↦ rw e (record {
    sound = v;
    idle_only = λ t runs. ground (
      arith,
      e,
      v.one_runs t,
      v.null_rests,
      ap (λ a. is_running (s.state a)) (v.one_runs t runs),
    );
    same_current = refl;
    same_idle = refl;
    same_smashed = refl;
    keeps = (refl, refl);
  })
]

module _ (s : Sched) (q : ℕ → List Ptr) (v : IsSound s q)
    (idle_only : (t : Ptr) → is_running (s.state t) ≡ true → t ≡ s.idle_thread) where
  first-waits : (p : ℕ) (xs : List Ptr) → q p ≡ s.runq_head p ∷ xs → waits s (s.runq_head p) ≡ true
  first-waits p xs e =
      ground (arith, v.queues.counts p (s.runq_head p), ap (count (s.runq_head p)) e)

  popped-state :
      (x t : Ptr)
      → waits s x ≡ true
      → upd
          (if (s.current == s.idle_thread) && not (x == s.idle_thread)
            then upd s.state s.current proc_ready
            else s.state)
          x
          proc_running
          t
        ≡ (if t == x
            then proc_running
            else if (s.current == s.idle_thread) && (t == s.idle_thread)
            then proc_ready
            else s.state t)
  popped-state x t w = ground (arith, w)

  popped-IsSound :
      (p : ℕ) (xs : List Ptr)
      → q p ≡ s.runq_head p ∷ xs
      → IsSound
          (run_next_thread (s.runq_head p) (rest_idle s.current (s.runq_head p) (pop_head p s)))
          (upd q p xs)
  popped-IsSound p xs e =
      let w = first-waits p xs e in
      let u = pop-IsQueues (waits s) s q v.queues p (s.runq_head p) xs e in
      record {
        queues = record {
          chain = u.chain;
          tails = u.tails;
          counts = λ r t. rw (popped-state (s.runq_head p) t w) (ground (arith, u.counts r t, w));
        };
        one_runs = λ t.
            rw (popped-state (s.runq_head p) t w) (ground (arith, w, idle_only t, v.one_runs t));
        null_rests = ground (
          arith,
          v.null_rests,
          (head-first (waits s) s q v.queues p _ xs e).1,
          popped-state (s.runq_head p) null w,
        );
        idle_up = rw (popped-state (s.runq_head p) s.idle_thread w) (ground (arith, w, v.idle_up));
      }

  idle-IsSound :
      s.idle_thread ≢ null
      → IsSound (run_next_thread s.idle_thread (rest_idle s.current s.idle_thread s)) q
  idle-IsSound there = record {
    queues = record {
      chain = v.queues.chain;
      tails = v.queues.tails;
      counts = λ r t. ground (arith, v.queues.counts r t);
    };
    one_runs = λ t. ground (arith, idle_only t);
    null_rests = ground (arith, v.null_rests);
    idle_up = ground arith;
  }

-- An abstract scheduler: the threads that wait, in a list for each level, and the thread that runs.
pub record Plan : Type 0 where
  pub lists : ℕ → List Ptr
  pub runs : Ptr

-- The plan after the search of the lists.
pub chosen : Ptr → (ℕ → List Ptr) → Option (Ptr × (ℕ → List Ptr)) → Plan
chosen idle waiting none = record { lists = waiting; runs = idle }
chosen idle waiting (some (x, rest)) = record { lists = rest; runs = x }

-- The thread that runs goes to the end of its list, when it can go on; then the head of the first list that
-- is not empty runs, or the idle thread when all are empty.
pub next_plan : Bool → ℕ → Ptr → Plan → Plan
next_plan runnable at idle a =
    let waiting = if runnable then upd a.lists at (a.lists at ++ (a.runs ∷ [])) else a.lists in
    chosen idle waiting (take_first prio_levels 0 waiting)

-- The scheduler's state stands for a plan.
pub record Stands (s : Sched) (a : Plan) : Type 0 where
  pub sound : IsSound s a.lists
  pub same : s.current ≡ a.runs

-- No thread that waits is more urgent than the one that runs, and none waits when the idle thread runs.
pub record IsHighest (s : Sched) : Type 0 where
  pub busy : (t : Ptr) → waits s t ≡ true → s.current ≢ s.idle_thread
  pub highest : (t : Ptr) → waits s t ≡ true → level s s.current ≤ level s t

nobody-IsHighest :
    (s : Sched) (q : ℕ → List Ptr)
    → IsSound s q
    → ((r : ℕ) → 0 ≤ r → r < prio_levels → q r ≡ [])
    → IsHighest s
nobody-IsHighest s q v all = record {
  busy = λ t w. absurd (nobody_waits t w);
  highest = λ t w. absurd (nobody_waits t w);
}
  where
    nobody_waits : (t : Ptr) → waits s t ≢ true
    nobody_waits t w = ground (
      arith,
      v.queues.counts (level s t) t,
      ap (count t) (all (level s t) (omega arith) (level_bound s t)),
    )

took-IsHighest :
    (s s' : Sched) (q : ℕ → List Ptr) (r : ℕ) (xs : List Ptr)
    → IsSound s q
    → q r ≡ s.runq_head r ∷ xs
    → ((l : ℕ) → 0 ≤ l → l < r → q l ≡ [])
    → IsSound s' (upd q r xs)
    → s'.current ≡ s.runq_head r
    → s'.idle_thread ≡ s.idle_thread
    → ((a : Ptr) → level s' a ≡ level s a)
    → IsHighest s'
took-IsHighest s s' q r xs v e above v' same same_idle same_level =
    let x = s.runq_head r in
    let there : count x (q r) ≢ 0 = rw e (ground arith) in
    record {
      busy = λ t w h. ground (arith, v.queues.counts r x, there, same, same_idle);
      highest = λ t w. elim (dec_lt (level s' t) r) [
        | yes below ↦
            let empty : count t (q (level s' t)) ≡ 0 =
              ap (count t) (above (level s' t) (omega arith) below) in
            absurd (ground (arith, v'.queues.counts (level s' t) t, empty, w))
        | no above_it ↦
            let at : level s x ≡ r = level_at x there in
            let at' : level s' s'.current ≡ r = ap (level s') same ∙ (same_level x ∙ at) in
            omega arith
      ];
    }
  where
    level_at : (x : Ptr) → count x (q r) ≢ 0 → level s x ≡ r
    level_at x there = ground (arith, v.queues.counts r x)

-- What a switch leaves.
pub record Switched (s s' : Sched) (a : Plan) : Type 0 where
  pub stands : Stands s' a
  pub highest : IsHighest s'
  pub keeps : SameSleep s s'

switch-Switched :
    (s : Sched) (q : ℕ → List Ptr) (out : Ptr × Sched)
    → IsSound s q
    → ((t : Ptr) → is_running (s.state t) ≡ true → t ≡ s.idle_thread)
    → s.idle_thread ≢ null
    → (s.current ≢ null → s.smashed s.current ≡ false)
    → Outcome s q 0 prio_levels out
    → (s' : Sched) × (switch_to s.current out.0 out.1 ≡ some s')
      × Switched s s' (chosen s.idle_thread q (take_first prio_levels 0 q))
unfolding switch_to chosen
switch-Switched s q out v idle_only there safe (nobody all) =
    let t1 : ((s.current == null) && (s.idle_thread == null) && not (s.idle_thread == null))
        ≡ false =
      ground arith in
    let t2 : (not (s.current == null) && s.smashed s.current) ≡ false = ground (arith, safe) in
    let t3 : (s.idle_thread == null) ≡ false = ground arith in
    let sound = idle-IsSound s q v idle_only there in
    rw (take_first-none prio_levels 0 q all) (
      _,
      rw (t1, t2, t3) refl,
      record {
        stands = record { sound = sound; same = refl };
        highest = nobody-IsHighest _ q sound all;
        keeps = (refl, refl);
      },
    )
switch-Switched s q out v idle_only there safe (took r xs hi e above) =
    let x = s.runq_head r in
    let t0 : (x == null) ≡ false = ground (arith, (head-first (waits s) s q v.queues r _ xs e).1) in
    let t1 : ((s.current == null) && (s.idle_thread == null) && not (x == null)) ≡ false =
      ground arith in
    let t2 : (not (s.current == null) && s.smashed s.current) ≡ false = ground (arith, safe) in
    let sound = popped-IsSound s q v idle_only r xs e in
    rw (take_first-some prio_levels 0 r x xs q (omega arith) hi e above) (
      _,
      rw (t0, t1, t2, t0) refl,
      record {
        stands = record { sound = sound; same = refl };
        highest = took-IsHighest s _ q r xs v e above sound refl refl (λ a. refl);
        keeps = (refl, refl);
      },
    )

-- `schedule`, from run queues that are sound, with an idle thread and the canary of the current thread's
-- stack in its place, returns, and does what the abstract scheduler does: the current thread goes to the
-- end of its level when it can go on, and the first thread of the first level that has one runs, or the
-- idle thread when none waits; after it no thread that waits is more urgent than the one that runs.
pub schedule-Switched :
    (s : Sched) (a : Plan)
    → Stands s a
    → s.idle_thread ≢ null
    → (s.current ≢ null → s.smashed s.current ≡ false)
    → (s' : Sched) × (schedule s ≡ some s')
      × Switched s s' (next_plan (goes_on s) (level s s.current) s.idle_thread a)
unfolding schedule next_plan
schedule-Switched s a v there safe =
    let r = requeue s in
    let f = requeue-IsReleased s a.lists v.sound in
    let out =
      switch-Switched r (requeued s a.lists) (runq_pop_highest r) f.sound f.idle_only
        (rw f.same_idle there) (rw (f.same_current, f.same_smashed) safe)
        (pop_highest-Outcome (waits r) r (requeued s a.lists) f.sound.queues) in
    let (s', run, d) = out in
    (
      s',
      subst (λ c. switch_to c (runq_pop_highest r).0 (runq_pop_highest r).1 ≡ some s')
          f.same_current run,
      record {
        stands =
            subst (λ i. Stands s' (next_plan (goes_on s) (level s s.current) i a)) f.same_idle
              (subst
                (λ c.
                  Stands s' (
                    next_plan (goes_on s) (level s s.current) r.idle_thread
                      (record a { runs = c })))
                v.same d.stands);
        highest = d.highest;
        keeps = (d.keeps.0 ∙ f.keeps.0, d.keeps.1 ∙ f.keeps.1);
      },
    )
