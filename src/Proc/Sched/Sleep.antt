-- ===== src/Proc/Sched/Sleep.antt =====
-- kernel/proc/sched/sched.c: the sleep list, the timer tick, sleeping, and the end of a wait.
use makh.Prelude.{
  ℕ, zero, suc, ◌+◌, ◌-◌, ◌*◌, ◌/◌, ◌%◌, ◌^◌, Bool, true, false, not, ◌&&◌, ◌||◌, Option, none,
  some, ltb, ◌==◌, if◌then◌else◌,
}
use makh.Prelude.Checked.{◌>>=◌}
use makh.Proc.Links.{Ptr, null, upd}
use makh.Proc.Sched.{
  Sched, proc_blocked, is_blocked, make_ready, schedule, prio_levels, pred, is_positive,
}
use makh.Proc.Sched.Wait.{WaitQueue, max_processes, wq_remove}

abbrev pub timer_frequency : ℕ
timer_frequency = 100

-- `*link = t->sleep_next; t->sleep_next = NULL;`, `link` the head of the list or the field of `prev`
unfoldable pub unlink_sleeper : Ptr → Ptr → Sched → Sched
unlink_sleeper prev t s =
    let after = s.sleep_next t in
    if prev == null
    then record s { sleep_list = after; sleep_next = upd s.sleep_next t null }
    else record s { sleep_next = upd (upd s.sleep_next prev after) t null }

-- The loop of `sleep_remove` at `at`, behind `prev`, on the rounds left.
unfoldable pub sleep_remove_from : ℕ → Ptr → Ptr → Ptr → Sched → Option Sched
sleep_remove_from zero prev at t s = none
sleep_remove_from (suc n) prev at t s =
    let rest = sleep_remove_from n at (s.sleep_next at) t s in
    if at == null then some s else if at == t then some (unlink_sleeper prev t s) else rest

unfoldable pub sleep_remove : Ptr → Sched → Option Sched
sleep_remove t s = sleep_remove_from (max_processes + 1) null s.sleep_list t s

-- `(int64_t)(now - t->wake_tick) >= 0`, in 64 bits
unfoldable pub expired : ℕ → ℕ → Bool
expired now wake = ltb ((now + (2 ^ 64 - wake)) % 2 ^ 64) (2 ^ 63)

-- What `wake_expired_sleepers` does at a thread whose time has come.
abbrev pub wake_late : Ptr → Sched → Sched
wake_late t s = record (make_ready t (record s { timed_out = upd s.timed_out t true })) {
  need_resched = true;
}

-- One round of the loop of `wake_expired_sleepers`, at `t` behind `prev`.
unfoldable pub visit_sleeper : ℕ → Ptr → Ptr → Sched → Sched
visit_sleeper now prev t s =
    if not (is_blocked (s.state t))
    then unlink_sleeper prev t s
    else if expired now (s.wake_tick t)
    then wake_late t (unlink_sleeper prev t s)
    else s

-- Whether `t` stays on the list, so that the next `link` is its field.
abbrev pub stays : ℕ → Ptr → Sched → Bool
stays now t s = is_blocked (s.state t) && not (expired now (s.wake_tick t))

-- The loop of `wake_expired_sleepers`, on the rounds left.
unfoldable pub expire_from : ℕ → ℕ → Ptr → Ptr → Sched → Option Sched
expire_from zero now prev at s = none
expire_from (suc n) now prev at s =
    let prev' = if stays now at s then at else prev in
    let rest = expire_from n now prev' (s.sleep_next at) (visit_sleeper now prev at s) in
    if at == null then some s else rest

unfoldable pub wake_expired_sleepers : ℕ → Sched → Option Sched
wake_expired_sleepers now s = expire_from (max_processes + 1) now null s.sleep_list s

-- `for (p = from; p < from + n; p++) if (runq_head[p]) ...`
unfoldable pub any_queued : ℕ → ℕ → Sched → Bool
any_queued zero p s = false
any_queued (suc n) p s = not (s.runq_head p == null) || any_queued n (p + 1) s

-- `sched_tick` behind its call of `wake_expired_sleepers`.
unfoldable pub account : Sched → Sched
account s =
    let cur = s.current in
    let left = pred (s.ticks_left cur) in
    if not (cur == null) && not (cur == s.idle_thread)
    then record s {
      ticks_left = upd s.ticks_left cur left;
      need_resched = s.need_resched || not (is_positive left);
    }
    else if cur == s.idle_thread
    then record s { need_resched = s.need_resched || any_queued (prio_levels - 1) 0 s }
    else s

unfoldable pub sched_tick : ℕ → Sched → Option Sched
sched_tick now s = wake_expired_sleepers now s >>= λ s'. some (account s')

-- `sched_sleep_ticks` up to its call of `schedule`.
unfoldable pub sleep_begin : ℕ → ℕ → Sched → Sched
sleep_begin now ticks s =
    let cur = s.current in
    record s {
      wake_tick = upd s.wake_tick cur ((now + ticks) % 2 ^ 64);
      state = upd s.state cur proc_blocked;
      sleep_next = upd s.sleep_next cur s.sleep_list;
      sleep_list = cur;
    }

-- `sched_sleep_ticks`, up to the switch to another thread.
unfoldable pub sched_sleep_ticks : ℕ → ℕ → Sched → Option Sched
sched_sleep_ticks now ticks s = schedule (if ticks == 0 then s else sleep_begin now ticks s)

-- The ticks that `sched_sleep_ms` sleeps.
unfoldable pub ms_to_ticks : ℕ → ℕ
ms_to_ticks ms =
    let ticks = (ms * timer_frequency + 999) % 2 ^ 64 / 1000 in if ticks == 0 then 1 else ticks

unfoldable pub sched_sleep_ms : ℕ → ℕ → Sched → Option Sched
sched_sleep_ms now ms s = sched_sleep_ticks now (ms_to_ticks ms) s

-- `sched_wait_event` behind its call of `schedule`, for the thread `cur` that called it: what it returns, and
-- the queue without the thread.
unfoldable pub wait_end : Ptr → WaitQueue → Sched → Option (ℕ × WaitQueue × Sched)
wait_end cur wq s = do
  (wq', s1) ← wq_remove wq cur s
  s2 ← sleep_remove cur s1
  let timed = if s2.timed_out cur then 1 else 0
  let result = if s2.sig_interrupt cur then 2 else timed
  some (result, wq', record s2 { sig_interrupt = upd s2.sig_interrupt cur false })
