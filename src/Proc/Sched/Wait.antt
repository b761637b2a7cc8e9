-- ===== src/Proc/Sched/Wait.antt =====
-- kernel/proc/sched/sched.c: wait queues.
use makh.Prelude.{ℕ, zero, suc, ◌+◌, ◌%◌, ◌^◌, true, false, Option, none, some, ◌==◌, if◌then◌else◌}
use makh.Proc.Links.{Ptr, null, upd, push_next, push_head}
use makh.Proc.Sched.{Sched, proc_blocked, is_blocked, make_ready}

-- `wait_queue_t`
pub record WaitQueue : Type 0 where
  pub head : Ptr
  pub tail : Ptr

-- `MAX_PROCESSES`, more threads than that are on no list.
abbrev pub max_processes : ℕ
max_processes = 256

pub wq_init : WaitQueue
wq_init = record { head = null; tail = null }

-- The head, or null when the queue is empty, the queue without it, and the scheduler.
unfoldable pub wq_pop : WaitQueue → Sched → Ptr × WaitQueue × Sched
wq_pop wq s =
    let t = wq.head in
    let after = s.wq_next t in
    if t == null then (null, wq, s) else (
      t,
      record { head = after; tail = if after == null then null else wq.tail },
      record s { wq_next = upd s.wq_next t null },
    )

-- `*link = t->wq_next; if (wq->tail == t) wq->tail = prev; t->wq_next = NULL;`, `link` the head of the queue
-- or the field of `prev`
unfoldable pub unlink_waiter : Ptr → Ptr → WaitQueue → Sched → WaitQueue × Sched
unlink_waiter prev t wq s =
    let after = s.wq_next t in
    let tail' = if wq.tail == t then prev else wq.tail in
    if prev == null
    then (record { head = after; tail = tail' }, record s { wq_next = upd s.wq_next t null })
    else (record wq { tail = tail' }, record s { wq_next = upd (upd s.wq_next prev after) t null })

-- The loop of `wq_remove` at `at`, behind `prev`, on the rounds left; no result where they do not suffice.
unfoldable pub remove_from : ℕ → Ptr → Ptr → Ptr → WaitQueue → Sched → Option (WaitQueue × Sched)
remove_from zero prev at t wq s = none
remove_from (suc n) prev at t wq s =
    let rest = remove_from n at (s.wq_next at) t wq s in
    if at == null then some (wq, s) else if at == t then some (unlink_waiter prev t wq s) else rest

unfoldable pub wq_remove : WaitQueue → Ptr → Sched → Option (WaitQueue × Sched)
wq_remove wq t s = remove_from (max_processes + 1) null wq.head t wq s

-- What a waker does with a blocked thread.
abbrev pub wake_up : Ptr → Sched → Sched
wake_up t s = record (make_ready t (record s { timed_out = upd s.timed_out t false })) {
  need_resched = true;
}

-- The loop of `wq_wake_one`, on the rounds left.
unfoldable pub wake_one_from : ℕ → WaitQueue → Sched → Option (WaitQueue × Sched)
wake_one_from zero wq s = none
wake_one_from (suc n) wq s =
    let (t, wq', s') = wq_pop wq s in
    let rest = wake_one_from n wq' s' in
    if t == null
    then some (wq', s')
    else if is_blocked (s'.state t)
    then some (wq', wake_up t s')
    else rest

unfoldable pub wq_wake_one : WaitQueue → Sched → Option (WaitQueue × Sched)
wq_wake_one wq s = wake_one_from (max_processes + 1) wq s

-- The loop of `wq_wake_all`, on the rounds left.
unfoldable pub wake_all_from : ℕ → WaitQueue → Sched → Option (WaitQueue × Sched)
wake_all_from zero wq s = none
wake_all_from (suc n) wq s =
    let (t, wq', s') = wq_pop wq s in
    let rest = wake_all_from n wq' (if is_blocked (s'.state t) then wake_up t s' else s') in
    if t == null then some (wq', s') else rest

unfoldable pub wq_wake_all : WaitQueue → Sched → Option (WaitQueue × Sched)
wq_wake_all wq s = wake_all_from (max_processes + 1) wq s

-- `sched_wait_event` up to its call of `schedule`, at the tick `now`: the current thread blocks, at the end
-- of the queue and, with a timeout, on the sleep list.
unfoldable pub wait_begin : ℕ → ℕ → WaitQueue → Sched → WaitQueue × Sched
wait_begin now timeout_ticks wq s =
    let cur = s.current in
    let blocked = record s {
      state = upd s.state cur proc_blocked;
      timed_out = upd s.timed_out cur false;
      wq_next = push_next s.wq_next wq.tail cur;
    } in
    (
      record { head = push_head wq.head wq.tail cur; tail = cur },
      if timeout_ticks == 0 then blocked else record blocked {
        wake_tick = upd s.wake_tick cur ((now + timeout_ticks) % 2 ^ 64);
        sleep_next = upd s.sleep_next cur s.sleep_list;
        sleep_list = cur;
      },
    )
