-- ===== src/Sync/Sem.antt =====
-- kernel/pthread/sem.c: counting semaphores.
pub mod Uses
use makh.Prelude.{
  ℕ, zero, suc, ◌+◌, ◌-◌, ◌*◌, ◌/◌, ◌%◌, ◌^◌, Bool, true, false, not, ◌&&◌, Option, none, some, ltb,
  leb, ◌==◌, if◌then◌else◌,
}
use makh.Prelude.Checked.{◌>>=◌}
use makh.Prelude.Int.{ℤ, pos, negsuc, inc32, dec32}
use makh.Proc.Links.{Ptr}
use makh.Proc.Sched.{Sched, is_zero}
use makh.Proc.Sched.Wait.{WaitQueue, wq_init, wq_wake_one, wait_begin}
use makh.Proc.Sched.Sleep.{wait_end}

-- `sem_t`. Each function returns `-EINVAL` for a null pointer, which is no semaphore.
pub record Sem : Type 0 where
  pub value : ℤ
  pub wq : WaitQueue
  pub inited : Bool

-- `(int)value` of an unsigned value below 2^32
unfoldable pub as_int : ℕ → ℤ
as_int n = if ltb n (2 ^ 31) then pos n else negsuc (2 ^ 32 - 1 - n)

unfoldable pub sem_init : ℕ → Sem
sem_init value = record { value = as_int value; wq = wq_init; inited = true }

pub sem_destroy : Sem → Sem
sem_destroy s = record s { inited = false }

-- What a call on an object of type `A` does at once: it returns, or blocks the current thread.
pub data Call (A : Type 0) : Type 0 where
  returned : ℤ → A → Sched → Call A
  sleeping : A → Sched → Call A

abbrev pub take_one : Sem → Sem
take_one s = record s { value = dec32 s.value }

abbrev pub wait_on : ℕ → ℕ → Sem → Sched → Call Sem
wait_on now ticks s k =
    let (wq, k') = wait_begin now ticks s.wq k in sleeping (record s { wq = wq }) k'

-- One round of the loop of `sem_wait`, up to the switch.
pub sem_wait : ℕ → Sem → Sched → Call Sem
sem_wait now s k = if is_zero s.value then wait_on now 0 s k else returned (pos 0) (take_one s) k

-- The rest of the round, for the thread `cur` that woke, and the next.
pub sem_wait_again : Ptr → ℕ → Sem → Sched → Option (Call Sem)
sem_wait_again cur now s k = do
  (rc, wq, k') ← wait_end cur s.wq k
  some (sem_wait now (record s { wq = wq }) k')

unfoldable pub sem_trywait : Sem → ℤ × Sem
sem_trywait s = if is_zero s.value then (negsuc 10, s) else (pos 0, take_one s)

-- `abstime_to_ticks`, of the deadline and the time in milliseconds
pub abstime_to_ticks : ℕ → ℕ → ℕ
abstime_to_ticks dl now =
    let ticks = ((dl - now) * 100 + 999) % 2 ^ 64 / 1000 in
    if leb dl now then 0 else if ticks == 0 then 1 else ticks

-- One round of the loop of `sem_timedwait`, up to the switch; `now` in ticks, `dl` and `ms` in milliseconds.
pub sem_timedwait : ℕ → ℕ → ℕ → Sem → Sched → Call Sem
sem_timedwait dl ms now s k =
    let ticks = abstime_to_ticks dl ms in
    if is_zero s.value
    then (if ticks == 0 then returned (negsuc 109) s k else wait_on now ticks s k)
    else returned (pos 0) (take_one s) k

-- The rest of the round, and the next.
pub sem_timedwait_again : Ptr → ℕ → ℕ → ℕ → Sem → Sched → Option (Call Sem)
sem_timedwait_again cur dl ms now s k = do
  (rc, wq, k') ← wait_end cur s.wq k
  let s' = record s { wq = wq }
  some (
      if not (rc == 0) && is_zero s'.value
      then returned (negsuc 109) s' k'
      else sem_timedwait dl ms now s' k')

pub sem_post : Sem → Sched → Option (Sem × Sched)
sem_post s k = do
  (wq, k') ← wq_wake_one s.wq k
  some (record s { value = inc32 s.value; wq = wq }, k')

pub sem_getvalue : Sem → ℤ
sem_getvalue s = s.value
