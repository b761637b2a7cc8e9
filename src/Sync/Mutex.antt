-- ===== src/Sync/Mutex.antt =====
-- kernel/pthread/pthread.c: mutexes and condition variables.
pub mod Owners
use makh.Prelude.{
  ℕ, zero, suc, ◌+◌, Bool, true, false, not, ◌&&◌, ◌||◌, Option, none, some, ltb, ◌==◌,
  if◌then◌else◌,
}
use makh.Prelude.Checked.{◌>>=◌}
use makh.Prelude.Int.{ℤ, pos, negsuc, inc32, dec32}
use makh.Proc.Links.{Ptr, null}
use makh.Proc.Sched.{Sched, is_zero}
use makh.Proc.Sched.Wait.{WaitQueue, wq_init, wq_wake_one, wq_wake_all, wait_begin}
use makh.Proc.Sched.Sleep.{wait_end}
use makh.Sync.Sem.{Call, returned, sleeping, abstime_to_ticks}

abbrev pub normal : ℕ
normal = 0

abbrev pub recursive : ℕ
recursive = 1

abbrev pub error_check : ℕ
error_check = 2

-- `pthread_mutex_t`. Each function returns `EINVAL` for a null pointer, which is no mutex.
pub record Mutex : Type 0 where
  pub locked : Bool
  pub owner : Ptr
  pub type : ℕ
  pub recursion : ℤ
  pub wq : WaitQueue
  pub inited : Bool

pub pthread_mutexattr_settype : ℤ → Option ℕ
pthread_mutexattr_settype (negsuc n) = none
pthread_mutexattr_settype (pos n) = if ltb error_check n then none else some n

-- From the type of the attributes, where there are any.
unfoldable pub pthread_mutex_init : Option ℕ → Mutex
pthread_mutex_init a = record {
  locked = false;
  owner = null;
  type = elim a [ none ↦ normal | some n ↦ n ];
  recursion = pos 0;
  wq = wq_init;
  inited = true;
}

pub pthread_mutex_destroy : Mutex → ℤ × Mutex
pthread_mutex_destroy m = if m.locked then (pos 16, m) else (pos 0, record m { inited = false })

abbrev pub acquire : Ptr → Mutex → Mutex
acquire self m = record m { locked = true; owner = self; recursion = pos 1 }

abbrev pub nest : Mutex → Mutex
nest m = record m { recursion = inc32 m.recursion }

-- One round of the loop of `pthread_mutex_lock`, up to the switch.
pub pthread_mutex_lock : Ptr → ℕ → Mutex → Sched → Call Mutex
pthread_mutex_lock self now m k =
    if not m.locked
    then returned (pos 0) (acquire self m) k
    else if m.owner == self
    then (if m.type == recursive then returned (pos 0) (nest m) k else returned (pos 35) m k)
    else (let (wq, k') = wait_begin now 0 m.wq k in sleeping (record m { wq = wq }) k')

-- The rest of the round, for the thread that woke, and the next.
pub lock_again : Ptr → ℕ → Mutex → Sched → Option (Call Mutex)
lock_again self now m k = do
  (rc, wq, k') ← wait_end self m.wq k
  some (pthread_mutex_lock self now (record m { wq = wq }) k')

unfoldable pub pthread_mutex_trylock : Ptr → Mutex → ℤ × Mutex
pthread_mutex_trylock self m =
    if not m.locked
    then (pos 0, acquire self m)
    else if (m.owner == self) && (m.type == recursive)
    then (pos 0, nest m)
    else (pos 16, m)

-- The last unlock, in `pthread_mutex_unlock` and in the wait for a condition.
pub hand_over : Mutex → Sched → Option (Mutex × Sched)
hand_over m k = do
  (wq, k') ← wq_wake_one m.wq k
  some (record m { recursion = pos 0; locked = false; owner = null; wq = wq }, k')

-- `n > 0`
abbrev pub is_positive : ℤ → Bool
is_positive (pos n) = ltb 0 n
is_positive (negsuc n) = false

pub pthread_mutex_unlock : Ptr → Mutex → Sched → Option (ℤ × Mutex × Sched)
pthread_mutex_unlock self m k =
    let m' = record m { recursion = dec32 m.recursion } in
    if not m.locked || (not (m.owner == self) && ((m.type == error_check) || (m.type == recursive)))
    then some (pos 1, m, k)
    else if (m.type == recursive) && is_positive m'.recursion
    then some (pos 0, m', k)
    else (hand_over m k >>= λ r. some (pos 0, r.0, r.1))

-- `pthread_cond_t`
pub record Cond : Type 0 where
  pub wq : WaitQueue
  pub inited : Bool

pub pthread_cond_init : Cond
pthread_cond_init = record { wq = wq_init; inited = true }

pub pthread_cond_destroy : Cond → Cond
pthread_cond_destroy c = record c { inited = false }

-- `cond_wait_common` up to the switch. Where it returns, the mutex is not its caller's.
pub cond_wait : Ptr → ℕ → ℕ → Cond × Mutex → Sched → Option (Call (Cond × Mutex))
cond_wait self now ticks (c, m) k =
    if not m.locked || not (m.owner == self)
    then some (returned (pos 1) (c, m) k)
    else (hand_over m k >>= λ r.
        let (wq, k') = wait_begin now ticks c.wq r.1 in
        some (sleeping (record c { wq = wq }, r.0) k'))

-- Behind the switch: what the wait answers, and the first round of taking the mutex again.
pub cond_resume : Ptr → ℕ → Cond → Mutex → Sched → Option (ℤ × Cond × Call Mutex)
cond_resume self now c m k = do
  (rc, wq, k') ← wait_end self c.wq k
  some (if rc == 0 then pos 0 else pos 110, record c { wq = wq }, pthread_mutex_lock self now m k')

-- Once the mutex is taken again: `saved` is the depth before the wait.
pub cond_restore : ℤ → Mutex → Mutex
cond_restore saved m =
    if m.type == recursive
    then record m { recursion = if is_zero saved then pos 1 else saved }
    else m

pub pthread_cond_wait : Ptr → ℕ → Cond × Mutex → Sched → Option (Call (Cond × Mutex))
pthread_cond_wait self now x k = cond_wait self now 0 x k

-- `now` in ticks, `dl` and `ms` in milliseconds.
pub pthread_cond_timedwait : Ptr → ℕ → ℕ → ℕ → Cond × Mutex → Sched → Option (Call (Cond × Mutex))
pthread_cond_timedwait self dl ms now x k =
    let ticks = abstime_to_ticks dl ms in
    if ticks == 0 then some (returned (pos 110) x k) else cond_wait self now ticks x k

pub pthread_cond_signal : Cond → Sched → Option (Cond × Sched)
pthread_cond_signal c k = do (wq, k') ← wq_wake_one c.wq k; some (record c { wq = wq }, k')

pub pthread_cond_broadcast : Cond → Sched → Option (Cond × Sched)
pthread_cond_broadcast c k = do (wq, k') ← wq_wake_all c.wq k; some (record c { wq = wq }, k')
