-- ===== src/Sync/RwLock.antt =====
-- kernel/pthread/pthread.c: read/write locks.
pub mod Holders
use makh.Prelude.{ℕ, Bool, true, false, ◌||◌, Option, none, some, if◌then◌else◌}
use makh.Prelude.Checked.{◌>>=◌}
use makh.Prelude.Int.{ℤ, pos, negsuc, inc32, dec32}
use makh.Proc.Links.{Ptr}
use makh.Proc.Sched.{Sched, is_zero}
use makh.Proc.Sched.Wait.{WaitQueue, wq_init, wq_wake_one, wq_wake_all, wait_begin}
use makh.Proc.Sched.Sleep.{wait_end}
use makh.Sync.Sem.{Call, returned, sleeping}
use makh.Sync.Mutex.{is_positive}

-- `pthread_rwlock_t`. Each function returns `EINVAL` for a null pointer, which is no lock.
pub record RwLock : Type 0 where
  pub state : ℤ
  pub waiting_writers : ℤ
  pub rq : WaitQueue
  pub wq : WaitQueue
  pub inited : Bool

unfoldable pub pthread_rwlock_init : RwLock
pthread_rwlock_init = record {
  state = pos 0;
  waiting_writers = pos 0;
  rq = wq_init;
  wq = wq_init;
  inited = true;
}

pub pthread_rwlock_destroy : RwLock → ℤ × RwLock
pthread_rwlock_destroy l =
    if is_zero l.state then (pos 0, record l { inited = false }) else (pos 16, l)

-- `n < 0`
abbrev pub is_negative : ℤ → Bool
is_negative (pos n) = false
is_negative (negsuc n) = true

abbrev pub keeps_readers_out : RwLock → Bool
keeps_readers_out l = is_negative l.state || is_positive l.waiting_writers

abbrev pub read_in : RwLock → RwLock
read_in l = record l { state = inc32 l.state }

abbrev pub write_in : RwLock → RwLock
write_in l = record l { state = negsuc 0 }

-- One round of the loop of `pthread_rwlock_rdlock`, up to the switch.
pub pthread_rwlock_rdlock : ℕ → RwLock → Sched → Call RwLock
pthread_rwlock_rdlock now l k =
    if keeps_readers_out l
    then (let (rq, k') = wait_begin now 0 l.rq k in sleeping (record l { rq = rq }) k')
    else returned (pos 0) (read_in l) k

-- The rest of the round, for the thread that woke, and the next.
pub rdlock_again : Ptr → ℕ → RwLock → Sched → Option (Call RwLock)
rdlock_again self now l k = do
  (rc, rq, k') ← wait_end self l.rq k
  some (pthread_rwlock_rdlock now (record l { rq = rq }) k')

unfoldable pub pthread_rwlock_tryrdlock : RwLock → ℤ × RwLock
pthread_rwlock_tryrdlock l = if keeps_readers_out l then (pos 16, l) else (pos 0, read_in l)

-- One round of the loop of `pthread_rwlock_wrlock`, up to the switch.
pub pthread_rwlock_wrlock : ℕ → RwLock → Sched → Call RwLock
pthread_rwlock_wrlock now l k =
    if is_zero l.state
    then returned (pos 0) (write_in l) k
    else (let (wq, k') = wait_begin now 0 l.wq k in
        sleeping (record l { waiting_writers = inc32 l.waiting_writers; wq = wq }) k')

pub wrlock_again : Ptr → ℕ → RwLock → Sched → Option (Call RwLock)
wrlock_again self now l k = do
  (rc, wq, k') ← wait_end self l.wq k
  some (
      pthread_rwlock_wrlock now (record l { waiting_writers = dec32 l.waiting_writers; wq = wq })
        k')

pub pthread_rwlock_trywrlock : RwLock → ℤ × RwLock
pthread_rwlock_trywrlock l = if is_zero l.state then (pos 0, write_in l) else (pos 16, l)

-- Whom `pthread_rwlock_unlock` wakes.
pub wake_next : RwLock → Sched → Option (ℤ × RwLock × Sched)
wake_next l k =
    if is_zero l.state
    then (if is_positive l.waiting_writers
        then (wq_wake_one l.wq k >>= λ r. some (pos 0, record l { wq = r.0 }, r.1))
        else (wq_wake_all l.rq k >>= λ r. some (pos 0, record l { rq = r.0 }, r.1)))
    else some (pos 0, l, k)

pub pthread_rwlock_unlock : RwLock → Sched → Option (ℤ × RwLock × Sched)
pthread_rwlock_unlock l k =
    if is_negative l.state
    then wake_next (record l { state = pos 0 }) k
    else if is_positive l.state
    then wake_next (record l { state = dec32 l.state }) k
    else some (pos 1, l, k)
