-- ===== src/Sync/Futex.antt =====
-- kernel/futex.c: futexes, in 64 buckets of wait queues.
pub mod Wakes
use makh.Prelude.{
  ℕ, zero, suc, ◌+◌, ◌-◌, ◌/◌, ◌%◌, Bool, true, false, Option, none, some, ◌==◌, if◌then◌else◌,
}
use makh.Prelude.Checked.{◌>>=◌}
use makh.Prelude.Int.{ℤ, pos, negsuc}
use makh.Proc.Links.{Ptr, null, upd}
use makh.Proc.Sched.{Sched}
use makh.Proc.Sched.Wait.{WaitQueue, wq_init, wq_wake_one, wait_begin}
use makh.Proc.Sched.Sleep.{wait_end}

abbrev pub nbuckets : ℕ
nbuckets = 64

-- `bucket`, and the scheduler
pub record Futexes : Type 0 where
  pub bucket : ℕ → WaitQueue
  pub sched : Sched

pub futex_init : Futexes → Futexes
futex_init s = record s { bucket = λ b. wq_init }

unfoldable pub bucket_of : ℕ → ℕ
bucket_of phys = phys / 4 % nbuckets

-- The outcome of `futex_wait` before it sleeps: an error, or the thread has blocked.
pub data Waiting : Type 0 where
  refused : ℤ → Waiting
  blocked : Futexes → Waiting

-- `futex_wait` up to the switch to another thread. `phys` is what `uaddr_phys` answers, 0 for an address that
-- is not mapped; `word` is what `copy_from_user` reads there, none where it fails.
pub futex_wait : ℕ → Option ℕ → ℕ → ℕ → ℕ → Futexes → Waiting
futex_wait phys none val now timeout s = refused (negsuc 13)
futex_wait phys (some cur) val now timeout s =
    let b = bucket_of phys in
    let (wq, sched) = wait_begin now timeout (s.bucket b) s.sched in
    if phys == 0
    then refused (negsuc 13)
    else if cur == val
    then blocked (record { bucket = upd s.bucket b wq; sched = sched })
    else refused (negsuc 10)

-- `if (rc == 2) return -EINTR; if (rc == 1) return -ETIMEDOUT; return 0;`
abbrev pub wait_answer : ℕ → ℤ
wait_answer rc = if rc == 2 then negsuc 3 else if rc == 1 then negsuc 109 else pos 0

-- `futex_wait` behind the switch, for the thread `cur` that called it.
pub futex_resume : Ptr → ℕ → Futexes → Option (ℤ × Futexes)
futex_resume cur phys s = do
  (rc, wq, sched) ← wait_end cur (s.bucket (bucket_of phys)) s.sched
  some (wait_answer rc, record { bucket = upd s.bucket (bucket_of phys) wq; sched = sched })

-- The loop of `futex_wake`, on what is left of `n`: how many times it called `wq_wake_one`.
pub wake_loop : ℕ → ℕ → Futexes → Option (ℕ × Futexes)
wake_loop zero b s = some (0, s)
wake_loop (suc n) b s =
    if (s.bucket b).head == null
    then some (0, s)
    else (wq_wake_one (s.bucket b) s.sched >>= λ (wq, sched).
        wake_loop n b (record { bucket = upd s.bucket b wq; sched = sched }) >>= λ (k, s').
        some (k + 1, s'))

-- A negative `n` wakes nobody.
abbrev pub at_most : ℤ → ℕ
at_most (pos n) = n
at_most (negsuc n) = 0

pub futex_wake : ℕ → ℤ → Futexes → Option (ℤ × Futexes)
futex_wake phys n s =
    if phys == 0
    then some (negsuc 13, s)
    else (wake_loop (at_most n) (bucket_of phys) s >>= λ (woken, s'). some (pos woken, s'))
