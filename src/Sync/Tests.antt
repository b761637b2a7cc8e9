-- ===== src/Sync/Tests.antt =====
-- Semaphores, futexes and mutexes of the thread 2.
use makh.Prelude.{
  ℕ, ◌+◌, ◌^◌, ◌<◌, ◌≡◌, refl, true, false, some, [], ◌∷◌, ◌==◌, if◌then◌else◌, arith,
}
use makh.Prelude.Int.{pos}
use makh.Proc.Links.{upd}
use makh.Proc.Sched.{proc_ready, proc_running, proc_blocked, is_ready, is_blocked}
use makh.Proc.Sched.Waking.{Holds}
use makh.Proc.Sched.Ready.{IsSound}
use makh.Sync.Futex.{Futexes, bucket_of, futex_wake}
use makh.Sync.Futex.Wakes.{futex_wake_collides}
use makh.Sync.Sem.{Sem, as_int, sem_init, sem_trywait}
use makh.Sync.Sem.Uses.{succeeds, started, attempting, Left, Uses-Left}
use makh.Sync.RwLock.{RwLock, pthread_rwlock_init, pthread_rwlock_tryrdlock}
use makh.Sync.RwLock.Holders.{made, try_reading, Shared, Uses-Shared}
use makh.Sync.Mutex.{Mutex, recursive, pthread_mutex_init, pthread_mutex_trylock}
use makh.Sync.Mutex.Owners.{Held, initialised, trying, Uses-Held}

-- Thread 2 runs; 3 and 4 are blocked in one bucket, in this order.
abbrev waiting : Futexes
waiting = record {
  bucket = λ b. record { head = 3; tail = 4 };
  sched = record {
    runq_head = λ p. 0;
    runq_tail = λ p. 0;
    idle_thread = 1;
    sleep_list = 0;
    reap_list = 0;
    need_resched = false;
    current = 2;
    state = λ t. if t == 1 then proc_ready else if t == 2 then proc_running else proc_blocked;
    priority = λ t. 16;
    run_next = λ t. 0;
    sleep_next = λ t. 0;
    wq_next = λ t. if t == 3 then 4 else 0;
    wake_tick = λ t. 0;
    timed_out = λ t. false;
    sig_interrupt = λ t. false;
    ticks_left = λ t. pos 5;
    time_slice = λ t. 5;
    preempt_count = λ t. pos 0;
    smashed = λ t. false;
  };
}

waiting-IsSound : IsSound waiting.sched (λ p. [])
waiting-IsSound = record {
  queues = record { chain = λ p. refl; tails = λ p. refl; counts = λ p t. ground arith };
  one_runs = λ t. ground arith;
  null_rests = refl;
  idle_up = λ h. refl;
}

waiting-Holds : Holds (waiting.bucket (bucket_of 4096)) waiting.sched (3 ∷ 4 ∷ [])
waiting-Holds = record {
  chain = (refl, omega arith, (refl, omega arith, refl));
  tails = refl;
  once = λ t. ground arith;
}

-- The words at 4096 and 4352 share a bucket.
shared : bucket_of 4096 ≡ bucket_of 4352
unfolding bucket_of
shared = refl

futex_wake_collides_example :
    (s' : Futexes) × (futex_wake 4352 (pos 1) waiting ≡ some (pos 1, s'))
    × (is_ready (s'.sched.state 3) ≡ true)
    × (is_blocked (s'.sched.state 4) ≡ true)
futex_wake_collides_example =
    futex_wake_collides 4096 4352 3 4 waiting (λ p. []) (omega arith) shared (omega arith)
      waiting-IsSound waiting-Holds refl refl

abbrev one_token : Sem
one_token = sem_init 1

abbrev tokens_taken : ℕ
tokens_taken =
    0 + succeeds (sem_trywait one_token).0 + succeeds (sem_trywait (sem_trywait one_token).1).0

one_was_there : tokens_taken ≡ 1
unfolding sem_trywait sem_init as_int
one_was_there = refl

Uses-Left_example : Left 1 tokens_taken 0 (sem_trywait (sem_trywait one_token).1).1
Uses-Left_example =
    Uses-Left 1 tokens_taken 0 (sem_trywait (sem_trywait one_token).1).1 (omega arith)
      (attempting (attempting started))

abbrev fresh : Mutex
fresh = pthread_mutex_init (some recursive)

abbrev once : Mutex
once = (pthread_mutex_trylock 2 fresh).1

-- How often thread 2 has the mutex.
abbrev depth_once : ℕ → ℕ
depth_once = upd (λ t. 0) 2 (0 + succeeds (pthread_mutex_trylock 2 fresh).0)

abbrev depth_twice : ℕ → ℕ
depth_twice = upd depth_once 2 (depth_once 2 + succeeds (pthread_mutex_trylock 2 once).0)

nested : depth_twice 2 ≡ 2
unfolding pthread_mutex_trylock pthread_mutex_init
nested = refl

once_few : depth_once 2 + 1 < 2 ^ 31
unfolding pthread_mutex_trylock pthread_mutex_init
once_few = omega arith

Uses-Held_example : Held depth_twice (pthread_mutex_trylock 2 once).1
Uses-Held_example =
    Uses-Held depth_twice (pthread_mutex_trylock 2 once).1
      (trying 2 (trying 2 (initialised (some recursive)) (omega arith)) once_few)

abbrev one_reader : RwLock
one_reader = (pthread_rwlock_tryrdlock pthread_rwlock_init).1

abbrev two_readers : RwLock
two_readers = (pthread_rwlock_tryrdlock one_reader).1

abbrev readers_in : ℕ
readers_in =
    0
    + succeeds (pthread_rwlock_tryrdlock pthread_rwlock_init).0
    + succeeds (pthread_rwlock_tryrdlock one_reader).0

both_read : readers_in ≡ 2
unfolding pthread_rwlock_tryrdlock pthread_rwlock_init
both_read = refl

one_few : 0 + succeeds (pthread_rwlock_tryrdlock pthread_rwlock_init).0 + 1 < 2 ^ 31
unfolding pthread_rwlock_tryrdlock pthread_rwlock_init
one_few = omega arith

Uses-Shared_example : Shared readers_in 0 two_readers
Uses-Shared_example =
    Uses-Shared readers_in 0 two_readers (try_reading (try_reading made (omega arith)) one_few)
