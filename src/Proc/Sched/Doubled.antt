-- ===== src/Proc/Sched/Doubled.antt =====
-- kernel/proc/sched/sched.c: a sleep that is cut short, and the sleep behind it.
use makh.Prelude.{ℕ, zero, suc, ◌+◌, ◌%◌, ◌^◌, ◌≡◌, ◌≢◌, refl, true, false, none, ◌==◌, arith}
use makh.Proc.Links.{Ptr, null}
use makh.Proc.Sched.{Sched, is_blocked}
use makh.Proc.Sched.Sleep.{expired, visit_sleeper, expire_from, sleep_begin}

-- A sleeper that is its own successor, and whose time has not come, is visited again and again.
expire_from-ring :
    (n now : ℕ) (prev t : Ptr) (s : Sched)
    → t ≢ null
    → s.sleep_next t ≡ t
    → is_blocked (s.state t) ≡ true
    → expired now (s.wake_tick t) ≡ false
    → expire_from n now prev t s ≡ none
unfolding expire_from visit_sleeper
expire_from-ring zero now prev t s proper ring waits early = refl
expire_from-ring (suc n) now prev t s proper ring waits early =
    let test : (t == null) ≡ false = ground arith in
    rw (test, waits, early, ring) (expire_from-ring n now t t s proper ring waits early)

-- A thread that is at the head of the sleep list and sleeps again becomes its own successor: until its time
-- has come, no number of rounds suffices for the loop of `wake_expired_sleepers`.
pub sleep_again_hangs :
    (n now ticks later : ℕ) (s : Sched)
    → s.sleep_list ≡ s.current
    → s.current ≢ null
    → expired later ((now + ticks) % 2 ^ 64) ≡ false
    → expire_from n later null (sleep_begin now ticks s).sleep_list (sleep_begin now ticks s) ≡ none
unfolding sleep_begin
sleep_again_hangs n now ticks later s first proper early =
    let here : (s.current == s.current) ≡ true = ground arith in
    expire_from-ring n later null s.current (sleep_begin now ticks s) proper (rw here first)
      (rw here refl) (rw here early)
