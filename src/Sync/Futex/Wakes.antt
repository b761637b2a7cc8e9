-- ===== src/Sync/Futex/Wakes.antt =====
-- kernel/futex.c: whom `futex_wake` wakes.
use makh.Prelude.{ℕ, ◌≡◌, ◌≢◌, refl, subst, true, false, some, List, [], ◌∷◌, ◌==◌, arith}
use makh.Prelude.Int.{pos}
use makh.Proc.Links.{Ptr, null, upd}
use makh.Proc.Sched.{is_ready, is_blocked}
use makh.Proc.Sched.Ready.{IsSound}
use makh.Proc.Sched.Waking.{Holds, WokenOne, first_blocked, wq_wake_one-WokenOne}
use makh.Sync.Futex.{Futexes, bucket_of, wake_loop, futex_wake}

-- Two threads wait in one bucket, `t` on the word at `a` and behind it `u` on the word at `b`, which shares
-- the bucket: a wake of one waiter of `b` answers 1, makes `t` ready and leaves `u` blocked.
pub futex_wake_collides :
    (a b : ℕ) (t u : Ptr) (s : Futexes) (q : ℕ → List Ptr)
    → b ≢ 0
    → bucket_of a ≡ bucket_of b
    → t ≢ u
    → IsSound s.sched q
    → Holds (s.bucket (bucket_of a)) s.sched (t ∷ u ∷ [])
    → is_blocked (s.sched.state t) ≡ true
    → is_blocked (s.sched.state u) ≡ true
    → (s' : Futexes) × (futex_wake b (pos 1) s ≡ some (pos 1, s'))
      × (is_ready (s'.sched.state t) ≡ true)
      × (is_blocked (s'.sched.state u) ≡ true)
unfolding futex_wake wake_loop first_blocked
futex_wake_collides a b t u s q mapped same apart sound holds waits_t waits_u =
    let at = bucket_of b in
    let h : Holds (s.bucket at) s.sched (t ∷ u ∷ []) =
      subst (λ i. Holds (s.bucket i) s.sched (t ∷ u ∷ [])) same holds in
    let (wq, k, run, woken) =
      wq_wake_one-WokenOne (s.bucket at) s.sched q (t ∷ u ∷ []) sound h (omega arith) in
    let woken' : WokenOne s.sched q (some (t, u ∷ [])) wq k = rw waits_t at woken in
    let (left, ready, states, asleep) = woken' in
    let (here, there, rest) = h.chain in
    let n1 : (b == 0) ≡ false = ground arith in
    let n2 : ((s.bucket at).head == null) ≡ false = ground arith in
    (
      record { bucket = upd s.bucket at wq; sched = k },
      rw (n1, n2, run) refl,
      rw states (ground arith),
      rw states (ground (arith, waits_u)),
    )
