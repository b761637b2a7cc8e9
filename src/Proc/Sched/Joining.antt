-- ===== src/Proc/Sched/Joining.antt =====
-- kernel/proc/sched/sched.c: how the current thread joins a wait queue.
use makh.Prelude.{
  ℕ, ◌≡◌, ◌≢◌, refl, true, ◌≤◌, List, [], ◌∷◌, ◌++◌, ◌==◌, arith, Bool-cases, inl, inr, sym,
}
use makh.Proc.Links.{Ptr, null, count, Chain-push, count-append, last-append}
use makh.Proc.Sched.{Sched, is_blocked}
use makh.Proc.Sched.Wait.{WaitQueue, wait_begin}
use makh.Proc.Sched.Waking.{Holds}

-- The first part of `sched_wait_event` blocks the current thread and puts it at the end of the wait queue,
-- where a thread is in the queue at most once.
pub wait_begin-Holds :
    (now timeout : ℕ) (wq : WaitQueue) (s : Sched) (ws : List Ptr)
    → Holds wq s ws
    → s.current ≢ null
    → count s.current ws ≡ 0
    → Holds (wait_begin now timeout wq s).0 (wait_begin now timeout wq s).1 (ws ++ (s.current ∷ []))
      × (is_blocked ((wait_begin now timeout wq s).1.state s.current) ≡ true)
unfolding wait_begin
wait_begin-Holds now timeout wq s ws h proper new =
    let cur = s.current in
    let here : (cur == cur) ≡ true = ground arith in
    let chain = Chain-push s.wq_next wq.head wq.tail cur ws h.chain h.once h.tails new proper in
    elim (Bool-cases (timeout == 0)) [
      | inl e ↦
          rw (e, here)
            (record { chain = chain; tails = sym (last-append cur ws); once = λ a. once a }, refl)
      | inr e ↦
          rw (e, here)
            (record { chain = chain; tails = sym (last-append cur ws); once = λ a. once a }, refl)
    ]
  where
    once : (a : Ptr) → count a (ws ++ (s.current ∷ [])) ≤ 1
    once a = ground (arith, h.once a, count-append a ws (s.current ∷ []), new)
