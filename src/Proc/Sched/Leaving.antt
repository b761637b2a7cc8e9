-- ===== src/Proc/Sched/Leaving.antt =====
-- kernel/proc/sched/sched.c: how a thread leaves the wait queue and the sleep list.
use mathlib.Core.List.{append_assoc}
use makh.Prelude.{
  ℕ, zero, suc, ◌+◌, ◌≡◌, refl, sym, ◌∙◌, ap, true, false, some, List, [], ◌∷◌, ◌++◌, ◌==◌, ◌≤◌,
  ◌<◌, subst, if◌then◌else◌, arith, ℕ_discrete, Bool-cases, inl, inr,
}
use makh.Proc.Links.{Ptr, null, last, length, Chain, Distinct}
use makh.Proc.Links.Cut.{
  cut_next, cut_head, Chain-cut, tail-cut, Distinct-cut, erase, IsAt, start-IsAt, next-IsAt,
}
use makh.Proc.Sched.{Sched}
use makh.Proc.Sched.Wait.{WaitQueue, max_processes, unlink_waiter, remove_from, wq_remove}
use makh.Proc.Sched.Waking.{Holds}
use makh.Proc.Sched.Sleep.{sleep_remove_from, sleep_remove}
use makh.Proc.Sched.Expiry.{cut_sleeper, unlink_sleeper-cut}

-- What `wq_remove` leaves: only the links of the wait queue differ.
pub record Left (s : Sched) (ws : List Ptr) (wq : WaitQueue) (s' : Sched) : Type 0 where
  pub holds : Holds wq s' ws
  pub same : s' ≡ record s { wq_next = s'.wq_next }

abbrev cut_queue : Ptr → Ptr → WaitQueue → Sched → WaitQueue
cut_queue prev t wq s = record {
  head = cut_head s.wq_next wq.head prev t;
  tail = if wq.tail == t then prev else wq.tail;
}

abbrev cut_links : Ptr → Ptr → Sched → Sched
cut_links prev t s = record s { wq_next = cut_next s.wq_next prev t }

run_cut :
    (prev t : Ptr) (wq : WaitQueue) (s : Sched)
    → unlink_waiter prev t wq s ≡ (cut_queue prev t wq s, cut_links prev t s)
unfolding unlink_waiter
run_cut prev t wq s = elim (Bool-cases (prev == null)) [ inl e ↦ rw e refl | inr e ↦ rw e refl ]

remove_from-Left :
    (n : ℕ) (prev at t : Ptr) (wq : WaitQueue) (s : Sched) (pre post : List Ptr)
    → IsAt s.wq_next wq.head prev at t pre post
    → wq.tail ≡ last (pre ++ post)
    → length post < n
    → (wq' : WaitQueue) × (s' : Sched) × (remove_from n prev at t wq s ≡ some (wq', s'))
      × Left s (pre ++ erase t post) wq' s'
unfolding remove_from
remove_from-Left zero prev at t wq s pre post v ends enough = absurd (omega arith)
remove_from-Left (suc n) prev at t wq s pre [] v ends enough =
    let test : (at == null) ≡ true = ground (arith, v.here) in
    (
      wq,
      s,
      rw test refl,
      record { holds = record { chain = v.all; tails = ends; once = v.once }; same = refl },
    )
remove_from-Left (suc n) prev at t wq s pre (x ∷ post) v ends enough =
    let (here, there, rest) = v.here in
    let test : (at == null) ≡ false = ground arith in
    elim (ℕ_discrete x t) [
      | yes found ↦
          let hit : (at == t) ≡ true = ground arith in
          let cut : (x == t) ≡ true = ground arith in
          (
            cut_queue prev t wq s,
            cut_links prev t s,
            rw (test, hit) (ap (λ (o : WaitQueue × Sched). some o) (run_cut prev t wq s)),
            rw cut (record {
              holds = record {
                chain =
                    Chain-cut s.wq_next wq.head prev t pre post
                      (subst (λ a. Chain s.wq_next wq.head (pre ++ (a ∷ post))) found v.all)
                      (subst (λ a. Distinct (pre ++ (a ∷ post))) found v.once) v.behind;
                tails =
                    tail-cut prev t wq.tail pre post
                      (subst (λ a. Distinct (pre ++ (a ∷ post))) found v.once) v.behind
                      (subst (λ a. wq.tail ≡ last (pre ++ (a ∷ post))) found ends);
                once = Distinct-cut x pre post v.once;
              };
              same = refl;
            }),
          )
      | no other ↦
          let miss : (at == t) ≡ false = ground arith in
          let skip : (x == t) ≡ false = ground arith in
          let (wq', s', run, left) =
            remove_from-Left n at (s.wq_next at) t wq s (pre ++ (x ∷ [])) post
              (next-IsAt s.wq_next wq.head prev at t x pre post v other)
              (ends ∙ ap last (sym (append_assoc pre (x ∷ []) post))) (omega arith) in
          (
            wq',
            s',
            rw (test, miss) run,
            rw skip (subst (λ l. Left s l wq' s') (append_assoc pre (x ∷ []) (erase t post)) left),
          )
    ]

-- `wq_remove` returns and takes the thread off the wait queue, wherever on it the thread stands; a thread
-- that is not on it leaves the queue as it was.
pub wq_remove-Left :
    (t : Ptr) (wq : WaitQueue) (s : Sched) (ws : List Ptr)
    → Holds wq s ws
    → length ws ≤ max_processes
    → (wq' : WaitQueue) × (s' : Sched) × (wq_remove wq t s ≡ some (wq', s'))
      × Left s (erase t ws) wq' s'
unfolding wq_remove
wq_remove-Left t wq s ws h few =
    remove_from-Left (max_processes + 1) null wq.head t wq s [] ws (start-IsAt h.chain h.once)
      h.tails (omega arith)

-- What `sleep_remove` leaves: only the links of the sleep list differ.
pub record Woke (s : Sched) (ts : List Ptr) (s' : Sched) : Type 0 where
  pub chain : Chain s'.sleep_next s'.sleep_list ts
  pub once : Distinct ts
  pub same : s' ≡ record s { sleep_list = s'.sleep_list; sleep_next = s'.sleep_next }

sleep_remove_from-Woke :
    (n : ℕ) (prev at t : Ptr) (s : Sched) (pre post : List Ptr)
    → IsAt s.sleep_next s.sleep_list prev at t pre post
    → length post < n
    → (s' : Sched) × (sleep_remove_from n prev at t s ≡ some s') × Woke s (pre ++ erase t post) s'
unfolding sleep_remove_from
sleep_remove_from-Woke zero prev at t s pre post v enough = absurd (omega arith)
sleep_remove_from-Woke (suc n) prev at t s pre [] v enough =
    let test : (at == null) ≡ true = ground (arith, v.here) in
    (s, rw test refl, record { chain = v.all; once = v.once; same = refl })
sleep_remove_from-Woke (suc n) prev at t s pre (x ∷ post) v enough =
    let (here, there, rest) = v.here in
    let test : (at == null) ≡ false = ground arith in
    elim (ℕ_discrete x t) [
      | yes found ↦
          let hit : (at == t) ≡ true = ground arith in
          let cut : (x == t) ≡ true = ground arith in
          (
            cut_sleeper prev t s,
            rw (test, hit, unlink_sleeper-cut prev t s) refl,
            rw cut (record {
              chain =
                  Chain-cut s.sleep_next s.sleep_list prev t pre post
                    (subst (λ a. Chain s.sleep_next s.sleep_list (pre ++ (a ∷ post))) found v.all)
                    (subst (λ a. Distinct (pre ++ (a ∷ post))) found v.once) v.behind;
              once = Distinct-cut x pre post v.once;
              same = refl;
            }),
          )
      | no other ↦
          let miss : (at == t) ≡ false = ground arith in
          let skip : (x == t) ≡ false = ground arith in
          let (s', run, left) =
            sleep_remove_from-Woke n at (s.sleep_next at) t s (pre ++ (x ∷ [])) post
              (next-IsAt s.sleep_next s.sleep_list prev at t x pre post v other) (omega arith) in
          (
            s',
            rw (test, miss) run,
            rw skip (subst (λ l. Woke s l s') (append_assoc pre (x ∷ []) (erase t post)) left),
          )
    ]

-- `sleep_remove` returns and takes the thread off the sleep list, if it is there.
pub sleep_remove-Woke :
    (t : Ptr) (s : Sched) (ts : List Ptr)
    → Chain s.sleep_next s.sleep_list ts
    → Distinct ts
    → length ts ≤ max_processes
    → (s' : Sched) × (sleep_remove t s ≡ some s') × Woke s (erase t ts) s'
unfolding sleep_remove
sleep_remove-Woke t s ts chain once few =
    sleep_remove_from-Woke (max_processes + 1) null s.sleep_list t s [] ts (start-IsAt chain once)
      (omega arith)
