-- ===== src/Proc/Signal/Guard.antt =====
-- kernel/signal/signal.c: SIGKILL and SIGSTOP can be neither blocked, caught nor ignored.
use makh.Prelude.Branches.{either_way}
use makh.Prelude.{
  ℕ, zero, suc, ◌+◌, ◌^◌, ◌<◌, ◌≡◌, ◌≢◌, refl, ◌∙◌, ap, inl, inr, Bool, true, false, not, ◌&&◌,
  ◌||◌, Option, get_or, leb, ◌==◌, arith, Bool-cases, get_or-set,
}
use makh.Prelude.Int.{ℤ, pos, negsuc}
use makh.Prelude.Mask.{test_mask, complement, test_mask-or, test_mask-and, test_mask-pow}
use makh.Proc.Signal.{
  Thread, handler_of, uncatchable, is_blocked, is_runnable, is_terminate, sched_wake, generate,
  send_to, signal_send, blockable, change_mask, ignore_bit, accept, take_scan, with_handler, act,
  with_restorer, effectively_ignored,
}
use makh.Proc.Signal.Return.{test-blockable}

-- The signal `u` is not blocked, has no handler and is not ignored.
pub record Untouched (u : ℕ) (t : Thread) : Type 0 where
  pub unblocked : test_mask t.sig_blocked u ≡ false
  pub uncaught : handler_of t u ≡ 0
  pub heeded : test_mask t.sig_ignore u ≡ false

-- The two are compared in each signal code by `uncatchable`.
uncatchable-small : (u : ℕ) → uncatchable u ≡ true → u < 64
uncatchable-small u h = ground arith

module _ (u : ℕ) (special : uncatchable u ≡ true) where
  pub same_dispositions :
      {t t' : Thread}
      → Untouched u t
      → t'.sig_blocked ≡ t.sig_blocked
      → t'.sig_handlers ≡ t.sig_handlers
      → t'.sig_ignore ≡ t.sig_ignore
      → Untouched u t'
  same_dispositions v b h i = record {
    unblocked = ap (λ m. test_mask m u) b ∙ v.unblocked;
    uncaught = ap (λ l. get_or l u 0) h ∙ v.uncaught;
    heeded = ap (λ m. test_mask m u) i ∙ v.heeded;
  }

  sched_wake-Untouched : {t : Thread} → Untouched u t → Untouched u (sched_wake t).0
  unfolding sched_wake
  sched_wake-Untouched {t} v = elim (Bool-cases (is_runnable t.state)) [
    | inl runs ↦ rw runs v
    | inr waits ↦ rw waits (same_dispositions v refl refl refl)
  ]

  generate-Untouched : {t : Thread} (sig : ℕ) → Untouched u t → Untouched u (generate sig t).0
  unfolding generate
  generate-Untouched {t} sig v =
      elim (Bool-cases
        ((uncatchable sig || not (test_mask t.sig_blocked sig)) && is_blocked t.state)) [
          | inl wakes ↦ rw wakes (sched_wake-Untouched (same_dispositions v refl refl refl))
          | inr stays ↦ rw stays (same_dispositions v refl refl refl)
        ]

  send_to-Untouched : {t : Thread} (sig : ℕ) → Untouched u t → Untouched u (send_to sig t).1.0
  send_to-Untouched {t} sig v = elim (Bool-cases (effectively_ignored t sig)) [
    | inl ignored ↦ rw ignored v
    | inr heard ↦ rw heard (generate-Untouched sig v)
  ]

  pub signal_send-Untouched :
      {t : Thread} (sig : ℤ) → Untouched u t → Untouched u (signal_send sig t).1.0
  unfolding signal_send
  signal_send-Untouched (negsuc n) v = v
  signal_send-Untouched {t} (pos sig) v = elim (Bool-cases (sig == 0 || leb 32 sig)) [
    | inl bad ↦ rw bad v
    | inr good ↦ rw good (send_to-Untouched sig v)
  ]

  pub masked :
      {t : Thread} (b : ℕ)
      → Untouched u t
      → test_mask b u ≡ false
      → Untouched u (record t { sig_blocked = b })
  masked b v h = record { unblocked = h; uncaught = v.uncaught; heeded = v.heeded }

  pub blockable_off : (m : ℕ) → test_mask (blockable m) u ≡ false
  blockable_off m = ground (arith, test-blockable m u (uncatchable-small u special))

  pub change_mask-Untouched :
      {t : Thread} (how m : ℕ) → Untouched u t → Untouched u (change_mask how m t).1
  change_mask-Untouched {t} how m v =
      let off = blockable_off m in
      either_way P (how == 0)
        (masked _ v (ground (arith, test_mask-or t.sig_blocked (blockable m) u, off, v.unblocked)))
        (either_way P (how == 1)
          (masked _ v (
            ground
              (arith, test_mask-and t.sig_blocked (complement 64 (blockable m)) u, v.unblocked)))
          (either_way P (how == 2) (masked _ v off) v))
    where
      P : (ℤ × Option ℕ) × Thread → Type 0
      P r = Untouched u r.1

  pub ignore_bit-Untouched :
      {t : Thread} (sig : ℕ) (on : Bool)
      → sig ≢ u
      → Untouched u t
      → Untouched u (ignore_bit sig on t)
  ignore_bit-Untouched {t} sig true other v = record {
    unblocked = v.unblocked;
    uncaught = v.uncaught;
    heeded = ground (arith, test_mask-or t.sig_ignore (2 ^ sig) u, test_mask-pow sig u, v.heeded);
  }
  ignore_bit-Untouched {t} sig false other v = record {
    unblocked = v.unblocked;
    uncaught = v.uncaught;
    heeded = ground (arith, test_mask-and t.sig_ignore (complement 32 (2 ^ sig)) u, v.heeded);
  }

  with_handler-Untouched :
      {t : Thread} (sig h : ℕ) → sig ≢ u → Untouched u t → Untouched u (with_handler sig h t)
  with_handler-Untouched {t} sig h other v = record {
    unblocked = v.unblocked;
    uncaught = ground (arith, get_or-set t.sig_handlers sig u h 0, v.uncaught);
    heeded = v.heeded;
  }

  pub act-Untouched : {t : Thread} (sig h : ℕ) → sig ≢ u → Untouched u t → Untouched u (act sig h t)
  act-Untouched sig h other v =
      either_way (Untouched u) (h == 0)
        (ignore_bit-Untouched sig false other (with_handler-Untouched sig 0 other v))
        (either_way (Untouched u) (h == 1)
          (same_dispositions
            (ignore_bit-Untouched sig true other (with_handler-Untouched sig 0 other v)) refl refl
            refl)
          (ignore_bit-Untouched sig false other (with_handler-Untouched sig h other v)))

  pub with_restorer-Untouched :
      {t : Thread} (r : ℕ) → Untouched u t → Untouched u (with_restorer r t)
  with_restorer-Untouched r v =
      either_way (Untouched u) (r == 0) v (same_dispositions v refl refl refl)

  pub take_scan-Untouched :
      (n sig d : ℕ) (t : Thread) → Untouched u t → Untouched u (take_scan n sig d t).1
  unfolding take_scan
  take_scan-Untouched zero sig d t v = v
  take_scan-Untouched (suc n) sig d t v = elim (Bool-cases (test_mask d sig)) [
    | inr absent ↦ rw absent (take_scan-Untouched n (sig + 1) d t v)
    | inl there ↦ elim (Bool-cases (handler_of t sig == 0)) [
      | inr caught ↦ rw (there, caught) (take_scan-Untouched n (sig + 1) d t v)
      | inl default ↦ elim (Bool-cases (is_terminate sig)) [
        | inl fatal ↦ rw (there, default, fatal) (same_dispositions v refl refl refl)
        | inr benign ↦
            rw (there, default, benign)
              (take_scan-Untouched n (sig + 1) d (accept sig t)
                (same_dispositions v refl refl refl))
      ]
    ]
  ]
