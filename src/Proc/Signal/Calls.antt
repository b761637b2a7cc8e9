-- ===== src/Proc/Signal/Calls.antt =====
-- kernel/signal/signal.c: the guard of SIGKILL and SIGSTOP over any sequence of calls.
use makh.Prelude.Branches.{either_way}
use makh.Prelude.{
  ℕ, zero, suc, ◌+◌, ◌≡◌, ◌≢◌, refl, ap, subst, inl, inr, Bool, true, false, not, ◌||◌, Option,
  none, some, replicate, leb, ◌==◌, arith, Bool-cases, All-get_or, All-replicate,
}
use makh.Prelude.Int.{ℤ}
use makh.Prelude.Mask.{test_mask, test_mask-or, test_mask-pow}
use makh.Proc.Signal.{
  Thread, sigmask, handler_of, uncatchable, is_terminate, signal_send, deliverable_set,
  uninterrupted, on_thread, signal_procmask, signal_set_ignore, accept, signal_take_terminate,
  signal_sigaction, signal_reset_handlers,
}
use makh.Proc.Signal.Frame.{
  Regs, SigContext, UserMemory, Outcome, exits, returns, deliver_to_handler, deliver_scan,
  signal_deliver, restore, signal_sigreturn, signal_restore_ok, enter_handler,
}
use makh.Proc.Signal.Guard.{
  Untouched, same_dispositions, masked, blockable_off, signal_send-Untouched, change_mask-Untouched,
  ignore_bit-Untouched, act-Untouched, with_restorer-Untouched, take_scan-Untouched,
}

abbrev pub Current : ℕ → Option Thread → Type 0
Current u none = Unit
Current u (some t) = Untouched u t

abbrev Survivor : {M : Type 0} → ℕ → Outcome M → Type 0
Survivor u (exits c) = Unit
Survivor u (returns tf t m) = Untouched u t

module _ (u : ℕ) (special : uncatchable u ≡ true) where
  on_thread-Current :
      {R : Type 0} (e : R) (f : Thread → R × Thread) (c : Option Thread)
      → ((t : Thread) → Untouched u t → Untouched u (f t).1)
      → Current u c
      → Current u (on_thread e f c).1
  on_thread-Current e f none keeps v = tt
  on_thread-Current e f (some t) keeps v = keeps t v

  procmask-Current :
      (how m : ℕ) (c : Option Thread) → Current u c → Current u (signal_procmask how m c).1
  unfolding signal_procmask
  procmask-Current how m c v =
      on_thread-Current _ _ c (λ t v. change_mask-Untouched u special how m v) v

  abbrev refused : ℕ → Bool
  refused sig = sig == 0 || leb 32 sig || uncatchable sig

  other : (sig : ℕ) → refused sig ≡ false → sig ≢ u
  other sig good e = ground arith

  set_ignore-Current :
      (sig : ℕ) (on : Bool) (c : Option Thread)
      → Current u c
      → Current u (signal_set_ignore sig on c).1
  unfolding signal_set_ignore
  set_ignore-Current sig on c v = elim (Bool-cases (refused sig)) [
    | inl bad ↦ rw bad v
    | inr good ↦ rw good (
        on_thread-Current _ _ c (λ t v. ignore_bit-Untouched u special sig on (other sig good) v) v)
  ]

  sigaction-Current :
      (sig h r : ℕ) (c : Option Thread) → Current u c → Current u (signal_sigaction sig h r c).1
  unfolding signal_sigaction
  sigaction-Current sig h r c v = elim (Bool-cases (refused sig)) [
    | inl bad ↦ rw bad v
    | inr good ↦ rw good (
        on_thread-Current _ _ c
          (λ t v.
            with_restorer-Untouched u special r (act-Untouched u special sig h (other sig good) v))
          v)
  ]

  take-Current : (c : Option Thread) → Current u c → Current u (signal_take_terminate c).1
  unfolding signal_take_terminate
  take-Current c v =
      on_thread-Current _ _ c
        (λ t v.
          take_scan-Untouched u special 31 1 (deliverable_set t) (uninterrupted t)
            (same_dispositions u special v refl refl refl))
        v

  reset-Current : (c : Option Thread) → Current u c → Current u (signal_reset_handlers c)
  unfolding signal_reset_handlers
  reset-Current none v = tt
  reset-Current (some t) v = record {
    unblocked = v.unblocked;
    uncaught =
        All-get_or (λ (h : ℕ). h ≡ 0) (replicate 32 0) u 0 refl
          (All-replicate (λ (h : ℕ). h ≡ 0) 32 0 refl);
    heeded = v.heeded;
  }

  -- A handler is only installed for another signal.
  caught-other : {t : Thread} (sig : ℕ) → Untouched u t → (handler_of t sig == 0) ≡ false → sig ≢ u
  caught-other {t} sig v caught e = ground (arith, v.uncaught, ap (handler_of t) e)

  module _ {M : Type 0} (mem : UserMemory M) where
    enter-Survivor :
        (sig h slot : ℕ) {t : Thread} (tf : Regs) (o : Option M)
        → sig ≢ u
        → Untouched u t
        → Survivor u (enter_handler mem sig h slot t tf o)
    enter-Survivor sig h slot tf none other v = tt
    enter-Survivor sig h slot {t} tf (some m) other v = masked u special _ v (
        ground
          (arith, test_mask-or t.sig_blocked (sigmask sig) u, test_mask-pow sig u, v.unblocked))

    to_handler-Survivor :
        {t : Thread} (tf : Regs) (sig h : ℕ) (m : M)
        → sig ≢ u
        → Untouched u t
        → Survivor u (deliver_to_handler mem t tf sig h m)
    unfolding deliver_to_handler
    to_handler-Survivor {t} tf sig h m other v =
        either_way (Survivor u) (t.sig_restorer == 0) tt (enter-Survivor sig h _ tf _ other v)

    deliver_scan-Survivor :
        (n sig d : ℕ) {t : Thread} (tf : Regs) (m : M)
        → Untouched u t
        → Survivor u (deliver_scan mem n sig d t tf m)
    unfolding deliver_scan
    deliver_scan-Survivor zero sig d tf m v = v
    deliver_scan-Survivor (suc n) sig d {t} tf m v =
        let kept : Untouched u (accept sig t) = same_dispositions u special v refl refl refl in
        elim (Bool-cases (test_mask d sig)) [
          | inr absent ↦ rw absent (deliver_scan-Survivor n (sig + 1) d tf m v)
          | inl there ↦ elim (Bool-cases (handler_of t sig == 0)) [
            | inr caught ↦
                rw (there, caught)
                  (to_handler-Survivor tf sig (handler_of t sig) m (caught-other sig v caught) kept)
            | inl default ↦
                rw (there, default)
                  (either_way (Survivor u) (is_terminate sig) tt
                    (deliver_scan-Survivor n (sig + 1) d tf m kept))
          ]
        ]

    deliver-Survivor :
        {t : Thread} (tf : Regs) (m : M) → Untouched u t → Survivor u (signal_deliver mem t tf m)
    unfolding signal_deliver
    deliver-Survivor {t} tf m v = either_way (Survivor u) (not t.is_user) v (
        deliver_scan-Survivor 31 1 (deliverable_set t) tf m
          (same_dispositions u special v refl refl refl))

    restore-Survivor :
        {t : Thread} (m : M) (c : Option SigContext)
        → Untouched u t
        → Survivor u (restore mem t m c)
    restore-Survivor m none v = tt
    restore-Survivor m (some sc) v =
        either_way (Survivor u) (not (signal_restore_ok sc.regs.rip sc.regs.rsp)) tt
          (masked u special _ v (blockable_off u special sc.blocked))

    sigreturn-Survivor :
        {t : Thread} (tf : Regs) (m : M) → Untouched u t → Survivor u (signal_sigreturn mem t tf m)
    unfolding signal_sigreturn
    sigreturn-Survivor tf m v = restore-Survivor m (mem.get_context tf.rsp m) v

-- What can happen to a thread: the calls that it makes, a signal that is sent to it, and its ways back to user
-- mode, with any registers and any memory.
pub data Step {M : Type 0} (mem : UserMemory M) : Option Thread → Option Thread → Type 0 where
  procmask : {c : Option Thread} (how m : ℕ) → Step mem c (signal_procmask how m c).1
  set_ignore : {c : Option Thread} (sig : ℕ) (on : Bool) → Step mem c (signal_set_ignore sig on c).1
  sigaction : {c : Option Thread} (sig h r : ℕ) → Step mem c (signal_sigaction sig h r c).1
  take_terminate : {c : Option Thread} → Step mem c (signal_take_terminate c).1
  reset_handlers : {c : Option Thread} → Step mem c (signal_reset_handlers c)
  send : {t : Thread} (sig : ℤ) → Step mem (some t) (some (signal_send sig t).1.0)
  deliver :
      {t t' : Thread} (tf tf' : Regs) (m m' : M)
      → signal_deliver mem t tf m ≡ returns tf' t' m'
      → Step mem (some t) (some t')
  sigreturn :
      {t t' : Thread} (tf tf' : Regs) (m m' : M)
      → signal_sigreturn mem t tf m ≡ returns tf' t' m'
      → Step mem (some t) (some t')

pub data Reach {M : Type 0} (mem : UserMemory M) (c : Option Thread) : Option Thread → Type 0 where
  here : Reach mem c c
  next : {d e : Option Thread} → Reach mem c d → Step mem d e → Reach mem c e

Step-Current :
    {M : Type 0} {mem : UserMemory M} (u : ℕ) {c d : Option Thread}
    → uncatchable u ≡ true
    → Step mem c d
    → Current u c
    → Current u d
Step-Current u special (procmask {c} how m) v = procmask-Current u special how m c v
Step-Current u special (set_ignore {c} sig on) v = set_ignore-Current u special sig on c v
Step-Current u special (sigaction {c} sig h r) v = sigaction-Current u special sig h r c v
Step-Current u special (take_terminate {c}) v = take-Current u special c v
Step-Current u special (reset_handlers {c}) v = reset-Current u special c v
Step-Current u special (send sig) v = signal_send-Untouched u special sig v
Step-Current u special (deliver tf tf' m m' run) v =
    subst (Survivor u) run (deliver-Survivor u special _ tf m v)
Step-Current u special (sigreturn tf tf' m m' run) v =
    subst (Survivor u) run (sigreturn-Survivor u special _ tf m v)

-- Whatever calls a thread makes, whatever signals it gets and however it returns from its handlers,
-- with frames of its own making: SIGKILL and SIGSTOP, each not blocked, caught or ignored at the
-- start, never are.
pub Reach-Current :
    {M : Type 0} {mem : UserMemory M} (u : ℕ) {c d : Option Thread}
    → uncatchable u ≡ true
    → Reach mem c d
    → Current u c
    → Current u d
Reach-Current u special here v = v
Reach-Current u special (next r st) v = Step-Current u special st (Reach-Current u special r v)
