-- ===== src/Proc/Signal.antt =====
-- kernel/signal/signal.c, kernel/include/proc.h: signals, as operations on the fields of a thread.
-- A `NULL` thread is `none`; IRQs are off during each operation, so that it is one step.
-- A number of a signal below 0 takes the branch of 0, and a `how` below 0 that of 3.
pub mod Frame
pub mod Guard
pub mod Calls
pub mod Killed
pub mod Take
pub mod Groups
pub mod Return
mod Tests
use makh.Prelude.{
  ℕ, zero, suc, ◌+◌, ◌-◌, ◌^◌, Bool, true, false, not, ◌&&◌, ◌||◌, bit_and, bit_or, Option, none,
  some, List, [], ◌∷◌, get_or, set, replicate, leb, ◌==◌, if◌then◌else◌,
}
use makh.Prelude.Int.{ℤ, pos, negsuc}
use makh.Prelude.Mask.{test_mask, complement}

-- `proc_state_t`
pub data ProcState : Type 0 where
  embryo ready running blocked zombie : ProcState

-- The fields of `process_t` that the signal code uses.
pub record Thread : Type 0 where
  pub pid : ℕ
  pub pgid : ℕ
  pub sid : ℕ
  pub parent_pid : ℕ
  pub state : ProcState
  pub is_user : Bool
  pub sig_pending : ℕ
  pub sig_blocked : ℕ
  pub sig_ignore : ℕ
  pub sig_interrupt : Bool
  pub sig_handlers : List ℕ
  pub sig_restorer : ℕ

abbrev pub nsig : ℕ
nsig = 32

abbrev pub sigkill : ℕ
sigkill = 9

abbrev pub sigsegv : ℕ
sigsegv = 11

abbrev pub sigstop : ℕ
sigstop = 19

-- `-EINVAL` and `-ESRCH`
abbrev pub einval : ℤ
einval = negsuc 21

abbrev pub esrch : ℤ
esrch = negsuc 2

abbrev pub sigmask : ℕ → ℕ
sigmask sig = 2 ^ sig

abbrev pub handler_of : Thread → ℕ → ℕ
handler_of t sig = get_or t.sig_handlers sig 0

pub is_terminate : ℕ → Bool
is_terminate sig =
    sig == 1
    || (sig == 2
        || (sig == 3
            || (sig == 4
                || (sig == 6
                    || (sig == 9 || (sig == 11 || (sig == 15 || (sig == 13 || sig == 20))))))))

abbrev pub uncatchable : ℕ → Bool
uncatchable sig = sig == sigkill || sig == sigstop

pub effectively_ignored : Thread → ℕ → Bool
effectively_ignored t sig =
    if uncatchable sig
    then false
    else if not (handler_of t sig == 0)
    then false
    else if test_mask t.sig_ignore sig
    then true
    else not (is_terminate sig)

abbrev pub is_blocked : ProcState → Bool
is_blocked blocked = true
is_blocked _ = false

abbrev pub is_runnable : ProcState → Bool
is_runnable ready = true
is_runnable running = true
is_runnable _ = false

abbrev pub is_zombie : ProcState → Bool
is_zombie zombie = true
is_zombie _ = false

-- `sched_wake` on the thread, and whether it is put on the run queue.
pub sched_wake : Thread → Thread × Bool
sched_wake t = if is_runnable t.state then (t, false) else (record t { state = ready }, true)

-- Mark the signal pending and wake an interruptible wait.
pub generate : ℕ → Thread → Thread × Bool
generate sig t =
    let u = record t { sig_pending = bit_or t.sig_pending (sigmask sig) } in
    let deliverable = uncatchable sig || not (test_mask t.sig_blocked sig) in
    if deliverable && is_blocked t.state
    then sched_wake (record u { sig_interrupt = true })
    else (u, false)

-- The result, the thread, and whether it was put on the run queue.
abbrev pub send_to : ℕ → Thread → ℤ × (Thread × Bool)
send_to sig t = if effectively_ignored t sig then (pos 0, (t, false)) else (pos 0, generate sig t)

pub signal_send : ℤ → Thread → ℤ × (Thread × Bool)
signal_send (negsuc n) t = (einval, (t, false))
signal_send (pos sig) t = if sig == 0 || leb nsig sig then (einval, (t, false)) else send_to sig t

abbrev pub in_group : ℕ → Thread → Bool
in_group pgid p = (p.pgid == pgid) && not (is_zombie p.state)

-- The loop over all threads, with the count, the threads and the numbers of those put on the run queue.
pub signal_send_pgrp : ℕ → ℕ → List Thread → ℕ × (List Thread × List ℕ)
signal_send_pgrp pgid sig [] = (0, ([], []))
signal_send_pgrp pgid sig (p ∷ ps) =
    let (n, (rest, woken)) = signal_send_pgrp pgid sig ps in
    if not (in_group pgid p)
    then (n, (p ∷ rest, woken))
    else if effectively_ignored p sig
    then (n, (p ∷ rest, woken))
    else (let (p', pushed) = generate sig p in
        (n + 1, (p' ∷ rest, if pushed then p.pid ∷ woken else woken)))

-- `set &= ~(sigmask(SIGKILL) | sigmask(SIGSTOP))`
abbrev pub blockable : ℕ → ℕ
blockable m = bit_and m (complement 64 (bit_or (sigmask sigkill) (sigmask sigstop)))

-- On NULL the result is `e`.
abbrev pub on_thread {ℓ} :
    {R : Type ℓ} → R → (Thread → R × Thread) → Option Thread → R × Option Thread
on_thread e f none = (e, none)
on_thread e f (some t) = let (r, t') = f t in (r, some t')

-- With the old mask that is stored in `*oldset`.
abbrev pub change_mask : ℕ → ℕ → Thread → (ℤ × Option ℕ) × Thread
change_mask how m t =
    let old = some t.sig_blocked in
    if how == 0
    then ((pos 0, old), record t { sig_blocked = bit_or t.sig_blocked (blockable m) })
    else if how == 1
    then (
      (pos 0, old),
      record t { sig_blocked = bit_and t.sig_blocked (complement 64 (blockable m)) },
    )
    else if how == 2
    then ((pos 0, old), record t { sig_blocked = blockable m })
    else ((einval, old), t)

pub signal_procmask : ℕ → ℕ → Option Thread → (ℤ × Option ℕ) × Option Thread
signal_procmask how m = on_thread (einval, none) (change_mask how m)

abbrev pub ignore_bit : ℕ → Bool → Thread → Thread
ignore_bit sig on t = record t {
  sig_ignore =
      if on then bit_or t.sig_ignore (2 ^ sig) else bit_and t.sig_ignore (complement 32 (2 ^ sig));
}

pub signal_set_ignore : ℕ → Bool → Option Thread → ℤ × Option Thread
signal_set_ignore sig on cur =
    if sig == 0 || leb nsig sig || uncatchable sig
    then (einval, cur)
    else on_thread einval (λ t. (pos 0, ignore_bit sig on t)) cur

pub signal_pending : Option Thread → Bool
signal_pending none = false
signal_pending (some t) = not (bit_and t.sig_pending (complement 64 t.sig_blocked) == 0)

-- `sig_pending & (~sig_blocked | sigmask(SIGKILL) | sigmask(SIGSTOP))`
abbrev pub deliverable_set : Thread → ℕ
deliverable_set t =
    bit_and t.sig_pending
      (bit_or (bit_or (complement 64 t.sig_blocked) (sigmask sigkill)) (sigmask sigstop))

abbrev pub accept : ℕ → Thread → Thread
accept sig t = record t { sig_pending = bit_and t.sig_pending (complement 64 (sigmask sig)) }

-- The loop of `signal_take_terminate` over `sig`, on the rounds left.
pub take_scan : ℕ → ℕ → ℕ → Thread → ℕ × Thread
take_scan zero sig d t = (0, t)
take_scan (suc n) sig d t =
    let skipped = take_scan n (sig + 1) d t in
    let dropped = take_scan n (sig + 1) d (accept sig t) in
    if not (test_mask d sig)
    then skipped
    else if not (handler_of t sig == 0)
    then skipped
    else if is_terminate sig
    then (sig, accept sig t)
    else dropped

abbrev pub uninterrupted : Thread → Thread
uninterrupted t = record t { sig_interrupt = false }

abbrev pub take : Thread → ℕ × Thread
take t = take_scan (nsig - 1) 1 (deliverable_set t) (uninterrupted t)

pub signal_take_terminate : Option Thread → ℕ × Option Thread
signal_take_terminate = on_thread 0 take

-- The exit code, where the thread is ended.
pub signal_check_and_die : Option Thread → Option ℕ × Option Thread
signal_check_and_die none = (none, none)
signal_check_and_die (some t) =
    if not t.is_user
    then (none, some t)
    else (let (sig, t') = signal_take_terminate (some t) in
        (if sig == 0 then none else some (128 + sig), t'))

abbrev pub with_handler : ℕ → ℕ → Thread → Thread
with_handler sig h t = record t { sig_handlers = set t.sig_handlers sig h }

abbrev pub act : ℕ → ℕ → Thread → Thread
act sig handler t =
    if handler == 0
    then ignore_bit sig false (with_handler sig 0 t)
    else if handler == 1
    then accept sig (ignore_bit sig true (with_handler sig 0 t))
    else ignore_bit sig false (with_handler sig handler t)

abbrev pub with_restorer : ℕ → Thread → Thread
with_restorer r t = if r == 0 then t else record t { sig_restorer = r }

pub signal_sigaction : ℕ → ℕ → ℕ → Option Thread → ℤ × Option Thread
signal_sigaction sig handler restorer cur =
    if sig == 0 || leb nsig sig || uncatchable sig
    then (einval, cur)
    else on_thread einval (λ t. (pos 0, with_restorer restorer (act sig handler t))) cur

pub signal_reset_handlers : Option Thread → Option Thread
signal_reset_handlers none = none
signal_reset_handlers (some t) =
    some (record t { sig_handlers = replicate nsig 0; sig_restorer = 0 })
