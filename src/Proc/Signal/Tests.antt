-- ===== src/Proc/Signal/Tests.antt =====
-- Runs of kernel/signal/signal.c, and the theorems at concrete inputs.
use makh.Prelude.{
  ℕ, ◌+◌, ◌-◌, ◌≤◌, ◌≡◌, refl, sym, ◌∙◌, ap, true, false, ◌==◌, Option, none, some, [], ◌∷◌, map,
  replicate, if◌then◌else◌, arith,
}
use makh.Prelude.Int.{pos, negsuc}
use makh.Prelude.Mask.{test_mask}
use makh.Proc.Signal.{
  blocked, ready, Thread, esrch, in_group, blockable, is_terminate, effectively_ignored, generate,
  sched_wake, signal_send, signal_send_pgrp, signal_procmask, signal_sigaction,
}
use makh.Proc.Signal.Frame.{
  Regs, SigContext, UserMemory, returns, context_address, signal_restore_ok, sanitise,
  deliver_to_handler, deliver_scan, signal_deliver, signal_sigreturn,
}
use makh.Proc.Signal.Guard.{Untouched}
use makh.Proc.Signal.Calls.{Current, Step, Reach, Reach-Current}
use makh.Proc.Signal.Killed.{Doomed, Survives, Survives-le}
use makh.Proc.Signal.Groups.{kill_one, signal_kill, pgrp_as_sends, group_probe_fails}
use makh.Proc.Signal.Return.{IsConfined, sigreturn-IsConfined, sigreturn-deliver}

-- A thread with a handler for SIGINT that waits.
abbrev waiting : Thread
waiting = record {
  pid = 7;
  pgid = 7;
  sid = 7;
  parent_pid = 1;
  state = blocked;
  is_user = true;
  sig_pending = 0;
  sig_blocked = 0;
  sig_ignore = 0;
  sig_interrupt = false;
  sig_handlers = 0 ∷ 0 ∷ 0x401000 ∷ replicate 29 0;
  sig_restorer = 0x402000;
}

send_wakes :
    (signal_send (pos 2) waiting).1
    ≡ (record waiting { sig_pending = 4; state = ready; sig_interrupt = true }, true)
unfolding signal_send effectively_ignored generate sched_wake test_mask
send_wakes = refl

kill_ignored_child : signal_send (pos 17) waiting ≡ (pos 0, (waiting, false))
unfolding signal_send effectively_ignored is_terminate test_mask
kill_ignored_child = refl

-- The existence check of a process succeeds.
probe_runs : signal_kill none (pos 7) (pos 0) (waiting ∷ []) ≡ (pos 0, waiting ∷ [])
unfolding signal_kill kill_one
probe_runs = refl

waiting-Untouched : Untouched 9 waiting
unfolding test_mask
waiting-Untouched = record { unblocked = refl; uncaught = refl; heeded = refl }

-- A memory of contexts, in which a word that is written spoils all but the context just above it.
abbrev Contexts : Type 0
Contexts = ℕ → Option SigContext

abbrev with_context : ℕ → SigContext → Contexts → Contexts
with_context a c m = λ x. if x == a then some c else m x

abbrev with_word : ℕ → Contexts → Contexts
with_word a m = λ x. if x == a + 8 then m x else none

some_injective : {A : Type 0} {x y : A} → some x ≡ some y → x ≡ y
some_injective e = cc

read_back :
    (a : ℕ) (c : SigContext) (m m' : Contexts) → some (with_context a c m) ≡ some m' → m' a ≡ some c
read_back a c m m' e = ap (λ f. f a) (sym (some_injective e)) ∙ ground arith

read_below : (a : ℕ) (m m' : Contexts) → some (with_word a m) ≡ some m' → m' (a + 8) ≡ m (a + 8)
read_below a m m' e = ap (λ f. f (a + 8)) (sym (some_injective e)) ∙ ground arith

abbrev contexts : UserMemory Contexts
contexts = record {
  put_context = λ a c m. some (with_context a c m);
  put_word = λ a v m. some (with_word a m);
  get_context = λ a m. m a;
  get_put = read_back;
  get_put_below = λ a v m m' e. read_below a m m' e;
}

abbrev interrupted : Regs
interrupted = record {
  r15 = 15;
  r14 = 14;
  r13 = 13;
  r12 = 12;
  r11 = 11;
  r10 = 10;
  r9 = 9;
  r8 = 8;
  rbp = 5;
  rdi = 4;
  rsi = 3;
  rdx = 2;
  rcx = 1;
  rbx = 0;
  rax = 77;
  rip = 0x400123;
  rflags = 0x3246;
  rsp = 0x700000000100;
}

abbrev frame_at : ℕ
frame_at = 0x6fffffffffe0

abbrev nothing : Contexts
nothing = λ x. none

abbrev delivered : Contexts
delivered =
    with_word (frame_at - 8)
      (with_context frame_at (record { regs = interrupted; blocked = 0 }) nothing)

abbrev in_handler : Regs
in_handler = record interrupted { rsp = frame_at - 8; rip = 0x401000; rdi = 2; rax = 0 }

deliver_runs :
    deliver_to_handler contexts waiting interrupted 2 0x401000 nothing
    ≡ returns in_handler (record waiting { sig_blocked = 4 }) delivered
unfolding deliver_to_handler context_address
deliver_runs = refl

ok : signal_restore_ok 0x400123 0x700000000100 ≡ true
unfolding signal_restore_ok
ok = refl

sigreturn-deliver_example :
    signal_sigreturn contexts waiting (record in_handler { rsp = frame_at }) delivered
    ≡ returns
        (record interrupted { rflags = sanitise 0x3246 })
        (record waiting { sig_blocked = blockable 0 })
        delivered
sigreturn-deliver_example =
    sigreturn-deliver contexts waiting (record waiting { sig_blocked = 4 }) waiting interrupted
      in_handler (record in_handler { rsp = frame_at }) nothing delivered 2 0x401000 (omega arith)
      (omega arith) ok deliver_runs refl

sigreturn-IsConfined_example : IsConfined (signal_sigreturn contexts waiting in_handler delivered)
sigreturn-IsConfined_example = sigreturn-IsConfined contexts waiting in_handler delivered

Reach-Current_example :
    Current 9 (signal_sigaction 9 0x401000 0 (signal_procmask 2 0xffffffff (some waiting)).1).1
Reach-Current_example =
    Reach-Current {mem = contexts} 9 refl
      (Reach.next (Reach.next Reach.here (Step.procmask 2 0xffffffff))
        (Step.sigaction 9 0x401000 0))
      waiting-Untouched

-- With a signal that it catches waiting already.
abbrev interrupted_thread : Thread
interrupted_thread = record waiting { sig_pending = 4 }

-- And SIGKILL behind it.
abbrev killed_thread : Thread
killed_thread = record waiting { sig_pending = 516 }

killed-Doomed : Doomed killed_thread
unfolding test_mask
killed-Doomed = record {
  pending = refl;
  untouched = record { unblocked = refl; uncaught = refl; heeded = refl };
  user = refl;
}

goes_on :
    signal_deliver contexts killed_thread interrupted nothing
    ≡ returns in_handler (record killed_thread { sig_pending = 512; sig_blocked = 4 }) delivered
unfolding signal_deliver deliver_scan deliver_to_handler context_address is_terminate test_mask
goes_on = refl

Survives-le_example : 1 ≤ 9
Survives-le_example =
    Survives-le
      (Survives.back killed_thread nothing delivered interrupted in_handler Survives.here (λ q h. h)
        killed-Doomed goes_on)
      killed-Doomed

pgrp_as_sends_here :
    (signal_send_pgrp 7 2 (waiting ∷ [])).1.0
    ≡ map (λ p. if in_group 7 p then (signal_send (pos 2) p).1.0 else p) (waiting ∷ [])
pgrp_as_sends_here = pgrp_as_sends 7 2 (waiting ∷ []) (omega arith) (omega arith)

group_probe_fails_example :
    (signal_kill (some waiting) (negsuc 6) (pos 0) (waiting ∷ []) ≡ (esrch, waiting ∷ []))
    × (signal_kill (some waiting) (pos 0) (pos 0) (waiting ∷ []) ≡ (esrch, waiting ∷ []))
group_probe_fails_example = group_probe_fails (some waiting) 6 (waiting ∷ []) (refl, tt)
