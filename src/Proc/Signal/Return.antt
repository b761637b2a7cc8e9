-- ===== src/Proc/Signal/Return.antt =====
-- kernel/signal/signal.c: what a return from a handler gives back, and what it cannot give.
use makh.Prelude.{
  ℕ, ◌+◌, ◌^◌, ◌≤◌, ◌<◌, ◌≡◌, refl, sym, ◌∙◌, ap, inl, inr, Bool, true, false, not, ◌&&◌, ◌||◌,
  bit_and, bit_or, Option, none, some, ◌==◌, arith, Bool-cases, Option-cases,
}
use makh.Prelude.Bits.{or-lt}
use makh.Prelude.Mask.{
  test_mask, complement, pow-lt-pow, test_mask-or, test_mask-and, test_mask-pow,
  test_mask-complement,
}
use makh.Proc.Signal.{Thread, sigmask, blockable, uncatchable}
use makh.Proc.Signal.Frame.{
  Regs, SigContext, UserMemory, Outcome, exits, returns, context_address, return_slot, segv,
  signal_restore_ok, sanitise, deliver_to_handler, restore, signal_sigreturn, then_word,
  enter_handler,
}

kill_stop-lt : bit_or (sigmask 9) (sigmask 19) < 2 ^ 64
kill_stop-lt =
    or-lt 64 (2 ^ 9) (2 ^ 19) (pow-lt-pow 64 9 (omega arith)) (pow-lt-pow 64 19 (omega arith))

-- A mask that was made blockable has neither SIGKILL nor SIGSTOP, and is otherwise as it was.
pub test-blockable :
    (m sig : ℕ)
    → sig < 64
    → test_mask (blockable m) sig ≡ (test_mask m sig && not (uncatchable sig))
test-blockable m sig h = ground (
  arith,
  test_mask-and m (complement 64 (bit_or (sigmask 9) (sigmask 19))) sig,
  test_mask-complement 64 (bit_or (sigmask 9) (sigmask 19)) sig kill_stop-lt h,
  test_mask-or (sigmask 9) (sigmask 19) sig,
  test_mask-pow 9 sig,
  test_mask-pow 19 sig,
)

-- What the kernel must not let a thread choose.
pub record Confined (r : Regs) (t : Thread) : Type 0 where
  pub rip_low : 0x1000 ≤ r.rip
  pub rip_high : r.rip < 0x800000000000
  pub rsp_low : 0 < r.rsp
  pub rsp_high : r.rsp < 0x800000000000
  pub interrupts_on : test_mask r.rflags 9 ≡ true
  pub iopl_low : test_mask r.rflags 12 ≡ false
  pub iopl_high : test_mask r.rflags 13 ≡ false
  pub kill_unblocked : test_mask t.sig_blocked 9 ≡ false
  pub stop_unblocked : test_mask t.sig_blocked 19 ≡ false

abbrev pub IsConfined : {M : Type 0} → Outcome M → Type 0
IsConfined (exits c) = c ≡ segv
IsConfined (returns r t m) = Confined r t

test-sanitise :
    (f p : ℕ)
    → test_mask (sanitise f) p ≡ ((test_mask f p && test_mask 0xcd5 p) || test_mask 0x202 p)
unfolding sanitise
test-sanitise f p = ground (arith, test_mask-or (bit_and f 0xcd5) 0x202 p, test_mask-and f 0xcd5 p)

flags-fixed :
    (p : ℕ) (b : Bool)
    → test_mask 0xcd5 p ≡ false
    → test_mask 0x202 p ≡ b
    → (f : ℕ) → test_mask (sanitise f) p ≡ b
flags-fixed p b c d f = ground (arith, test-sanitise f p)

restore_ok-bounds :
    (rip rsp : ℕ)
    → signal_restore_ok rip rsp ≡ true
    → (0x1000 ≤ rip) × (rip < 0x800000000000) × (0 < rsp) × (rsp < 0x800000000000)
unfolding signal_restore_ok
restore_ok-bounds rip rsp h = (ground arith, ground arith, ground arith, ground arith)

module _ {M : Type 0} (mem : UserMemory M) where
  restore-IsConfined : (t : Thread) (m : M) (c : Option SigContext) → IsConfined (restore mem t m c)
  unfolding test_mask
  restore-IsConfined t m none = refl
  restore-IsConfined t m (some sc) = elim (Bool-cases (signal_restore_ok sc.regs.rip sc.regs.rsp)) [
    | inr forged ↦ rw forged refl
    | inl ok ↦
        let (a, b, c, d) = restore_ok-bounds sc.regs.rip sc.regs.rsp ok in
        rw ok (record {
          rip_low = a;
          rip_high = b;
          rsp_low = c;
          rsp_high = d;
          interrupts_on = flags-fixed 9 true refl refl sc.regs.rflags;
          iopl_low = flags-fixed 12 false refl refl sc.regs.rflags;
          iopl_high = flags-fixed 13 false refl refl sc.regs.rflags;
          kill_unblocked = ground (arith, test-blockable sc.blocked 9 (omega arith));
          stop_unblocked = ground (arith, test-blockable sc.blocked 19 (omega arith));
        })
  ]

  -- Whatever a thread has put where `sigreturn` looks for the frame, the thread is ended as by SIGSEGV or goes on
  -- with both `rip` and `rsp` in the lower half, interrupts on, no I/O privilege, and neither SIGKILL nor
  -- SIGSTOP blocked.
  pub sigreturn-IsConfined :
      (t : Thread) (tf : Regs) (m : M) → IsConfined (signal_sigreturn mem t tf m)
  unfolding signal_sigreturn
  sigreturn-IsConfined t tf m = restore-IsConfined t m (mem.get_context tf.rsp m)

  abbrev saved : Thread → Regs → SigContext
  saved t tf = record { regs = tf; blocked = t.sig_blocked }

  -- What a delivery that did not end the thread has written.
  record Written (t : Thread) (tf tf' : Regs) (m m' : M) : Type 0 where
    between : M
    context : mem.put_context (context_address tf.rsp) (saved t tf) m ≡ some between
    word : mem.put_word (return_slot (context_address tf.rsp)) t.sig_restorer between ≡ some m'
    rsp : tf'.rsp ≡ return_slot (context_address tf.rsp)

  enter-Written :
      (t : Thread) (tf : Regs) (m m1 : M) (o : Option M) (sig handler : ℕ)
      → mem.put_context (context_address tf.rsp) (saved t tf) m ≡ some m1
      → mem.put_word (return_slot (context_address tf.rsp)) t.sig_restorer m1 ≡ o
      → (tf' : Regs) (t' : Thread) (m' : M)
      → enter_handler mem sig handler (return_slot (context_address tf.rsp)) t tf o
        ≡ returns tf' t' m'
      → Written t tf tf' m m'
  enter-Written t tf m m1 none sig handler e w tf' t' m' run = absurd cc
  enter-Written t tf m m1 (some m2) sig handler e w tf' t' m' run = record {
    between = m1;
    context = e;
    word = cc;
    rsp = cc;
  }

  deliver-set :
      (t : Thread) (tf : Regs) (m : M) (sig handler : ℕ) (o : Option M)
      → (t.sig_restorer == 0) ≡ false
      → mem.put_context (context_address tf.rsp) (saved t tf) m ≡ o
      → deliver_to_handler mem t tf sig handler m
        ≡ enter_handler mem sig handler
            (return_slot (context_address tf.rsp))
            t
            tf
            (then_word mem (return_slot (context_address tf.rsp)) t.sig_restorer o)
  unfolding deliver_to_handler
  deliver-set t tf m sig handler o set e = rw (set, e) refl

  deliver_unset :
      (t : Thread) (tf : Regs) (m : M) (sig handler : ℕ)
      → (t.sig_restorer == 0) ≡ true
      → deliver_to_handler mem t tf sig handler m ≡ exits segv
  unfolding deliver_to_handler
  deliver_unset t tf m sig handler unset = rw unset refl

  deliver-Written :
      (t : Thread) (tf : Regs) (m : M) (sig handler : ℕ)
      → (tf' : Regs) (t' : Thread) (m' : M)
      → deliver_to_handler mem t tf sig handler m ≡ returns tf' t' m'
      → Written t tf tf' m m'
  deliver-Written t tf m sig handler tf' t' m' run = elim (Bool-cases (t.sig_restorer == 0)) [
    | inl none_set ↦ absurd (let e = deliver_unset t tf m sig handler none_set in cc)
    | inr set ↦ elim (Option-cases (mem.put_context (context_address tf.rsp) (saved t tf) m)) [
      | inl fault ↦ absurd (let e = deliver-set t tf m sig handler none set fault in cc)
      | inr (m1, e) ↦
          enter-Written t tf m m1 _ sig handler e refl tf' t' m'
            (sym (deliver-set t tf m sig handler (some m1) set e) ∙ run)
    ]
  ]

  -- A delivery that did not end the thread, from a stack pointer of at least 304 and with a `rip` and
  -- `rsp` that `signal_restore_ok` accepts, is undone by a `sigreturn` from a handler that has left
  -- the frame alone and returned through its return slot: the registers of the interrupted code come
  -- back, the flags without those that a thread must not set, and its mask without SIGKILL and
  -- SIGSTOP.
  pub sigreturn-deliver :
      (t t' u : Thread) (tf tf' r : Regs) (m m' : M) (sig handler : ℕ)
      → 304 ≤ tf.rsp
      → tf.rsp < 2 ^ 64
      → signal_restore_ok tf.rip tf.rsp ≡ true
      → deliver_to_handler mem t tf sig handler m ≡ returns tf' t' m'
      → r.rsp ≡ tf'.rsp + 8
      → signal_sigreturn mem u r m'
        ≡ returns
            (record tf { rflags = sanitise tf.rflags })
            (record u { sig_blocked = blockable t.sig_blocked })
            m'
  unfolding signal_sigreturn context_address
  sigreturn-deliver t t' u tf tf' r m m' sig handler low high ok run popped =
      let w = deliver-Written t tf m sig handler tf' t' m' run in
      let slot = return_slot (context_address tf.rsp) in
      let above : slot + 8 ≡ context_address tf.rsp = omega arith in
      let kept = mem.get_put_below slot t.sig_restorer w.between m' w.word in
      let there = mem.get_put (context_address tf.rsp) (saved t tf) m w.between w.context in
      let read : mem.get_context r.rsp m' ≡ some (saved t tf) =
        ap (λ a. mem.get_context a m') (popped ∙ ap (λ a. a + 8) w.rsp)
        ∙ kept
        ∙ ap (λ a. mem.get_context a w.between) above
        ∙ there in
      ap (restore mem u m') read ∙ rw ok refl
