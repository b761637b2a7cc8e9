-- ===== src/Proc/Signal/Frame.antt =====
-- kernel/signal/signal.c: the frame of a user handler, its delivery and `sigreturn`.
use makh.Prelude.{
  ℕ, zero, suc, ◌+◌, ◌-◌, ◌%◌, ◌^◌, ◌≡◌, Bool, true, false, not, ◌||◌, bit_and, bit_or, Option,
  none, some, ltb, leb, ◌==◌, if◌then◌else◌,
}
use makh.Prelude.Mask.{test_mask}
use makh.Proc.Signal.{
  Thread, nsig, sigsegv, sigmask, handler_of, is_terminate, blockable, deliverable_set, accept,
  uninterrupted,
}

-- The registers of `trapframe_t` that are saved.
pub record Regs : Type 0 where
  pub r15 : ℕ
  pub r14 : ℕ
  pub r13 : ℕ
  pub r12 : ℕ
  pub r11 : ℕ
  pub r10 : ℕ
  pub r9 : ℕ
  pub r8 : ℕ
  pub rbp : ℕ
  pub rdi : ℕ
  pub rsi : ℕ
  pub rdx : ℕ
  pub rcx : ℕ
  pub rbx : ℕ
  pub rax : ℕ
  pub rip : ℕ
  pub rflags : ℕ
  pub rsp : ℕ

-- `sigcontext_t`
pub record SigContext : Type 0 where
  pub regs : Regs
  pub blocked : ℕ

-- What the signal code asks of the copies to and from user memory: `copy_to_user` of a context and of a
-- 64-bit word and `copy_from_user` of a context, `none` where they fail; and that a context is read back as it
-- was written, also after a word was written just below it.
pub record UserMemory (M : Type 0) : Type 0 where
  pub put_context : ℕ → SigContext → M → Option M
  pub put_word : ℕ → ℕ → M → Option M
  pub get_context : ℕ → M → Option SigContext
  pub get_put :
      (a : ℕ) (c : SigContext) (m m' : M) → put_context a c m ≡ some m' → get_context a m' ≡ some c
  pub get_put_below :
      (a v : ℕ) (m m' : M)
      → put_word a v m ≡ some m'
      → get_context (a + 8) m' ≡ get_context (a + 8) m

-- What comes of the way back to user mode: the thread is ended with a code, or goes on.
pub data Outcome (M : Type 0) : Type 0 where
  exits : ℕ → Outcome M
  returns : Regs → Thread → M → Outcome M

-- The size of the context: 19 words.
abbrev pub context_size : ℕ
context_size = 152

-- `(rsp - 128 - sizeof(sc)) & ~0xF`, on 64 bits
unfoldable pub context_address : ℕ → ℕ
context_address rsp = let a = (rsp + (2 ^ 64 - 128 - context_size)) % 2 ^ 64 in a - a % 16

abbrev pub return_slot : ℕ → ℕ
return_slot a = (a + (2 ^ 64 - 8)) % 2 ^ 64

abbrev pub segv : ℕ
segv = 128 + sigsegv

-- `signal_restore_ok`
unfoldable pub signal_restore_ok : ℕ → ℕ → Bool
signal_restore_ok rip rsp =
    if ltb rip 0x1000 || leb 0x800000000000 rip
    then false
    else if rsp == 0 || leb 0x800000000000 rsp
    then false
    else true

-- `(rflags & 0xCD5) | 0x202`
unfoldable pub sanitise : ℕ → ℕ
sanitise rflags = bit_or (bit_and rflags 0xcd5) 0x202

module _ {M : Type 0} (mem : UserMemory M) where
  abbrev pub enter_handler : ℕ → ℕ → ℕ → Thread → Regs → Option M → Outcome M
  enter_handler sig handler slot t tf none = exits segv
  enter_handler sig handler slot t tf (some m) =
      returns (record tf { rsp = slot; rip = handler; rdi = sig; rax = 0 })
        (record t { sig_blocked = bit_or t.sig_blocked (sigmask sig) }) m

  abbrev pub then_word : ℕ → ℕ → Option M → Option M
  then_word slot v none = none
  then_word slot v (some m) = mem.put_word slot v m

  unfoldable pub deliver_to_handler : Thread → Regs → ℕ → ℕ → M → Outcome M
  deliver_to_handler t tf sig handler m =
      let address = context_address tf.rsp in
      let slot = return_slot address in
      let context : SigContext = record { regs = tf; blocked = t.sig_blocked } in
      if t.sig_restorer == 0
      then exits segv
      else enter_handler sig handler slot t tf
          (then_word slot t.sig_restorer (mem.put_context address context m))

  -- The loop of `signal_deliver` over `sig`, on the rounds left.
  unfoldable pub deliver_scan : ℕ → ℕ → ℕ → Thread → Regs → M → Outcome M
  deliver_scan zero sig d t tf m = returns tf t m
  deliver_scan (suc n) sig d t tf m =
      let skipped = deliver_scan n (sig + 1) d t tf m in
      let dropped = deliver_scan n (sig + 1) d (accept sig t) tf m in
      if not (test_mask d sig)
      then skipped
      else if not (handler_of t sig == 0)
      then deliver_to_handler (accept sig t) tf sig (handler_of t sig) m
      else if is_terminate sig
      then exits (128 + sig)
      else dropped

  unfoldable pub signal_deliver : Thread → Regs → M → Outcome M
  signal_deliver t tf m =
      if not t.is_user
      then returns tf t m
      else deliver_scan (nsig - 1) 1 (deliverable_set t) (uninterrupted t) tf m

  -- `tf` and the mask as the context says; the caller of `signal_sigreturn` puts its result in `rax`.
  abbrev pub restore : Thread → M → Option SigContext → Outcome M
  restore t m none = exits segv
  restore t m (some sc) =
      if not (signal_restore_ok sc.regs.rip sc.regs.rsp)
      then exits segv
      else returns (record sc.regs { rflags = sanitise sc.regs.rflags })
          (record t { sig_blocked = blockable sc.blocked }) m

  unfoldable pub signal_sigreturn : Thread → Regs → M → Outcome M
  signal_sigreturn t tf m = restore t m (mem.get_context tf.rsp m)
