-- ===== src/Proc/Signal/Take.antt =====
-- kernel/signal/signal.c: a fatal signal ends the thread.
use makh.Prelude.{ℕ, ◌≡◌, bit_or}
use makh.Proc.Signal.{Thread, sigmask}

-- What a generated signal changes in the thread besides its state.
record Generated (sig : ℕ) (t u : Thread) : Type 0 where
  pending : u.sig_pending ≡ bit_or t.sig_pending (sigmask sig)
  blocked : u.sig_blocked ≡ t.sig_blocked
  handlers : u.sig_handlers ≡ t.sig_handlers
  ignore : u.sig_ignore ≡ t.sig_ignore
  is_user : u.is_user ≡ t.is_user
