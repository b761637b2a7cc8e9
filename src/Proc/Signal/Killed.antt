-- ===== src/Proc/Signal/Killed.antt =====
-- kernel/signal/signal.c: what `signal_deliver`, on the way back from a system call, makes of a pending SIGKILL.
use makh.Prelude.{
  ℕ, zero, suc, ◌+◌, ◌≤◌, ◌<◌, ◌≡◌, ◌≢◌, refl, sym, ◌∙◌, ap, subst, inl, inr, Bool, true, false,
  not, ◌&&◌, bit_or, Option, none, some, get_or, ◌==◌, if◌then◌else◌, arith, Bool-cases, ℕ_discrete,
}
use makh.Prelude.Mask.{
  test_mask, complement, test_mask-or, test_mask-and, test_mask-pow, test_mask-complement,
  pow-lt-pow,
}
use makh.Proc.Signal.{
  Thread, sigmask, handler_of, is_terminate, deliverable_set, accept, uninterrupted,
}
use makh.Proc.Signal.Frame.{
  Regs, UserMemory, Outcome, exits, returns, enter_handler, deliver_to_handler, deliver_scan,
  signal_deliver,
}
use makh.Proc.Signal.Guard.{Untouched}

-- A user thread that SIGKILL waits for, which is neither blocked, caught nor ignored.
pub record Doomed (t : Thread) : Type 0 where
  pub pending : test_mask t.sig_pending 9 ≡ true
  pub untouched : Untouched 9 t
  pub user : t.is_user ≡ true

-- No signal waits for `u` that did not wait for `t`.
abbrev pub NoNewer : Thread → Thread → Type 0
NoNewer t u = (q : ℕ) → test_mask u.sig_pending q ≡ true → test_mask t.sig_pending q ≡ true

-- The thread is ended by a fatal signal, or it enters its handler of a signal below 9 that waited for it and does
-- not any more, with SIGKILL still waiting and no newer signal.
abbrev pub Meets : {M : Type 0} → Thread → Outcome M → Type 0
Meets t (exits c) = (s : ℕ) × (c ≡ 128 + s) × (is_terminate s ≡ true)
Meets t (returns tf u m) =
    (s : ℕ) × (s < 9)
    × (handler_of t s ≢ 0)
    × (tf.rip ≡ handler_of t s)
    × (test_mask t.sig_pending s ≡ true)
    × (test_mask u.sig_pending s ≡ false)
    × NoNewer t u
    × Doomed u

-- A thread on the way through the loop.
record OnTheWay (t u : Thread) : Type 0 where
  handlers : u.sig_handlers ≡ t.sig_handlers
  newer : NoNewer t u
  doomed : Doomed u

accept-off :
    (s q : ℕ) (t : Thread)
    → s < 64
    → q < 64
    → test_mask (accept s t).sig_pending q ≡ (test_mask t.sig_pending q && not (s == q))
accept-off s q t low small = ground (
  arith,
  test_mask-and t.sig_pending (complement 64 (sigmask s)) q,
  test_mask-complement 64 (sigmask s) q (pow-lt-pow 64 s low) small,
  test_mask-pow s q,
)

accept-OnTheWay : (s : ℕ) (t u : Thread) → s < 9 → OnTheWay t u → OnTheWay t (accept s u)
accept-OnTheWay s t u low v = record {
  handlers = v.handlers;
  newer = λ q h.
      v.newer q (ground (arith, h, test_mask-and u.sig_pending (complement 64 (sigmask s)) q));
  doomed = record {
    pending = ground (arith, accept-off s 9 u (omega arith) (omega arith), v.doomed.pending);
    untouched = record {
      unblocked = v.doomed.untouched.unblocked;
      uncaught = v.doomed.untouched.uncaught;
      heeded = v.doomed.untouched.heeded;
    };
    user = v.doomed.user;
  };
}

module _ {M : Type 0} (mem : UserMemory M) where
  enter-Meets :
      (s slot : ℕ) (t u : Thread) (tf : Regs) (o : Option M)
      → s < 9
      → handler_of t s ≢ 0
      → test_mask t.sig_pending s ≡ true
      → test_mask u.sig_pending s ≡ false
      → OnTheWay t u
      → Meets t (enter_handler mem s (handler_of t s) slot u tf o)
  unfolding is_terminate
  enter-Meets s slot t u tf none low caught waits gone v = (11, refl, refl)
  enter-Meets s slot t u tf (some m) low caught waits gone v = (
    s,
    low,
    caught,
    refl,
    waits,
    gone,
    v.newer,
    record {
      pending = v.doomed.pending;
      untouched = record {
        unblocked = ground (
          arith,
          test_mask-or u.sig_blocked (sigmask s) 9,
          test_mask-pow s 9,
          v.doomed.untouched.unblocked,
        );
        uncaught = v.doomed.untouched.uncaught;
        heeded = v.doomed.untouched.heeded;
      };
      user = v.doomed.user;
    },
  )

  to_handler-Meets :
      (s : ℕ) (t u : Thread) (tf : Regs) (m : M)
      → s < 9
      → handler_of u s ≢ 0
      → test_mask t.sig_pending s ≡ true
      → OnTheWay t u
      → Meets t (deliver_to_handler mem (accept s u) tf s (handler_of u s) m)
  unfolding deliver_to_handler is_terminate
  to_handler-Meets s t u tf m low caught waits v =
      let same : handler_of u s ≡ handler_of t s = ap (λ l. get_or l s 0) v.handlers in
      let gone : test_mask (accept s u).sig_pending s ≡ false =
        ground (arith, accept-off s s u (omega arith) (omega arith)) in
      elim (Bool-cases (u.sig_restorer == 0)) [
        | inl nowhere ↦ rw nowhere (11, refl, refl)
        | inr there ↦ rw there (
            rw same (
              enter-Meets s _ t (accept s u) tf _ low (λ e. caught (same ∙ e)) waits gone
                (accept-OnTheWay s t u low v)))
      ]

  deliver_scan-Meets :
      (n sig d : ℕ) (t u : Thread) (tf : Regs) (m : M)
      → sig ≤ 9
      → 9 < sig + n
      → test_mask d 9 ≡ true
      → ((q : ℕ) → test_mask d q ≡ true → test_mask t.sig_pending q ≡ true)
      → OnTheWay t u
      → Meets t (deliver_scan mem n sig d u tf m)
  unfolding deliver_scan is_terminate
  deliver_scan-Meets zero sig d t u tf m low high here waits v = absurd (omega arith)
  deliver_scan-Meets (suc n) sig d t u tf m low high here waits v =
      elim (Bool-cases (test_mask d sig)) [
        | inr absent ↦
            let later : sig ≢ 9 = λ e. ground (arith, absent, here, ap (test_mask d) e) in
            rw absent
              (deliver_scan-Meets n (sig + 1) d t u tf m (omega arith) (omega arith) here waits v)
        | inl there ↦ elim (Bool-cases (handler_of u sig == 0)) [
          | inr caught ↦
              let later : sig ≢ 9 =
                λ e. ground (arith, caught, v.doomed.untouched.uncaught, ap (handler_of u) e) in
              rw (there, caught)
                (to_handler-Meets sig t u tf m (omega arith) (ground (arith, caught))
                  (waits sig there) v)
          | inl default ↦ elim (Bool-cases (is_terminate sig)) [
            | inl ends ↦ rw (there, default, ends) (sig, refl, ends)
            | inr benign ↦
                let later : sig ≢ 9 = λ e. ground (arith, benign, ap is_terminate e) in
                rw (there, default, benign)
                  (deliver_scan-Meets n (sig + 1) d t (accept sig u) tf m (omega arith)
                    (omega arith) here waits (accept-OnTheWay sig t u (omega arith) v))
          ]
        ]
      ]

  -- The way back from a system call, of a thread that SIGKILL waits for.
  pub signal_deliver-Meets :
      (t : Thread) (tf : Regs) (m : M) → Doomed t → Meets t (signal_deliver mem t tf m)
  unfolding signal_deliver
  signal_deliver-Meets t tf m v =
      let goes = deliver_scan mem 31 1 (deliverable_set t) (uninterrupted t) tf m in
      let run : signal_deliver mem t tf m ≡ goes = on_user t.is_user v.user (returns tf t m) goes in
      subst (Meets t) (sym run) (
        deliver_scan-Meets 31 1 (deliverable_set t) t (uninterrupted t) tf m (omega arith)
          (omega arith)
          (ground (
            arith,
            v.pending,
            test_mask-and t.sig_pending mask 9,
            test_mask-or (bit_or (complement 64 t.sig_blocked) (sigmask 9)) (sigmask 19) 9,
            test_mask-or (complement 64 t.sig_blocked) (sigmask 9) 9,
            test_mask-pow 9 9,
          ))
          (λ q h. ground (arith, h, test_mask-and t.sig_pending mask q))
          (record {
            handlers = refl;
            newer = λ q h. h;
            doomed = record {
              pending = v.pending;
              untouched = record {
                unblocked = v.untouched.unblocked;
                uncaught = v.untouched.uncaught;
                heeded = v.untouched.heeded;
              };
              user = v.user;
            };
          }))
    where
      on_user : (b : Bool) → b ≡ true → (x y : Outcome M) → (if not b then x else y) ≡ y
      on_user b e x y = rw e refl

      mask : ℕ
      mask = bit_or (bit_or (complement 64 t.sig_blocked) (sigmask 9)) (sigmask 19)

-- The signals below `n` that wait.
abbrev waiting_below : ℕ → ℕ → ℕ
waiting_below zero x = 0
waiting_below (suc n) x = (if test_mask x n then 1 else 0) + waiting_below n x

waiting_below-le : (n x : ℕ) → waiting_below n x ≤ n
waiting_below-le zero x = omega arith
waiting_below-le (suc n) x = ground (arith, waiting_below-le n x)

fewer_wait :
    (n x y : ℕ)
    → ((q : ℕ) → test_mask y q ≡ true → test_mask x q ≡ true)
    → waiting_below n y ≤ waiting_below n x
fewer_wait zero x y newer = omega arith
fewer_wait (suc n) x y newer = ground (arith, fewer_wait n x y newer, newer n)

one_fewer_waits :
    (n s x y : ℕ)
    → ((q : ℕ) → test_mask y q ≡ true → test_mask x q ≡ true)
    → s < n
    → test_mask x s ≡ true
    → test_mask y s ≡ false
    → waiting_below n y < waiting_below n x
one_fewer_waits zero s x y newer low there gone = absurd (omega arith)
one_fewer_waits (suc n) s x y newer low there gone = elim (ℕ_discrete s n) [
  | yes e ↦
      ground (arith, fewer_wait n x y newer, ap (test_mask x) e, ap (test_mask y) e, there, gone)
  | no other ↦ ground (arith, one_fewer_waits n s x y newer (omega arith) there gone, newer n)
]

-- `n` ways back to user mode that went on, each behind what the thread does before its next system call ends, with no
-- signal that was sent in between.
pub data Survives {M : Type 0} (mem : UserMemory M) (t : Thread) : ℕ → Thread → Type 0 where
  here : Survives mem t 0 t
  back :
      {n : ℕ} {u w : Thread} (v : Thread) (m m' : M) (tf tf' : Regs)
      → Survives mem t n u
      → NoNewer u v
      → Doomed v
      → signal_deliver mem v tf m ≡ returns tf' w m'
      → Survives mem t (suc n) w

survives :
    {M : Type 0} {mem : UserMemory M} {t u : Thread} {n : ℕ}
    → Survives mem t n u
    → Doomed t
    → Doomed u × (n + waiting_below 9 u.sig_pending ≤ waiting_below 9 t.sig_pending)
survives here v = (v, omega arith)
survives {mem = mem} {t = t} (back {n = n} {u = u} {w = w} v m m' tf tf' before newer doomed run)
      d =
    let (s, low, caught, at, waits, gone, none_newer, still) =
      subst (Meets v) run (signal_deliver-Meets mem v tf m doomed) in
    (
      still,
      omega (
        arith,
        (survives before d).1,
        fewer_wait 9 u.sig_pending v.sig_pending newer,
        one_fewer_waits 9 s v.sig_pending w.sig_pending none_newer low waits gone,
      ),
    )

-- A user thread that SIGKILL waits for, and that is sent no other signal meanwhile, goes on from at most 9 of its
-- system calls, whatever they do, where none of them makes SIGKILL blocked, caught or ignored: the next is its end.
pub Survives-le :
    {M : Type 0} {mem : UserMemory M} {t u : Thread} {n : ℕ} → Survives mem t n u → Doomed t → n ≤ 9
Survives-le {t = t} r d = omega (arith, (survives r d).1, waiting_below-le 9 t.sig_pending)
