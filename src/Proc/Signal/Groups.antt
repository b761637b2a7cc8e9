-- ===== src/Proc/Signal/Groups.antt =====
-- kernel/signal/signal.c: signals to one process and to a group.
use makh.Prelude.{
  ℕ, ◌+◌, ◌<◌, ◌≡◌, refl, ap, inl, inr, true, false, ◌||◌, Option, none, some, List, [], ◌∷◌, map,
  ltb, leb, ◌==◌, if◌then◌else◌, arith, Bool-cases, All,
}
use makh.Prelude.Int.{ℤ, pos, negsuc}
use makh.Proc.Signal.{
  Thread, handler_of, nsig, einval, esrch, in_group, is_terminate, generate, signal_send,
  signal_send_pgrp, effectively_ignored,
}

-- The first thread with the number gets the signal; signal 0 only looks for it.
unfoldable pub kill_one : ℕ → ℕ → List Thread → ℤ × List Thread
kill_one pid sig [] = (esrch, [])
kill_one pid sig (p ∷ ps) =
    let (rc, rest) = kill_one pid sig ps in
    if p.pid == pid
    then (if sig == 0
        then (pos 0, p ∷ ps)
        else (let (sent, (p', pushed)) = signal_send (pos sig) p in (sent, p' ∷ ps)))
    else (rc, p ∷ rest)

abbrev pub kill_group : ℕ → ℕ → List Thread → ℤ × List Thread
kill_group pgid sig ps =
    let (n, (rest, woken)) = signal_send_pgrp pgid sig ps in
    (if ltb 0 n then pos 0 else esrch, rest)

abbrev pub own_group : Option Thread → ℕ
own_group none = 0
own_group (some t) = t.pgid

abbrev pub kill_target : Option Thread → ℤ → ℕ → List Thread → ℤ × List Thread
kill_target cur (pos pid) sig ps =
    if pid == 0 then kill_group (own_group cur) sig ps else kill_one pid sig ps
kill_target cur (negsuc n) sig ps = kill_group (n + 1) sig ps

unfoldable pub signal_kill : Option Thread → ℤ → ℤ → List Thread → ℤ × List Thread
signal_kill cur pid (negsuc n) ps = (einval, ps)
signal_kill cur pid (pos sig) ps = if leb nsig sig then (einval, ps) else kill_target cur pid sig ps

-- `signal_send_pgrp` of a signal from 1 to 31 does to each living member of the group what `signal_send` does, and nothing to the
-- other threads.
pub pgrp_as_sends :
    (pgid sig : ℕ) (ps : List Thread)
    → 0 < sig
    → sig < 32
    → (signal_send_pgrp pgid sig ps).1.0
      ≡ map (λ p. if in_group pgid p then (signal_send (pos sig) p).1.0 else p) ps
unfolding signal_send_pgrp signal_send
pgrp_as_sends pgid sig [] low high = refl
pgrp_as_sends pgid sig (p ∷ ps) low high =
    let rest = pgrp_as_sends pgid sig ps low high in
    let fits : (sig == 0 || leb 32 sig) ≡ false = ground arith in
    elim (Bool-cases (in_group pgid p)) [
      | inr stranger ↦ rw stranger (ap (λ l. p ∷ l) rest)
      | inl member ↦ elim (Bool-cases (effectively_ignored p sig)) [
        | inl ignored ↦ rw (member, ignored, fits) (ap (λ l. p ∷ l) rest)
        | inr heard ↦ rw (member, heard, fits) (ap (λ l. (generate sig p).0 ∷ l) rest)
      ]
    ]

zero_ignored : (p : Thread) → handler_of p 0 ≡ 0 → effectively_ignored p 0 ≡ true
unfolding effectively_ignored is_terminate
zero_ignored p h = ground arith

nobody_counted :
    (pgid : ℕ) (ps : List Thread)
    → All (λ p. handler_of p 0 ≡ 0) ps
    → signal_send_pgrp pgid 0 ps ≡ (0, (ps, []))
unfolding signal_send_pgrp
nobody_counted pgid [] h = refl
nobody_counted pgid (p ∷ ps) (h, hs) = elim (Bool-cases (in_group pgid p)) [
  | inr stranger ↦ rw (stranger, nobody_counted pgid ps hs) refl
  | inl member ↦ rw (member, zero_ignored p h, nobody_counted pgid ps hs) refl
]

-- The existence check on a group, of the caller by `kill(0, 0)` or of any by `kill(-pgid, 0)`, answers `-ESRCH`
-- and changes nothing, whoever is in the group, where no thread has a handler for 0: signal 0 counts as ignored, and ignored signals are not counted.
pub group_probe_fails :
    (cur : Option Thread) (n : ℕ) (ps : List Thread)
    → All (λ p. handler_of p 0 ≡ 0) ps
    → (signal_kill cur (negsuc n) (pos 0) ps ≡ (esrch, ps))
      × (signal_kill cur (pos 0) (pos 0) ps ≡ (esrch, ps))
unfolding signal_kill
group_probe_fails cur n ps h =
    (rw (nobody_counted (n + 1) ps h) refl, rw (nobody_counted (own_group cur) ps h) refl)
