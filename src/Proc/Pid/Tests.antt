-- ===== src/Proc/Pid/Tests.antt =====
-- Runs of kernel/proc/pid/pid.c, and the theorems at concrete inputs.
use makh.Prelude.{ℕ, ◌≤◌, ◌<◌, ◌≡◌, ◌≢◌, ◌⊎◌, refl, true, not, ◌&&◌, [], ◌∷◌, ltb, leb, ◌==◌, arith}
use makh.Prelude.Mask.{test_mask}
use makh.Proc.Pid.{
  Pids, in_use, mark, unmark, turn, pid_init, pid_reserve, pid_scan, pid_alloc, pid_free,
}
use makh.Proc.Pid.Bitmap.{IsWf, in_use-pid_init}
use makh.Proc.Pid.Alloc.{Found, pid_alloc_outcome}
use makh.Proc.Pid.Free.{in_use-pid_free, no_immediate_reuse}
use makh.Proc.Pid.Live.{Run, remove, Owned, Run-Owned}

abbrev at_boot : Pids
at_boot = record { bitmap = []; cursor = 2 }

pid_alloc_runs : (pid_scan 3 (pid_init at_boot)).0 ≡ 2
unfolding pid_scan pid_init pid_reserve mark in_use turn test_mask
pid_alloc_runs = refl

pid_rotates : (pid_scan 3 (pid_free 2 (pid_scan 3 (pid_init at_boot)).1)).0 ≡ 3
unfolding pid_scan pid_init pid_reserve pid_free mark unmark in_use turn test_mask
pid_rotates = refl

in_use-pid_init_here : IsWf (pid_init at_boot) × ((q : ℕ) → in_use (pid_init at_boot) q ≡ ltb q 2)
in_use-pid_init_here = in_use-pid_init at_boot refl

boot-IsWf : IsWf (pid_init at_boot)
boot-IsWf = (in_use-pid_init at_boot refl).0

pid_alloc_outcome_example :
    Found 32766 (pid_init at_boot) (pid_alloc (pid_init at_boot))
    ⊎ ((pid_alloc (pid_init at_boot) ≡ (0, pid_init at_boot))
        × ((q : ℕ) → 2 ≤ q → q < 32768 → in_use (pid_init at_boot) q ≡ true))
pid_alloc_outcome_example = pid_alloc_outcome (pid_init at_boot) boot-IsWf

in_use-pid_free_here :
    in_use (pid_free 5 (pid_init at_boot)) 1
    ≡ (in_use (pid_init at_boot) 1 && not ((5 == 1) && (leb 2 5 && ltb 5 32768)))
in_use-pid_free_here = in_use-pid_free 5 1 boot-IsWf

first_is_2 : (pid_alloc (pid_init at_boot)).0 ≡ 2
unfolding pid_alloc pid_scan pid_init pid_reserve mark in_use turn test_mask
first_is_2 = refl

no_immediate_reuse_here :
    (pid_alloc (pid_free (pid_alloc (pid_init at_boot)).0 (pid_alloc (pid_init at_boot)).1)).0
    ≢ (pid_alloc (pid_init at_boot)).0
no_immediate_reuse_here =
    no_immediate_reuse 5 boot-IsWf (omega arith) (omega arith) ((in_use-pid_init at_boot refl).1 5)
      (λ e. absurd (omega (arith, first_is_2)))

first_got : (pid_alloc (pid_init at_boot)).0 ≢ 0
first_got e = absurd (omega (arith, e, first_is_2))

-- The number that is handed out stays owned while another one is freed.
Run-Owned_example :
    Owned
      (pid_free 9 (pid_reserve 3 (pid_alloc (pid_init at_boot)).1))
      (remove 9 ((pid_alloc (pid_init at_boot)).0 ∷ []))
Run-Owned_example =
    Run-Owned (Run.free 9 (Run.reserve 3 (Run.alloc (Run.start boot-IsWf) first_got)))
