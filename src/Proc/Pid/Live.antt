-- ===== src/Proc/Pid/Live.antt =====
-- kernel/proc/pid/pid.c: process numbers over many calls.
use makh.Prelude.{
  ℕ, ◌≤◌, ◌<◌, ◌≡◌, ◌≢◌, inl, inr, sym, ◌∙◌, ap, true, ◌==◌, if◌then◌else◌, arith, Bool-cases,
  subst, List, [], ◌∷◌, All,
}
use makh.Proc.Pid.{Pids, in_use, pid_alloc, pid_free, pid_reserve}
use makh.Proc.Pid.Bitmap.{IsWf}
use makh.Proc.Pid.Alloc.{visited, pid_alloc_outcome}
use makh.Proc.Pid.Free.{
  in_use-pid_free, pid_free-IsWf, pid_reserve-IsWf, in_use-pid_reserve, visited-bounds, taken-IsWf,
  in_use-taken,
}

abbrev pub Distinct : List ℕ → Type 0
Distinct [] = Unit
Distinct (x ∷ xs) = All (λ y. x ≢ y) xs × Distinct xs

pub remove : ℕ → List ℕ → List ℕ
remove p [] = []
remove p (x ∷ xs) = let rest = remove p xs in if p == x then rest else x ∷ rest

-- The calls of the allocator's users, with the numbers that were handed out and not freed yet.
pub data Run : Pids → List ℕ → Type 0 where
  start : {s : Pids} → IsWf s → Run s []
  alloc :
      {s : Pids} {l : List ℕ}
      → Run s l
      → (pid_alloc s).0 ≢ 0
      → Run (pid_alloc s).1 ((pid_alloc s).0 ∷ l)
  no_pid : {s : Pids} {l : List ℕ} → Run s l → (pid_alloc s).0 ≡ 0 → Run (pid_alloc s).1 l
  free : {s : Pids} {l : List ℕ} (p : ℕ) → Run s l → Run (pid_free p s) (remove p l)
  reserve : {s : Pids} {l : List ℕ} (p : ℕ) → Run s l → Run (pid_reserve p s) l

abbrev pub Held : Pids → ℕ → Type 0
Held s p = (in_use s p ≡ true) × (2 ≤ p) × (p < 32768)

All-change : {P Q : ℕ → Type 0} (l : List ℕ) → ((p : ℕ) → P p → Q p) → All P l → All Q l
All-change [] f a = tt
All-change (x ∷ xs) f (h, a) = (f x h, All-change xs f a)

-- No item of the list with `p` taken out is `p`, and no other property is lost.
All-remove : (P : ℕ → Type 0) (p : ℕ) (l : List ℕ) → All P l → All (λ q. P q × (p ≢ q)) (remove p l)
unfolding remove
All-remove P p [] a = tt
All-remove P p (x ∷ xs) (h, a) = elim (Bool-cases (p == x)) [
  | inl same ↦ rw same (All-remove P p xs a)
  | inr other ↦ rw other ((h, ground arith), All-remove P p xs a)
]

Distinct-remove : (p : ℕ) (l : List ℕ) → Distinct l → Distinct (remove p l)
unfolding remove
Distinct-remove p [] d = tt
Distinct-remove p (x ∷ xs) (h, d) = elim (Bool-cases (p == x)) [
  | inl same ↦ rw same (Distinct-remove p xs d)
  | inr other ↦
      rw other (All-change _ (λ q h. h.0) (All-remove (λ y. x ≢ y) p xs h), Distinct-remove p xs d)
]

pub record Owned (s : Pids) (l : List ℕ) : Type 0 where
  pub wf : IsWf s
  pub distinct : Distinct l
  pub held : All (Held s) l

alloc-Owned :
    {s : Pids} (l : List ℕ)
    → Owned s l
    → (pid_alloc s).0 ≢ 0
    → Owned (pid_alloc s).1 ((pid_alloc s).0 ∷ l)
alloc-Owned {s} l o got = elim (pid_alloc_outcome s o.wf) [
  | inr (run, busy) ↦ absurd (got (ap (λ r. r.0) run))
  | inl f ↦
      let p = visited s.cursor f.k in
      let (low, high) = visited-bounds s.cursor f.k o.wf.low o.wf.high f.in_time in
      subst (λ (r : ℕ × Pids). Owned r.1 (r.0 ∷ l)) (sym f.run)
        (record {
          wf = taken-IsWf p o.wf low high;
          distinct = (
            All-change l (λ q h e. ground (arith, f.free, h.0, ap (in_use s) e)) o.held,
            o.distinct,
          );
          held = (
            (ground (arith, in_use-taken p p o.wf high), low, high),
            All-change l (λ q h. (ground (arith, in_use-taken p q o.wf high, h.0), h.1, h.2))
                o.held,
          );
        })
]

no_pid-Owned : {s : Pids} (l : List ℕ) → Owned s l → (pid_alloc s).0 ≡ 0 → Owned (pid_alloc s).1 l
no_pid-Owned {s} l o failed = elim (pid_alloc_outcome s o.wf) [
  | inr (run, busy) ↦ subst (λ (r : ℕ × Pids). Owned r.1 l) (sym run) o
  | inl f ↦
      let (low, high) = visited-bounds s.cursor f.k o.wf.low o.wf.high f.in_time in
      let p : visited s.cursor f.k ≡ 0 = sym (ap (λ r. r.0) f.run) ∙ failed in absurd (omega arith)
]

-- From any well-formed start, whatever sequence of calls follows: the numbers in use by their owners are
-- pairwise distinct, each is marked and lies between 2 and 32767, and the allocator stays well formed.
pub Run-Owned : {s : Pids} {l : List ℕ} → Run s l → Owned s l
Run-Owned (start v) = record { wf = v; distinct = tt; held = tt }
Run-Owned (alloc r got) = alloc-Owned _ (Run-Owned r) got
Run-Owned (no_pid r failed) = no_pid-Owned _ (Run-Owned r) failed
Run-Owned {l = l'} (free {s} {l} p r) =
    let o = Run-Owned r in
    record {
      wf = pid_free-IsWf p o.wf;
      distinct = Distinct-remove p l o.distinct;
      held =
          All-change _ (λ q (h, n). (ground (arith, in_use-pid_free p q o.wf, h.0), h.1, h.2))
            (All-remove (Held s) p l o.held);
    }
Run-Owned (reserve {s} {l} p r) =
    let o = Run-Owned r in
    record {
      wf = pid_reserve-IsWf p o.wf;
      distinct = o.distinct;
      held = All-change l (λ q h. (in_use-pid_reserve p q o.wf h.0, h.1, h.2)) o.held;
    }
