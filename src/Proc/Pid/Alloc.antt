-- ===== src/Proc/Pid/Alloc.antt =====
-- kernel/proc/pid/pid.c: which number `pid_alloc` hands out.
use makh.Prelude.{
  ℕ, zero, suc, ◌+◌, ◌-◌, ◌≤◌, ◌<◌, ◌≡◌, ◌⊎◌, inl, inr, sym, ◌∙◌, ap, true, false, ltb, leb,
  if◌then◌else◌, arith, Bool-cases,
}
use makh.Proc.Pid.{Pids, in_use, mark, turn, pid_scan, pid_alloc}
use makh.Proc.Pid.Bitmap.{IsWf, turned-IsWf}

-- The number that the loop tries in round `k` when it starts at the cursor `c`.
abbrev pub visited : ℕ → ℕ → ℕ
visited c k = if ltb (c + k) 32768 then c + k else c + k - 32766

visited-turn : (c k : ℕ) → 2 ≤ c → c < 32768 → k < 32766 → visited (turn c) k ≡ visited c (k + 1)
unfolding turn
visited-turn c k low high h = ground arith

-- What the allocator is after `p` was handed out.
abbrev pub taken : ℕ → Pids → Pids
taken p s = record (mark p s) { cursor = turn p }

-- The loop hands out the number of round `k`, the first that is not in use.
pub record Found (n : ℕ) (s : Pids) (r : ℕ × Pids) : Type 0 where
  pub k : ℕ
  pub in_time : k < n
  pub run : r ≡ (visited s.cursor k, taken (visited s.cursor k) s)
  pub free : in_use s (visited s.cursor k) ≡ false
  pub busy : (j : ℕ) → j < k → in_use s (visited s.cursor j) ≡ true

record Exhausted (n : ℕ) (s : Pids) (r : ℕ × Pids) : Type 0 where
  pub run : r ≡ (0, record s { cursor = visited s.cursor n })
  pub busy : (j : ℕ) → j < n → in_use s (visited s.cursor j) ≡ true

scan_next :
    (n : ℕ) (s : Pids)
    → in_use s s.cursor ≡ true
    → pid_scan (suc n) s ≡ pid_scan n (record s { cursor = turn s.cursor })
unfolding pid_scan
scan_next n s used = rw used

module _ (n : ℕ) (s : Pids) (v : IsWf s) (short : n < 32766) (used : in_use s s.cursor ≡ true) where
  busy_next :
      (k : ℕ)
      → k ≤ n
      → ((j : ℕ) → j < k → in_use s (visited (turn s.cursor) j) ≡ true)
      → (j : ℕ) → j < suc k
      → in_use s (visited s.cursor j) ≡ true
  busy_next k h busy zero lt = ap (in_use s) (ground (arith, v.high)) ∙ used
  busy_next k h busy (suc j) lt =
      ap (in_use s) (
        ap (visited s.cursor) (omega arith)
        ∙ sym (visited-turn s.cursor j v.low v.high (omega arith)))
      ∙ busy j (omega arith)

  abbrev later : Pids
  later = record s { cursor = turn s.cursor }

  Found-next : Found n later (pid_scan n later) → Found (suc n) s (pid_scan (suc n) s)
  unfolding mark in_use
  Found-next f =
      let same = visited-turn s.cursor f.k v.low v.high (omega (arith, f.in_time)) in
      record {
        k = f.k + 1;
        in_time = omega (arith, f.in_time);
        run = scan_next n s used ∙ f.run ∙ ap (λ p. (p, taken p s)) same;
        free = ap (in_use s) (sym same) ∙ f.free;
        busy = λ j lt. busy_next f.k (omega (arith, f.in_time)) f.busy j (omega arith);
      }

  Exhausted-next : Exhausted n later (pid_scan n later) → Exhausted (suc n) s (pid_scan (suc n) s)
  unfolding in_use
  Exhausted-next x = record {
    run =
        scan_next n s used
        ∙ x.run
        ∙ ap (λ c. (0, record s { cursor = c }))
            (visited-turn s.cursor n v.low v.high short ∙ ap (visited s.cursor) (omega arith));
    busy = λ j lt. busy_next n (omega arith) x.busy j lt;
  }

scan_outcome :
    (n : ℕ) (s : Pids)
    → IsWf s
    → n ≤ 32766
    → Found n s (pid_scan n s) ⊎ Exhausted n s (pid_scan n s)
unfolding pid_scan mark
scan_outcome zero s v short = inr (record {
  run = ap (λ c. (0, record s { cursor = c })) (ground (arith, v.high));
  busy = λ j lt. absurd (omega arith);
})
scan_outcome (suc n) s v short = elim (Bool-cases (in_use s s.cursor)) [
  | inr free ↦ inl (found_now free)
  | inl used ↦
      elim (scan_outcome n (record s { cursor = turn s.cursor }) (turned-IsWf v) (omega arith)) [
        | inl f ↦ inl (Found-next n s v (omega arith) used f)
        | inr x ↦ inr (Exhausted-next n s v (omega arith) used x)
      ]
]
  where
    start : s.cursor ≡ visited s.cursor 0
    start = ground (arith, v.high)

    found_now : in_use s s.cursor ≡ false → Found (suc n) s (pid_scan (suc n) s)
    found_now free = record {
      k = 0;
      in_time = omega arith;
      run = rw free (ap (λ p. (p, taken p s)) start);
      free = ap (in_use s) (sym start) ∙ free;
      busy = λ j lt. absurd (omega arith);
    }

-- The round in which a number is tried.
round_of : ℕ → ℕ → ℕ
round_of c q = if leb c q then q - c else q + 32766 - c

visited-round :
    (c q : ℕ)
    → 2 ≤ c
    → c < 32768
    → 2 ≤ q
    → q < 32768
    → (round_of c q < 32766) × (visited c (round_of c q) ≡ q)
unfolding round_of
visited-round c q low high low' high' = (ground arith, ground arith)

-- `pid_alloc` hands out the first number, from the cursor on and around, that is not in use, marks it and
-- puts the cursor behind it; or every number from 2 on is in use, the result is 0 and nothing changes.
pub pid_alloc_outcome :
    (s : Pids)
    → IsWf s
    → Found 32766 s (pid_alloc s)
      ⊎ ((pid_alloc s ≡ (0, s)) × ((q : ℕ) → 2 ≤ q → q < 32768 → in_use s q ≡ true))
unfolding pid_alloc
pid_alloc_outcome s v = elim (scan_outcome 32766 s v (omega arith)) [
  | inl f ↦ inl f
  | inr x ↦ inr (
    x.run ∙ ap (λ c. (0, record s { cursor = c })) (ground (arith, v.low)),
    λ q low high.
        let (below, same) = visited-round s.cursor q v.low v.high low high in
        ap (in_use s) (sym same) ∙ x.busy (round_of s.cursor q) below,
  )
]
