-- ===== src/Proc/Pid/Free.antt =====
-- kernel/proc/pid/pid.c: what `pid_free` does, and when a freed number comes back.
use makh.Prelude.{
  ℕ, ◌+◌, ◌-◌, ◌≤◌, ◌<◌, ◌≡◌, ◌≢◌, inl, inr, refl, sym, ◌∙◌, ap, true, false, not, ◌&&◌, ◌||◌, ltb,
  leb, ◌==◌, if◌then◌else◌, arith, Bool-cases, dec_lt,
}
use makh.Proc.Pid.{Pids, in_use, mark, unmark, turn, pid_alloc, pid_free, pid_reserve}
use makh.Proc.Pid.Bitmap.{IsWf, in_use-mark, in_use-unmark, in_use-cursor, mark-IsWf, unmark-IsWf}
use makh.Proc.Pid.Alloc.{visited, taken, pid_alloc_outcome}

-- `pid_free` releases exactly that number, and neither 0 nor 1 nor one out of range.
pub in_use-pid_free :
    {s : Pids} (p q : ℕ)
    → IsWf s
    → in_use (pid_free p s) q ≡ (in_use s q && not ((p == q) && (leb 2 p && ltb p 32768)))
unfolding pid_free
in_use-pid_free {s} p q v = elim (Bool-cases (leb 32768 p || (p == 0 || p == 1))) [
  | inl kept ↦ ground arith
  | inr released ↦ ground (arith, in_use-unmark p q v (ground arith))
]

pub pid_free-IsWf : {s : Pids} (p : ℕ) → IsWf s → IsWf (pid_free p s)
unfolding pid_free
pid_free-IsWf {s} p v = elim (Bool-cases (leb 32768 p || (p == 0 || p == 1))) [
  | inl kept ↦ rw kept v
  | inr released ↦ rw released (unmark-IsWf p v)
]

pub pid_reserve-IsWf : {s : Pids} (p : ℕ) → IsWf s → IsWf (pid_reserve p s)
unfolding pid_reserve
pid_reserve-IsWf {s} p v = elim (Bool-cases (leb 32768 p)) [
  | inl out ↦ rw out v
  | inr within ↦ rw within (mark-IsWf p v)
]

pub in_use-pid_reserve :
    {s : Pids} (p q : ℕ) → IsWf s → in_use s q ≡ true → in_use (pid_reserve p s) q ≡ true
unfolding pid_reserve
in_use-pid_reserve {s} p q v used = elim (dec_lt p 32768) [
  | no out ↦ ground arith
  | yes within ↦ ground (arith, in_use-mark p q v within)
]

pub visited-bounds :
    (c k : ℕ) → 2 ≤ c → c < 32768 → k < 32766 → (2 ≤ visited c k) × (visited c k < 32768)
visited-bounds c k low high h = (ground arith, ground arith)

pub taken-IsWf : {s : Pids} (p : ℕ) → IsWf s → 2 ≤ p → p < 32768 → IsWf (taken p s)
unfolding turn
taken-IsWf {s} p v low high =
    let m = mark-IsWf p v in
    record { size = m.size; words = m.words; low = ground arith; high = ground arith }

pub in_use-taken :
    {s : Pids} (p q : ℕ) → IsWf s → p < 32768 → in_use (taken p s) q ≡ (in_use s q || (p == q))
in_use-taken {s} p q v h = in_use-cursor (mark p s) (turn p) q ∙ in_use-mark p q v h

-- The round in which a loop that starts behind `p` tries `q`.
round_after : ℕ → ℕ → ℕ
round_after p q = if ltb p q then q - p - 1 else q + 32766 - p - 1

visited-round_after :
    (p q : ℕ)
    → 2 ≤ p
    → p < 32768
    → 2 ≤ q
    → q < 32768
    → p ≢ q
    → (round_after p q < 32765) × (visited (turn p) (round_after p q) ≡ q)
unfolding round_after turn
visited-round_after p q low high low' high' differ = (ground arith, ground arith)

last_round : (p k : ℕ) → 2 ≤ p → p < 32768 → k < 32766 → visited (turn p) k ≡ p → k ≡ 32765
unfolding turn
last_round p k low high h e = ground arith

module _ {s : Pids} (v : IsWf s) (p : ℕ) (low : 2 ≤ p) (high : p < 32768)
    (free : in_use s p ≡ false) where
  abbrev returned : Pids
  returned = pid_free p (taken p s)

  returned-IsWf : IsWf returned
  returned-IsWf = pid_free-IsWf p (taken-IsWf p v low high)

  in_use-returned : (q : ℕ) → in_use returned q ≡ in_use s q
  in_use-returned q =
      ground (arith, in_use-pid_free p q (taken-IsWf p v low high), in_use-taken p q v high, free)

  behind : returned.cursor ≡ turn p
  unfolding pid_free unmark
  behind = elim (Bool-cases (leb 32768 p || (p == 0 || p == 1))) [
    | inl kept ↦ rw kept refl
    | inr released ↦ rw released refl
  ]

  only_left : (pid_alloc returned).0 ≡ p → (q : ℕ) → 2 ≤ q → q < 32768 → p ≢ q → in_use s q ≡ true
  only_left again q q_low q_high differ = elim (pid_alloc_outcome returned returned-IsWf) [
    | inr (run, busy) ↦ sym (in_use-returned q) ∙ busy q q_low q_high
    | inl f ↦
        let (below, tried) = visited-round_after p q low high q_low q_high differ in
        let here : visited (turn p) f.k ≡ p =
          ap (λ c. visited c f.k) (sym behind) ∙ sym (ap (λ r. r.0) f.run) ∙ again in
        let last : f.k ≡ 32765 = last_round p f.k low high f.in_time here in
        sym (in_use-returned q)
        ∙ ap (in_use returned) (sym tried ∙ ap (λ c. visited c (round_after p q)) (sym behind))
        ∙ f.busy (round_after p q) (omega arith)
  ]

-- A number that `pid_alloc` handed out and `pid_free` released is not handed out by the next call
-- while another number from 2 to 32767 is free.
pub no_immediate_reuse :
    {s : Pids} (q : ℕ)
    → IsWf s
    → 2 ≤ q
    → q < 32768
    → in_use s q ≡ false
    → (pid_alloc s).0 ≢ q
    → (pid_alloc (pid_free (pid_alloc s).0 (pid_alloc s).1)).0 ≢ (pid_alloc s).0
no_immediate_reuse {s} q v low high unused differ again = elim (pid_alloc_outcome s v) [
  | inr (run, busy) ↦ ground (arith, busy q low high)
  | inl f ↦
      let p = visited s.cursor f.k in
      let (p_low, p_high) = visited-bounds s.cursor f.k v.low v.high f.in_time in
      let first : (pid_alloc s).0 ≡ p = ap (λ r. r.0) f.run in
      let same : pid_free (pid_alloc s).0 (pid_alloc s).1 ≡ pid_free p (taken p s) =
        ap (λ r. pid_free r.0 r.1) f.run in
      let used : in_use s q ≡ true =
        only_left v p p_low p_high f.free (ap (λ t. (pid_alloc t).0) (sym same) ∙ again ∙ first) q
          low high (λ e. differ (first ∙ e)) in
      ground arith
]
