-- ===== src/Proc/Pid/Bitmap.antt =====
-- kernel/proc/pid/pid.c: what marking and unmarking a process number does to the tests of all.
use makh.Prelude.{
  ℕ, ◌/◌, ◌%◌, ◌^◌, ◌≤◌, ◌<◌, ◌≡◌, refl, ◌∙◌, ap, false, not, ◌&&◌, ◌||◌, bit_and, bit_or, length,
  get_or, replicate, ltb, ◌==◌, arith, All, All-set, All-get_or, All-replicate, get_or-set,
  length-set, length-replicate,
}
use makh.Prelude.Bits.{or-lt, and-lt}
use makh.Prelude.Mask.{
  test_mask, complement, pow-lt-pow, test_mask-or, test_mask-and, test_mask-pow,
  test_mask-complement, test_mask-zero, complement-lt,
}
use makh.Proc.Pid.{Pids, word_of, in_use, mark, unmark, pid_reserve, pid_init, turn}

-- The bitmap has a bit for each number, and the cursor is a number that can be handed out.
pub record IsWf (s : Pids) : Type 0 where
  pub size : length s.bitmap ≡ 1024
  pub words : All (λ w. w < 2 ^ 32) s.bitmap
  pub low : 2 ≤ s.cursor
  pub high : s.cursor < 32768

word-lt : (s : Pids) (pid : ℕ) → IsWf s → word_of s pid < 2 ^ 32
word-lt s pid v = All-get_or (λ w. w < 2 ^ 32) s.bitmap (pid / 32) 0 (omega arith) v.words

pub mark-IsWf : {s : Pids} (pid : ℕ) → IsWf s → IsWf (mark pid s)
unfolding mark
mark-IsWf {s} pid v = record {
  size = length-set s.bitmap (pid / 32) _ ∙ v.size;
  words =
      All-set (λ w. w < 2 ^ 32) s.bitmap (pid / 32) _
        (or-lt 32 (word_of s pid) (2 ^ (pid % 32)) (word-lt s pid v)
          (pow-lt-pow 32 (pid % 32) (omega arith)))
        v.words;
  low = v.low;
  high = v.high;
}

pub unmark-IsWf : {s : Pids} (pid : ℕ) → IsWf s → IsWf (unmark pid s)
unfolding unmark
unmark-IsWf {s} pid v = record {
  size = length-set s.bitmap (pid / 32) _ ∙ v.size;
  words =
      All-set (λ w. w < 2 ^ 32) s.bitmap (pid / 32) _
        (and-lt 32 (word_of s pid) (complement 32 (2 ^ (pid % 32))) (word-lt s pid v)
          (complement-lt 32 _))
        v.words;
  low = v.low;
  high = v.high;
}

pub in_use-mark :
    {s : Pids} (p q : ℕ) → IsWf s → p < 32768 → in_use (mark p s) q ≡ (in_use s q || (p == q))
unfolding in_use mark
in_use-mark {s} p q v h = ground (
  arith,
  get_or-set s.bitmap (p / 32) (q / 32) (bit_or (word_of s p) (2 ^ (p % 32))) 0,
  test_mask-or (word_of s p) (2 ^ (p % 32)) (q % 32),
  test_mask-pow (p % 32) (q % 32),
  v.size,
)

pub in_use-unmark :
    {s : Pids} (p q : ℕ) → IsWf s → p < 32768 → in_use (unmark p s) q ≡ (in_use s q && not (p == q))
unfolding in_use unmark
in_use-unmark {s} p q v h = ground (
  arith,
  get_or-set s.bitmap (p / 32) (q / 32) (bit_and (word_of s p) (complement 32 (2 ^ (p % 32)))) 0,
  test_mask-and (word_of s p) (complement 32 (2 ^ (p % 32))) (q % 32),
  test_mask-complement 32 (2 ^ (p % 32)) (q % 32) (pow-lt-pow 32 (p % 32) (omega arith))
      (omega arith),
  test_mask-pow (p % 32) (q % 32),
  v.size,
)

-- The test does not read the cursor.
pub in_use-cursor : (s : Pids) (c q : ℕ) → in_use (record s { cursor = c }) q ≡ in_use s q
unfolding in_use
in_use-cursor s c q = refl

pub turned-IsWf : {s : Pids} → IsWf s → IsWf (record s { cursor = turn s.cursor })
unfolding turn
turned-IsWf {s} v = record {
  size = v.size;
  words = v.words;
  low = ground (arith, v.low);
  high = ground arith;
}

zeros-word : (n i : ℕ) → get_or (replicate {A = ℕ} n 0) i 0 ≡ 0
zeros-word n i =
    All-get_or (λ (w : ℕ). w ≡ 0) (replicate n 0) i 0 refl
      (All-replicate (λ (w : ℕ). w ≡ 0) n 0 refl)

abbrev cleared : Pids → Pids
cleared s = record s { bitmap = replicate 1024 0 }

cleared-IsWf : (s : Pids) → s.cursor ≡ 2 → IsWf (cleared s)
cleared-IsWf s c = record {
  size = length-replicate {A = ℕ} 1024 0;
  words = All-replicate (λ w. w < 2 ^ 32) 1024 0 (omega arith);
  low = omega arith;
  high = omega arith;
}

in_use-cleared : (s : Pids) (q : ℕ) → in_use (cleared s) q ≡ false
unfolding in_use
in_use-cleared s q =
    ap (λ w. test_mask w (q % 32)) (zeros-word 1024 (q / 32)) ∙ test_mask-zero (q % 32)

-- `pid_init` establishes the invariant, with 0 and 1 in use and no other number.
pub in_use-pid_init :
    (s : Pids) → s.cursor ≡ 2 → IsWf (pid_init s) × ((q : ℕ) → in_use (pid_init s) q ≡ ltb q 2)
unfolding pid_init pid_reserve
in_use-pid_init s c =
    let v = cleared-IsWf s c in
    let v0 = mark-IsWf 0 v in
    (
      mark-IsWf 1 v0,
      λ q. ground (
        arith,
        in_use-mark 1 q v0 (omega arith),
        in_use-mark 0 q v (omega arith),
        in_use-cleared s q,
      ),
    )
