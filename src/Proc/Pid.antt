-- ===== src/Proc/Pid.antt =====
-- kernel/proc/pid/pid.c: process numbers, a bitmap of 32-bit words and a cursor that rotates.
pub mod Bitmap
pub mod Alloc
pub mod Free
pub mod Live
mod Tests
use makh.Prelude.{
  ℕ, zero, suc, ◌+◌, ◌-◌, ◌/◌, ◌%◌, ◌^◌, ◌||◌, Bool, bit_and, bit_or, List, get_or, set, replicate,
  leb, ◌==◌, if◌then◌else◌,
}
use makh.Prelude.Mask.{test_mask, complement}

abbrev pub pid_max : ℕ
pid_max = 32768

abbrev pub pid_bitmap_size : ℕ
pid_bitmap_size = 1024

-- `pid_bitmap` and `pid_cursor`
pub record Pids : Type 0 where
  pub bitmap : List ℕ
  pub cursor : ℕ

abbrev pub word_of : Pids → ℕ → ℕ
word_of s pid = get_or s.bitmap (pid / 32) 0

-- `pid_bitmap[pid / 32] & (1u << (pid % 32))`
pub in_use : Pids → ℕ → Bool
in_use s pid = test_mask (word_of s pid) (pid % 32)

-- `pid_bitmap[pid / 32] |= (1u << (pid % 32))`
pub mark : ℕ → Pids → Pids
mark pid s = record s { bitmap = set s.bitmap (pid / 32) (bit_or (word_of s pid) (2 ^ (pid % 32))) }

-- `pid_bitmap[pid / 32] &= ~(1u << (pid % 32))`
pub unmark : ℕ → Pids → Pids
unmark pid s = record s {
  bitmap = set s.bitmap (pid / 32) (bit_and (word_of s pid) (complement 32 (2 ^ (pid % 32))));
}

pub pid_reserve : ℕ → Pids → Pids
pid_reserve pid s = if leb pid_max pid then s else mark pid s

pub pid_init : Pids → Pids
pid_init s = pid_reserve 1 (pid_reserve 0 (record s { bitmap = replicate pid_bitmap_size 0 }))

-- `(pid_cursor + 1 >= PID_MAX) ? 2 : pid_cursor + 1`
pub turn : ℕ → ℕ
turn c = if leb pid_max (c + 1) then 2 else c + 1

-- The loop of `pid_alloc`, on the rounds left.
pub pid_scan : ℕ → Pids → ℕ × Pids
pid_scan zero s = (0, s)
pid_scan (suc n) s =
    let later = record s { cursor = turn s.cursor } in
    let rest = pid_scan n later in
    if in_use s s.cursor then rest else (s.cursor, mark s.cursor later)

pub pid_alloc : Pids → ℕ × Pids
pid_alloc s = pid_scan (pid_max - 2) s

pub pid_free : ℕ → Pids → Pids
pid_free pid s = if leb pid_max pid || (pid == 0 || pid == 1) then s else unmark pid s
