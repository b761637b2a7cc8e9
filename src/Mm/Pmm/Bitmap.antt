-- ===== src/Mm/Pmm/Bitmap.antt =====
-- What `bitmap_set` and `bitmap_clear` of kernel/mm/pmm.c do to every `bitmap_test`.
use makh.Prelude.{
  ℕ, zero, suc, ◌+◌, ◌-◌, ◌*◌, ◌/◌, ◌%◌, ◌^◌, ◌≤◌, ◌<◌, ◌≡◌, refl, true, false, not, ◌&&◌, ◌||◌,
  bit_and, bit_or, get_or, length, ltb, leb, ◌==◌, if◌then◌else◌, arith, All, All-set, All-get_or,
  get_or-set, length-set, replicate, All-replicate, length-replicate, ap, ◌∙◌, dec_lt,
}
use makh.Prelude.Bits.{
  bit, bit-lt, bit-or, bit-and, bit-pow, bit-complement, and-one, or-lt, and-lt,
}
use makh.Mm.Pmm.{Pmm, byte_of, bitmap_set, bitmap_clear, bitmap_test, for_pages, all_ones}

-- Every byte is a byte, the bitmap has a bit for each page, and page numbers fit `uint32_t` counts.
pub record IsWf (s : Pmm) : Type 0 where
  pub bytes : All (λ b. b < 256) s.bitmap
  pub room : s.max_page_num ≤ 8 * length s.bitmap
  pub small : s.max_page_num ≤ 2 ^ 20

byte-lt : {s : Pmm} (page : ℕ) → IsWf s → byte_of s page < 256
byte-lt {s} page w = All-get_or (λ b. b < 256) s.bitmap (page / 8) 0 (omega arith) w.bytes

pow-lt : (k : ℕ) → k < 8 → 2 ^ k < 256
pow-lt zero h = omega arith
pow-lt (suc zero) h = omega arith
pow-lt (suc (suc zero)) h = omega arith
pow-lt (suc (suc (suc zero))) h = omega arith
pow-lt (suc (suc (suc (suc zero)))) h = omega arith
pow-lt (suc (suc (suc (suc (suc zero))))) h = omega arith
pow-lt (suc (suc (suc (suc (suc (suc zero)))))) h = omega arith
pow-lt (suc (suc (suc (suc (suc (suc (suc zero))))))) h = omega arith
pow-lt (suc (suc (suc (suc (suc (suc (suc (suc k)))))))) h = absurd (omega arith)

-- The test is a digit of a byte.
test-bit :
    (s : Pmm) (page : ℕ)
    → bitmap_test s page
      ≡ (if leb s.max_page_num page then true else not (bit (byte_of s page) (page % 8) == 0))
unfolding bitmap_test
test-bit s page = rw and-one

pub bitmap_set-IsWf : {s : Pmm} (page : ℕ) → IsWf s → IsWf (bitmap_set s page)
unfolding bitmap_set
bitmap_set-IsWf {s} page w = ground (
  arith,
  length-set s.bitmap (page / 8) (bit_or (byte_of s page) (2 ^ (page % 8))),
  All-set (λ b. b < 256) s.bitmap (page / 8) (bit_or (byte_of s page) (2 ^ (page % 8)))
      (or-lt 8 (byte_of s page) (2 ^ (page % 8)) (byte-lt page w) (pow-lt (page % 8) (omega arith)))
      w.bytes,
)

pub bitmap_clear-IsWf : {s : Pmm} (page : ℕ) → IsWf s → IsWf (bitmap_clear s page)
unfolding bitmap_clear
bitmap_clear-IsWf {s} page w = ground (
  arith,
  length-set s.bitmap (page / 8) (bit_and (byte_of s page) (2 ^ 8 - 1 - 2 ^ (page % 8))),
  All-set (λ b. b < 256) s.bitmap (page / 8) (bit_and (byte_of s page) (2 ^ 8 - 1 - 2 ^ (page % 8)))
      (and-lt 8 (byte_of s page) (2 ^ 8 - 1 - 2 ^ (page % 8)) (byte-lt page w) (omega arith))
      w.bytes,
)

-- After `bitmap_set(p)` exactly `p` is used besides the pages that were.
pub test-set :
    {s : Pmm} (p q : ℕ) → IsWf s → bitmap_test (bitmap_set s p) q ≡ (bitmap_test s q || (p == q))
unfolding bitmap_set
test-set {s} p q w = ground (
  arith,
  test-bit s q,
  test-bit (bitmap_set s p) q,
  get_or-set s.bitmap (p / 8) (q / 8) (bit_or (byte_of s p) (2 ^ (p % 8))) 0,
  bit-or (byte_of s p) (2 ^ (p % 8)) (q % 8),
  bit-lt (byte_of s q) (q % 8),
  bit-pow (p % 8) (q % 8),
  w.room,
)

-- After `bitmap_clear(p)` the page `p` is free if it is in range, and no other test changes.
pub test-clear :
    {s : Pmm} (p q : ℕ)
    → IsWf s
    → bitmap_test (bitmap_clear s p) q
      ≡ (if (p == q) && ltb q s.max_page_num then false else bitmap_test s q)
unfolding bitmap_clear
test-clear {s} p q w = ground (
  arith,
  test-bit s q,
  test-bit (bitmap_clear s p) q,
  get_or-set s.bitmap (p / 8) (q / 8) (bit_and (byte_of s p) (2 ^ 8 - 1 - 2 ^ (p % 8))) 0,
  bit-and (byte_of s p) (2 ^ 8 - 1 - 2 ^ (p % 8)) (q % 8),
  bit-lt (byte_of s q) (q % 8),
  bit-complement 8 (2 ^ (p % 8)) (q % 8) (pow-lt (p % 8) (omega arith)) (omega arith),
  bit-pow (p % 8) (q % 8),
  w.room,
)

pub test_out_of_range : (s : Pmm) (q : ℕ) → s.max_page_num ≤ q → bitmap_test s q ≡ true
unfolding bitmap_test
test_out_of_range s q h = ground arith

pub max-set : (s : Pmm) (p : ℕ) → (bitmap_set s p).max_page_num ≡ s.max_page_num
unfolding bitmap_set
max-set s p = ground arith

pub max-clear : (s : Pmm) (p : ℕ) → (bitmap_clear s p).max_page_num ≡ s.max_page_num
unfolding bitmap_clear
max-clear s p = ground arith

pub used-set : (s : Pmm) (p : ℕ) → (bitmap_set s p).used_pages ≡ s.used_pages
unfolding bitmap_set
used-set s p = ground arith

pub used-clear : (s : Pmm) (p : ℕ) → (bitmap_clear s p).used_pages ≡ s.used_pages
unfolding bitmap_clear
used-clear s p = ground arith

-- The test reads the bitmap and the page limit alone.
pub test-used : (s : Pmm) (n q : ℕ) → bitmap_test (record s { used_pages = n }) q ≡ bitmap_test s q
unfolding bitmap_test
test-used s n q = refl

get_or-replicate : (n i : ℕ) (x d : ℕ) → i < n → get_or (replicate n x) i d ≡ x
get_or-replicate zero i x d h = absurd (omega arith)
get_or-replicate (suc n) zero x d h = refl
get_or-replicate (suc n) (suc i) x d h = get_or-replicate n i x d (omega arith)

ones-bit : (k : ℕ) → k < 8 → bit 0xff k ≡ 1
unfolding bit
ones-bit zero h = refl
ones-bit (suc zero) h = refl
ones-bit (suc (suc zero)) h = refl
ones-bit (suc (suc (suc zero))) h = refl
ones-bit (suc (suc (suc (suc zero)))) h = refl
ones-bit (suc (suc (suc (suc (suc zero))))) h = refl
ones-bit (suc (suc (suc (suc (suc (suc zero)))))) h = refl
ones-bit (suc (suc (suc (suc (suc (suc (suc zero))))))) h = refl
ones-bit (suc (suc (suc (suc (suc (suc (suc (suc k)))))))) h = absurd (omega arith)

all_ones-byte : (n i : ℕ) → i < n → get_or (all_ones n) i 0 ≡ 0xff
unfolding all_ones
all_ones-byte n i h = get_or-replicate n i 0xff 0 h

-- The bitmap that `pmm_init` starts from: well formed, and every page used.
pub all_ones-IsWf :
    (s : Pmm) (n : ℕ)
    → s.bitmap ≡ all_ones n
    → s.max_page_num ≤ 8 * n
    → s.max_page_num ≤ 2 ^ 20
    → IsWf s
unfolding all_ones
all_ones-IsWf s n e room small = record {
  bytes = rw e (All-replicate (λ b. b < 256) n 0xff (omega arith));
  room = omega (arith, ap length e, length-replicate {A = ℕ} n 0xff);
  small = small;
}

pub test-all_ones :
    (s : Pmm) (n q : ℕ) → s.bitmap ≡ all_ones n → s.max_page_num ≤ 8 * n → bitmap_test s q ≡ true
test-all_ones s n q e room = elim (dec_lt q s.max_page_num) [
  | no out ↦ test_out_of_range s q (omega arith)
  | yes within ↦
      let byte : byte_of s q ≡ 0xff =
        ap (λ b. get_or b (q / 8) 0) e ∙ all_ones-byte n (q / 8) (omega arith) in
      ground (arith, test-bit s q, ap (λ b. bit b (q % 8)) byte, ones-bit (q % 8) (omega arith))
]

-- The two counts of pages are left alone.
abbrev pub SameLimits : Pmm → Pmm → Type 0
SameLimits s t = (t.max_page_num ≡ s.max_page_num) × (t.total_pages ≡ s.total_pages)

pub set-SameLimits : (s : Pmm) (p : ℕ) → SameLimits s (bitmap_set s p)
unfolding bitmap_set
set-SameLimits s p = ground arith

pub clear-SameLimits : (s : Pmm) (p : ℕ) → SameLimits s (bitmap_clear s p)
unfolding bitmap_clear
clear-SameLimits s p = ground arith

pub for_pages-SameLimits :
    (body : Pmm → ℕ → Pmm)
    → ((s : Pmm) (p : ℕ) → SameLimits s (body s p))
    → (n start : ℕ) (s : Pmm) → SameLimits s (for_pages body n start s)
unfolding for_pages
for_pages-SameLimits body keep zero start s = (refl, refl)
for_pages-SameLimits body keep (suc n) start s =
    let (a, b) = for_pages-SameLimits body keep n (start + 1) (body s start) in
    (a ∙ (keep s start).0, b ∙ (keep s start).1)
