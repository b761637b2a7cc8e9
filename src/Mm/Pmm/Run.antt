-- ===== src/Mm/Pmm/Run.antt =====
-- kernel/mm/pmm.c: `pmm_alloc_pages` finds the first run of free pages, and `pmm_free_pages` gives one
-- back.
use makh.Prelude.{
  ℕ, zero, suc, ◌+◌, ◌-◌, ◌*◌, ◌/◌, ◌%◌, ◌^◌, ◌≤◌, ◌<◌, ◌≡◌, ◌≢◌, ◌⊎◌, inl, inr, refl, ◌∙◌, Bool,
  true, false, not, ◌&&◌, ◌||◌, none, some, ltb, leb, ◌==◌, if◌then◌else◌, arith, dec_lt,
  ℕ_discrete, Option-cases, Bool-cases,
}
use makh.Mm.Pmm.{
  Pmm, u32, page_size, bitmap_test, claim, release, reserve, for_pages, run_length, find_run,
  take_run, page_to_addr, pmm_alloc_pages, pmm_free_pages,
}
use makh.Mm.Pmm.Bitmap.{IsWf}
use makh.Mm.Pmm.Alloc.{
  test-claim, test-release, max-release, release-IsWf, reserve-IsWf, claim-IsWf, max-claim,
  used-claim,
}

-- The pages `start`, …, `start + n - 1`.
abbrev pub in_run : ℕ → ℕ → ℕ → Bool
in_run start n q = leb start q && ltb q (start + n)

pub claim_run-IsWf : (n start : ℕ) {s : Pmm} → IsWf s → IsWf (for_pages claim n start s)
unfolding for_pages
claim_run-IsWf zero start w = w
claim_run-IsWf (suc n) start {s} w = claim_run-IsWf n (start + 1) (claim-IsWf start w)

pub test-claim_run :
    (n start q : ℕ) {s : Pmm}
    → IsWf s
    → bitmap_test (for_pages claim n start s) q ≡ (bitmap_test s q || in_run start n q)
unfolding for_pages
test-claim_run zero start q {s} w = ground arith
test-claim_run (suc n) start q {s} w = ground (
  arith,
  test-claim_run n (start + 1) q {s = claim s start} (claim-IsWf start w),
  test-claim start q w,
)

pub max-claim_run :
    (n start : ℕ) (s : Pmm) → (for_pages claim n start s).max_page_num ≡ s.max_page_num
unfolding for_pages
max-claim_run zero start s = refl
max-claim_run (suc n) start s = max-claim_run n (start + 1) (claim s start) ∙ max-claim s start

pub used-claim_run :
    (n start : ℕ) (s : Pmm)
    → s.used_pages < 2 ^ 32
    → (for_pages claim n start s).used_pages ≡ u32 (s.used_pages + n)
unfolding for_pages
used-claim_run zero start s h = omega arith
used-claim_run (suc n) start s h = omega (
  arith,
  used-claim_run n (start + 1) (claim s start) (omega (arith, used-claim s start)),
  used-claim s start,
)

pub release_run-IsWf : (n start : ℕ) {s : Pmm} → IsWf s → IsWf (for_pages release n start s)
unfolding for_pages
release_run-IsWf zero start w = w
release_run-IsWf (suc n) start {s} w = release_run-IsWf n (start + 1) (release-IsWf start w)

pub test-release_run :
    (n start q : ℕ) {s : Pmm}
    → IsWf s
    → bitmap_test (for_pages release n start s) q
      ≡ (if in_run start n q && ltb q s.max_page_num then false else bitmap_test s q)
unfolding for_pages
test-release_run zero start q {s} w = ground arith
test-release_run (suc n) start q {s} w = ground (
  arith,
  test-release_run n (start + 1) q {s = release s start} (release-IsWf start w),
  test-release start q w,
  max-release s start,
)

pub reserve_run-IsWf : (n start : ℕ) {s : Pmm} → IsWf s → IsWf (for_pages reserve n start s)
unfolding for_pages
reserve_run-IsWf zero start w = w
reserve_run-IsWf (suc n) start {s} w = reserve_run-IsWf n (start + 1) (reserve-IsWf start w)

pub test-reserve_run :
    (n start q : ℕ) {s : Pmm}
    → IsWf s
    → bitmap_test (for_pages reserve n start s) q ≡ (bitmap_test s q || in_run start n q)
unfolding for_pages reserve
test-reserve_run zero start q {s} w = ground arith
test-reserve_run (suc n) start q {s} w = ground (
  arith,
  test-reserve_run n (start + 1) q {s = reserve s start} (reserve-IsWf start w),
  test-claim start q w,
)

-- `pmm_free_pages` of any address: the pages of the run in range are free afterwards where the address
-- is page-aligned and not NULL; no other page changes.
pub test-free_pages :
    (addr n q : ℕ) {s : Pmm}
    → IsWf s
    → bitmap_test (pmm_free_pages addr n s) q ≡ (
        if not (addr == 0)
          && (addr % page_size == 0)
          && in_run (addr / page_size) n q
          && ltb q s.max_page_num
        then false
        else bitmap_test s q)
unfolding pmm_free_pages
test-free_pages addr n q {s} w =
    let base = addr / page_size in
    let end = if ltb s.max_page_num (base + n) then s.max_page_num else base + n in
    ground (arith, test-release_run (end - base) base q w)

-- Some page of the run is used.
abbrev pub Blocked : Pmm → ℕ → ℕ → Type 0
Blocked s n start = (i : ℕ) × (i < n) × (bitmap_test s (start + i) ≡ true)

run_length-le : (s : Pmm) (n page : ℕ) → run_length s n page ≤ n
unfolding run_length
run_length-le s zero page = omega arith
run_length-le s (suc n) page = ground (arith, run_length-le s n (page + 1))

run_length-free :
    (s : Pmm) (n page q : ℕ) → page ≤ q → q < page + run_length s n page → bitmap_test s q ≡ false
unfolding run_length
run_length-free s zero page q h k = absurd (omega arith)
run_length-free s (suc n) page q h k = elim (ℕ_discrete page q) [
  | yes same ↦ rw (← same) (ground arith)
  | no ne ↦ ground (arith, run_length-free s n (page + 1) q)
]

run_length-stop :
    (s : Pmm) (n page q : ℕ)
    → run_length s n page < n
    → q ≡ page + run_length s n page
    → bitmap_test s q ≡ true
unfolding run_length
run_length-stop s zero page q h e = absurd (omega arith)
run_length-stop s (suc n) page q h e = elim (Bool-cases (bitmap_test s page)) [
  | inl used ↦ let here : q ≡ page = ground arith in rw here used
  | inr free ↦ ground (arith, run_length-stop s n (page + 1) q)
]

-- A run that starts before the used page that broke the run at `start`, or on it, holds that page.
Blocked-at :
    (s : Pmm) (n start p : ℕ)
    → run_length s n start ≢ n
    → start ≤ p
    → p ≤ start + run_length s n start
    → Blocked s n p
Blocked-at s n start p broken h k =
    let short : run_length s n start < n = omega (arith, run_length-le s n start) in
    (start + run_length s n start - p, omega arith, run_length-stop s n start _ short (omega arith))

-- The search answers with a free run inside the range, and no run before it is free.
pub find_run-some :
    (fuel : ℕ) (s : Pmm) (n start p : ℕ)
    → find_run fuel s n start ≡ some p
    → (start ≤ p)
      × (p + n ≤ s.max_page_num)
      × ((q : ℕ) → p ≤ q → q < p + n → bitmap_test s q ≡ false)
      × ((p' : ℕ) → start ≤ p' → p' < p → Blocked s n p')
unfolding find_run
find_run-some zero s n start p e = cc
find_run-some (suc fuel) s n start p e = elim (Bool-cases (leb (start + n) s.max_page_num)) [
  | inr out ↦ cc (rw out at e)
  | inl fits ↦ elim (ℕ_discrete (run_length s n start) n) [
    | yes whole ↦
        let found : start ≡ p = ground arith in
        (
          omega arith,
          ground arith,
          λ q h k. run_length-free s n start q (omega arith) (omega arith),
          λ p' h k. absurd (omega arith),
        )
    | no broken ↦
        let (a, b, c, d) =
          find_run-some fuel s n (start + run_length s n start + 1) p (ground arith) in
        (
          omega arith,
          b,
          c,
          λ p' h k. elim (dec_lt (start + run_length s n start) p') [
            | yes after ↦ d p' (omega arith) k
            | no upto ↦ Blocked-at s n start p' broken h (omega arith)
          ],
        )
  ]
]

find_run-none :
    (fuel : ℕ) (s : Pmm) (n start : ℕ)
    → s.max_page_num < start + fuel
    → find_run fuel s n start ≡ none
    → (p : ℕ) → start ≤ p
    → p + n ≤ s.max_page_num
    → Blocked s n p
unfolding find_run
find_run-none zero s n start big e p h k = absurd (omega arith)
find_run-none (suc fuel) s n start big e p h k = elim (ℕ_discrete (run_length s n start) n) [
  | yes whole ↦ absurd (ground arith)
  | no broken ↦ elim (dec_lt (start + run_length s n start) p) [
    | yes after ↦
        find_run-none fuel s n (start + run_length s n start + 1) (omega arith) (ground arith) p
          (omega arith) k
    | no upto ↦ Blocked-at s n start p broken h (omega arith)
  ]
]

-- `pmm_alloc_pages` hands out the first run of `n` free pages: its address, all its pages used
-- afterwards, no other page changed, and `n` more counted.
pub record AllocatedRun (s t : Pmm) (addr n start : ℕ) : Type 0 where
  pub is_address : addr ≡ start * page_size
  pub in_range : start + n ≤ s.max_page_num
  pub was_free : (q : ℕ) → start ≤ q → q < start + n → bitmap_test s q ≡ false
  pub lowest : (p : ℕ) → p < start → Blocked s n p
  pub tests : (q : ℕ) → bitmap_test t q ≡ (bitmap_test s q || in_run start n q)
  pub counted : t.used_pages ≡ u32 (s.used_pages + n)

alloc_many :
    (s : Pmm) (n : ℕ)
    → 1 < n
    → pmm_alloc_pages n s ≡ take_run n s (find_run (s.max_page_num + 1) s n 0)
unfolding pmm_alloc_pages
alloc_many s n h = ground arith

-- `pmm_alloc_pages` of more than one page, on a well-formed allocator: it hands out the first run of
-- `n` free pages as `AllocatedRun` says, at an address that is not NULL where page 0 is used; or there
-- is no such run, NULL is returned and nothing changes.
pub pmm_alloc_pages_outcome :
    (s : Pmm) (n : ℕ)
    → IsWf s
    → s.used_pages < 2 ^ 32
    → 1 < n
    → bitmap_test s 0 ≡ true
    → (((pmm_alloc_pages n s).0 ≢ 0)
        × ((start : ℕ) × AllocatedRun s (pmm_alloc_pages n s).1 (pmm_alloc_pages n s).0 n start))
      ⊎ ((pmm_alloc_pages n s ≡ (0, s)) × ((p : ℕ) → p + n ≤ s.max_page_num → Blocked s n p))
pmm_alloc_pages_outcome s n w small many null =
    rw (alloc_many s n many) (elim (Option-cases (find_run (s.max_page_num + 1) s n 0)) [
      | inl no_run ↦ inr (
        rw no_run,
        λ p h. find_run-none (s.max_page_num + 1) s n 0 (omega arith) no_run p (omega arith) h,
      )
      | inr (start, found) ↦ inl (rw found (handed_out start found))
    ])
  where
    handed_out :
        (start : ℕ)
        → find_run (s.max_page_num + 1) s n 0 ≡ some start
        → (page_to_addr start ≢ 0)
          × ((p : ℕ) × AllocatedRun s (for_pages claim n start s) (page_to_addr start) n p)
    handed_out start found =
        let (_, fits, free, below) = find_run-some (s.max_page_num + 1) s n 0 start found in
        let nz : start ≢ 0 = λ z. cc (null, free 0 (omega arith) (omega arith)) in
        (
          omega arith,
          (
            start,
            record {
              is_address = omega arith;
              in_range = fits;
              was_free = free;
              lowest = λ p. below p (omega arith);
              tests = λ q. test-claim_run n start q w;
              counted = used-claim_run n start s small;
            },
          ),
        )
