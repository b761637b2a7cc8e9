-- ===== src/Mm/Pmm/Alloc.antt =====
-- kernel/mm/pmm.c: one page is handed out, and given back.
use makh.Prelude.{
  ℕ, zero, suc, ◌+◌, ◌-◌, ◌*◌, ◌^◌, ◌≤◌, ◌<◌, ◌≡◌, ◌⊎◌, inl, inr, refl, true, false, ◌&&◌, ◌||◌,
  none, some, ltb, ◌==◌, if◌then◌else◌, arith, ℕ_discrete, Option-cases, Bool-cases,
}
use makh.Mm.Pmm.{
  Pmm, u32, page_size, bitmap_set, bitmap_clear, bitmap_test, claim, release, reserve, first_free,
  page_to_addr, alloc_unarmed,
}
use makh.Mm.Pmm.Bitmap.{
  IsWf, bitmap_set-IsWf, bitmap_clear-IsWf, test-set, test-clear, test_out_of_range, max-set,
  max-clear, used-set, test-used,
}

pub claim-IsWf : {s : Pmm} (p : ℕ) → IsWf s → IsWf (claim s p)
unfolding claim
claim-IsWf p w = ground (arith, bitmap_set-IsWf p w)

pub release-IsWf : {s : Pmm} (p : ℕ) → IsWf s → IsWf (release s p)
unfolding release
release-IsWf p w = ground (arith, bitmap_clear-IsWf p w)

pub reserve-IsWf : {s : Pmm} (p : ℕ) → IsWf s → IsWf (reserve s p)
unfolding reserve
reserve-IsWf p w = ground (arith, claim-IsWf p w)

pub test-claim :
    {s : Pmm} (p q : ℕ) → IsWf s → bitmap_test (claim s p) q ≡ (bitmap_test s q || (p == q))
unfolding claim
test-claim {s} p q w =
    rw (test-used (bitmap_set s p) (u32 ((bitmap_set s p).used_pages + 1)) q) (test-set p q w)

pub test-release :
    {s : Pmm} (p q : ℕ)
    → IsWf s
    → bitmap_test (release s p) q
      ≡ (if (p == q) && ltb q s.max_page_num then false else bitmap_test s q)
unfolding release
test-release {s} p q w = ground (
  arith,
  test-used (bitmap_clear s p) (u32 ((bitmap_clear s p).used_pages + 2 ^ 32 - 1)) q,
  test-clear p q w,
  test_out_of_range s q,
)

pub max-claim : (s : Pmm) (p : ℕ) → (claim s p).max_page_num ≡ s.max_page_num
unfolding claim
max-claim s p = max-set s p

pub max-release : (s : Pmm) (p : ℕ) → (release s p).max_page_num ≡ s.max_page_num
unfolding release
max-release s p = ground (arith, max-clear s p)

pub used-claim : (s : Pmm) (p : ℕ) → (claim s p).used_pages ≡ u32 (s.used_pages + 1)
unfolding claim
used-claim s p = rw (used-set s p) refl

-- The search answers with the lowest free page of its range.
pub first_free-some :
    (s : Pmm) (n page p : ℕ)
    → first_free s n page ≡ some p
    → (page ≤ p)
      × (p < page + n)
      × (bitmap_test s p ≡ false)
      × ((q : ℕ) → page ≤ q → q < p → bitmap_test s q ≡ true)
unfolding first_free
first_free-some s zero page p e = cc
first_free-some s (suc n) page p e = elim (Bool-cases (bitmap_test s page)) [
  | inl used ↦
      let (a, b, c, d) = first_free-some s n (page + 1) p (rw used at e) in
      (
        omega arith,
        omega arith,
        c,
        λ q h k. elim (ℕ_discrete page q) [
          | yes same ↦ rw (← same) used
          | no ne ↦ d q (omega arith) k
        ],
      )
  | inr free ↦
      let found : page ≡ p = cc (rw free at e) in
      (omega arith, omega arith, rw (← found) free, λ q h k. absurd (omega arith))
]

pub first_free-none :
    (s : Pmm) (n page : ℕ)
    → first_free s n page ≡ none
    → (q : ℕ) → page ≤ q
    → q < page + n
    → bitmap_test s q ≡ true
unfolding first_free
first_free-none s zero page e q h k = absurd (omega arith)
first_free-none s (suc n) page e q h k = grind (arith, first_free-none s n (page + 1))

-- What a page handed out stands for: the lowest page that was free is now used, and nothing else.
pub record Allocated (s t : Pmm) (addr page : ℕ) : Type 0 where
  pub is_address : addr ≡ page * page_size
  pub in_range : page < s.max_page_num
  pub was_free : bitmap_test s page ≡ false
  pub lowest : (q : ℕ) → q < page → bitmap_test s q ≡ true
  pub tests : (q : ℕ) → bitmap_test t q ≡ (bitmap_test s q || (page == q))
  pub counted : t.used_pages ≡ u32 (s.used_pages + 1)
  pub limit_kept : t.max_page_num ≡ s.max_page_num
  pub wf : IsWf t

pub alloc_unarmed_cases :
    (s : Pmm)
    → IsWf s
    → ((page : ℕ) × Allocated s (alloc_unarmed s).1 (alloc_unarmed s).0 page)
      ⊎ ((alloc_unarmed s ≡ (0, s)) × ((q : ℕ) → bitmap_test s q ≡ true))
unfolding alloc_unarmed
alloc_unarmed_cases s w = elim (Option-cases (first_free s s.max_page_num 0)) [
  | inl full ↦ inr (rw full, λ q. all_used q full)
  | inr (page, found) ↦ inl (page, rw found (handed_out page found))
]
  where
    all_used : (q : ℕ) → first_free s s.max_page_num 0 ≡ none → bitmap_test s q ≡ true
    all_used q full =
        ground
          (arith, first_free-none s s.max_page_num 0 full q (omega arith), test_out_of_range s q)

    handed_out :
        (page : ℕ)
        → first_free s s.max_page_num 0 ≡ some page
        → Allocated s (claim s page) (page_to_addr page) page
    handed_out page found =
        let (_, within, free, below) = first_free-some s s.max_page_num 0 page found in
        record {
          is_address = omega arith;
          in_range = omega arith;
          was_free = free;
          lowest = λ q. below q (omega arith);
          tests = λ q. test-claim page q w;
          counted = used-claim s page;
          limit_kept = max-claim s page;
          wf = claim-IsWf page w;
        }
