-- ===== src/Mm/Pmm/Page.antt =====
-- kernel/mm/pmm.c: `pmm_alloc_page` and `pmm_free_page`.
use makh.Prelude.{
  ℕ, suc, ◌+◌, ◌-◌, ◌*◌, ◌/◌, ◌%◌, ◌^◌, ◌<◌, ◌≡◌, ◌≢◌, ◌⊎◌, inl, inr, refl, ap, true, false, not,
  ◌&&◌, ltb, ◌==◌, if◌then◌else◌, arith,
}
use makh.Prelude.Int.{pos, negsuc}
use makh.Mm.Pmm.{
  Pmm, u32, page_size, bitmap_test, release, alloc_armed, alloc_unarmed, pmm_alloc_page,
  pmm_free_page,
}
use makh.Mm.Pmm.Bitmap.{IsWf, used-clear}
use makh.Mm.Pmm.Alloc.{Allocated, alloc_unarmed_cases, test-release}

alloc_of_unarmed : (s : Pmm) (k : ℕ) → s.fail_in ≡ negsuc k → pmm_alloc_page s ≡ alloc_unarmed s
unfolding pmm_alloc_page
alloc_of_unarmed s k e = ap (λ f. alloc_armed f s) e

page_zero_free :
    (s : Pmm) (page : ℕ) → bitmap_test s 0 ≡ true → bitmap_test s page ≡ false → page ≢ 0
page_zero_free s page null free z = cc (rw z at free)

-- `pmm_alloc_page` of a well-formed allocator with no test fault armed and page 0 reserved: either the
-- address that it returns is not NULL, and stands for the lowest free page, which is used afterwards
-- and counted, while no other page changes; or every page was used, NULL is returned and nothing
-- changes.
pub pmm_alloc_page_outcome :
    (s : Pmm) (k : ℕ)
    → IsWf s
    → bitmap_test s 0 ≡ true
    → s.fail_in ≡ negsuc k
    → (((pmm_alloc_page s).0 ≢ 0)
        × ((page : ℕ) × Allocated s (pmm_alloc_page s).1 (pmm_alloc_page s).0 page))
      ⊎ ((pmm_alloc_page s ≡ (0, s)) × ((q : ℕ) → bitmap_test s q ≡ true))
pmm_alloc_page_outcome s k w null unarmed =
    rw (alloc_of_unarmed s k unarmed) (elim (alloc_unarmed_cases s w) [
      | inl (page, a) ↦
          let nz : page ≢ 0 = page_zero_free s page null a.was_free in
          inl (omega (arith, a.is_address), (page, a))
      | inr full ↦ inr full
    ])

-- An armed fault lets `n` calls through and fails the next one alone: the call that fails returns NULL
-- and disarms, and any other call is one of the unarmed allocator after the count has gone down.
pub fault_countdown :
    (s : Pmm) (n : ℕ)
    → (pmm_alloc_page (record s { fail_in = pos 0 }) ≡ (0, record s { fail_in = negsuc 0 }))
      × (pmm_alloc_page (record s { fail_in = pos (suc n) })
          ≡ alloc_unarmed (record s { fail_in = pos n }))
unfolding pmm_alloc_page
fault_countdown s n = (refl, refl)

-- `pmm_free_page` of any address: the page of a page-aligned address other than NULL is free
-- afterwards if it is in range; every other address, and every other page, is left alone.
pub test-free_page :
    {s : Pmm} (addr q : ℕ)
    → IsWf s
    → bitmap_test (pmm_free_page addr s) q ≡ (
        if not (addr == 0)
          && (addr % page_size == 0)
          && (addr / page_size == q)
          && ltb q s.max_page_num
        then false
        else bitmap_test s q)
unfolding pmm_free_page
test-free_page {s} addr q w = ground (arith, test-release (addr / page_size) q w)

used-free_page :
    (s : Pmm) (page : ℕ)
    → page ≢ 0
    → page < s.max_page_num
    → bitmap_test s page ≡ true
    → (pmm_free_page (page * page_size) s).used_pages ≡ u32 (s.used_pages + 2 ^ 32 - 1)
unfolding pmm_free_page release
used-free_page s page nz h t = ground (arith, used-clear s page)

module _ (s t : Pmm) (addr page : ℕ) (a : Allocated s t addr page) (nz : page ≢ 0) where
  undo_test : (q : ℕ) → bitmap_test (pmm_free_page addr t) q ≡ bitmap_test s q
  undo_test q = ground (arith, test-free_page addr q a.wf, a.tests q, a.was_free)

  undo_used : s.used_pages < 2 ^ 32 → (pmm_free_page addr t).used_pages ≡ s.used_pages
  undo_used small = rw a.is_address (
      omega
        (arith, used-free_page t page nz (omega arith) (ground (arith, a.tests page)), a.counted))

-- Where `pmm_alloc_page` hands out a page, giving that page back makes every test and the count as they
-- were before.
pub free_after_alloc :
    {s : Pmm} (k : ℕ)
    → IsWf s
    → bitmap_test s 0 ≡ true
    → s.fail_in ≡ negsuc k
    → s.used_pages < 2 ^ 32
    → (pmm_alloc_page s).0 ≢ 0
    → let u = pmm_free_page (pmm_alloc_page s).0 (pmm_alloc_page s).1 in
      ((q : ℕ) → bitmap_test u q ≡ bitmap_test s q) × (u.used_pages ≡ s.used_pages)
free_after_alloc {s} k w null unarmed small got = elim (pmm_alloc_page_outcome s k w null unarmed) [
  | inl (_, (page, a)) ↦
      let nz : page ≢ 0 = page_zero_free s page null a.was_free in
      (undo_test s _ _ page a nz, undo_used s _ _ page a nz small)
  | inr (full, _) ↦ absurd (got (ap (λ r. r.0) full))
]
