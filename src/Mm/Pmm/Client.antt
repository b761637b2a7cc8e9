-- ===== src/Mm/Pmm/Client.antt =====
-- kernel/mm/pmm.c: what holds of the allocator after `pmm_init`, whatever its callers do.
use makh.Prelude.{
  ℕ, zero, suc, ◌+◌, ◌-◌, ◌/◌, ◌%◌, ◌≤◌, ◌<◌, ◌≡◌, inl, inr, refl, true, false, not, ◌||◌, Option,
  none, some, ltb, ◌==◌, if◌then◌else◌, arith, Bool-cases, ltb→lt,
}
use makh.Prelude.Int.{ℤ, pos, negsuc}
use makh.Mm.Pmm.{
  Pmm, u64, page_size, bitmap_test, alloc_armed, alloc_unarmed, first_free, find_run, take_first,
  take_run, pmm_alloc_page, pmm_alloc_pages, pmm_free_page, pmm_free_pages, pmm_reserve_region,
  pmm_test_fail_after,
}
use makh.Mm.Pmm.Alloc.{first_free-some, test-claim}
use makh.Mm.Pmm.Page.{test-free_page}
use makh.Mm.Pmm.Run.{find_run-some, test-claim_run, test-reserve_run, test-free_pages}
use makh.Mm.Pmm.Accounts.{
  Sound, used_count, claim-Sound, reserve_run-Sound, release-Sound, release_run-Sound,
  claim_run-Sound,
}

-- The allocator between calls: page 0, whose address is NULL, is used, and `holes` used pages are not
-- counted in `used_pages`.
pub record Ready (holes : ℕ) (s : Pmm) : Type 0 where
  pub sound : Sound holes s
  pub null_used : bitmap_test s 0 ≡ true

-- The fault counter is of no concern to the bitmap.
rearm-Ready : {holes : ℕ} {s : Pmm} (f : ℤ) → Ready holes s → Ready holes (record s { fail_in = f })
unfolding used_count bitmap_test
rearm-Ready f v = record {
  sound = record {
    wf = record { bytes = v.sound.wf.bytes; room = v.sound.wf.room; small = v.sound.wf.small };
    accounts = v.sound.accounts;
  };
  null_used = v.null_used;
}

take_first-Ready :
    {holes : ℕ} (s : Pmm) (o : Option ℕ)
    → ((p : ℕ) → o ≡ some p → bitmap_test s p ≡ false)
    → Ready holes s
    → Ready holes (take_first s o).1
take_first-Ready s none free v = v
take_first-Ready s (some p) free v = record {
  sound = claim-Sound p v.sound (free p refl);
  null_used = ground (arith, test-claim p 0 v.sound.wf, v.null_used);
}

alloc_unarmed-Ready : {holes : ℕ} {s : Pmm} → Ready holes s → Ready holes (alloc_unarmed s).1
unfolding alloc_unarmed
alloc_unarmed-Ready {s = s} v =
    take_first-Ready s (first_free s s.max_page_num 0)
      (λ p e. (first_free-some s s.max_page_num 0 p e).2) v

alloc_armed-Ready : {holes : ℕ} (f : ℤ) {s : Pmm} → Ready holes s → Ready holes (alloc_armed f s).1
alloc_armed-Ready (negsuc n) v = alloc_unarmed-Ready v
alloc_armed-Ready (pos zero) v = rearm-Ready (negsuc 0) v
alloc_armed-Ready (pos (suc n)) v = alloc_unarmed-Ready (rearm-Ready (pos n) v)

alloc_page-Ready : {holes : ℕ} {s : Pmm} → Ready holes s → Ready holes (pmm_alloc_page s).1
unfolding pmm_alloc_page
alloc_page-Ready {s = s} v = alloc_armed-Ready s.fail_in v

take_run-Ready :
    {holes : ℕ} (n : ℕ) (s : Pmm) (o : Option ℕ)
    → ((p : ℕ) → o ≡ some p → (q : ℕ) → p ≤ q → q < p + n → bitmap_test s q ≡ false)
    → Ready holes s
    → Ready holes (take_run n s o).1
take_run-Ready n s none free v = v
take_run-Ready n s (some p) free v = record {
  sound = claim_run-Sound n p v.sound (free p refl);
  null_used = ground (arith, test-claim_run n p 0 v.sound.wf, v.null_used);
}

alloc_pages-Ready :
    {holes : ℕ} (n : ℕ) {s : Pmm} → Ready holes s → Ready holes (pmm_alloc_pages n s).1
unfolding pmm_alloc_pages
alloc_pages-Ready n {s} v = elim (Bool-cases (n == 0)) [
  | inl nothing ↦ rw nothing v
  | inr some_asked ↦ elim (Bool-cases (n == 1)) [
    | inl one ↦ rw (some_asked, one) (alloc_page-Ready v)
    | inr many ↦
        rw (some_asked, many)
          (take_run-Ready n s (find_run (s.max_page_num + 1) s n 0)
            (λ p e. (find_run-some (s.max_page_num + 1) s n 0 p e).2) v)
  ]
]

free_page-Sound :
    {holes : ℕ} (addr : ℕ) {s : Pmm}
    → Sound holes s
    → 0 < s.used_pages
    → Sound holes (pmm_free_page addr s)
unfolding pmm_free_page
free_page-Sound addr {s} v counted =
    elim (Bool-cases ((addr == 0) || not (addr % page_size == 0))) [
      | inl bad ↦ rw bad v
      | inr good ↦ elim (Bool-cases (ltb (addr / page_size) s.max_page_num)) [
        | inl within ↦
            rw (good, within) (release-Sound (addr / page_size) v (ltb→lt _ _ within) counted)
        | inr out ↦ rw (good, out) v
      ]
    ]

free_pages-Sound :
    {holes : ℕ} (addr n : ℕ) {s : Pmm}
    → Sound holes s
    → n ≤ s.used_pages
    → Sound holes (pmm_free_pages addr n s)
unfolding pmm_free_pages
free_pages-Sound addr n {s} v counted =
    elim (Bool-cases ((addr == 0) || not (addr % page_size == 0))) [
      | inl bad ↦ rw bad v
      | inr good ↦ rw good (release_run-Sound _ base v (ground arith) (ground arith))
    ]
  where
    base : ℕ
    base = addr / page_size

free_page-Ready :
    {holes : ℕ} (addr : ℕ) {s : Pmm}
    → Ready holes s
    → 0 < s.used_pages
    → Ready holes (pmm_free_page addr s)
free_page-Ready addr {s} v counted = record {
  sound = free_page-Sound addr v.sound counted;
  null_used = ground (arith, test-free_page addr 0 v.sound.wf, v.null_used);
}

free_pages-Ready :
    {holes : ℕ} (addr n : ℕ) {s : Pmm}
    → Ready holes s
    → n ≤ s.used_pages
    → Ready holes (pmm_free_pages addr n s)
free_pages-Ready addr n {s} v counted = record {
  sound = free_pages-Sound addr n v.sound counted;
  null_used = ground (arith, test-free_pages addr n 0 v.sound.wf, v.null_used);
}

reserve_region-Ready :
    {holes : ℕ} (addr len : ℕ) {s : Pmm}
    → Ready holes s
    → Ready holes (pmm_reserve_region addr len s)
unfolding pmm_reserve_region
reserve_region-Ready addr len {s} v = elim (Bool-cases (len == 0)) [
  | inl empty ↦ rw empty v
  | inr full ↦ rw full (record {
    sound = reserve_run-Sound _ _ v.sound;
    null_used = ground (arith, test-reserve_run (end - start) start 0 v.sound.wf, v.null_used);
  })
]
  where
    start : ℕ
    start = addr / page_size

    end : ℕ
    end =
        let e = u64 (addr + len + page_size - 1) / page_size in
        if ltb s.max_page_num e then s.max_page_num else e

-- A caller's next call. A page is freed only while pages are counted as used.
pub data Step (s : Pmm) : Pmm → Type 0 where
  alloc_page : Step s (pmm_alloc_page s).1
  alloc_pages : (n : ℕ) → Step s (pmm_alloc_pages n s).1
  free_page : (addr : ℕ) → 0 < s.used_pages → Step s (pmm_free_page addr s)
  free_pages : (addr n : ℕ) → n ≤ s.used_pages → Step s (pmm_free_pages addr n s)
  reserve_region : (addr len : ℕ) → Step s (pmm_reserve_region addr len s)
  fail_after : (n : ℤ) → Step s (pmm_test_fail_after n s)

pub data Reach (s : Pmm) : Pmm → Type 0 where
  here : Reach s s
  next : {t u : Pmm} → Reach s t → Step t u → Reach s u

Step-Ready : {holes : ℕ} {s t : Pmm} → Step s t → Ready holes s → Ready holes t
unfolding pmm_test_fail_after
Step-Ready alloc_page v = alloc_page-Ready v
Step-Ready (alloc_pages n) v = alloc_pages-Ready n v
Step-Ready (free_page addr h) v = free_page-Ready addr v h
Step-Ready (free_pages addr n h) v = free_pages-Ready addr n v h
Step-Ready (reserve_region addr len) v = reserve_region-Ready addr len v
Step-Ready (fail_after n) v = rearm-Ready n v

-- Whatever calls follow, where `pmm_free_page` is called only while `used_pages` is above 0 and `pmm_free_pages` of
-- `n` pages only while it is `n` or more, so that the count does not wrap, the allocator stays ready: every byte of the bitmap is a byte and there is one
-- bit for each page, page 0 is never handed out, and `used_pages` stays the number of used pages less
-- the `holes` that were not counted at the start.
pub Reach-Ready : {holes : ℕ} {s t : Pmm} → Reach s t → Ready holes s → Ready holes t
Reach-Ready here v = v
Reach-Ready (next r st) v = Step-Ready st (Reach-Ready r v)
