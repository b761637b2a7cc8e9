-- ===== src/Mm/Pmm/Init.antt =====
-- kernel/mm/pmm.c: `pmm_init` reads the memory map.
use makh.Prelude.{
  ℕ, zero, suc, ◌+◌, ◌-◌, ◌/◌, ◌^◌, ◌≤◌, ◌≡◌, inl, inr, refl, ◌∙◌, Bool, false, not, ◌&&◌, ◌||◌,
  some, ltb, leb, if◌then◌else◌, arith, Bool-cases,
}
use makh.Mm.Pmm.{
  Pmm, MmapTag, MmapEntry, u32, u64, page_size, max_bitmap_size, max_memory_size, is_available,
  bitmap_clear, bitmap_test, claim, reserve, for_pages, pmm_init, all_ones, entry_count,
  highest_from, free_entry, free_entries,
}
use makh.Mm.Pmm.Bitmap.{
  IsWf, test-clear, bitmap_clear-IsWf, used-clear, max-clear, all_ones-IsWf, test-all_ones,
  SameLimits, set-SameLimits, clear-SameLimits, for_pages-SameLimits,
}
use makh.Mm.Pmm.Run.{in_run, test-reserve_run}
use makh.Mm.Pmm.Accounts.{used_count, reserve_run-Sound}
use makh.Mm.Pmm.Client.{Ready}

-- An entry of the memory map makes the page available.
abbrev pub offers : MmapEntry → ℕ → Bool
offers e q =
    is_available e && leb (e.addr / page_size) q && ltb q (u64 (e.addr + e.len) / page_size)

-- One of the `n` entries from `i` on does.
pub offered : MmapTag → ℕ → ℕ → ℕ → Bool
offered tag zero i q = false
offered tag (suc n) i q = offers (tag.entry_at i) q || offered tag n (i + 1) q

clear_run-IsWf : (n start : ℕ) {s : Pmm} → IsWf s → IsWf (for_pages bitmap_clear n start s)
unfolding for_pages
clear_run-IsWf zero start w = w
clear_run-IsWf (suc n) start {s} w = clear_run-IsWf n (start + 1) (bitmap_clear-IsWf start w)

used-clear_run :
    (n start : ℕ) (s : Pmm) → (for_pages bitmap_clear n start s).used_pages ≡ s.used_pages
unfolding for_pages
used-clear_run zero start s = refl
used-clear_run (suc n) start s =
    used-clear_run n (start + 1) (bitmap_clear s start) ∙ used-clear s start

test-clear_run :
    (n start q : ℕ) {s : Pmm}
    → IsWf s
    → bitmap_test (for_pages bitmap_clear n start s) q
      ≡ (if in_run start n q && ltb q s.max_page_num then false else bitmap_test s q)
unfolding for_pages
test-clear_run zero start q {s} w = ground arith
test-clear_run (suc n) start q {s} w = ground (
  arith,
  test-clear_run n (start + 1) q {s = bitmap_clear s start} (bitmap_clear-IsWf start w),
  test-clear start q w,
  max-clear s start,
)

free_entry-IsWf : (e : MmapEntry) {s : Pmm} → IsWf s → IsWf (free_entry e s)
unfolding free_entry
free_entry-IsWf e {s} w = elim (Bool-cases (is_available e)) [
  | inl available ↦ rw available (clear_run-IsWf _ _ w)
  | inr reserved ↦ rw reserved w
]

free_entry-SameLimits : (e : MmapEntry) (s : Pmm) → SameLimits s (free_entry e s)
unfolding free_entry
free_entry-SameLimits e s = elim (Bool-cases (is_available e)) [
  | inl available ↦ rw available (for_pages-SameLimits bitmap_clear clear-SameLimits _ _ s)
  | inr reserved ↦ rw reserved (refl, refl)
]

used-free_entry : (e : MmapEntry) (s : Pmm) → (free_entry e s).used_pages ≡ s.used_pages
unfolding free_entry
used-free_entry e s = elim (Bool-cases (is_available e)) [
  | inl available ↦ rw available (used-clear_run _ _ s)
  | inr reserved ↦ rw reserved refl
]

test-free_entry :
    (e : MmapEntry) (q : ℕ) {s : Pmm}
    → IsWf s
    → bitmap_test (free_entry e s) q
      ≡ (if offers e q && ltb q s.max_page_num then false else bitmap_test s q)
unfolding free_entry
test-free_entry e q {s} w =
    let start = e.addr / page_size in
    let end_page = u64 (e.addr + e.len) / page_size in
    let end = if ltb s.max_page_num end_page then s.max_page_num else end_page in
    ground (arith, test-clear_run (end - start) start q w)

free_entries-IsWf : (tag : MmapTag) (n i : ℕ) {s : Pmm} → IsWf s → IsWf (free_entries tag n i s)
unfolding free_entries
free_entries-IsWf tag zero i w = w
free_entries-IsWf tag (suc n) i {s} w =
    free_entries-IsWf tag n (i + 1) (free_entry-IsWf (tag.entry_at i) w)

free_entries-SameLimits :
    (tag : MmapTag) (n i : ℕ) (s : Pmm) → SameLimits s (free_entries tag n i s)
unfolding free_entries
free_entries-SameLimits tag zero i s = (refl, refl)
free_entries-SameLimits tag (suc n) i s =
    let (a, b) = free_entries-SameLimits tag n (i + 1) (free_entry (tag.entry_at i) s) in
    let (c, d) = free_entry-SameLimits (tag.entry_at i) s in (a ∙ c, b ∙ d)

used-free_entries :
    (tag : MmapTag) (n i : ℕ) (s : Pmm) → (free_entries tag n i s).used_pages ≡ s.used_pages
unfolding free_entries
used-free_entries tag zero i s = refl
used-free_entries tag (suc n) i s =
    used-free_entries tag n (i + 1) (free_entry (tag.entry_at i) s)
    ∙ used-free_entry (tag.entry_at i) s

test-free_entries :
    (tag : MmapTag) (n i q : ℕ) {s : Pmm}
    → IsWf s
    → bitmap_test (free_entries tag n i s) q
      ≡ (if offered tag n i q && ltb q s.max_page_num then false else bitmap_test s q)
unfolding free_entries offered
test-free_entries tag zero i q {s} w = refl
test-free_entries tag (suc n) i q {s} w = ground (
  arith,
  test-free_entries tag n (i + 1) q {s = free_entry (tag.entry_at i) s}
      (free_entry-IsWf (tag.entry_at i) w),
  test-free_entry (tag.entry_at i) q w,
  free_entry-SameLimits (tag.entry_at i) s,
)

-- the variables after the first pass, and after the second
abbrev pub after_first_pass : MmapTag → Pmm → Pmm
after_first_pass tag s =
    let highest = highest_from tag (entry_count tag) 0 0 in
    let highest_addr = if ltb max_memory_size highest then max_memory_size else highest in
    record s {
      bitmap = all_ones max_bitmap_size;
      max_page_num = highest_addr / page_size;
      total_memory = highest_addr;
      total_pages = u32 (highest_addr / page_size);
    }

abbrev pub after_second_pass : MmapTag → Pmm → Pmm
after_second_pass tag s = free_entries tag (entry_count tag) 0 (after_first_pass tag s)

max_page_num-le :
    (highest : ℕ)
    → (if ltb max_memory_size highest then max_memory_size else highest) / page_size ≤ 2 ^ 20
max_page_num-le highest = ground arith

first_pass-IsWf : (tag : MmapTag) (s : Pmm) → IsWf (after_first_pass tag s)
first_pass-IsWf tag s =
    let small = max_page_num-le (highest_from tag (entry_count tag) 0 0) in
    all_ones-IsWf (after_first_pass tag s) max_bitmap_size refl (omega arith) small

-- After `pmm_init` with a memory map a page is used exactly if it lies in the first 4 MiB, or is out of
-- range, or no available entry offers it: an entry offers the pages from the one that its first byte
-- lies in, so also a page that it begins within, up to the one that its end lies in, which it leaves out.
pub test-pmm_init :
    (tag : MmapTag) (s : Pmm) (q : ℕ)
    → let t = pmm_init (some tag) s in
      bitmap_test t q ≡ (
        ltb q 1024
        || leb (after_first_pass tag s).max_page_num q
        || not (offered tag (entry_count tag) 0 q))
unfolding pmm_init
test-pmm_init tag s q =
    let small = max_page_num-le (highest_from tag (entry_count tag) 0 0) in
    let w = first_pass-IsWf tag s in
    ground (
      arith,
      test-reserve_run 1024 0 q (free_entries-IsWf tag (entry_count tag) 0 w),
      test-free_entries tag (entry_count tag) 0 q w,
      test-all_ones (after_first_pass tag s) max_bitmap_size q refl,
    )

reserve-SameLimits : (s : Pmm) (p : ℕ) → SameLimits s (reserve s p)
unfolding reserve claim
reserve-SameLimits s p = ground (arith, set-SameLimits s p)

-- After `pmm_init` with a memory map, called while `used_pages` is 0, the allocator is ready, with as
-- many holes as pages that the map left used, and it counts the pages up to its limit.
pub pmm_init-Ready :
    (tag : MmapTag) (s : Pmm)
    → s.used_pages ≡ 0
    → Ready (used_count (after_second_pass tag s)) (pmm_init (some tag) s)
      × ((pmm_init (some tag) s).total_pages ≡ (pmm_init (some tag) s).max_page_num)
unfolding pmm_init
pmm_init-Ready tag s fresh =
    let w = free_entries-IsWf tag (entry_count tag) 0 (first_pass-IsWf tag s) in
    let t = after_second_pass tag s in
    let (a, b) = for_pages-SameLimits reserve reserve-SameLimits 1024 0 t in
    let (c, d) = free_entries-SameLimits tag (entry_count tag) 0 (after_first_pass tag s) in
    let none_used = used-free_entries tag (entry_count tag) 0 (after_first_pass tag s) in
    let small = max_page_num-le (highest_from tag (entry_count tag) 0 0) in
    (
      record {
        sound = reserve_run-Sound 1024 0 (record { wf = w; accounts = omega arith });
        null_used = ground (arith, test-reserve_run 1024 0 0 w);
      },
      omega arith,
    )
