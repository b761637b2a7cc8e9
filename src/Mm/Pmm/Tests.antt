-- ===== src/Mm/Pmm/Tests.antt =====
-- Runs of kernel/mm/pmm.c on a small allocator, and the theorems at concrete inputs.
use makh.Prelude.{
  ℕ, ◌+◌, ◌/◌, ◌%◌, ◌≤◌, ◌≡◌, ◌≢◌, ◌⊎◌, refl, ◌∙◌, sym, ap, true, false, not, ◌&&◌, ◌||◌, some, [],
  ◌∷◌, ltb, leb, ◌==◌, if◌then◌else◌, arith,
}
use makh.Prelude.Int.{negsuc}
use makh.Mm.Pmm.{
  Pmm, MmapTag, page_size, bitmap_set, bitmap_clear, bitmap_test, claim, release, for_pages,
  first_free, alloc_unarmed, run_length, find_run, pmm_alloc_page, pmm_alloc_pages, pmm_free_page,
  pmm_free_pages, pmm_reserve_region, pmm_init, entry_count,
}
use makh.Mm.Pmm.Bitmap.{IsWf}
use makh.Mm.Pmm.Alloc.{Allocated}
use makh.Mm.Pmm.Page.{pmm_alloc_page_outcome, free_after_alloc}
use makh.Mm.Pmm.Run.{AllocatedRun, Blocked, in_run, pmm_alloc_pages_outcome, test-free_pages}
use makh.Mm.Pmm.Accounts.{used_count}
use makh.Mm.Pmm.Client.{Ready, Step, Reach, Reach-Ready}
use makh.Mm.Pmm.Init.{after_first_pass, after_second_pass, offered, test-pmm_init, pmm_init-Ready}

-- Twelve pages: 0, 1 and 3 are used, and page 1 is not counted.
abbrev twelve : Pmm
twelve = record {
  bitmap = 0x0b ∷ 0x00 ∷ [];
  total_pages = 12;
  used_pages = 2;
  total_memory = 49152;
  max_page_num = 12;
  fail_in = negsuc 0;
}

alloc_runs :
    pmm_alloc_page twelve ≡ (8192, record twelve { bitmap = 0x0f ∷ 0x00 ∷ []; used_pages = 3 })
unfolding pmm_alloc_page alloc_unarmed first_free claim bitmap_set bitmap_test
alloc_runs = refl

alloc_pages_runs :
    pmm_alloc_pages 3 twelve ≡ (16384, record twelve { bitmap = 0x7b ∷ 0x00 ∷ []; used_pages = 5 })
unfolding pmm_alloc_pages run_length find_run for_pages claim bitmap_set bitmap_test
alloc_pages_runs = refl

alloc_pages_too_many : pmm_alloc_pages 9 twelve ≡ (0, twelve)
unfolding pmm_alloc_pages run_length find_run for_pages claim bitmap_set bitmap_test
alloc_pages_too_many = refl

free_runs :
    pmm_free_pages 12288 2 twelve ≡ record twelve { bitmap = 0x03 ∷ 0x00 ∷ []; used_pages = 1 }
unfolding pmm_free_pages for_pages release bitmap_clear bitmap_test
free_runs = refl

twelve-IsWf : IsWf twelve
twelve-IsWf = record { bytes = omega arith; room = omega arith; small = omega arith }

null_used : bitmap_test twelve 0 ≡ true
unfolding bitmap_test
null_used = refl

twelve-Ready : Ready 1 twelve
unfolding used_count bitmap_test
twelve-Ready = record { sound = record { wf = twelve-IsWf; accounts = refl }; null_used = refl }

pmm_alloc_page_outcome_example :
    (((pmm_alloc_page twelve).0 ≢ 0)
      × ((page : ℕ) × Allocated twelve (pmm_alloc_page twelve).1 (pmm_alloc_page twelve).0 page))
    ⊎ ((pmm_alloc_page twelve ≡ (0, twelve)) × ((q : ℕ) → bitmap_test twelve q ≡ true))
pmm_alloc_page_outcome_example = pmm_alloc_page_outcome twelve 0 twelve-IsWf null_used refl

free_after_alloc_here :
    let u = pmm_free_page (pmm_alloc_page twelve).0 (pmm_alloc_page twelve).1 in
    ((q : ℕ) → bitmap_test u q ≡ bitmap_test twelve q) × (u.used_pages ≡ 2)
free_after_alloc_here =
    free_after_alloc 0 twelve-IsWf null_used refl (omega arith)
      (λ e. cc (sym e ∙ ap (λ r. r.0) alloc_runs))

pmm_alloc_pages_outcome_example :
    (((pmm_alloc_pages 3 twelve).0 ≢ 0)
      × ((start : ℕ) × AllocatedRun twelve
            (pmm_alloc_pages 3 twelve).1
            (pmm_alloc_pages 3 twelve).0
            3
            start))
    ⊎ ((pmm_alloc_pages 3 twelve ≡ (0, twelve)) × ((p : ℕ) → p + 3 ≤ 12 → Blocked twelve 3 p))
pmm_alloc_pages_outcome_example =
    pmm_alloc_pages_outcome twelve 3 twelve-IsWf (omega arith) (omega arith) null_used

test-free_pages_here : bitmap_test (pmm_free_pages 12288 2 twelve) 3 ≡ (
    if not (12288 == 0) && (12288 % page_size == 0) && in_run (12288 / page_size) 2 3 && ltb 3 12
    then false
    else bitmap_test twelve 3)
test-free_pages_here = test-free_pages 12288 2 3 twelve-IsWf

Reach-Ready_example : Ready 1 (pmm_reserve_region 40000 100 (pmm_alloc_pages 3 twelve).1)
Reach-Ready_example =
    Reach-Ready
      (Reach.next (Reach.next Reach.here (Step.alloc_pages 3)) (Step.reserve_region 40000 100))
      twelve-Ready

abbrev memory_map : MmapTag
memory_map = record {
  size = 64;
  entry_size = 24;
  entry_at = λ i.
      if i == 0
      then record { addr = 0; len = 0x9fc00; type = 1 }
      else record { addr = 0x100000; len = 0x700000; type = 1 };
}

abbrev at_boot : Pmm
at_boot = record {
  bitmap = [];
  total_pages = 0;
  used_pages = 0;
  total_memory = 0;
  max_page_num = 0;
  fail_in = negsuc 0;
}

test-pmm_init_example : bitmap_test (pmm_init (some memory_map) at_boot) 1500 ≡ (
    ltb 1500 1024
    || leb (after_first_pass memory_map at_boot).max_page_num 1500
    || not (offered memory_map (entry_count memory_map) 0 1500))
test-pmm_init_example = test-pmm_init memory_map at_boot 1500

pmm_init-Ready_here :
    Ready (used_count (after_second_pass memory_map at_boot)) (pmm_init (some memory_map) at_boot)
    × ((pmm_init (some memory_map) at_boot).total_pages
        ≡ (pmm_init (some memory_map) at_boot).max_page_num)
pmm_init-Ready_here = pmm_init-Ready memory_map at_boot refl
