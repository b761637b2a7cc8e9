-- ===== src/Mm/Pmm/Accounts.antt =====
-- kernel/mm/pmm.c: `used_pages` moves with the number of used bits.
use makh.Prelude.{
  ℕ, zero, suc, ◌+◌, ◌-◌, ◌^◌, ◌≤◌, ◌<◌, ◌≡◌, inl, inr, refl, ◌∙◌, sym, ap, Bool, true, false, ◌||◌,
  ◌==◌, if◌then◌else◌, arith, ℕ_discrete, Bool-cases,
}
use makh.Mm.Pmm.{Pmm, u32, bitmap_test, claim, release, reserve, for_pages}
use makh.Mm.Pmm.Bitmap.{IsWf, test_out_of_range, used-clear}
use makh.Mm.Pmm.Alloc.{
  claim-IsWf, release-IsWf, test-claim, test-release, max-claim, max-release, used-claim,
}

-- How many of the numbers below `n` pass the test.
pub count_below : (ℕ → Bool) → ℕ → ℕ
count_below f zero = 0
count_below f (suc n) = count_below f n + (if f n then 1 else 0)

pub count_below-le : (f : ℕ → Bool) (n : ℕ) → count_below f n ≤ n
unfolding count_below
count_below-le f zero = omega arith
count_below-le f (suc n) = ground (arith, count_below-le f n)

count_below-same :
    (f g : ℕ → Bool) (n : ℕ) → ((q : ℕ) → q < n → f q ≡ g q) → count_below f n ≡ count_below g n
unfolding count_below
count_below-same f g zero h = refl
count_below-same f g (suc n) h =
    rw (h n (omega arith), count_below-same f g n (λ q k. h q (omega arith)))

-- One number that passes in addition counts for one.
count_below-add :
    (f g : ℕ → Bool) (p n : ℕ)
    → p < n
    → f p ≡ false
    → ((q : ℕ) → g q ≡ (f q || (p == q)))
    → count_below g n ≡ count_below f n + 1
unfolding count_below
count_below-add f g p zero h free e = absurd (omega arith)
count_below-add f g p (suc n) h free e = elim (ℕ_discrete p n) [
  | yes last ↦
      let before : count_below g n ≡ count_below f n =
        count_below-same g f n (λ q k. ground (arith, e q)) in
      let free_last : f n ≡ false = rw (← last) free in ground (arith, e n)
  | no ne ↦ ground (arith, count_below-add f g p n (omega arith) free e, e n)
]

unfoldable pub used_count : Pmm → ℕ
unfolding count_below
used_count s = count_below (bitmap_test s) s.max_page_num

-- `holes` used pages are not counted in `used_pages`.
pub record Sound (holes : ℕ) (s : Pmm) : Type 0 where
  pub wf : IsWf s
  pub accounts : s.used_pages + holes ≡ used_count s

pub used_count-le : (s : Pmm) → used_count s ≤ s.max_page_num
unfolding used_count
used_count-le s = count_below-le (bitmap_test s) s.max_page_num

pub used_count-claim :
    (s : Pmm) (p : ℕ)
    → IsWf s
    → p < s.max_page_num
    → bitmap_test s p ≡ false
    → used_count (claim s p) ≡ used_count s + 1
unfolding used_count
used_count-claim s p w h free =
    ap (count_below (bitmap_test (claim s p))) (max-claim s p)
    ∙ count_below-add (bitmap_test s) (bitmap_test (claim s p)) p s.max_page_num h free
        (λ q. test-claim p q w)

pub used_count-release :
    (s : Pmm) (p : ℕ)
    → IsWf s
    → p < s.max_page_num
    → bitmap_test s p ≡ true
    → used_count s ≡ used_count (release s p) + 1
unfolding used_count
used_count-release s p w h used =
    count_below-add (bitmap_test (release s p)) (bitmap_test s) p s.max_page_num h
      (ground (arith, test-release p p w))
      (λ q. ground (arith, test-release p q w, test_out_of_range s q))
    ∙ ap (λ n. count_below (bitmap_test (release s p)) n + 1) (sym (max-release s p))

pub in_range_of_free : (s : Pmm) (p : ℕ) → bitmap_test s p ≡ false → p < s.max_page_num
unfolding bitmap_test
in_range_of_free s p free = ground arith

pub claim-Sound :
    {holes : ℕ} {s : Pmm} (p : ℕ)
    → Sound holes s
    → bitmap_test s p ≡ false
    → Sound holes (claim s p)
claim-Sound {holes} {s} p v free = record {
  wf = claim-IsWf p v.wf;
  accounts = omega (
    arith,
    used_count-claim s p v.wf (in_range_of_free s p free) free,
    used-claim s p,
    used_count-le s,
  );
}

pub reserve-Sound : {holes : ℕ} {s : Pmm} (p : ℕ) → Sound holes s → Sound holes (reserve s p)
unfolding reserve
reserve-Sound {holes} {s} p v = elim (Bool-cases (bitmap_test s p)) [
  | inl used ↦ rw used v
  | inr free ↦ rw free (claim-Sound p v free)
]

used-release :
    (s : Pmm) (p : ℕ)
    → (release s p).used_pages
      ≡ (if bitmap_test s p then u32 (s.used_pages + 2 ^ 32 - 1) else s.used_pages)
unfolding release
used-release s p = ground (arith, used-clear s p)

release_unused : (s : Pmm) (p : ℕ) → bitmap_test s p ≡ false → release s p ≡ s
unfolding release
release_unused s p free = rw free

-- The count must not be 0: `used_pages--` would wrap.
pub release-Sound :
    {holes : ℕ} {s : Pmm} (p : ℕ)
    → Sound holes s
    → p < s.max_page_num
    → 0 < s.used_pages
    → Sound holes (release s p)
release-Sound {holes} {s} p v h counted = elim (Bool-cases (bitmap_test s p)) [
  | inr free ↦ rw (release_unused s p free) v
  | inl used ↦ record {
    wf = release-IsWf p v.wf;
    accounts =
        ground (arith, used_count-release s p v.wf h used, used-release s p, used_count-le s);
  }
]

pub claim_run-Sound :
    {holes : ℕ} (n start : ℕ) {s : Pmm}
    → Sound holes s
    → ((q : ℕ) → start ≤ q → q < start + n → bitmap_test s q ≡ false)
    → Sound holes (for_pages claim n start s)
unfolding for_pages
claim_run-Sound zero start v free = v
claim_run-Sound (suc n) start {s} v free =
    claim_run-Sound n (start + 1) (claim-Sound start v (free start (omega arith) (omega arith)))
      (λ q h k. ground (arith, test-claim start q v.wf, free q (omega arith) (omega arith)))

pub reserve_run-Sound :
    {holes : ℕ} (n start : ℕ) {s : Pmm} → Sound holes s → Sound holes (for_pages reserve n start s)
unfolding for_pages
reserve_run-Sound zero start v = v
reserve_run-Sound (suc n) start v = reserve_run-Sound n (start + 1) (reserve-Sound start v)

pub release_run-Sound :
    {holes : ℕ} (n start : ℕ) {s : Pmm}
    → Sound holes s
    → n ≤ s.max_page_num - start
    → n ≤ s.used_pages
    → Sound holes (for_pages release n start s)
unfolding for_pages
release_run-Sound zero start v h counted = v
release_run-Sound (suc n) start {s} v h counted =
    release_run-Sound n (start + 1) (release-Sound start v (omega arith) (omega arith))
      (omega (arith, max-release s start))
      (ground (arith, used-release s start, used_count-le s, v.accounts, v.wf.small))
