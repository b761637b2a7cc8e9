-- ===== src/Mm/Pmm.antt =====
-- kernel/mm/pmm.c: the physical page allocator, a bitmap with one bit for each 4 KiB page.
-- The file-scope variables are the record `Pmm`; a function that changes them returns the new
-- record. What the functions print and the saving of the interrupt flag leave no trace in it.
pub mod Bitmap
pub mod Alloc
pub mod Page
pub mod Run
pub mod Accounts
pub mod Client
pub mod Init
mod Tests
use makh.Prelude.{
  ℕ, zero, suc, ◌+◌, ◌-◌, ◌*◌, ◌/◌, ◌%◌, ◌^◌, Bool, true, false, not, ◌&&◌, ◌||◌, bit_and, bit_or,
  Option, none, some, List, get_or, set, replicate, ltb, leb, ◌==◌, if◌then◌else◌,
}
use makh.Prelude.Int.{ℤ, pos, negsuc}

-- The file-scope variables: bytes of `bitmap`, two `uint32_t` counts, two `uint64_t` sizes and the
-- `int64_t` that arms a test fault.
pub record Pmm : Type 0 where
  pub bitmap : List ℕ
  pub total_pages : ℕ
  pub used_pages : ℕ
  pub total_memory : ℕ
  pub max_page_num : ℕ
  pub fail_in : ℤ

abbrev pub page_size : ℕ
page_size = 4096

abbrev pub u32 : ℕ → ℕ
u32 n = n % 2 ^ 32

abbrev pub u64 : ℕ → ℕ
u64 n = n % 2 ^ 64

abbrev pub byte_of : Pmm → ℕ → ℕ
byte_of s page = get_or s.bitmap (page / 8) 0

-- `bitmap[byte_idx] |= (1 << bit_pos)`
pub bitmap_set : Pmm → ℕ → Pmm
bitmap_set s page =
    if leb s.max_page_num page
    then s
    else record s { bitmap = set s.bitmap (page / 8) (bit_or (byte_of s page) (2 ^ (page % 8))) }

-- `bitmap[byte_idx] &= ~(1 << bit_pos)`: the complement is cut to a byte by the store.
pub bitmap_clear : Pmm → ℕ → Pmm
bitmap_clear s page = if leb s.max_page_num page then s else record s {
  bitmap = set s.bitmap (page / 8) (bit_and (byte_of s page) (2 ^ 8 - 1 - 2 ^ (page % 8)));
}

-- A page out of range counts as used.
pub bitmap_test : Pmm → ℕ → Bool
bitmap_test s page =
    if leb s.max_page_num page then true else not (bit_and (byte_of s page / 2 ^ (page % 8)) 1 == 0)

abbrev pub addr_to_page : ℕ → ℕ
addr_to_page phys_addr = phys_addr / page_size

abbrev pub page_to_addr : ℕ → ℕ
page_to_addr page_num = u64 (page_num * page_size)

-- `bitmap_set(p); used_pages++`
pub claim : Pmm → ℕ → Pmm
claim s page = let t = bitmap_set s page in record t { used_pages = u32 (t.used_pages + 1) }

-- `if (bitmap_test(p)) { bitmap_clear(p); used_pages--; }`, of the two functions that free
pub release : Pmm → ℕ → Pmm
release s page =
    let t = bitmap_clear s page in
    if bitmap_test s page then record t { used_pages = u32 (t.used_pages + 2 ^ 32 - 1) } else s

-- `if (!bitmap_test(p)) { bitmap_set(p); used_pages++; }`, of `pmm_init` and `pmm_reserve_region`
pub reserve : Pmm → ℕ → Pmm
reserve s page = if bitmap_test s page then s else claim s page

-- `for (p = page; p < page + n; p++) body`, on the rounds left
pub for_pages : (Pmm → ℕ → Pmm) → ℕ → ℕ → Pmm → Pmm
for_pages body zero page s = s
for_pages body (suc n) page s = for_pages body n (page + 1) (body s page)

-- An entry of the memory map, and the tag that holds them: `entry_at i` is what stands at
-- `entries + i * entry_size`.
pub record MmapEntry : Type 0 where
  pub addr : ℕ
  pub len : ℕ
  pub type : ℕ

pub record MmapTag : Type 0 where
  pub size : ℕ
  pub entry_size : ℕ
  pub entry_at : ℕ → MmapEntry

abbrev pub max_memory_size : ℕ
max_memory_size = 2 ^ 32

abbrev pub max_bitmap_size : ℕ
max_bitmap_size = 131072

abbrev pub reserved_low_memory : ℕ
reserved_low_memory = 0x400000

-- `entry->type == MULTIBOOT_MEMORY_AVAILABLE`
abbrev pub is_available : MmapEntry → Bool
is_available e = e.type == 1

-- `(mmap_tag->size - 16) / mmap_tag->entry_size`, in `uint32_t`
pub entry_count : MmapTag → ℕ
entry_count tag = u32 (tag.size + 2 ^ 32 - 16) / tag.entry_size

-- the first pass, on the entries left
pub highest_from : MmapTag → ℕ → ℕ → ℕ → ℕ
highest_from tag zero i highest = highest
highest_from tag (suc n) i highest =
    let e = tag.entry_at i in
    let end_addr = u64 (e.addr + e.len) in
    highest_from tag n (i + 1)
      (if is_available e && ltb highest end_addr then end_addr else highest)

-- the pages of one entry that the second pass frees
pub free_entry : MmapEntry → Pmm → Pmm
free_entry e s =
    let start_page = e.addr / page_size in
    let end_page = u64 (e.addr + e.len) / page_size in
    let end = if ltb s.max_page_num end_page then s.max_page_num else end_page in
    if is_available e then for_pages bitmap_clear (end - start_page) start_page s else s

-- the second pass
pub free_entries : MmapTag → ℕ → ℕ → Pmm → Pmm
free_entries tag zero i s = s
free_entries tag (suc n) i s = free_entries tag n (i + 1) (free_entry (tag.entry_at i) s)

-- all pages used: the loop that fills `bitmap`, of `n` bytes
pub all_ones : ℕ → List ℕ
all_ones n = replicate n 0xff

-- `s` holds the variables before the call, of which `used_pages` and `fail_in` are kept.
pub pmm_init : Option MmapTag → Pmm → Pmm
pmm_init none s = record s { bitmap = all_ones max_bitmap_size }
pmm_init (some tag) s =
    let highest = highest_from tag (entry_count tag) 0 0 in
    let highest_addr = if ltb max_memory_size highest then max_memory_size else highest in
    let t = record s {
      bitmap = all_ones max_bitmap_size;
      max_page_num = highest_addr / page_size;
      total_memory = highest_addr;
      total_pages = u32 (highest_addr / page_size);
    } in
    for_pages reserve (reserved_low_memory / page_size) 0 (free_entries tag (entry_count tag) 0 t)

pub pmm_reserve_region : ℕ → ℕ → Pmm → Pmm
pmm_reserve_region phys_addr len s =
    let start = phys_addr / page_size in
    let end_page = u64 (phys_addr + len + page_size - 1) / page_size in
    let end = if ltb s.max_page_num end_page then s.max_page_num else end_page in
    if len == 0 then s else for_pages reserve (end - start) start s

pub pmm_test_fail_after : ℤ → Pmm → Pmm
pmm_test_fail_after n s = record s { fail_in = n }

-- the search of `pmm_alloc_page` from `page` on, with `n` pages left to look at
pub first_free : Pmm → ℕ → ℕ → Option ℕ
first_free s zero page = none
first_free s (suc n) page =
    let rest = first_free s n (page + 1) in if bitmap_test s page then rest else some page

-- The address handed out is 0 for NULL.
abbrev pub take_first : Pmm → Option ℕ → ℕ × Pmm
take_first s none = (0, s)
take_first s (some page) = (page_to_addr page, claim s page)

pub alloc_unarmed : Pmm → ℕ × Pmm
alloc_unarmed s = take_first s (first_free s s.max_page_num 0)

abbrev pub alloc_armed : ℤ → Pmm → ℕ × Pmm
alloc_armed (negsuc _) s = alloc_unarmed s
alloc_armed (pos zero) s = (0, record s { fail_in = negsuc 0 })
alloc_armed (pos (suc n)) s = alloc_unarmed (record s { fail_in = pos n })

pub pmm_alloc_page : Pmm → ℕ × Pmm
pmm_alloc_page s = alloc_armed s.fail_in s

-- `while (k < n && !bitmap_test(start + k)) k++`, on the rounds left
pub run_length : Pmm → ℕ → ℕ → ℕ
run_length s zero page = 0
run_length s (suc n) page =
    let rest = run_length s n (page + 1) in if bitmap_test s page then 0 else rest + 1

-- The scan for a run of `n` free pages. A round that fails goes on past the used page that broke the
-- run. `start + n` does not wrap where it is at most `max_page_num`; a fuel of `max_page_num + 1`
-- rounds is enough.
pub find_run : ℕ → Pmm → ℕ → ℕ → Option ℕ
find_run zero s n start = none
find_run (suc fuel) s n start =
    let k = run_length s n start in
    let rest = find_run fuel s n (start + k + 1) in
    if leb (start + n) s.max_page_num then (if k == n then some start else rest) else none

abbrev pub take_run : ℕ → Pmm → Option ℕ → ℕ × Pmm
take_run n s none = (0, s)
take_run n s (some start) = (page_to_addr start, for_pages claim n start s)

pub pmm_alloc_pages : ℕ → Pmm → ℕ × Pmm
pmm_alloc_pages n s =
    if n == 0
    then (0, s)
    else if n == 1
    then pmm_alloc_page s
    else take_run n s (find_run (s.max_page_num + 1) s n 0)

-- `base + i < max_page_num` ends the loop early.
pub pmm_free_pages : ℕ → ℕ → Pmm → Pmm
pmm_free_pages phys_addr n s =
    let base = addr_to_page phys_addr in
    let end = if ltb s.max_page_num (base + n) then s.max_page_num else base + n in
    if phys_addr == 0 || not (phys_addr % page_size == 0)
    then s
    else for_pages release (end - base) base s

pub pmm_free_page : ℕ → Pmm → Pmm
pmm_free_page phys_addr s =
    let page = addr_to_page phys_addr in
    if phys_addr == 0 || not (phys_addr % page_size == 0)
    then s
    else if ltb page s.max_page_num
    then release s page
    else s

-- `total_pages - used_pages` wraps in `uint32_t`.
pub pmm_get_free_memory : Pmm → ℕ
pmm_get_free_memory s = u32 (s.total_pages + 2 ^ 32 - s.used_pages) * page_size
