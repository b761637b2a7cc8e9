-- ===== src/Proc/Tree/Tests.antt =====
-- A table with init, 1, the process 2, and its children 3 and 4; the numbers are 1, 5, 7 and 8.
use makh.Prelude.{
  ℕ, zero, suc, ◌+◌, ◌≡◌, ◌≢◌, ◌<◌, ◌⊎◌, ◌↔◌, refl, some, List, [], ◌∷◌, map, replicate, ◌==◌,
  if◌then◌else◌, arith,
}
use makh.Prelude.Int.{pos, negsuc}
use makh.Proc.Links.{Ptr, null, count}
use makh.Proc.Sched.Wait.{max_processes}
use makh.Proc.Tree.{
  Procs, proc_table_alloc, proc_table_insert, proc_table_free, find_from, proc_find,
  all_list_remove, proc_add_child, proc_remove_child, proc_reparent_orphans, in_table,
  check_children, totals_match, check_parent, check_slots, proc_tree_check,
}
use makh.Proc.Tree.Slots.{Slots, CameIn, proc_table_alloc-CameIn, proc_table_free-Slots}
use makh.Proc.Tree.Families.{Family, proc_add_child-Family, proc_remove_child-Family}
use makh.Proc.Tree.Orphans.{proc_reparent_orphans-Family}
use makh.Proc.Tree.Everyone.{Everyone, all_list_remove-Everyone}
use makh.Proc.Tree.Oracle.{Good, proc_tree_check-Good}

abbrev four : Procs
four = record {
  table = 1 ∷ (2 ∷ (3 ∷ (4 ∷ replicate 252 null)));
  process_count = 4;
  all_head = 1;
  all_tail = 4;
  all_count = 4;
  pid = λ t. if t == 1 then 1 else if t == 2 then 5 else if t == 3 then 7 else 8;
  all_next = λ t. if t == 1 then 2 else if t == 2 then 3 else if t == 3 then 4 else 0;
  all_prev = λ t. if t == 2 then 1 else if t == 3 then 2 else if t == 4 then 3 else 0;
  parent_pid = λ t. if t == 3 then 5 else if t == 4 then 5 else if t == 2 then 1 else 0;
  children_head = λ t. if t == 1 then 2 else if t == 2 then 3 else 0;
  children_tail = λ t. if t == 1 then 2 else if t == 2 then 4 else 0;
  sibling_next = λ t. if t == 3 then 4 else 0;
  child_count = λ t. if t == 1 then 1 else if t == 2 then 2 else 0;
}

find_init : proc_find (pos 1) four ≡ 1
unfolding proc_find find_from
find_init = refl

find_two : proc_find (pos 5) four ≡ 2
unfolding proc_find find_from
find_two = refl

consistent : proc_tree_check four ≡ 0
unfolding proc_tree_check check_slots check_parent totals_match check_children in_table
consistent = refl

count-replicate : (a : Ptr) (n : ℕ) → a ≢ null → count a (replicate n null) ≡ 0
count-replicate a zero proper = refl
count-replicate a (suc n) proper = ground (arith, count-replicate a n proper, proper)

four-Slots : Slots four
four-Slots = record {
  size = refl;
  once = λ a proper. ground (arith, count-replicate a 252 proper);
  number = refl;
}

init-Family : Family four 1 (2 ∷ [])
init-Family = record {
  chain = (refl, (λ e. omega arith), refl);
  tails = refl;
  once = λ a. ground arith;
  number = refl;
  parents = λ c m. ground arith;
}

two-Family : Family four 2 (3 ∷ (4 ∷ []))
two-Family = record {
  chain = (refl, (λ e. omega arith), (refl, (λ e. omega arith), refl));
  tails = refl;
  once = λ a. ground arith;
  number = refl;
  parents = λ c m. ground arith;
}

four-Everyone : Everyone four (1 ∷ (2 ∷ (3 ∷ (4 ∷ []))))
four-Everyone = record {
  chain = (
    refl,
    (λ e. omega arith),
    (refl, (λ e. omega arith), (refl, (λ e. omega arith), (refl, (λ e. omega arith), refl))),
  );
  backs = (refl, (refl, (refl, (refl, tt))));
  tails = refl;
  once = λ a. ground arith;
  number = refl;
}

apart : (a : Ptr) → count a (2 ∷ []) ≢ 0 → count a (3 ∷ (4 ∷ [])) ≡ 0
apart a m = ground arith

proc_table_alloc-CameIn_example :
    ((4 < max_processes)
      × ((s' : Procs) × (proc_table_alloc 5 four ≡ (5, s'))
          × (proc_table_insert 5 four ≡ (pos 0, s'))
          × CameIn 5 four s'))
    ⊎ ((4 ≡ max_processes)
        × (proc_table_alloc 5 four ≡ (null, four))
        × (proc_table_insert 5 four ≡ (negsuc 0, four)))
proc_table_alloc-CameIn_example = proc_table_alloc-CameIn four 5 four-Slots (λ e. omega arith) refl

proc_table_free-Slots_example :
    Slots (proc_table_free 3 four)
    × (count 3 (proc_table_free 3 four).table ≡ 0)
    × ((proc_table_free 3 four).table ≡ map (λ q. if q == 3 then null else q) four.table)
    × ((proc_table_free 3 four).process_count + 1 ≡ 4)
proc_table_free-Slots_example = proc_table_free-Slots four 3 four-Slots (λ e. omega arith)

proc_add_child-Family_here :
    Family (proc_add_child 2 5 four) 2 (3 ∷ (4 ∷ (5 ∷ [])))
    × ((r : Ptr) (ds : List Ptr)
        → Family four r ds
        → r ≢ 2
        → count 5 ds ≡ 0
        → ((a : Ptr) → count a (3 ∷ (4 ∷ [])) ≢ 0 → count a ds ≡ 0)
        → Family (proc_add_child 2 5 four) r ds)
proc_add_child-Family_here =
    proc_add_child-Family four 2 5 (3 ∷ (4 ∷ [])) two-Family (λ e. omega arith) (λ e. omega arith)
      refl (omega arith)

proc_remove_child-Family_example :
    (s' : Procs) × (proc_remove_child 3 four ≡ some s') × Family s' 2 (4 ∷ [])
proc_remove_child-Family_example =
    proc_remove_child-Family four 2 3 (3 ∷ (4 ∷ [])) two-Family (λ e. omega arith)
      (λ e. omega arith) find_two (omega arith)

proc_reparent_orphans-Family_example :
    (s' : Procs) × (proc_reparent_orphans 2 four ≡ some s')
    × Family s' 1 (2 ∷ (3 ∷ (4 ∷ [])))
    × Family s' 2 []
proc_reparent_orphans-Family_example =
    proc_reparent_orphans-Family four 1 2 (2 ∷ []) (3 ∷ (4 ∷ [])) find_init (λ e. omega arith)
      (λ e. omega arith) (λ e. omega arith) refl init-Family two-Family apart (omega arith)

all_list_remove-Everyone_example : Everyone (all_list_remove 3 four) (1 ∷ (2 ∷ (4 ∷ [])))
all_list_remove-Everyone_example =
    all_list_remove-Everyone four 3 (1 ∷ (2 ∷ [])) (4 ∷ []) four-Everyone

proc_tree_check-Good_example :
    (proc_tree_check four ≡ 0) ↔ ((p : Ptr) → p ≢ null → count p four.table ≢ 0 → Good four p)
proc_tree_check-Good_example = proc_tree_check-Good four
