-- ===== src/Proc/Tree.antt =====
-- kernel/proc/table/table.c, kernel/proc/list/list.c, kernel/proc/tree/tree.c: the process table, the list
-- of all processes, and the children of a process.
mod Tests
pub mod Everyone
pub mod Slots
pub mod Oracle
pub mod Orphans
pub mod Families
use makh.Prelude.{
  ℕ, zero, suc, ◌+◌, ◌-◌, ◌%◌, ◌^◌, Bool, true, false, not, ◌&&◌, ◌||◌, Option, none, some, List,
  [], ◌∷◌, length, get_or, set, replicate, ltb, leb, ◌==◌, if◌then◌else◌,
}
use makh.Prelude.Checked.{◌>>=◌}
use makh.Prelude.Int.{ℤ, pos, negsuc}
use makh.Proc.Links.{Ptr, null, upd}
use makh.Proc.Sched.Wait.{max_processes}
use makh.Proc.Pid.{pid_max}

-- `process_table`, `process_count`, `all_processes`, and the fields of each process that these files use.
pub record Procs : Type 0 where
  pub table : List Ptr
  pub process_count : ℕ
  pub all_head : Ptr
  pub all_tail : Ptr
  pub all_count : ℕ
  pub pid : Ptr → ℕ
  pub all_next : Ptr → Ptr
  pub all_prev : Ptr → Ptr
  pub parent_pid : Ptr → ℕ
  pub children_head : Ptr → Ptr
  pub children_tail : Ptr → Ptr
  pub sibling_next : Ptr → Ptr
  pub child_count : Ptr → ℕ

pub proc_table_init : Procs → Procs
proc_table_init s = record s { table = replicate max_processes null; process_count = 0 }

-- The first slot from `i` on that holds `p`.
pub find_slot : Ptr → ℕ → List Ptr → Option ℕ
find_slot p i [] = none
find_slot p i (q ∷ slots) = let rest = find_slot p (i + 1) slots in if q == p then some i else rest

-- The claim of a slot, which `proc_table_alloc` and `proc_table_insert` share.
pub claim : Ptr → Procs → Option Procs
claim p s = find_slot null 0 s.table >>= λ i.
    some (record s { table = set s.table i p; process_count = (s.process_count + 1) % 2 ^ 32 })

-- `proc` is what `kmalloc` answers; the result is null where there is no memory or no slot.
pub proc_table_alloc : Ptr → Procs → Ptr × Procs
proc_table_alloc proc s =
    if (proc == null) || not (ltb s.process_count max_processes)
    then (null, s)
    else elim (claim proc s) [ none ↦ (null, s) | some s' ↦ (proc, s') ]

pub proc_table_insert : Ptr → Procs → ℤ × Procs
proc_table_insert proc s =
    if proc == null
    then (negsuc 0, s)
    else elim (claim proc s) [ none ↦ (negsuc 0, s) | some s' ↦ (pos 0, s') ]

pub proc_table_free : Ptr → Procs → Procs
proc_table_free proc s = if proc == null then s else elim (find_slot proc 0 s.table) [
  | none ↦ s
  | some i ↦ record s {
    table = set s.table i null;
    process_count = (s.process_count + 2 ^ 32 - 1) % 2 ^ 32;
  }
]

-- The loop of `proc_find`.
pub find_from : (Ptr → ℕ) → ℕ → List Ptr → Ptr
find_from pid_of n [] = null
find_from pid_of n (p ∷ slots) =
    let rest = find_from pid_of n slots in if not (p == null) && (pid_of p == n) then p else rest

pub proc_find : ℤ → Procs → Ptr
proc_find (negsuc n) s = null
proc_find (pos n) s = if leb pid_max n then null else find_from s.pid n s.table

pub proc_get_count : Procs → ℕ
proc_get_count s = s.process_count

pub all_list_add : Ptr → Procs → Procs
all_list_add proc s = if proc == null then s else record s {
  all_next =
      if s.all_tail == null
      then upd s.all_next proc null
      else upd (upd s.all_next proc null) s.all_tail proc;
  all_prev = upd s.all_prev proc s.all_tail;
  all_head = if s.all_tail == null then proc else s.all_head;
  all_tail = proc;
  all_count = (s.all_count + 1) % 2 ^ 32;
}

pub all_list_remove : Ptr → Procs → Procs
all_list_remove proc s =
    let before = s.all_prev proc in
    let after = s.all_next proc in
    if proc == null then s else record s {
      all_next =
          if before == null
          then upd s.all_next proc null
          else upd (upd s.all_next before after) proc null;
      all_prev =
          if after == null
          then upd s.all_prev proc null
          else upd (upd s.all_prev after before) proc null;
      all_head = if before == null then after else s.all_head;
      all_tail = if after == null then before else s.all_tail;
      all_count = s.all_count - 1;
    }

pub proc_add_child : Ptr → Ptr → Procs → Procs
proc_add_child parent child s =
    let tail = s.children_tail parent in
    if (parent == null) || (child == null) then s else record s {
      parent_pid = upd s.parent_pid child (s.pid parent);
      sibling_next =
          if tail == null
          then upd s.sibling_next child null
          else upd (upd s.sibling_next child null) tail child;
      children_head = if tail == null then upd s.children_head parent child else s.children_head;
      children_tail = upd s.children_tail parent child;
      child_count = upd s.child_count parent ((s.child_count parent + 1) % 2 ^ 32);
    }

-- What the loop of `proc_remove_child` does where it finds the child, behind `prev`.
pub unlink_child : Ptr → Ptr → Ptr → Procs → Procs
unlink_child parent prev child s =
    let after = s.sibling_next child in
    record s {
      sibling_next =
          if prev == null
          then upd s.sibling_next child null
          else upd (upd s.sibling_next prev after) child null;
      children_head = if prev == null then upd s.children_head parent after else s.children_head;
      children_tail =
          if child == s.children_tail parent
          then upd s.children_tail parent prev
          else s.children_tail;
      child_count = upd s.child_count parent (s.child_count parent - 1);
    }

-- The loop, on the rounds left.
pub remove_child_from : ℕ → Ptr → Ptr → Ptr → Ptr → Procs → Option Procs
remove_child_from zero parent prev cur child s = none
remove_child_from (suc n) parent prev cur child s =
    let rest = remove_child_from n parent cur (s.sibling_next cur) child s in
    if cur == null
    then some s
    else if cur == child
    then some (unlink_child parent prev child s)
    else rest

-- No result where it panics: the parent is not in the table.
pub proc_remove_child : Ptr → Procs → Option Procs
proc_remove_child child s =
    let parent = proc_find (pos (s.parent_pid child)) s in
    if child == null
    then some s
    else if parent == null
    then none
    else remove_child_from (max_processes + 1) parent null (s.children_head parent) child s

-- One round of the loop of `proc_reparent_orphans`: `child` goes to `init`.
pub adopt : Ptr → Ptr → Procs → Procs
adopt init child s =
    let tail = s.children_tail init in
    record s {
      parent_pid = upd s.parent_pid child 1;
      sibling_next =
          if tail == null
          then upd s.sibling_next child null
          else upd (upd s.sibling_next child null) tail child;
      children_head = if tail == null then upd s.children_head init child else s.children_head;
      children_tail = upd s.children_tail init child;
      child_count = upd s.child_count init ((s.child_count init + 1) % 2 ^ 32);
    }

-- Another, without an init to go to.
pub abandon : Ptr → Procs → Procs
abandon child s = record s {
  parent_pid = upd s.parent_pid child 0;
  sibling_next = upd s.sibling_next child null;
}

-- The loop, on the rounds left.
pub reparent_from : ℕ → Ptr → Ptr → Ptr → Procs → Option Procs
reparent_from zero init dead child s = none
reparent_from (suc n) init dead child s =
    let next = s.sibling_next child in
    let moved =
      if not (init == null) && not (init == dead) then adopt init child s else abandon child s in
    let rest = reparent_from n init dead next moved in if child == null then some s else rest

pub proc_reparent_orphans : Ptr → Procs → Option Procs
proc_reparent_orphans dead s =
    if dead == null
    then some s
    else (reparent_from (max_processes + 1) (proc_find (pos 1) s) dead (s.children_head dead) s
        >>= λ s'. some (record s' {
          children_head = upd s'.children_head dead null;
          children_tail = upd s'.children_tail dead null;
          child_count = upd s'.child_count dead 0;
        }))

pub in_table : Ptr → List Ptr → Bool
in_table p [] = false
in_table p (q ∷ slots) = (q == p) || in_table p slots

-- The walk of `proc_tree_check` over the children of `p`, on the rounds left: how many there are and the last one,
-- or none where one is bad.
pub check_children : ℕ → Ptr → Ptr → ℕ → Ptr → Procs → Option (ℕ × Ptr)
check_children zero p c n last s = none
check_children (suc k) p c n last s =
    let rest = check_children k p (s.sibling_next c) (n + 1) c s in
    if c == null
    then some (n, last)
    else if not (in_table c s.table) || not (s.parent_pid c == s.pid p) || ltb max_processes (n + 1)
    then none
    else rest

-- The test behind the walk.
pub totals_match : Ptr → Procs → Option (ℕ × Ptr) → Bool
totals_match p s none = false
totals_match p s (some (n, last)) = (last == s.children_tail p) && (n == s.child_count p)

-- Is the parent `p` good?
pub check_parent : Ptr → Procs → Bool
check_parent p s =
    totals_match p s (check_children (max_processes + 1) p (s.children_head p) 0 null s)

-- The loop over the slots from `i` on.
pub check_slots : ℕ → List Ptr → Procs → ℕ
check_slots i [] s = 0
check_slots i (p ∷ slots) s =
    let rest = check_slots (i + 1) slots s in
    if (p == null) || check_parent p s then rest else i + 1

pub proc_tree_check : Procs → ℕ
proc_tree_check s = check_slots 0 s.table s
