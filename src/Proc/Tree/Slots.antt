-- ===== src/Proc/Tree/Slots.antt =====
-- kernel/proc/table/table.c: the slots of the process table.
use makh.Prelude.{
  ℕ, zero, suc, ◌+◌, ◌%◌, ◌^◌, ◌≡◌, ◌≢◌, ◌≤◌, ◌<◌, ◌⊎◌, inl, inr, refl, sym, ◌∙◌, ap, subst, true,
  false, not, ◌&&◌, Option, none, some, List, [], ◌∷◌, map, set, get_elem?, ltb, leb, ◌==◌,
  if◌then◌else◌, arith, ℕ_discrete, Bool-cases,
}
use makh.Prelude.Int.{pos, negsuc}
use makh.Proc.Links.{Ptr, null, count, length}
use makh.Proc.Sched.Wait.{max_processes}
use makh.Proc.Pid.{pid_max}
use makh.Proc.Tree.{
  Procs, find_slot, claim, proc_table_alloc, proc_table_insert, proc_table_free, find_from,
  proc_find,
}

-- The table has its slots, a process has at most one of them, and the count is of those in use.
pub record Slots (s : Procs) : Type 0 where
  pub size : length s.table ≡ max_processes
  pub once : (a : Ptr) → a ≢ null → count a s.table ≤ 1
  pub number : s.process_count + count null s.table ≡ max_processes

-- A table in which `v` takes the slots of `p`.
abbrev pub replaced : Ptr → Ptr → List Ptr → List Ptr
replaced p v = map (λ q. if q == p then v else q)

replaced-none : (p v : Ptr) (xs : List Ptr) → count p xs ≡ 0 → replaced p v xs ≡ xs
replaced-none p v [] absent = refl
replaced-none p v (x ∷ xs) absent =
    let test : (x == p) ≡ false = ground (arith, absent) in
    rw (test, replaced-none p v xs (ground (arith, absent))) refl

-- Where a search ends: nowhere, or at a place whose contents it knows.
abbrev Search : Ptr → ℕ → List Ptr → Type 0
Search p i xs =
    (find_slot p i xs ≡ none × (count p xs ≡ 0))
    ⊎ ((j : ℕ) × (find_slot p i xs ≡ some (i + j))
        × (count p xs ≢ 0)
        × (get_elem? xs j ≡ some p)
        × ((v : Ptr) → count p xs ≡ 1 → set xs j v ≡ replaced p v xs)
        × ((v a : Ptr)
            → count a (set xs j v) + (if p == a then 1 else 0)
              ≡ count a xs + (if v == a then 1 else 0)))

find_slot-Search : (p : Ptr) (i : ℕ) (xs : List Ptr) → Search p i xs
unfolding find_slot
find_slot-Search p i [] = inl (refl, refl)
find_slot-Search p i (q ∷ xs) = elim (ℕ_discrete q p) [
  | yes e ↦
      let test : (q == p) ≡ true = ground arith in
      inr (
        0,
        rw test (ap some (omega arith)),
        ground arith,
        ap some e,
        λ v once. rw (test, replaced-none p v xs (ground (arith, once))) refl,
        λ v a. rw e (omega arith),
      )
  | no other ↦
      let test : (q == p) ≡ false = ground arith in
      elim (find_slot-Search p (i + 1) xs) [
        | inl (none_here, zero_here) ↦ inl (rw test none_here, ground (arith, zero_here))
        | inr (j, found, some_here, held, places, counts) ↦ inr (
          suc j,
          rw test (found ∙ ap some (omega arith)),
          ground (arith, some_here),
          held,
          λ v once. rw test (ap (λ l. q ∷ l) (places v (ground (arith, once)))),
          λ v a. omega (arith, counts v a),
        )
      ]
]

length-set : (xs : List Ptr) (i : ℕ) (v : Ptr) → length (set xs i v) ≡ length xs
length-set [] i v = refl
length-set (x ∷ xs) zero v = refl
length-set (x ∷ xs) (suc i) v = ap suc (length-set xs i v)

-- A slot that `p` gets from `q` in a table.
put-Slots :
    (s : Procs) (p : Ptr) (j : ℕ)
    → Slots s
    → p ≢ null
    → count p s.table ≡ 0
    → count null s.table ≢ 0
    → ((v a : Ptr)
        → count a (set s.table j v) + (if null == a then 1 else 0)
          ≡ count a s.table + (if v == a then 1 else 0))
    → Slots (record s { table = set s.table j p; process_count = (s.process_count + 1) % 2 ^ 32 })
put-Slots s p j v proper new room counts = record {
  size = length-set s.table j p ∙ v.size;
  once = λ a some_a. elim (ℕ_discrete a p) [
    | yes e ↦ rw e (ground (arith, counts p p, new, proper))
    | no other ↦ ground (arith, counts p a, v.once a some_a, some_a, other)
  ];
  number = ground (arith, counts p null, v.number, proper, room);
}

-- What a claim of a slot for `p` ends with: `p` is in the table once and counted, or nothing changes, since every
-- slot is in use.
abbrev pub Claimed : Ptr → Procs → Option Procs → Type 0
Claimed p s r =
    ((s' : Procs) × (r ≡ some s')
      × Slots s'
      × (count p s'.table ≡ 1)
      × ((a : Ptr) → a ≢ p → a ≢ null → count a s'.table ≡ count a s.table)
      × ((j : ℕ) × (get_elem? s.table j ≡ some null) × (s'.table ≡ set s.table j p))
      × (s'.process_count ≡ s.process_count + 1))
    ⊎ ((r ≡ none) × (s.process_count ≡ max_processes))

claim-Claimed :
    (s : Procs) (p : Ptr) → Slots s → p ≢ null → count p s.table ≡ 0 → Claimed p s (claim p s)
unfolding claim
claim-Claimed s p v proper new = elim (find_slot-Search null 0 s.table) [
  | inl (none_free, full) ↦ inr (rw none_free refl, omega (arith, v.number, full))
  | inr (j, found, room, held, places, counts) ↦
      let at : find_slot null 0 s.table ≡ some j = found ∙ ap some (omega arith) in
      inl (
        record s { table = set s.table j p; process_count = (s.process_count + 1) % 2 ^ 32 },
        rw at refl,
        put-Slots s p j v proper new room counts,
        ground (arith, counts p p, new, proper),
        λ a other some_a. ground (arith, counts p a, other, some_a),
        (j, held, refl),
        ground (arith, v.number, room),
      )
]

-- What a table is after `p` has come into it: it is there once and counted, in a slot that was free, and
-- all other slots are as before.
pub record CameIn (p : Ptr) (s s' : Procs) : Type 0 where
  pub slots : Slots s'
  pub there : count p s'.table ≡ 1
  pub others : (a : Ptr) → a ≢ p → a ≢ null → count a s'.table ≡ count a s.table
  pub place : (j : ℕ) × (get_elem? s.table j ≡ some null) × (s'.table ≡ set s.table j p)
  pub counted : s'.process_count ≡ s.process_count + 1

-- `proc_table_alloc` and `proc_table_insert`, given a process that is not in the table, put it into a slot of its
-- own while one of the 256 is free, and otherwise change nothing and report it.
pub proc_table_alloc-CameIn :
    (s : Procs) (p : Ptr)
    → Slots s
    → p ≢ null
    → count p s.table ≡ 0
    → ((s.process_count < max_processes)
        × ((s' : Procs) × (proc_table_alloc p s ≡ (p, s'))
            × (proc_table_insert p s ≡ (pos 0, s'))
            × CameIn p s s'))
      ⊎ ((s.process_count ≡ max_processes)
          × (proc_table_alloc p s ≡ (null, s))
          × (proc_table_insert p s ≡ (negsuc 0, s)))
unfolding proc_table_alloc proc_table_insert
proc_table_alloc-CameIn s p v proper new =
    let test : (p == null) ≡ false = ground arith in
    elim (claim-Claimed s p v proper new) [
      | inl (s', run, slots, there, others, place, counted) ↦
          let room : s.process_count < max_processes = omega (arith, slots.number, counted) in
          let few : ltb s.process_count max_processes ≡ true = ground (arith, room) in
          inl (
            room,
            (
              s',
              rw (test, few, run) refl,
              rw (test, run) refl,
              record {
                slots = slots;
                there = there;
                others = others;
                place = place;
                counted = counted;
              },
            ),
          )
      | inr (run, full) ↦
          let many : ltb s.process_count max_processes ≡ false = ground (arith, full) in
          inr (full, rw (test, many) refl, rw (test, run) refl)
    ]

fits : (p : Ptr) (xs : List Ptr) → p ≢ null → count p xs + count null xs ≤ length xs
fits p [] proper = omega arith
fits p (x ∷ xs) proper = ground (arith, fits p xs proper, proper)

-- `proc_table_free` takes a process out of the table, where it is in it, and counts that: its slot becomes free, and
-- every other slot is as before.
pub proc_table_free-Slots :
    (s : Procs) (p : Ptr)
    → Slots s
    → p ≢ null
    → Slots (proc_table_free p s)
      × (count p (proc_table_free p s).table ≡ 0)
      × ((proc_table_free p s).table ≡ map (λ q. if q == p then null else q) s.table)
      × ((proc_table_free p s).process_count + count p s.table ≡ s.process_count)
unfolding proc_table_free
proc_table_free-Slots s p v proper =
    let test : (p == null) ≡ false = ground arith in
    elim (find_slot-Search p 0 s.table) [
      | inl (none_here, zero_here) ↦
          rw (test, none_here)
            (v, zero_here, sym (replaced-none p null s.table zero_here), ground (arith, zero_here))
      | inr (j, found, some_here, held, places, counts) ↦
          let at : find_slot p 0 s.table ≡ some j = found ∙ ap some (omega arith) in
          let one : count p s.table ≡ 1 = ground (arith, v.once p proper, some_here) in
          let positive : s.process_count ≢ 0 =
            λ e. omega (arith, e, v.number, v.size, one, fits p s.table proper) in
          rw (test, at)
            (
              record {
                size = length-set s.table j null ∙ v.size;
                once = λ a some_a. ground (arith, counts null a, v.once a some_a, some_a);
                number = ground (arith, counts null null, v.number, proper, positive);
              },
              ground (arith, counts null p, one, proper),
              places null one,
              ground (arith, one, positive),
            )
    ]

-- What `proc_find` answers: a process of the table with this number, or null where the table has none.
abbrev pub Answer : (Ptr → ℕ) → ℕ → List Ptr → Ptr → Type 0
Answer pid_of n xs r =
    ((r ≡ null) × ((a : Ptr) → a ≢ null → count a xs ≢ 0 → pid_of a ≢ n))
    ⊎ ((r ≢ null) × (count r xs ≢ 0) × (pid_of r ≡ n))

find_from-Answer :
    (pid_of : Ptr → ℕ) (n : ℕ) (xs : List Ptr) → Answer pid_of n xs (find_from pid_of n xs)
unfolding find_from
find_from-Answer pid_of n [] = inl (refl, λ a proper m. absurd (m refl))
find_from-Answer pid_of n (p ∷ xs) = elim (Bool-cases (not (p == null) && (pid_of p == n))) [
  | inl hit ↦ inr (rw hit (ground arith), rw hit (ground arith), rw hit (ground arith))
  | inr miss ↦
      let skip : find_from pid_of n (p ∷ xs) ≡ find_from pid_of n xs = rw miss refl in
      subst (Answer pid_of n (p ∷ xs)) (sym skip) (elim (find_from-Answer pid_of n xs) [
        | inl (nowhere, none_there) ↦ inl (
          nowhere,
          λ a proper m e. elim (ℕ_discrete p a) [
            | yes same ↦ ground (arith, same, miss, e, proper)
            | no other ↦ none_there a proper (ground (arith, m)) e
          ],
        )
        | inr (somewhere, inside, right) ↦ inr (somewhere, ground (arith, inside), right)
      ])
]

-- `proc_find` of a number below the limit answers with a process of the table that has it, and with null only where
-- no process of the table does; it answers any other number with null.
pub proc_find-Answer :
    (s : Procs)
    → ((n : ℕ) → n < pid_max → Answer s.pid n s.table (proc_find (pos n) s))
      × ((n : ℕ) → pid_max ≤ n → proc_find (pos n) s ≡ null)
      × ((n : ℕ) → proc_find (negsuc n) s ≡ null)
unfolding proc_find
proc_find-Answer s = (
  λ n small.
      let test : leb pid_max n ≡ false = ground (arith, small) in
      rw test (find_from-Answer s.pid n s.table),
  λ n large. let test : leb pid_max n ≡ true = ground (arith, large) in rw test refl,
  λ n. refl,
)
