-- ===== src/Sync/RwLock/Holders.antt =====
-- kernel/pthread/pthread.c: how many readers and writers hold a read/write lock.
use makh.Prelude.{
  ℕ, zero, suc, ◌+◌, ◌-◌, ◌^◌, ◌<◌, ◌≡◌, ◌≢◌, inl, inr, refl, sym, ◌∙◌, ap, subst, true, false,
  some, arith, Bool-cases, Option-cases,
}
use makh.Prelude.Int.{ℤ, pos, negsuc, inc32, dec32, inc32-pos}
use makh.Proc.Links.{Ptr}
use makh.Proc.Sched.{Sched, is_zero}
use makh.Proc.Sched.Wait.{wq_wake_one, wq_wake_all, wait_begin}
use makh.Proc.Sched.Sleep.{wait_end}
use makh.Proc.Sched.Invariant.{unique}
use makh.Sync.Sem.{Call, returned, sleeping}
use makh.Sync.Sem.Uses.{none-ne-some, succeeds}
use makh.Sync.Mutex.{is_positive}
use makh.Sync.RwLock.{
  RwLock, pthread_rwlock_init, is_negative, keeps_readers_out, read_in, write_in,
  pthread_rwlock_rdlock, rdlock_again, pthread_rwlock_tryrdlock, pthread_rwlock_wrlock,
  wrlock_again, pthread_rwlock_trywrlock, wake_next, pthread_rwlock_unlock,
}

-- How often a call has taken the lock, and the lock that it leaves.
abbrev gained : Call RwLock → ℕ
gained (returned r l k) = succeeds r
gained (sleeping l k) = 0

abbrev lock_of : Call RwLock → RwLock
lock_of (returned r l k) = l
lock_of (sleeping l k) = l

-- A lock in use, with the numbers of readers and of writers that hold it. A thread unlocks it while it holds it,
-- and a reader asks for it while fewer than 2^31 - 1 hold it.
pub data Uses : ℕ → ℕ → RwLock → Type 0 where
  made : Uses 0 0 pthread_rwlock_init
  reading :
      {r w : ℕ} {l : RwLock} (now : ℕ) (k : Sched)
      → Uses r w l
      → r + 1 < 2 ^ 31
      → Uses
          (r + gained (pthread_rwlock_rdlock now l k))
          w
          (lock_of (pthread_rwlock_rdlock now l k))
  reader_wakes :
      {r w : ℕ} {l : RwLock} (self : Ptr) (now : ℕ) (k : Sched) (c : Call RwLock)
      → Uses r w l
      → r + 1 < 2 ^ 31
      → rdlock_again self now l k ≡ some c
      → Uses (r + gained c) w (lock_of c)
  try_reading :
      {r w : ℕ} {l : RwLock}
      → Uses r w l
      → r + 1 < 2 ^ 31
      → Uses (r + succeeds (pthread_rwlock_tryrdlock l).0) w (pthread_rwlock_tryrdlock l).1
  writing :
      {r w : ℕ} {l : RwLock} (now : ℕ) (k : Sched)
      → Uses r w l
      → Uses r
          (w + gained (pthread_rwlock_wrlock now l k))
          (lock_of (pthread_rwlock_wrlock now l k))
  writer_wakes :
      {r w : ℕ} {l : RwLock} (self : Ptr) (now : ℕ) (k : Sched) (c : Call RwLock)
      → Uses r w l
      → wrlock_again self now l k ≡ some c
      → Uses r (w + gained c) (lock_of c)
  try_writing :
      {r w : ℕ} {l : RwLock}
      → Uses r w l
      → Uses r (w + succeeds (pthread_rwlock_trywrlock l).0) (pthread_rwlock_trywrlock l).1
  reader_leaves :
      {r w : ℕ} {l : RwLock} (k : Sched) (a : ℤ × RwLock × Sched)
      → Uses r w l
      → r ≢ 0
      → pthread_rwlock_unlock l k ≡ some a
      → Uses (r - 1) w a.1
  writer_leaves :
      {r w : ℕ} {l : RwLock} (k : Sched) (a : ℤ × RwLock × Sched)
      → Uses r w l
      → w ≢ 0
      → pthread_rwlock_unlock l k ≡ some a
      → Uses r (w - 1) a.1

-- The state says who holds a lock: some readers and no writer, or one writer and no reader.
pub data Shared (r w : ℕ) (l : RwLock) : Type 0 where
  readers : w ≡ 0 → l.state ≡ pos r → Shared r w l
  writer : w ≡ 1 → r ≡ 0 → l.state ≡ negsuc 0 → Shared r w l

-- Only the state counts.
same_state :
    (r r' w w' : ℕ) (l l' : RwLock)
    → r' ≡ r
    → w' ≡ w
    → l'.state ≡ l.state
    → Shared r w l
    → Shared r' w' l'
same_state r r' w w' l l' er ew e (readers none_writes s) =
    readers (ew ∙ none_writes) (e ∙ s ∙ ap pos (sym er))
same_state r r' w w' l l' er ew e (writer one none_reads s) =
    writer (ew ∙ one) (er ∙ none_reads) (e ∙ s)

read_in-Shared :
    (r w : ℕ) (l : RwLock)
    → keeps_readers_out l ≡ false
    → r + 1 < 2 ^ 31
    → Shared r w l
    → Shared (r + 1) w (read_in l)
read_in-Shared r w l may few (readers none_writes s) =
    readers none_writes (ap inc32 s ∙ inc32-pos r few)
read_in-Shared r w l may few (writer one none_reads s) =
    absurd (ground (arith, may, ap is_negative s))

write_in-Shared :
    (r w : ℕ) (l : RwLock) → is_zero l.state ≡ true → Shared r w l → Shared r (w + 1) (write_in l)
write_in-Shared r w l may (readers none_writes s) =
    writer (omega (arith, none_writes)) (ground (arith, may, ap is_zero s)) refl
write_in-Shared r w l may (writer one none_reads s) = absurd (ground (arith, may, ap is_zero s))

abbrev Reads : ℕ → ℕ → Call RwLock → Type 0
Reads r w c = Shared (r + gained c) w (lock_of c)

abbrev Writes : ℕ → ℕ → Call RwLock → Type 0
Writes r w c = Shared r (w + gained c) (lock_of c)

rdlock-Reads :
    (r w now : ℕ) (l : RwLock) (k : Sched)
    → r + 1 < 2 ^ 31
    → Shared r w l
    → Reads r w (pthread_rwlock_rdlock now l k)
unfolding pthread_rwlock_rdlock
rdlock-Reads r w now l k few h = elim (Bool-cases (keeps_readers_out l)) [
  | inr may ↦
      let run : pthread_rwlock_rdlock now l k ≡ returned (pos 0) (read_in l) k = rw may refl in
      subst (Reads r w) (sym run) (read_in-Shared r w l may few h)
  | inl shut ↦
      let (rq, k') = wait_begin now 0 l.rq k in
      let run : pthread_rwlock_rdlock now l k ≡ sleeping (record l { rq = rq }) k' = rw shut refl in
      subst (Reads r w) (sym run)
        (same_state r (r + 0) w w l (record l { rq = rq }) (omega arith) refl refl h)
]

wrlock-Writes :
    (r w now : ℕ) (l : RwLock) (k : Sched)
    → Shared r w l
    → Writes r w (pthread_rwlock_wrlock now l k)
unfolding pthread_rwlock_wrlock
wrlock-Writes r w now l k h = elim (Bool-cases (is_zero l.state)) [
  | inl may ↦
      let run : pthread_rwlock_wrlock now l k ≡ returned (pos 0) (write_in l) k = rw may refl in
      subst (Writes r w) (sym run) (write_in-Shared r w l may h)
  | inr shut ↦
      let (wq, k') = wait_begin now 0 l.wq k in
      let l' = record l { waiting_writers = inc32 l.waiting_writers; wq = wq } in
      let run : pthread_rwlock_wrlock now l k ≡ sleeping l' k' = rw shut refl in
      subst (Writes r w) (sym run) (same_state r r w (w + 0) l l' refl (omega arith) refl h)
]

rd_again-Reads :
    (r w now : ℕ) (self : Ptr) (l : RwLock) (k : Sched) (c : Call RwLock)
    → r + 1 < 2 ^ 31
    → Shared r w l
    → rdlock_again self now l k ≡ some c
    → Reads r w c
unfolding rdlock_again
rd_again-Reads r w now self l k c few h e = elim (Option-cases (wait_end self l.rq k)) [
  | inl fails ↦ absurd (none-ne-some c (rw fails at e))
  | inr ((rc, rq, k'), runs) ↦
      let l' = record l { rq = rq } in
      subst (Reads r w) (unique refl (rw runs at e))
        (rdlock-Reads r w now l' k' few (same_state r r w w l l' refl refl refl h))
]

wr_again-Writes :
    (r w now : ℕ) (self : Ptr) (l : RwLock) (k : Sched) (c : Call RwLock)
    → Shared r w l
    → wrlock_again self now l k ≡ some c
    → Writes r w c
unfolding wrlock_again
wr_again-Writes r w now self l k c h e = elim (Option-cases (wait_end self l.wq k)) [
  | inl fails ↦ absurd (none-ne-some c (rw fails at e))
  | inr ((rc, wq, k'), runs) ↦
      let l' = record l { waiting_writers = dec32 l.waiting_writers; wq = wq } in
      subst (Writes r w) (unique refl (rw runs at e))
        (wrlock-Writes r w now l' k' (same_state r r w w l l' refl refl refl h))
]

try_read-Shared :
    (r w : ℕ) (l : RwLock)
    → r + 1 < 2 ^ 31
    → Shared r w l
    → Shared (r + succeeds (pthread_rwlock_tryrdlock l).0) w (pthread_rwlock_tryrdlock l).1
unfolding pthread_rwlock_tryrdlock
try_read-Shared r w l few h = elim (Bool-cases (keeps_readers_out l)) [
  | inr may ↦
      let run : pthread_rwlock_tryrdlock l ≡ (pos 0, read_in l) = rw may refl in
      subst (λ (a : ℤ × RwLock). Shared (r + succeeds a.0) w a.1) (sym run)
        (read_in-Shared r w l may few h)
  | inl shut ↦
      let run : pthread_rwlock_tryrdlock l ≡ (pos 16, l) = rw shut refl in
      subst (λ (a : ℤ × RwLock). Shared (r + succeeds a.0) w a.1) (sym run)
        (same_state r (r + 0) w w l l (omega arith) refl refl h)
]

try_write-Shared :
    (r w : ℕ) (l : RwLock)
    → Shared r w l
    → Shared r (w + succeeds (pthread_rwlock_trywrlock l).0) (pthread_rwlock_trywrlock l).1
unfolding pthread_rwlock_trywrlock
try_write-Shared r w l h = elim (Bool-cases (is_zero l.state)) [
  | inl may ↦
      let run : pthread_rwlock_trywrlock l ≡ (pos 0, write_in l) = rw may refl in
      subst (λ (a : ℤ × RwLock). Shared r (w + succeeds a.0) a.1) (sym run)
        (write_in-Shared r w l may h)
  | inr shut ↦
      let run : pthread_rwlock_trywrlock l ≡ (pos 16, l) = rw shut refl in
      subst (λ (a : ℤ × RwLock). Shared r (w + succeeds a.0) a.1) (sym run)
        (same_state r r w (w + 0) l l refl (omega arith) refl h)
]

-- Waking does not change who holds the lock.
wake_next_state :
    (l : RwLock) (k : Sched) (a : ℤ × RwLock × Sched) → wake_next l k ≡ some a → a.1.state ≡ l.state
unfolding wake_next
wake_next_state l k a e = elim (Bool-cases (is_zero l.state)) [
  | inr no_one ↦ ap (λ (b : ℤ × RwLock × Sched). b.1.state) (sym (unique refl (rw no_one at e)))
  | inl last ↦ elim (Bool-cases (is_positive l.waiting_writers)) [
    | inl wait ↦ elim (Option-cases (wq_wake_one l.wq k)) [
      | inl fails ↦ absurd (none-ne-some a (rw (last, wait, fails) at e))
      | inr (r, runs) ↦
          ap (λ (b : ℤ × RwLock × Sched). b.1.state)
            (sym (unique refl (rw (last, wait, runs) at e)))
    ]
    | inr wait ↦ elim (Option-cases (wq_wake_all l.rq k)) [
      | inl fails ↦ absurd (none-ne-some a (rw (last, wait, fails) at e))
      | inr (r, runs) ↦
          ap (λ (b : ℤ × RwLock × Sched). b.1.state)
            (sym (unique refl (rw (last, wait, runs) at e)))
    ]
  ]
]

unlock-Shared :
    (r w : ℕ) (l : RwLock) (k : Sched) (a : ℤ × RwLock × Sched)
    → Shared r w l
    → pthread_rwlock_unlock l k ≡ some a
    → (r ≢ 0 → Shared (r - 1) w a.1) × (w ≢ 0 → Shared r (w - 1) a.1)
unfolding pthread_rwlock_unlock
unlock-Shared r w l k a (writer one none_reads s) e =
    let negative : is_negative l.state ≡ true = ap is_negative s in
    let state = wake_next_state (record l { state = pos 0 }) k a (rw negative at e) in
    (
      λ some_read. absurd (some_read none_reads),
      λ some_write. readers (omega (arith, one)) (state ∙ ap pos (sym none_reads)),
    )
unlock-Shared zero w l k a (readers none_writes s) e =
    (λ some_read. absurd (some_read refl), λ some_write. absurd (some_write none_writes))
unlock-Shared (suc r) w l k a (readers none_writes s) e =
    let negative : is_negative l.state ≡ false = ap is_negative s in
    let positive : is_positive l.state ≡ true = ap is_positive s ∙ ground arith in
    let state =
      wake_next_state (record l { state = dec32 l.state }) k a (rw (negative, positive) at e) in
    (
      λ some_read. readers none_writes (state ∙ ap dec32 s ∙ ap pos (omega arith)),
      λ some_write. absurd (some_write none_writes),
    )

-- However threads lock a read/write lock for reading or writing, try, wake and unlock what they hold, it is held by
-- readers and no writer or by one writer and no reader, and its state is the number of the readers, or -1.
-- A reader asks for it only while fewer than 2^31 - 1 readers hold it, so that the state does not overflow.
pub Uses-Shared : (r w : ℕ) (l : RwLock) → Uses r w l → Shared r w l
unfolding pthread_rwlock_init
Uses-Shared r w l made = readers refl refl
Uses-Shared r w l (reading {r = p} {w = q} {l = m} now k u few) =
    rdlock-Reads p q now m k few (Uses-Shared p q m u)
Uses-Shared r w l (reader_wakes {r = p} {w = q} {l = m} self now k c u few e) =
    rd_again-Reads p q now self m k c few (Uses-Shared p q m u) e
Uses-Shared r w l (try_reading {r = p} {w = q} {l = m} u few) =
    try_read-Shared p q m few (Uses-Shared p q m u)
Uses-Shared r w l (writing {r = p} {w = q} {l = m} now k u) =
    wrlock-Writes p q now m k (Uses-Shared p q m u)
Uses-Shared r w l (writer_wakes {r = p} {w = q} {l = m} self now k c u e) =
    wr_again-Writes p q now self m k c (Uses-Shared p q m u) e
Uses-Shared r w l (try_writing {r = p} {w = q} {l = m} u) =
    try_write-Shared p q m (Uses-Shared p q m u)
Uses-Shared r w l (reader_leaves {r = p} {w = q} {l = m} k a u some_read e) =
    (unlock-Shared p q m k a (Uses-Shared p q m u) e).0 some_read
Uses-Shared r w l (writer_leaves {r = p} {w = q} {l = m} k a u some_write e) =
    (unlock-Shared p q m k a (Uses-Shared p q m u) e).1 some_write
