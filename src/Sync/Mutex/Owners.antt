-- ===== src/Sync/Mutex/Owners.antt =====
-- kernel/pthread/pthread.c: who holds a mutex, and how often.
use makh.Prelude.{
  ℕ, zero, suc, ◌+◌, ◌-◌, ◌^◌, ◌<◌, ◌≡◌, ◌≢◌, ◌⊎◌, inl, inr, refl, sym, ◌∙◌, ap, subst, true, false,
  not, ◌&&◌, ◌||◌, Option, some, ◌==◌, arith, Bool-cases, Option-cases, ℕ_discrete,
}
use makh.Prelude.Int.{ℤ, pos, inc32, dec32, inc32-pos}
use makh.Proc.Links.{Ptr, null, upd}
use makh.Proc.Sched.{Sched}
use makh.Proc.Sched.Wait.{WaitQueue, wq_wake_one, wait_begin}
use makh.Proc.Sched.Sleep.{wait_end}
use makh.Proc.Sched.Invariant.{unique}
use makh.Sync.Sem.{Call, returned, sleeping}
use makh.Sync.Sem.Uses.{none-ne-some, succeeds}
use makh.Sync.Mutex.{
  Mutex, recursive, error_check, pthread_mutex_init, pthread_mutex_lock, acquire, nest, lock_again,
  pthread_mutex_trylock, hand_over, is_positive, pthread_mutex_unlock,
}

-- What a call has answered: the thread holds the mutex once more, or it does not.
abbrev locks : Call Mutex → ℕ
locks (returned r m k) = succeeds r
locks (sleeping m k) = 0

abbrev mutex_of : Call Mutex → Mutex
mutex_of (returned r m k) = m
mutex_of (sleeping m k) = m

-- A mutex in use, with how often each thread has locked it more than unlocked it. A thread unlocks a mutex that does
-- not check its owner only while it holds it, and locks one only while it holds it fewer than 2^31 - 1 times.
pub data Uses : (Ptr → ℕ) → Mutex → Type 0 where
  initialised : (a : Option ℕ) → Uses (λ t. 0) (pthread_mutex_init a)
  locking :
      {d : Ptr → ℕ} {m : Mutex} (self : Ptr) (now : ℕ) (k : Sched)
      → Uses d m
      → d self + 1 < 2 ^ 31
      → Uses
          (upd d self (d self + locks (pthread_mutex_lock self now m k)))
          (mutex_of (pthread_mutex_lock self now m k))
  waking :
      {d : Ptr → ℕ} {m : Mutex} (self : Ptr) (now : ℕ) (k : Sched) (c : Call Mutex)
      → Uses d m
      → d self + 1 < 2 ^ 31
      → lock_again self now m k ≡ some c
      → Uses (upd d self (d self + locks c)) (mutex_of c)
  trying :
      {d : Ptr → ℕ} {m : Mutex} (self : Ptr)
      → Uses d m
      → d self + 1 < 2 ^ 31
      → Uses
          (upd d self (d self + succeeds (pthread_mutex_trylock self m).0))
          (pthread_mutex_trylock self m).1
  unlocking :
      {d : Ptr → ℕ} {m : Mutex} (self : Ptr) (k k' : Sched) (r : ℤ) (m' : Mutex)
      → Uses d m
      → (m.type ≡ error_check) ⊎ (m.type ≡ recursive) ⊎ (d self ≢ 0)
      → pthread_mutex_unlock self m k ≡ some (r, m', k')
      → Uses (upd d self (d self - succeeds r)) m'

-- The state of a mutex says who holds it: no thread, or its owner alone, as often as its depth says, more than
-- once only where it is recursive.
pub data Held (d : Ptr → ℕ) (m : Mutex) : Type 0 where
  free : m.locked ≡ false → ((t : Ptr) → d t ≡ 0) → Held d m
  held :
      (n : ℕ)
      → m.locked ≡ true
      → d m.owner ≡ n + 1
      → m.recursion ≡ pos (n + 1)
      → ((t : Ptr) → t ≢ m.owner → d t ≡ 0)
      → (m.type ≡ recursive) ⊎ (n ≡ 0)
      → Held d m

-- A count that a call leaves as it is.
same-Held :
    (d : Ptr → ℕ) (m : Mutex) (self : Ptr) (n : ℕ) → n ≡ d self → Held d m → Held (upd d self n) m
same-Held d m self n e (free f none_holds) = free f (λ t. ground (arith, e, none_holds t))
same-Held d m self n e (held i l mine depth others nests) =
    held i l (ground (arith, e, mine)) depth (λ t other. ground (arith, e, others t other)) nests

acquire-Held :
    (d : Ptr → ℕ) (m : Mutex) (self : Ptr)
    → m.locked ≡ false
    → Held d m
    → Held (upd d self (d self + 1)) (acquire self m)
acquire-Held d m self f (free e none_holds) =
    held 0 refl (ground (arith, none_holds self)) refl
      (λ t other. ground (arith, none_holds t, other)) (inr refl)
acquire-Held d m self f (held n l mine depth others nests) = absurd (ground (arith, f, l))

nest-Held :
    (d : Ptr → ℕ) (m : Mutex) (self : Ptr)
    → m.locked ≡ true
    → m.owner ≡ self
    → m.type ≡ recursive
    → d self + 1 < 2 ^ 31
    → Held d m
    → Held (upd d self (d self + 1)) (nest m)
nest-Held d m self l o ty few (free e none_holds) = absurd (ground (arith, l, e))
nest-Held d m self l o ty few (held n l' mine depth others nests) =
    held (n + 1) l (ground (arith, mine, o))
      (ap inc32 depth ∙ inc32-pos (n + 1) (omega (arith, few, mine, ap d o)))
      (λ t other. ground (arith, others t other, o, other)) (inl ty)

queue-Held : (d : Ptr → ℕ) (m : Mutex) (wq : WaitQueue) → Held d m → Held d (record m { wq = wq })
queue-Held d m wq (free e none_holds) = free e none_holds
queue-Held d m wq (held n l mine depth others nests) = held n l mine depth others nests

-- A call that answers at once, or sleeps.
abbrev Locks : (Ptr → ℕ) → Ptr → Call Mutex → Type 0
Locks d self c = Held (upd d self (d self + locks c)) (mutex_of c)

lock-Locks :
    (d : Ptr → ℕ) (m : Mutex) (self : Ptr) (now : ℕ) (k : Sched)
    → d self + 1 < 2 ^ 31
    → Held d m
    → Locks d self (pthread_mutex_lock self now m k)
unfolding pthread_mutex_lock
lock-Locks d m self now k few h = elim (Bool-cases m.locked) [
  | inr f ↦
      let run : pthread_mutex_lock self now m k ≡ returned (pos 0) (acquire self m) k = rw f refl in
      subst (Locks d self) (sym run) (acquire-Held d m self f h)
  | inl l ↦ elim (Bool-cases (m.owner == self)) [
    | inr other ↦
        let (wq, k') = wait_begin now 0 m.wq k in
        let run : pthread_mutex_lock self now m k ≡ sleeping (record m { wq = wq }) k' =
          rw (l, other) refl in
        subst (Locks d self) (sym run)
          (queue-Held _ m wq (same-Held d m self (d self + 0) (omega arith) h))
    | inl o ↦ elim (Bool-cases (m.type == recursive)) [
      | inl ty ↦
          let run : pthread_mutex_lock self now m k ≡ returned (pos 0) (nest m) k =
            rw (l, o, ty) refl in
          subst (Locks d self) (sym run)
            (nest-Held d m self l (ground (arith, o)) (ground (arith, ty)) few h)
      | inr ty ↦
          let run : pthread_mutex_lock self now m k ≡ returned (pos 35) m k = rw (l, o, ty) refl in
          subst (Locks d self) (sym run) (same-Held d m self (d self + 0) (omega arith) h)
    ]
  ]
]

-- The same of an attempt.
abbrev Tries : (Ptr → ℕ) → Ptr → ℤ × Mutex → Type 0
Tries d self r = Held (upd d self (d self + succeeds r.0)) r.1

try-Tries :
    (d : Ptr → ℕ) (m : Mutex) (self : Ptr)
    → d self + 1 < 2 ^ 31
    → Held d m
    → Tries d self (pthread_mutex_trylock self m)
unfolding pthread_mutex_trylock
try-Tries d m self few h = elim (Bool-cases m.locked) [
  | inr f ↦
      let run : pthread_mutex_trylock self m ≡ (pos 0, acquire self m) = rw f refl in
      subst (Tries d self) (sym run) (acquire-Held d m self f h)
  | inl l ↦ elim (Bool-cases ((m.owner == self) && (m.type == recursive))) [
    | inl both ↦
        let run : pthread_mutex_trylock self m ≡ (pos 0, nest m) = rw (l, both) refl in
        subst (Tries d self) (sym run)
          (nest-Held d m self l (ground (arith, both)) (ground (arith, both)) few h)
    | inr not_both ↦
        let run : pthread_mutex_trylock self m ≡ (pos 16, m) = rw (l, not_both) refl in
        subst (Tries d self) (sym run) (same-Held d m self (d self + 0) (omega arith) h)
  ]
]

again-Locks :
    (d : Ptr → ℕ) (m : Mutex) (self : Ptr) (now : ℕ) (k : Sched) (c : Call Mutex)
    → d self + 1 < 2 ^ 31
    → Held d m
    → lock_again self now m k ≡ some c
    → Locks d self c
unfolding lock_again
again-Locks d m self now k c few h e = elim (Option-cases (wait_end self m.wq k)) [
  | inl fails ↦ absurd (none-ne-some c (rw fails at e))
  | inr ((rc, wq, k'), runs) ↦
      subst (Locks d self) (unique refl (rw runs at e))
        (lock-Locks d (record m { wq = wq }) self now k' few (queue-Held d m wq h))
]

-- What an unlock ends with.
abbrev Unlocks : (Ptr → ℕ) → Ptr → ℤ × Mutex × Sched → Type 0
Unlocks d self r = Held (upd d self (d self - succeeds r.0)) r.1

-- Whoever unlocks with success holds the mutex.
is_owner :
    (d : Ptr → ℕ) (m : Mutex) (self : Ptr)
    → Held d m
    → m.locked ≡ true
    → (not (m.owner == self) && ((m.type == error_check) || (m.type == recursive))) ≡ false
    → (m.type ≡ error_check) ⊎ (m.type ≡ recursive) ⊎ (d self ≢ 0)
    → m.owner ≡ self
is_owner d m self (free e none_holds) l fine may = absurd (ground (arith, e, l))
is_owner d m self (held n l' mine depth others nests) l fine may = elim (ℕ_discrete m.owner self) [
  | yes e ↦ e
  | no other ↦ absurd (ground (arith, fine, may, others self))
]

dec32-pos : (n j : ℕ) → j ≡ suc n → dec32 (pos j) ≡ pos n
dec32-pos n j e = rw e refl

-- An unlock of a nested lock.
less-Held :
    (d : Ptr → ℕ) (m : Mutex) (self : Ptr)
    → Held d m
    → m.locked ≡ true
    → m.owner ≡ self
    → ((m.type == recursive) && is_positive (dec32 m.recursion)) ≡ true
    → Held (upd d self (d self - 1)) (record m { recursion = dec32 m.recursion })
less-Held d m self (free e none_holds) l o nested = absurd (ground (arith, e, l))
less-Held d m self (held zero l' mine depth others nests) l o nested =
    absurd (ground (arith, nested, ap (λ r. is_positive (dec32 r)) depth))
less-Held d m self (held (suc n) l' mine depth others nests) l o nested =
    held n l (ground (arith, mine, o))
      (ap dec32 depth ∙ dec32-pos (n + 1) (suc n + 1) (omega arith))
      (λ t other. ground (arith, others t other, o, other)) (inl (ground (arith, nested)))

-- The last unlock.
none_left :
    (d : Ptr → ℕ) (m : Mutex) (self : Ptr)
    → Held d m
    → m.locked ≡ true
    → m.owner ≡ self
    → ((m.type == recursive) && is_positive (dec32 m.recursion)) ≡ false
    → (t : Ptr) → upd d self (d self - 1) t ≡ 0
none_left d m self (free e none_holds) l o once t = absurd (ground (arith, e, l))
none_left d m self (held zero l' mine depth others nests) l o once t =
    ground (arith, mine, others t, o)
none_left d m self (held (suc n) l' mine depth others (inr flat)) l o once t =
    absurd (ground (arith, flat))
none_left d m self (held (suc n) l' mine depth others (inl ty)) l o once t =
    absurd (ground (arith, once, ty, ap (λ r. is_positive (dec32 r)) depth))

unlock-Unlocks :
    (d : Ptr → ℕ) (m : Mutex) (self : Ptr) (k : Sched) (r : ℤ × Mutex × Sched)
    → Held d m
    → (m.type ≡ error_check) ⊎ (m.type ≡ recursive) ⊎ (d self ≢ 0)
    → pthread_mutex_unlock self m k ≡ some r
    → Unlocks d self r
unfolding pthread_mutex_unlock hand_over
unlock-Unlocks d m self k r h may e =
    elim (Bool-cases (
      not m.locked
      || (not (m.owner == self) && ((m.type == error_check) || (m.type == recursive))))) [
        | inl refused ↦
            let run : pthread_mutex_unlock self m k ≡ some (pos 1, m, k) = rw refused refl in
            subst (Unlocks d self) (unique run e) (same-Held d m self (d self - 0) (omega arith) h)
        | inr granted ↦
            let l : m.locked ≡ true = ground (arith, granted) in
            let o = is_owner d m self h l (ground (arith, granted)) may in
            elim (Bool-cases ((m.type == recursive) && is_positive (dec32 m.recursion))) [
              | inl nested ↦
                  let run : pthread_mutex_unlock self m k
                      ≡ some (pos 0, record m { recursion = dec32 m.recursion }, k) =
                    rw (granted, nested) refl in
                  subst (Unlocks d self) (unique run e) (less-Held d m self h l o nested)
              | inr once ↦ elim (Option-cases (wq_wake_one m.wq k)) [
                | inl fails ↦ absurd (none-ne-some r (rw (granted, once, fails) at e))
                | inr ((wq, k'), runs) ↦
                    let m' = record m {
                      recursion = pos 0;
                      locked = false;
                      owner = null;
                      wq = wq;
                    } in
                    let run : pthread_mutex_unlock self m k ≡ some (pos 0, m', k') =
                      rw (granted, once, runs) refl in
                    subst (Unlocks d self) (unique run e)
                      (free refl (none_left d m self h l o once))
              ]
            ]
      ]

-- However threads lock, try, wait for, wake at and unlock a mutex, its state says who holds it: no thread, or one alone,
-- the owner, as often as it has locked it more than unlocked it, more than once only where the mutex is recursive.
-- A thread unlocks a mutex that does not check its owner only while it holds it, and locks one only while it holds it
-- fewer than 2^31 - 1 times, so that its depth does not overflow.
pub Uses-Held : (d : Ptr → ℕ) (m : Mutex) → Uses d m → Held d m
unfolding pthread_mutex_init
Uses-Held d m (initialised a) = free refl (λ t. refl)
Uses-Held d m (locking {d = c} {m = q} self now k u few) =
    lock-Locks c q self now k few (Uses-Held c q u)
Uses-Held d m (waking {d = c} {m = q} self now k call u few e) =
    again-Locks c q self now k call few (Uses-Held c q u) e
Uses-Held d m (trying {d = c} {m = q} self u few) = try-Tries c q self few (Uses-Held c q u)
Uses-Held d m (unlocking {d = c} {m = q} self k k' r m' u may e) =
    unlock-Unlocks c q self k (r, m', k') (Uses-Held c q u) may e
