-- ===== src/Prelude/Checked.antt =====
-- Accesses of arrays that are out of bounds have no result, and chains of such results.
use makh.Prelude.{ℕ, Option, none, some, List, length, get_or, set, ltb, if◌then◌else◌}

infixl 5 ◌>>=◌
abbrev pub ◌>>=◌ {ℓ κ} : {A : Type ℓ} {B : Type κ} → Option A → (A → Option B) → Option B
none >>= f = none
some a >>= f = f a

-- `a[i]` and `a[i] = v` on an array of chars.
abbrev pub load : List ℕ → ℕ → Option ℕ
load a i = if ltb i (length a) then some (get_or a i 0) else none

abbrev pub store : List ℕ → ℕ → ℕ → Option (List ℕ)
store a i v = if ltb i (length a) then some (set a i v) else none
