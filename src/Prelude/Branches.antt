-- ===== src/Prelude/Branches.antt =====
-- Properties of both branches of a test.
use makh.Prelude.{Bool, true, false, if◌then◌else◌}

-- A property that both branches of a test have.
pub either_way {ℓ κ} :
    {A : Type ℓ} (P : A → Type κ) (b : Bool) {x y : A} → P x → P y → P (if b then x else y)
either_way P true p q = p
either_way P false p q = q
