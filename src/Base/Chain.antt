-- ===== src/Base/Chain.antt =====
-- Chains of accesses that may leave an object's bounds: `none` is what C leaves undefined.
use Prim.Native.Nat.{ℕ}
use mathlib.Core.Option.{Option, none, some}
use bootloader_kernel_in_nas.Base.Tests.{◌==◌, if◌then◌else◌}

infixl 5 ◌>>=◌
abbrev pub ◌>>=◌ {ℓ κ} : {A : Type ℓ} {B : Type κ} → Option A → (A → Option B) → Option B
none >>= f = none
some a >>= f = f a

-- An array or a memory with one cell changed.
abbrev pub update {ℓ} : {A : Type ℓ} → (ℕ → A) → ℕ → A → ℕ → A
update f i a j = if j == i then a else f j
