-- ===== src/Bits/Step.antt =====
-- The native `bit_or` and `bit_and` stand for a recursion on digits with fuel; here is their
-- equation for the lowest digit.
use Prim.Native.Nat.{digits, bitwise, bit_and-bitwise, bit_or-bitwise}
use native.Mathlib.Nat.{le_refl}
use bootloader_kernel_in_nas.Base.{
  ℕ, zero, suc, ◌+◌, ◌*◌, ◌/◌, ◌%◌, ◌≤◌, min, max, bit_and, bit_or, ◌≡◌, refl, arith,
}

module _ (empty : ℕ → ℕ) (join : ℕ → ℕ → ℕ) where
  -- Fuel above the first number makes no difference.
  enough_fuel : (x y s t : ℕ) → x ≤ s → x ≤ t → digits empty join s x y ≡ digits empty join t x y
  enough_fuel zero y zero zero hs ht = refl
  enough_fuel zero y zero (suc t) hs ht = refl
  enough_fuel zero y (suc s) zero hs ht = refl
  enough_fuel zero y (suc s) (suc t) hs ht = refl
  enough_fuel (suc x) y zero t hs ht = absurd (omega arith)
  enough_fuel (suc x) y (suc s) zero hs ht = absurd (omega arith)
  enough_fuel (suc x) y (suc s) (suc t) hs ht =
      rw (enough_fuel (suc x / 2) (y / 2) s t (omega arith) (omega arith))

  lowest_digit :
      (x y : ℕ)
      → bitwise empty join (suc x) y
        ≡ join (suc x % 2) (y % 2) + 2 * bitwise empty join (suc x / 2) (y / 2)
  lowest_digit x y =
      omega (arith, enough_fuel (suc x / 2) (y / 2) x (suc x / 2) (omega arith) (le_refl _))

pub bit_or_step : (x y : ℕ) → bit_or x y ≡ max (x % 2) (y % 2) + 2 * bit_or (x / 2) (y / 2)
bit_or_step zero y = simp bit_or-bitwise (omega arith)
bit_or_step (suc x) y = simp bit_or-bitwise (lowest_digit (λ v. v) max x y)

pub zero-bit_and : (y : ℕ) → bit_and 0 y ≡ 0
zero-bit_and y = bit_and-bitwise 0 y

pub bit_and_step : (x y : ℕ) → bit_and x y ≡ min (x % 2) (y % 2) + 2 * bit_and (x / 2) (y / 2)
bit_and_step zero y = omega (arith, zero-bit_and y, zero-bit_and (y / 2))
bit_and_step (suc x) y = simp bit_and-bitwise (lowest_digit (λ v. 0) min x y)
