-- ===== src/Pic/Masks.antt =====
-- What `unmask_irq` writes to the mask registers.
use bootloader_kernel_in_nas.Base.{
  ℕ, ◌+◌, ◌-◌, ◌^◌, ◌≤◌, ◌<◌, bit_and, ◌≡◌, refl, ◌∙◌, ap, arith, ◌∷◌, ◌==◌, if◌then◌else◌, lt→ltb,
  le→ltb,
}
use bootloader_kernel_in_nas.Bits.{bit, bit-lt, bit-bit_and, bit-pow, bit-complement, bit_and-le}
use bootloader_kernel_in_nas.Port.{Machine, in_byte, out_byte, answer, inb, outb, u8, u32}
use bootloader_kernel_in_nas.Pic.{pic1_data, pic2_data, pic_irq_cascade, unmasked, unmask_irq}
use native.Mathlib.Nat.{pow-le-pow_right}

unmasked_as_mask :
    (mask line : ℕ)
    → mask < 256
    → line < 8
    → unmasked mask line ≡ bit_and mask (2 ^ 8 - 1 - 2 ^ line)
unfolding unmasked
unmasked_as_mask mask line small low =
    let p : 2 ^ line ≤ 2 ^ 7 =
      pow-le-pow_right {n = 2} (omega arith) {i = line} {j = 7} (omega arith) in
    let e : u8 (2 ^ 32 - 1 - u32 (2 ^ line)) ≡ 2 ^ 8 - 1 - 2 ^ line = omega arith in
    rw e (omega (arith, bit_and-le mask (2 ^ 8 - 1 - 2 ^ line)))

-- Unmasking a line of a controller clears its digit of the mask and keeps the seven others.
pub unmasked-bit :
    (mask line j : ℕ)
    → mask < 256
    → line < 8
    → j < 8
    → bit j (unmasked mask line) ≡ (if j == line then 0 else bit j mask)
unmasked-bit mask line j small low l =
    let p : 2 ^ line ≤ 2 ^ 7 =
      pow-le-pow_right {n = 2} (omega arith) {i = line} {j = 7} (omega arith) in
    ap (bit j) (unmasked_as_mask mask line small low)
    ∙ bit-bit_and j mask (2 ^ 8 - 1 - 2 ^ line)
    ∙ ground (arith, bit-complement 8 j (2 ^ line) (omega arith) l, bit-pow line j, bit-lt j mask)

-- Each controller's mask is written back with the digit of its line cleared and no other changed.
-- For a line of the second controller that is so of its own mask and of the cascade line of the
-- first.
pub unmask_irq_lem :
    (irq : ℕ) (m : Machine)
    → irq < 16
    → (irq < 8
        → (v : ℕ) × ((unmask_irq irq m).trace
            ≡ out_byte pic1_data v ∷ in_byte pic1_data (answer m) ∷ m.trace)
          × ((j : ℕ) → j < 8 → bit j v ≡ (if j == irq then 0 else bit j (answer m))))
      × (8 ≤ irq
          → (v : ℕ) × (w : ℕ) × (old : ℕ) × ((unmask_irq irq m).trace
              ≡ out_byte pic1_data w
                ∷ in_byte pic1_data old
                ∷ out_byte pic2_data v
                ∷ in_byte pic2_data (answer m)
                ∷ m.trace)
            × ((j : ℕ) → j < 8 → bit j v ≡ (if j == irq - 8 then 0 else bit j (answer m)))
            × ((j : ℕ) → j < 8 → bit j w ≡ (if j == pic_irq_cascade then 0 else bit j old)))
unfolding unmask_irq inb outb
unmask_irq_lem irq m small = (
  λ low. (
    unmasked (answer m) irq,
    rw (lt→ltb irq 8 low) refl,
    λ j l. unmasked-bit (answer m) irq j (omega arith) low l,
  ),
  λ high. (
    unmasked (answer m) (irq - 8),
    unmasked (u8 (m.answers (m.reads + 1))) pic_irq_cascade,
    u8 (m.answers (m.reads + 1)),
    rw (le→ltb irq 8 high) refl,
    λ j l. unmasked-bit (answer m) (irq - 8) j (omega arith) (omega arith) l,
    λ j l.
        unmasked-bit (u8 (m.answers (m.reads + 1))) pic_irq_cascade j (omega arith) (omega arith) l,
  ),
)
