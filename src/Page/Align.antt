-- ===== src/Page/Align.antt =====
-- What the two alignment functions compute.
use bootloader_kernel_in_nas.Base.{ℕ, ◌+◌, ◌-◌, ◌*◌, ◌/◌, ◌^◌, ◌≤◌, ◌<◌, bit_and, ◌≡◌, arith}
use bootloader_kernel_in_nas.Bits.{not64, bit_and-shift, bit_and-ones}
use bootloader_kernel_in_nas.Page.{align_down, align_up, u64}

-- The mask of a page drops the twelve low digits of a 64-bit word.
pub bit_and-page : (x : ℕ) → x < 2 ^ 64 → bit_and x (not64 4095) ≡ x / 4096 * 4096
bit_and-page x h = omega (arith, bit_and-shift 12 x (2 ^ 52 - 1), bit_and-ones 52 (x / 2 ^ 12))

pub align_down_lem : (x : ℕ) → x < 2 ^ 64 → align_down x ≡ x / 4096 * 4096
unfolding align_down
align_down_lem x h = bit_and-page x h

pub align_up_lem : (x : ℕ) → x + 4095 < 2 ^ 64 → align_up x ≡ (x + 4095) / 4096 * 4096
unfolding align_up
align_up_lem x h = omega (arith, bit_and-page (u64 (x + 4096 - 1)) (omega arith))

-- An aligned address leaves room for a page.
pub align_up-room : (x : ℕ) → align_up x + 4096 ≤ 2 ^ 64
unfolding align_up
align_up-room x = omega (arith, bit_and-page (u64 (x + 4096 - 1)) (omega arith))
