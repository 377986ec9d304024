-- ===== src/Page.antt =====
-- kernel/common.h: page constants and the E820 entry; `align_down` and `align_up`, which
-- kernel/pmm.c and kernel/vmm.c both declare.
pub mod Align
use bootloader_kernel_in_nas.Base.{ℕ, ◌+◌, ◌-◌, ◌%◌, ◌^◌, bit_and}
use bootloader_kernel_in_nas.Bits.{not64}

-- uint64_t arithmetic wraps.
abbrev pub u64 : ℕ → ℕ
u64 n = n % 2 ^ 64

abbrev pub page_shift : ℕ
page_shift = 12

abbrev pub page_size : ℕ
page_size = 2 ^ page_shift

unfoldable pub align_down : ℕ → ℕ
align_down addr = bit_and addr (not64 (page_size - 1))

unfoldable pub align_up : ℕ → ℕ
align_up addr = bit_and (u64 (addr + page_size - 1)) (not64 (page_size - 1))

-- `e820_entry_t`; the fields are uint64_t, uint64_t, uint32_t, uint32_t.
pub record E820Entry : Type 0 where
  pub base : ℕ
  pub length : ℕ
  pub type : ℕ
  pub attr : ℕ
