-- ===== src/Vmm/KernelMap.antt =====
-- kernel/vmm.c, `vmm_kernel_map`: the image and the stack mapped one to one.
use bootloader_kernel_in_nas.Base.{ℕ, ◌+◌, ◌-◌, ◌*◌, ◌/◌, ◌%◌, ◌^◌, ◌≤◌, ◌≡◌, ◌⊎◌}
use bootloader_kernel_in_nas.Vmm.{Vmm}
use bootloader_kernel_in_nas.Vmm.Identity.{Between}

-- The addresses of the image, and those around the stack pointer.
abbrev pub InKernel : (kernel_start kernel_end rsp : ℕ) → ℕ → Type 0
InKernel kernel_start kernel_end rsp v =
    Between kernel_start kernel_end v ⊎ Between (rsp - 256 * 1024) (rsp + 4096) v

-- How many pages the image meets, and the stack with its margin at most.
abbrev pub kernel_pages : (kernel_start kernel_end : ℕ) → ℕ
kernel_pages kernel_start kernel_end = (kernel_end - kernel_start + 4095) / 4096 + 66

-- An image that starts at a page, and a stack, in the lower half.
pub record IsPlaced (kernel_start kernel_end rsp : ℕ) : Type 0 where
  pub aligned : kernel_start % 4096 ≡ 0
  pub order : kernel_start ≤ kernel_end
  pub low : kernel_end ≤ 2 ^ 47
  pub margin : 256 * 1024 ≤ rsp
  pub low' : rsp + 8192 ≤ 2 ^ 47
