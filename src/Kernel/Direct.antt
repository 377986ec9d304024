-- ===== src/Kernel/Direct.antt =====
-- The kernel's start, from the memory map to the direct map.
use bootloader_kernel_in_nas.Base.{ℕ, ◌+◌, ◌/◌, ◌≤◌, ◌<◌, Bool, true, Option, some, List, ◌≡◌}
use bootloader_kernel_in_nas.Page.{E820Entry}
use bootloader_kernel_in_nas.Pmm.{Pmm, pmm_reserved_frames}
use bootloader_kernel_in_nas.Pmm.Bitmap.{capacity, used}
use bootloader_kernel_in_nas.Pmm.Init.{expected}
use bootloader_kernel_in_nas.Vmm.{Vmm, hhdm_offset}
use bootloader_kernel_in_nas.Vmm.Linked.{HasDirect}
use bootloader_kernel_in_nas.Vmm.Mapping.{translate}
use bootloader_kernel_in_nas.Vmm.Space.{Owners, IsSpace}
use bootloader_kernel_in_nas.Vmm.KernelMap.{InKernel}
use bootloader_kernel_in_nas.Pmm.Supply.{HasFree}
use bootloader_kernel_in_nas.Vmm.Gib.{translate_gib}
use bootloader_kernel_in_nas.Idt.Screen.{ShowsText}
use bootloader_kernel_in_nas.Kernel.{Kernel, msg}

-- A frame that is free once the memory map is read: above the kernel image, the reserved frames and
-- the first eight of its word, or in a usable region.
pub record IsFree (kernel_end count : ℕ) (map : List E820Entry) (f : ℕ) : Type 0 where
  pub above : (kernel_end + 4095) / 4096 ≤ f
  pub inside : f < capacity
  pub free : expected count map f ≡ 0

-- The kernel at its endless loop: on its own tables, with the direct map and the image and the stack
-- mapped one to one, the greeting on the screen, and `left` free frames.
pub record IsStarted (kernel_start kernel_end rsp max_pa left : ℕ) (result : Option (Bool × Kernel))
    : Type 0 where
  pub out : Kernel
  pub own : Owners
  pub returns : result ≡ some (true, out)
  pub space : IsSpace own out.vmm.cr3 out.vmm
  pub reserved : (g : ℕ) → g < pmm_reserved_frames → used out.vmm.pmm g ≡ 1
  pub linked : HasDirect own out.vmm.cr3 max_pa out.vmm.pmm out.vmm.mem
  pub direct :
      (p : ℕ) → p < max_pa → translate_gib out.vmm.cr3 (hhdm_offset + p) out.vmm.mem ≡ some p
  pub identity :
      (v : ℕ)
      → InKernel kernel_start kernel_end rsp v
      → translate out.vmm.cr3 v out.vmm.mem ≡ some v
  pub greeting : ShowsText msg 0 out.screen
  pub supply : ℕ → ℕ
  pub free : HasFree left supply out.vmm.pmm

-- `place 0`, `place 1`, ... up to `total` of them are such frames, in rising order.
pub record AreFree (kernel_end count : ℕ) (map : List E820Entry) (total : ℕ) (place : ℕ → ℕ)
    : Type 0 where
  pub rising : (i j : ℕ) → i < j → j < total → place i < place j
  pub free : (i : ℕ) → i < total → IsFree kernel_end count map (place i)
