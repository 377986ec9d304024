-- ===== src/Kernel/Running.antt =====
-- Pages for the kernel once it has started, by calls of `vmm_page_alloc` and `vmm_page_free`.
use bootloader_kernel_in_nas.Vmm.{Vmm}
use bootloader_kernel_in_nas.Kernel.{Kernel}
