-- ===== src/Tests/KernelRuns.antt =====
-- The kernel's start and the direct map on a machine with 4 GiB.
use bootloader_kernel_in_nas.Base.{List, [], ◌∷◌}
use bootloader_kernel_in_nas.Page.{E820Entry}
use bootloader_kernel_in_nas.Kernel.{Kernel, zeroed_pmm}
use bootloader_kernel_in_nas.Vmm.Requests.{Request, alloc, free}

-- Usable memory from 1 MiB to 4 GiB.
abbrev map : List E820Entry
map = record { base = 0x10_0000; length = 0xFFF0_0000; type = 1; attr = 1 } ∷ []

abbrev off : Kernel
off = record {
  screen = λ i. 0;
  vmm = record { mem = λ i. 3; pmm = zeroed_pmm; cr3 = 0; flushed = [] };
}

-- Two pages from 2 GiB on, of which the first is taken back.
abbrev requests : List Request
requests = alloc 0x8000_0000 2 ∷ alloc 0x8000_1000 2 ∷ free 0x8000_0000 0 ∷ []
