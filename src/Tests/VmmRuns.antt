-- ===== src/Tests/VmmRuns.antt =====
-- Page tables at a concrete memory.
use bootloader_kernel_in_nas.Base.{ℕ, ◌^◌, [], ltb, ◌==◌, if◌then◌else◌}
use bootloader_kernel_in_nas.Vmm.{Vmm}

-- A top table at 0x1000, and below it tables at 0x2000, 0x3000 and 0x4000 for the page at 0x403000.
abbrev memory : ℕ → ℕ
memory i =
    if i == 0x1000
    then 3
    else if i == 0x1001
    then 0x20
    else if i == 0x2000
    then 3
    else if i == 0x2001
    then 0x30
    else if i == 0x3010
    then 3
    else if i == 0x3011
    then 0x40
    else 0

abbrev boot : Vmm
boot = record {
  mem = memory;
  pmm = record { g_frame_bitmap = λ i. 0; g_phys_ceiling = 0 };
  cr3 = 0x1000;
  flushed = [];
}

-- The same memory, the reserved frames used, and 4 GiB of memory.
abbrev early : Vmm
early = record {
  mem = memory;
  pmm = record {
    g_frame_bitmap = λ i. if ltb i 256 then 0xFFFF_FFFF_FFFF_FFFF else 0;
    g_phys_ceiling = 2 ^ 32;
  };
  cr3 = 0;
  flushed = [];
}

-- The same, once CR3 is loaded.
abbrev loaded : Vmm
loaded = record early { cr3 = 0x1000 }
