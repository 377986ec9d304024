-- ===== src/Tests/SpaceRuns.antt =====
-- An address space that grows, from an empty top table.
use bootloader_kernel_in_nas.Base.{◌^◌, [], ltb, if◌then◌else◌}
use bootloader_kernel_in_nas.Vmm.{Vmm}

-- Empty memory with the top table in the first page, the reserved frames used, and 4 GiB.
abbrev empty : Vmm
empty = record {
  mem = λ i. 0;
  pmm = record {
    g_frame_bitmap = λ i. if ltb i 256 then 0xFFFF_FFFF_FFFF_FFFF else 0;
    g_phys_ceiling = 2 ^ 32;
  };
  cr3 = 0x1000;
  flushed = [];
}
