-- ===== src/Vmm/Boot.antt =====
-- kernel/vmm.c, the part that runs while memory is mapped one to one: the kernel map, the direct map
-- in pages of 1 GiB, and `vmm_init`. A loop that runs out of fuel is `none`, as a fault is.
use bootloader_kernel_in_nas.Base.{
  ℕ, zero, suc, ◌+◌, ◌-◌, ◌*◌, ◌/◌, ◌^◌, bit_and, bit_or, Bool, true, false, not, Option, none,
  some, ltb, ◌==◌, if◌then◌else◌, ◌>>=◌,
}
use bootloader_kernel_in_nas.Page.{u64, page_size, align_down, align_up}
use bootloader_kernel_in_nas.Pmm.{pmm_invalid_frame, pmm_frame_alloc, pmm_highest_address_get}
use bootloader_kernel_in_nas.Vmm.{
  Vmm, offline, load64, store64, zero_loop, slot_pointer, pte_value, vmm_pte_get_offline,
  page_present, page_writable, page_nx, page_addr_mask, ps_bit, gib_size, hhdm_offset,
}

unfoldable pub vmm_page_map_internal : (pml4_virt vaddr paddr flags : ℕ) → Vmm → Option Vmm
vmm_page_map_internal pml4_virt vaddr paddr flags s =
    vmm_pte_get_offline pml4_virt vaddr true s >>= λ (found, s'). elim found [
      | none ↦ some s'
      | some pte ↦ some (record s' { mem = store64 pte (pte_value paddr flags) s'.mem })
    ]

-- `for (i = ...; i < size; i += PAGE_SIZE)` over the kernel's image
unfoldable pub image_loop : (fuel i size v_start pml4_virt : ℕ) → Vmm → Option Vmm
image_loop zero i size v_start pml4_virt s = none
image_loop (suc fuel) i size v_start pml4_virt s = elim (ltb i size) [
  | true ↦
      vmm_page_map_internal pml4_virt (u64 (v_start + i)) (u64 (v_start + i)) page_writable s
      >>= image_loop fuel (u64 (i + page_size)) size v_start pml4_virt
  | false ↦ some s
]

-- `for (va = start; va < end; va += PAGE_SIZE)` around the stack
unfoldable pub window_loop : (fuel va end pml4_virt : ℕ) → Vmm → Option Vmm
window_loop zero va end pml4_virt s = none
window_loop (suc fuel) va end pml4_virt s = elim (ltb va end) [
  | true ↦
      vmm_page_map_internal pml4_virt va va page_writable s
      >>= window_loop fuel (u64 (va + page_size)) end pml4_virt
  | false ↦ some s
]

-- `size`, `start` and `end` of `vmm_kernel_map`; the stack is mapped with a margin of 256 KiB.
abbrev pub image_size : (kernel_start kernel_end : ℕ) → ℕ
image_size kernel_start kernel_end = u64 (kernel_end + 2 ^ 64 - kernel_start)

abbrev pub window_start : (rsp : ℕ) → ℕ
window_start rsp = align_down (u64 (rsp + 2 ^ 64 - 256 * 1024))

abbrev pub window_end : (rsp : ℕ) → ℕ
window_end rsp = align_up (u64 (rsp + page_size))

-- The linker's `__kernel_start` and `__kernel_end` and the stack pointer are arguments.
unfoldable pub vmm_kernel_map : (kernel_start kernel_end rsp pml4_virt : ℕ) → Vmm → Option Vmm
vmm_kernel_map kernel_start kernel_end rsp pml4_virt s =
    let size = image_size kernel_start kernel_end in
    let start = window_start rsp in
    let end = window_end rsp in
    image_loop (size / page_size + 2) 0 size kernel_start pml4_virt s
    >>= window_loop ((end - start) / page_size + 2) start end pml4_virt

-- The entry of the top table, made if it is missing: false without a frame for it.
unfoldable pub pml4_ensure : (place : ℕ) → Vmm → Option (Bool × Vmm)
pml4_ensure place s =
    if not (bit_and (load64 place s.mem) page_present == 0)
    then some (true, s)
    else (pmm_frame_alloc s.pmm >>= λ (new_pdpt, pmm).
        if new_pdpt == pmm_invalid_frame
        then some (false, record s { pmm = pmm })
        else some (
          true,
          record s {
            pmm = pmm;
            mem =
                store64 place (bit_or (bit_or new_pdpt page_present) page_writable)
                  (zero_loop offline 4096 0 new_pdpt s.mem);
          },
        ))

-- The entry that maps a page of 1 GiB.
unfoldable pub gib_value : (paddr flags : ℕ) → ℕ
gib_value paddr flags =
    bit_or (bit_or (bit_or (bit_and paddr 0x000F_FFFF_C000_0000) flags) page_present) ps_bit

unfoldable pub vmm_page_1gb_map_offline :
    (pml4_virt vaddr paddr flags : ℕ) → Vmm → Option (Bool × Vmm)
unfolding pml4_ensure
vmm_page_1gb_map_offline pml4_virt vaddr paddr flags s =
    let place = slot_pointer pml4_virt vaddr 39 in
    pml4_ensure place s >>= λ (success, s').
    let pdpt_virt = bit_and (load64 place s'.mem) page_addr_mask in
    let pte = slot_pointer pdpt_virt vaddr 30 in
    some (
      if success
      then (true, record s' { mem = store64 pte (gib_value paddr flags) s'.mem })
      else (false, s'))

-- `for (p = 0; p < max_pa; p += GIB_SIZE)`; p wraps, so that it never ends for a `max_pa` above
-- 2 ^ 64 - GIB_SIZE.
unfoldable pub hhdm_loop : (fuel p max_pa pml4_virt : ℕ) → Vmm → Option (Bool × Vmm)
hhdm_loop zero p max_pa pml4_virt s = none
hhdm_loop (suc fuel) p max_pa pml4_virt s = elim (ltb p max_pa) [
  | true ↦
      vmm_page_1gb_map_offline pml4_virt (u64 (p + hhdm_offset)) p (bit_or page_writable page_nx) s
      >>= λ (success, s'). elim success [
        | true ↦ hhdm_loop fuel (u64 (p + gib_size)) max_pa pml4_virt s'
        | false ↦ some (false, s')
      ]
  | false ↦ some (true, s)
]

unfoldable pub vmm_hhdm_create : (pml4_virt : ℕ) → Vmm → Option (Bool × Vmm)
vmm_hhdm_create pml4_virt s =
    let max_pa = pmm_highest_address_get s.pmm in
    hhdm_loop (max_pa / gib_size + 2) 0 max_pa pml4_virt s

unfoldable pub vmm_init : (kernel_start kernel_end rsp : ℕ) → Vmm → Option (Bool × Vmm)
vmm_init kernel_start kernel_end rsp s = pmm_frame_alloc s.pmm >>= λ (pml4_phys, pmm).
    if pml4_phys == pmm_invalid_frame
    then some (false, record s { pmm = pmm })
    else (vmm_hhdm_create pml4_phys
          (record s { pmm = pmm; mem = zero_loop offline 4096 0 pml4_phys s.mem })
        >>= λ (success, s').
            if success
            then (vmm_kernel_map kernel_start kernel_end rsp pml4_phys s' >>= λ s''.
                some (true, record s'' { cr3 = pml4_phys }))
            else some (false, s'))
