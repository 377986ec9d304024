-- ===== src/Vmm.antt =====
-- kernel/vmm.c and kernel/vmm.h: four-level page tables in physical memory, byte by byte.
-- The outer `none` of a result is a fault of the frame allocator; the inner one is NULL.
pub mod Boot
pub mod Create
pub mod Direct
pub mod Entry
pub mod Extend
pub mod Fresh
pub mod Fuel
pub mod Gib
pub mod GibEntry
pub mod Give
pub mod Grow
pub mod Hhdm
pub mod Identity
pub mod Init
pub mod KernelMap
pub mod Linked
pub mod MapPage
pub mod Mapping
pub mod Memory
pub mod PageAlloc
pub mod Reclaim
pub mod Requests
pub mod RoundTrip
pub mod Serve
pub mod Space
pub mod Stored
pub mod Translated
pub mod Unmap
pub mod Walk
pub mod Zeroed
use bootloader_kernel_in_nas.Base.{
  ℕ, zero, suc, ◌+◌, ◌-◌, ◌*◌, ◌/◌, ◌%◌, ◌^◌, bit_and, bit_or, Bool, true, false, not, Option, none,
  some, List, [], ◌∷◌, ltb, ◌==◌, if◌then◌else◌, ◌>>=◌, update,
}
use bootloader_kernel_in_nas.Page.{u64, page_size, page_shift, align_down, align_up}
use bootloader_kernel_in_nas.Pmm.{
  Pmm, pmm_invalid_frame, pmm_frame_alloc, pmm_frame_free, pmm_highest_address_get,
}

abbrev pub hhdm_offset : ℕ
hhdm_offset = 0xFFFF_8000_0000_0000

abbrev pub page_present : ℕ
page_present = 1

abbrev pub page_writable : ℕ
page_writable = 2

abbrev pub page_nx : ℕ
page_nx = 2 ^ 63

abbrev pub page_addr_mask : ℕ
page_addr_mask = 0x000F_FFFF_FFFF_F000

abbrev pub gib_size : ℕ
gib_size = 2 ^ 30

abbrev pub ps_bit : ℕ
ps_bit = 2 ^ 7

-- Physical memory, the allocator, CR3, and the addresses invalidated, the latest first.
pub record Vmm : Type 0 where
  pub mem : ℕ → ℕ
  pub pmm : Pmm
  pub cr3 : ℕ
  pub flushed : List ℕ

-- A little-endian uint64_t in memory: `count` bytes from `addr` on.
unfoldable pub load_bytes : (count addr : ℕ) → (ℕ → ℕ) → ℕ
load_bytes zero addr mem = 0
load_bytes (suc count) addr mem = mem addr + 256 * load_bytes count (addr + 1) mem

unfoldable pub store_bytes : (count addr value : ℕ) → (ℕ → ℕ) → ℕ → ℕ
store_bytes zero addr value mem = mem
store_bytes (suc count) addr value mem =
    store_bytes count (addr + 1) (value / 256) (update mem addr (value % 256))

abbrev pub load64 : ℕ → (ℕ → ℕ) → ℕ
load64 addr mem = load_bytes 8 addr mem

abbrev pub store64 : (addr value : ℕ) → (ℕ → ℕ) → ℕ → ℕ
store64 addr value mem = store_bytes 8 addr value mem

unfoldable pub vmm_phys_to_virt : ℕ → ℕ
vmm_phys_to_virt phys = u64 (phys + hhdm_offset)

unfoldable pub virt_to_phys : ℕ → ℕ
virt_to_phys virt = u64 (virt + 2 ^ 64 - hhdm_offset)

-- How a pointer of the code reaches memory: through the direct map once it is loaded, and as it
-- stands while memory is mapped one to one.
pub data Mode : Type 0 where
  online offline : Mode

-- The pointer that the code forms for a physical address.
unfoldable pub pointer : Mode → ℕ → ℕ
pointer online phys = vmm_phys_to_virt phys
pointer offline phys = phys

-- The physical address behind a pointer.
unfoldable pub behind : Mode → ℕ → ℕ
behind online virt = virt_to_phys virt
behind offline virt = virt

-- `for (i = ...) ptr[i] = 0`, with `left` rounds to go
unfoldable pub zero_loop : Mode → (left i ptr : ℕ) → (ℕ → ℕ) → ℕ → ℕ
zero_loop mode zero i ptr mem = mem
zero_loop mode (suc left) i ptr mem =
    zero_loop mode left (i + 1) ptr (update mem (behind mode (u64 (ptr + i))) 0)

-- `&table[idx]` for a table at a pointer, and the physical address of that element
abbrev pub slot_pointer : (table_virt vaddr shift : ℕ) → ℕ
slot_pointer table_virt vaddr shift = u64 (table_virt + 8 * bit_and (vaddr / 2 ^ shift) 0x1FF)

-- A missing table: allocate a frame, zero it, and enter it at `slot`. `vmm_pte_get` takes an
-- invalid frame for a failure; `vmm_pte_get_offline` does not look.
unfoldable pub new_table : Mode → (slot : ℕ) → Vmm → Option (Option ℕ × Vmm)
new_table mode slot s = pmm_frame_alloc s.pmm >>= λ (new_frame, pmm).
    let entry = bit_or (bit_or new_frame page_present) page_writable in
    let mem = zero_loop mode 4096 0 (pointer mode new_frame) s.mem in
    let made = some (some entry, record s { pmm = pmm; mem = store64 slot entry mem }) in
    elim mode [
      | online ↦
          if new_frame == pmm_invalid_frame then some (none, record s { pmm = pmm }) else made
      | offline ↦ made
    ]

-- One round of the walk: the entry to follow, made if it is missing and `create` is set.
unfoldable pub entry_at : Mode → (slot : ℕ) → (create : Bool) → Vmm → Option (Option ℕ × Vmm)
entry_at mode slot create s =
    let entry = load64 slot s.mem in
    if not (bit_and entry page_present == 0)
    then some (some entry, s)
    else if not create
    then some (none, s)
    else new_table mode slot s

-- The loop of the walk over the shifts that are left, from the table at `table` on: the physical
-- address of the last table.
unfoldable pub walk :
    Mode → List ℕ → (table vaddr : ℕ) → (create : Bool) → Vmm → Option (Option ℕ × Vmm)
walk mode [] table vaddr create s = some (some table, s)
walk mode (shift ∷ shifts) table vaddr create s =
    entry_at mode (behind mode (slot_pointer (pointer mode table) vaddr shift)) create s
    >>= λ (found, s'). elim found [
      | none ↦ some (none, s')
      | some entry ↦ walk mode shifts (bit_and entry page_addr_mask) vaddr create s'
    ]

-- The shifts of the levels above the last one.
abbrev pub levels_shift : List ℕ
levels_shift = 39 ∷ 30 ∷ 21 ∷ []

-- The pointer to the page-table entry of `vaddr`.
unfoldable pub pte_get : Mode → (pml4 vaddr : ℕ) → (create : Bool) → Vmm → Option (Option ℕ × Vmm)
pte_get mode pml4 vaddr create s = walk mode levels_shift pml4 vaddr create s >>= λ (found, s').
    elim found [
      | none ↦ some (none, s')
      | some table ↦ some (some (slot_pointer (pointer mode table) vaddr 12), s')
    ]

unfoldable pub vmm_pte_get : (pml4_phys vaddr : ℕ) → (create : Bool) → Vmm → Option (Option ℕ × Vmm)
unfolding pte_get
vmm_pte_get = pte_get online

-- While memory is mapped one to one, `pml4_virt` is a physical address too.
unfoldable pub vmm_pte_get_offline :
    (pml4_virt vaddr : ℕ) → (create : Bool) → Vmm → Option (Option ℕ × Vmm)
unfolding pte_get
vmm_pte_get_offline = pte_get offline

-- The value that the map functions store.
unfoldable pub pte_value : (paddr flags : ℕ) → ℕ
pte_value paddr flags = bit_or (bit_or (bit_and paddr page_addr_mask) flags) page_present

unfoldable pub vmm_page_map : (pml4_phys vaddr paddr flags : ℕ) → Vmm → Option (Bool × Vmm)
vmm_page_map pml4_phys vaddr paddr flags s = vmm_pte_get pml4_phys vaddr true s >>= λ (found, s').
    elim found [
      | none ↦ some (false, s')
      | some pte ↦ some (
        true,
        record s' {
          mem = store64 (behind online pte) (pte_value paddr flags) s'.mem;
          flushed = vaddr ∷ s'.flushed;
        },
      )
    ]

-- The result is none for 0, and for 1 what is stored through `out_paddr`.
unfoldable pub vmm_page_unmap : (pml4_phys vaddr : ℕ) → Vmm → Option (Option ℕ × Vmm)
vmm_page_unmap pml4_phys vaddr s = vmm_pte_get pml4_phys vaddr false s >>= λ (found, s').
    elim found [
      | none ↦ some (none, s')
      | some pte ↦ some (
        some (bit_and (load64 (behind online pte) s'.mem) page_addr_mask),
        record s' { mem = store64 (behind online pte) 0 s'.mem; flushed = vaddr ∷ s'.flushed },
      )
    ]

-- CR3 without its flags.
unfoldable pub vmm_pml4_get : Vmm → ℕ
vmm_pml4_get s = bit_and s.cr3 0x000F_FFFF_FFFF_F000

unfoldable pub vmm_page_alloc : (vaddr flags : ℕ) → Vmm → Option (Option ℕ × Vmm)
vmm_page_alloc vaddr flags s = pmm_frame_alloc s.pmm >>= λ (page_frame, pmm).
    if page_frame == pmm_invalid_frame
    then some (none, record s { pmm = pmm })
    else (vmm_page_map (vmm_pml4_get s) vaddr page_frame flags (record s { pmm = pmm })
        >>= λ (success, s'). some (if success then some vaddr else none, s'))

unfoldable pub vmm_page_free : (vaddr flags : ℕ) → Vmm → Option Vmm
vmm_page_free vaddr flags s = vmm_page_unmap (vmm_pml4_get s) vaddr s >>= λ (found, s').
    elim found [
      | none ↦ some s'
      | some addr_phys ↦ pmm_frame_free (addr_phys / 2 ^ page_shift) s'.pmm >>= λ pmm.
          some (record s' { pmm = pmm })
    ]
