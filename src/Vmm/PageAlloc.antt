-- ===== src/Vmm/PageAlloc.antt =====
-- `vmm_page_alloc` and `vmm_page_free`: a frame of its own behind an address, and back.
use bootloader_kernel_in_nas.Base.{ℕ, ◌+◌, ◌*◌, ◌/◌, ◌%◌, true, false, none, some, ◌==◌, ◌≡◌, refl}
use bootloader_kernel_in_nas.Pmm.{Pmm, pmm_frame_alloc, pmm_frame_free, pmm_invalid_frame}
use bootloader_kernel_in_nas.Pmm.Bitmap.{used}
use bootloader_kernel_in_nas.Vmm.{
  Vmm, vmm_pml4_get, vmm_page_map, vmm_page_unmap, vmm_page_alloc, vmm_page_free,
}
use bootloader_kernel_in_nas.Vmm.Entry.{address, bit_and-address}
use bootloader_kernel_in_nas.Vmm.Mapping.{translate}

pub pml4-address : (s : Vmm) → vmm_pml4_get s ≡ address s.cr3
unfolding vmm_pml4_get
pml4-address s = bit_and-address s.cr3

pub alloc_after :
    (vaddr flags frame : ℕ) (pmm : Pmm) (s s' : Vmm)
    → pmm_frame_alloc s.pmm ≡ some (frame, pmm)
    → (frame == pmm_invalid_frame) ≡ false
    → vmm_page_map (vmm_pml4_get s) vaddr frame flags (record s { pmm = pmm }) ≡ some (true, s')
    → vmm_page_alloc vaddr flags s ≡ some (some vaddr, s')
unfolding vmm_page_alloc
alloc_after vaddr flags frame pmm s s' alloc usable mapped = rw (alloc, usable, mapped) refl

pub free_after :
    (vaddr flags addr_phys : ℕ) (pmm : Pmm) (s s' : Vmm)
    → vmm_page_unmap (vmm_pml4_get s) vaddr s ≡ some (some addr_phys, s')
    → pmm_frame_free (addr_phys / 4096) s'.pmm ≡ some pmm
    → vmm_page_free vaddr flags s ≡ some (record s' { pmm = pmm })
unfolding vmm_page_free
free_after vaddr flags addr_phys pmm s s' unmapped freed = rw (unmapped, freed) refl

-- A page that was allocated for `vaddr` and freed again.
pub record IsReturned (vaddr flags flags' : ℕ) (s : Vmm) : Type 0 where
  pub frame : ℕ
  pub during : Vmm
  pub after : Vmm
  pub alloc : vmm_page_alloc vaddr flags s ≡ some (some vaddr, during)
  pub own : used s.pmm frame ≡ 0
  pub taken : used during.pmm frame ≡ 1
  pub there : translate (address s.cr3) vaddr during.mem ≡ some (frame * 4096 + vaddr % 4096)
  pub free : vmm_page_free vaddr flags' during ≡ some after
  pub gone : translate (address s.cr3) vaddr after.mem ≡ none
  pub frames : (g : ℕ) → used after.pmm g ≡ used s.pmm g
