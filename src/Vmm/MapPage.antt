-- ===== src/Vmm/MapPage.antt =====
-- kernel/vmm.c: `vmm_page_map` and `vmm_page_map_internal` where tables may be missing.
use bootloader_kernel_in_nas.Base.{
  ℕ, ◌+◌, ◌^◌, ◌≤◌, ◌<◌, true, some, List, ◌∷◌, ◌≡◌, refl, sym, ap, ◌∙◌, arith,
}
use bootloader_kernel_in_nas.Pmm.Supply.{HasFree}
use bootloader_kernel_in_nas.Vmm.{
  Vmm, Mode, online, offline, pointer, slot_pointer, pte_get, walk, levels_shift, vmm_pte_get,
  vmm_pte_get_offline, vmm_page_map,
}
use bootloader_kernel_in_nas.Vmm.Boot.{vmm_page_map_internal}
use bootloader_kernel_in_nas.Vmm.Create.{IsWalked, walk-IsWalked}
use bootloader_kernel_in_nas.Vmm.Entry.{address, behind-slot}
use bootloader_kernel_in_nas.Vmm.Extend.{IsExtended, walked-IsExtended}
use bootloader_kernel_in_nas.Vmm.Gib.{behind_offline}
use bootloader_kernel_in_nas.Vmm.Space.{Owners, IsSpace, shifts_from, shifts_from-levels_shift}

pte_get-walked :
    (mode : Mode) (own : Owners) (pml4 v count : ℕ) (s : Vmm)
    → (w : IsWalked own 3 pml4 v count s (walk mode (shifts_from 3) pml4 v true s))
    → pte_get mode pml4 v true s ≡ some (some (slot_pointer (pointer mode w.last) v 12), w.out)
unfolding pte_get
pte_get-walked mode own pml4 v count s w =
    let run : walk mode levels_shift pml4 v true s ≡ some (some w.last, w.out) =
      ap (λ (l : List ℕ). walk mode l pml4 v true s) (sym shifts_from-levels_shift) ∙ w.returns in
    rw run refl

-- Where the tables of the lower half of the address space are a tree below `pml4` and three frames
-- are free besides `count` others, `vmm_page_map_internal` for an address of the lower half, with
-- flags outside the address field, makes the tables that are missing and returns; then the processor
-- translates every address of the page of `v` to the page of `paddr`, all other pages of the lower
-- half that were mapped are mapped as before, the tables are such a tree again and `count` frames
-- are free.
pub vmm_page_map_internal-IsExtended :
    (own : Owners) (pml4 v paddr flags count : ℕ) (at : ℕ → ℕ) (s : Vmm)
    → flags < 2 ^ 64
    → address flags ≡ 0
    → v < 2 ^ 47
    → IsSpace own pml4 s
    → HasFree (3 + count) at s.pmm
    → (out : Vmm) × (vmm_page_map_internal pml4 v paddr flags s ≡ some out)
      × IsExtended own pml4 v paddr count s out
unfolding vmm_page_map_internal vmm_pte_get_offline pointer
vmm_page_map_internal-IsExtended own pml4 v paddr flags count at s small clear low space free =
    let w =
      walk-IsWalked offline own 3 pml4 v count at s (omega arith) space.valid free
        (space.paths v low) in
    let room : w.last + 4096 ≤ 2 ^ 64 = omega (arith, w.node.inside, w.node.aligned) in
    (
      _,
      rw (pte_get-walked offline own pml4 v count s w, behind_offline w.last v 12 room) refl,
      walked-IsExtended own pml4 v paddr flags count s _ small clear low space w w.out.flushed,
    )

pub vmm_page_map-IsExtended :
    (own : Owners) (pml4 v paddr flags count : ℕ) (at : ℕ → ℕ) (s : Vmm)
    → flags < 2 ^ 64
    → address flags ≡ 0
    → v < 2 ^ 47
    → IsSpace own pml4 s
    → HasFree (3 + count) at s.pmm
    → (out : Vmm) × (vmm_page_map pml4 v paddr flags s ≡ some (true, out))
      × IsExtended own pml4 v paddr count s out
unfolding vmm_page_map vmm_pte_get
vmm_page_map-IsExtended own pml4 v paddr flags count at s small clear low space free =
    let w =
      walk-IsWalked online own 3 pml4 v count at s (omega arith) space.valid free
        (space.paths v low) in
    let room : w.last + 4096 ≤ 2 ^ 64 = omega (arith, w.node.inside, w.node.aligned) in
    (
      _,
      rw (pte_get-walked online own pml4 v count s w, behind-slot online w.last v 12 room) refl,
      walked-IsExtended own pml4 v paddr flags count s _ small clear low space w
          (v ∷ w.out.flushed),
    )
