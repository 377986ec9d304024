-- ===== src/Vmm/Gib.antt =====
-- Pages of 1 GiB, against the processor's translation of them.
use bootloader_kernel_in_nas.Base.{
  ℕ, ◌+◌, ◌*◌, ◌/◌, ◌%◌, ◌^◌, ◌≤◌, ◌<◌, bit_and, bit_or, true, false, Option, none, some, ◌==◌,
  if◌then◌else◌, ◌≡◌, ◌≢◌, refl, ap, ◌∙◌, arith,
}
use bootloader_kernel_in_nas.Pmm.{Pmm, pmm_frame_alloc, pmm_invalid_frame}
use bootloader_kernel_in_nas.Pmm.Bitmap.{capacity, used, IsBitmap}
use bootloader_kernel_in_nas.Pmm.Alloc.{pmm_frame_alloc-IsAllocation}
use bootloader_kernel_in_nas.Vmm.{
  zero_loop, Vmm, offline, behind, pointer, page_writable, load64, store64, slot_pointer,
  page_present,
}
use bootloader_kernel_in_nas.Vmm.Memory.{load64-store64, load64-apart}
use bootloader_kernel_in_nas.Vmm.Entry.{
  address, slot, bit_and-address, bit_and-present, behind-slot,
}
use bootloader_kernel_in_nas.Vmm.Boot.{pml4_ensure, gib_value, vmm_page_1gb_map_offline}
use bootloader_kernel_in_nas.Vmm.GibEntry.{
  gib_address, gib_address-gib_value, gib_value-odd, gib_value-sized, gib_value-lt, entry-sum,
}

-- The processor's translation through a page of 1 GiB: the entry of the second table is present
-- and has its size digit set.
unfoldable pub translate_gib : (pml4 vaddr : ℕ) → (ℕ → ℕ) → Option ℕ
translate_gib pml4 vaddr mem =
    let top = load64 (slot pml4 vaddr 39) mem in
    let entry = load64 (slot (address top) vaddr 30) mem in
    if top % 2 == 0
    then none
    else if entry % 2 == 0
    then none
    else if entry / 2 ^ 7 % 2 == 0
    then none
    else some (gib_address entry + vaddr % 2 ^ 30)

-- Once the entry of the top table is present, at a slot other than the one to be written, the
-- entry of 1 GiB is stored where the processor reads it.
gib_stored :
    (pml4 vaddr paddr flags : ℕ) (mem : ℕ → ℕ)
    → pml4 % 8 ≡ 0
    → flags < 2 ^ 64
    → gib_address flags ≡ 0
    → load64 (slot pml4 vaddr 39) mem % 2 ≡ 1
    → slot (address (load64 (slot pml4 vaddr 39) mem)) vaddr 30 ≢ slot pml4 vaddr 39
    → translate_gib pml4 vaddr (
        store64
          (slot (address (load64 (slot pml4 vaddr 39) mem)) vaddr 30)
          (gib_value paddr flags)
          mem)
      ≡ some (gib_address paddr + vaddr % 2 ^ 30)
unfolding translate_gib
gib_stored pml4 vaddr paddr flags mem aligned small clear present apart =
    let place = slot pml4 vaddr 39 in
    let top = load64 place mem in
    let pte = slot (address top) vaddr 30 in
    let value = gib_value paddr flags in
    let same = load64-apart pte place value mem (ground arith) in
    let back = load64-store64 pte value mem (gib_value-lt paddr flags small) in
    let top_set : (top % 2 == 0) ≡ false = ground arith in
    let odd : (value % 2 == 0) ≡ false = ground (arith, gib_value-odd paddr flags) in
    let sized : (value / 2 ^ 7 % 2 == 0) ≡ false = ground (arith, gib_value-sized paddr flags) in
    let addr = gib_address-gib_value paddr flags clear in
    rw (same, top_set, back, odd, sized, addr) refl

pub behind_offline :
    (table vaddr shift : ℕ)
    → table + 4096 ≤ 2 ^ 64
    → slot_pointer table vaddr shift ≡ slot table vaddr shift
unfolding behind pointer
behind_offline table vaddr shift room = behind-slot offline table vaddr shift room

-- What `vmm_page_1gb_map_offline` does once the entry of the top table is there.
pub gib_map_after :
    (pml4 vaddr paddr flags : ℕ) (s s' : Vmm)
    → pml4 + 4096 ≤ 2 ^ 64
    → pml4_ensure (slot pml4 vaddr 39) s ≡ some (true, s')
    → vmm_page_1gb_map_offline pml4 vaddr paddr flags s
      ≡ some (
        true,
        record s' {
          mem =
              store64
                (slot (address (load64 (slot pml4 vaddr 39) s'.mem)) vaddr 30)
                (gib_value paddr flags)
                s'.mem;
        },
      )
unfolding vmm_page_1gb_map_offline
gib_map_after pml4 vaddr paddr flags s s' room ensured =
    let top = behind_offline pml4 vaddr 39 room in
    let low =
      behind_offline (address (load64 (slot pml4 vaddr 39) s'.mem)) vaddr 30 (omega arith) in
    rw (top, ensured, bit_and-address (load64 (slot pml4 vaddr 39) s'.mem), low) refl

pub ensure_present :
    (place : ℕ) (s : Vmm) → load64 place s.mem % 2 ≡ 1 → pml4_ensure place s ≡ some (true, s)
unfolding pml4_ensure
ensure_present place s present = ground (arith, bit_and-present (load64 place s.mem))

pub ensure_missing :
    (place : ℕ) (s : Vmm) (frame : ℕ) (pmm' : Pmm)
    → load64 place s.mem % 2 ≡ 0
    → frame * 4096 < 2 ^ 52
    → pmm_frame_alloc s.pmm ≡ some (frame * 4096, pmm')
    → pml4_ensure place s
      ≡ some (
        true,
        record s {
          pmm = pmm';
          mem =
              store64 place
                (bit_or (bit_or (frame * 4096) page_present) page_writable)
                (zero_loop offline 4096 0 (frame * 4096) s.mem);
        },
      )
unfolding pml4_ensure
ensure_missing place s frame pmm' missing small returns =
    let absent : (bit_and (load64 place s.mem) page_present == 0) ≡ true =
      ground (arith, bit_and-present (load64 place s.mem)) in
    let usable : (frame * 4096 == pmm_invalid_frame) ≡ false = ground arith in
    rw (absent, returns, usable) refl

-- Where the entry of the top table is present, and is not the slot that is to be written,
-- `vmm_page_1gb_map_offline` with flags outside the address field succeeds without an allocation,
-- and then the processor translates `vaddr` through a page of 1 GiB to the one of `paddr`. The top
-- table is aligned and below 2 ^ 64.
pub vmm_page_1gb_map_offline_present :
    (pml4 vaddr paddr flags : ℕ) (s : Vmm)
    → pml4 + 4096 ≤ 2 ^ 64
    → pml4 % 8 ≡ 0
    → flags < 2 ^ 64
    → gib_address flags ≡ 0
    → load64 (slot pml4 vaddr 39) s.mem % 2 ≡ 1
    → slot (address (load64 (slot pml4 vaddr 39) s.mem)) vaddr 30 ≢ slot pml4 vaddr 39
    → (mem' : ℕ → ℕ) × (vmm_page_1gb_map_offline pml4 vaddr paddr flags s
        ≡ some (true, record s { mem = mem' }))
      × (translate_gib pml4 vaddr mem' ≡ some (gib_address paddr + vaddr % 2 ^ 30))
vmm_page_1gb_map_offline_present pml4 vaddr paddr flags s room aligned small clear present apart = (
  _,
  gib_map_after pml4 vaddr paddr flags s s room (ensure_present (slot pml4 vaddr 39) s present),
  gib_stored pml4 vaddr paddr flags s.mem aligned small clear present apart,
)

-- Where the entry of the top table is missing, the frame of the top table is marked used and some
-- frame is free, `vmm_page_1gb_map_offline` with flags outside the address field takes one frame
-- for the new table and succeeds, and then the processor translates `vaddr` through a page of
-- 1 GiB to the one of `paddr`. The top table is aligned and below 2 ^ 64.
pub vmm_page_1gb_map_offline_missing :
    (pml4 vaddr paddr flags : ℕ) (s : Vmm)
    → pml4 + 4096 ≤ 2 ^ 64
    → pml4 % 4096 ≡ 0
    → flags < 2 ^ 64
    → gib_address flags ≡ 0
    → load64 (slot pml4 vaddr 39) s.mem % 2 ≡ 0
    → IsBitmap s.pmm
    → used s.pmm (pml4 / 4096) ≡ 1
    → (f : ℕ) → f < capacity
    → used s.pmm f ≡ 0
    → (frame : ℕ) × (pmm' : Pmm) × (mem' : ℕ → ℕ) × (pmm_frame_alloc s.pmm ≡ some (frame, pmm'))
      × (vmm_page_1gb_map_offline pml4 vaddr paddr flags s
          ≡ some (true, record s { mem = mem'; pmm = pmm' }))
      × (translate_gib pml4 vaddr mem' ≡ some (gib_address paddr + vaddr % 2 ^ 30))
vmm_page_1gb_map_offline_missing pml4 vaddr paddr flags s room aligned small clear missing valid
      taken f inside free =
    let al = pmm_frame_alloc-IsAllocation s.pmm valid f inside free in
    let place = slot pml4 vaddr 39 in
    let frame = al.frame * 4096 in
    let entry = bit_or (bit_or frame page_present) page_writable in
    let fresh : al.frame ≢ pml4 / 4096 =
      λ e. absurd (omega (arith, ap (used s.pmm) e, al.free_before)) in
    let mem : ℕ → ℕ = store64 place entry (zero_loop offline 4096 0 frame s.mem) in
    let s' : Vmm = record s { mem = mem; pmm = al.out } in
    let value : entry ≡ frame + 3 = entry-sum frame (omega arith) in
    let bound : frame + 4096 ≤ 2 ^ 39 = omega (arith, al.inside) in
    let top = load64-store64 place entry (zero_loop offline 4096 0 frame s.mem) (omega arith) in
    let ensured : pml4_ensure place s ≡ some (true, s') =
      ensure_missing place s al.frame al.out missing (omega arith) al.returns in
    let at_frame : address (load64 place mem) ≡ frame = ap address top ∙ omega arith in
    (
      frame,
      al.out,
      _,
      al.returns,
      gib_map_after pml4 vaddr paddr flags s s' room ensured,
      gib_stored pml4 vaddr paddr flags mem (omega arith) small clear (omega arith)
          (rw at_frame (λ e. absurd (fresh (omega arith)))),
    )
