-- ===== src/Vmm/Hhdm.antt =====
-- `vmm_hhdm_create`, and `vmm_init` up to the map of the kernel.
use bootloader_kernel_in_nas.Base.{
  ℕ, suc, ◌+◌, ◌-◌, ◌*◌, ◌/◌, ◌%◌, ◌^◌, ◌≤◌, ◌<◌, bit_or, true, false, Bool, Option, some, ◌==◌,
  ◌>>=◌, ◌≡◌, ◌≢◌, refl, ap, ◌∙◌, arith,
}
use bootloader_kernel_in_nas.Pmm.{Pmm, pmm_frame_alloc, pmm_highest_address_get, pmm_invalid_frame}
use bootloader_kernel_in_nas.Pmm.Bitmap.{capacity, used, IsBitmap}
use bootloader_kernel_in_nas.Pmm.Alloc.{pmm_frame_alloc-IsAllocation}
use bootloader_kernel_in_nas.Vmm.{
  Vmm, offline, zero_loop, page_present, page_writable, hhdm_offset, gib_size, load64, store64,
}
use bootloader_kernel_in_nas.Vmm.Memory.{load64-store64, load64-apart}
use bootloader_kernel_in_nas.Vmm.Zeroed.{load64-unzeroed}
use bootloader_kernel_in_nas.Vmm.Entry.{slot}
use bootloader_kernel_in_nas.Vmm.Boot.{
  pml4_ensure, gib_value, hhdm_loop, vmm_hhdm_create, vmm_kernel_map, vmm_init,
}
use bootloader_kernel_in_nas.Vmm.Gib.{translate_gib, ensure_missing}
use bootloader_kernel_in_nas.Vmm.GibEntry.{entry-sum}
use bootloader_kernel_in_nas.Vmm.Direct.{
  flags, IsDirect, AreTables, translate-IsDirect, stored-IsDirect, map-IsDirect, hhdm_loop_step,
  hhdm_loop-IsDirect,
}

-- The memory once the second table is entered.
entered-IsDirect :
    (pml4 pdpt : ℕ) (mem : ℕ → ℕ)
    → AreTables pml4 pdpt
    → IsDirect 0 pml4 pdpt
        (λ k. load64 (pml4 + 8 * k) mem)
        (store64
          (pml4 + 8 * 256)
          (bit_or (bit_or pdpt page_present) page_writable)
          (zero_loop offline 4096 0 pdpt mem))
entered-IsDirect pml4 pdpt mem t =
    let value : ℕ = bit_or (bit_or pdpt page_present) page_writable in
    let sum : value ≡ pdpt + 3 = entry-sum pdpt t.aligned' in
    let zeroed : ℕ → ℕ = zero_loop offline 4096 0 pdpt mem in
    record {
      lower = λ k l.
          load64-apart (pml4 + 8 * 256) (pml4 + 8 * k) value zeroed (omega arith)
          ∙ load64-unzeroed pdpt (pml4 + 8 * k) mem (omega (arith, t.below, t.aligned'))
              (ground (arith, t.aligned, t.aligned', t.apart));
      top = load64-store64 (pml4 + 8 * 256) value zeroed (omega (arith, sum, t.below)) ∙ sum;
      entries = λ j l. absurd (omega arith);
    }

-- `result` is a normal return with the direct map of all memory below `max_pa`.
pub record IsHhdm (pml4 pdpt max_pa : ℕ) (low : ℕ → ℕ) (s : Vmm) (result : Option (Bool × Vmm))
    : Type 0 where
  pub mem' : ℕ → ℕ
  pub returns : result ≡ some (true, record s { mem = mem' })
  pub count : ℕ
  pub few : count ≤ 512
  pub enough : max_pa ≤ count * 2 ^ 30
  pub tables : AreTables pml4 pdpt
  pub direct : IsDirect count pml4 pdpt low mem'

-- The whole loop, whose first round enters the second table.
hhdm_loop-IsHhdm :
    (max_pa pml4 pdpt : ℕ) (low : ℕ → ℕ) (s s1 : Vmm)
    → AreTables pml4 pdpt
    → IsDirect 0 pml4 pdpt low s1.mem
    → pml4_ensure (slot pml4 hhdm_offset 39) s ≡ some (true, s1)
    → 0 < max_pa
    → max_pa ≤ 512 * 2 ^ 30
    → IsHhdm pml4 pdpt max_pa low s1 (hhdm_loop (max_pa / gib_size + 2) 0 max_pa pml4 s)
hhdm_loop-IsHhdm max_pa pml4 pdpt low s s1 t d0 ensured some_memory small =
    let left : ℕ = (max_pa - 1) / 2 ^ 30 in
    let fuel : max_pa / gib_size + 2 ≡ suc (max_pa / gib_size + 1) = omega arith in
    let one = map-IsDirect 0 pml4 pdpt low s s1 t d0 (omega arith) ensured in
    let s2 : Vmm = record s1 {
      mem = store64 (pdpt + 8 * 0) (gib_value (0 * 2 ^ 30) flags) s1.mem;
    } in
    let (mem', run, direct) =
      hhdm_loop-IsDirect left (max_pa / gib_size + 1) 1 max_pa pml4 pdpt low s2 (omega arith)
        (omega arith) (omega arith) (omega arith) t
        (stored-IsDirect 0 pml4 pdpt low s1.mem t d0 (omega arith)) in
    record {
      mem' = mem';
      returns =
          ap (λ (n : ℕ). hhdm_loop n 0 max_pa pml4 s) fuel
          ∙ hhdm_loop_step (max_pa / gib_size + 1) 0 max_pa pml4 s s2 some_memory (omega arith) one
          ∙ run;
      count = 1 + left;
      few = omega arith;
      enough = omega arith;
      tables = t;
      direct = direct;
    }

-- `vmm_hhdm_create` with `frame` for the second table.
pub vmm_hhdm_create-IsHhdm :
    (pml4 frame : ℕ) (pmm' : Pmm) (s : Vmm)
    → pml4 + 4096 ≤ 2 ^ 64
    → pml4 % 4096 ≡ 0
    → load64 (slot pml4 hhdm_offset 39) s.mem % 2 ≡ 0
    → used s.pmm (pml4 / 4096) ≡ 1
    → pmm_frame_alloc s.pmm ≡ some (frame * 4096, pmm')
    → frame < capacity
    → used s.pmm frame ≡ 0
    → 0 < pmm_highest_address_get s.pmm
    → pmm_highest_address_get s.pmm ≤ 512 * 2 ^ 30
    → IsHhdm pml4
        (frame * 4096)
        (pmm_highest_address_get s.pmm)
        (λ k. load64 (pml4 + 8 * k) s.mem)
        (record s { pmm = pmm' })
        (vmm_hhdm_create pml4 s)
unfolding vmm_hhdm_create
vmm_hhdm_create-IsHhdm pml4 frame pmm' s room aligned missing taken returns inside free some_memory
      small =
    let max_pa = pmm_highest_address_get s.pmm in
    let pdpt : ℕ = frame * 4096 in
    let fresh : frame ≢ pml4 / 4096 = λ e. absurd (omega (arith, ap (used s.pmm) e)) in
    let bound : pdpt < 2 ^ 52 = omega (arith, inside) in
    let t : AreTables pml4 pdpt = record {
      room = room;
      aligned = aligned;
      below = bound;
      aligned' = omega arith;
      apart = λ e. absurd (fresh (omega arith));
    } in
    let entry : ℕ = bit_or (bit_or pdpt page_present) page_writable in
    let s1 : Vmm = record s {
      pmm = pmm';
      mem = store64 (slot pml4 hhdm_offset 39) entry (zero_loop offline 4096 0 pdpt s.mem);
    } in
    let made =
      hhdm_loop-IsHhdm max_pa pml4 pdpt (λ k. load64 (pml4 + 8 * k) s.mem) s s1 t
        (entered-IsDirect pml4 pdpt s.mem t)
        (ensure_missing (slot pml4 hhdm_offset 39) s frame pmm' missing bound returns) some_memory
        small in
    record {
      mem' = made.mem';
      returns = made.returns;
      count = made.count;
      few = made.few;
      enough = made.enough;
      tables = made.tables;
      direct = made.direct;
    }

pub IsHhdm-translate_gib :
    (pml4 pdpt max_pa : ℕ) (low : ℕ → ℕ) (s : Vmm) (result : Option (Bool × Vmm))
    (h : IsHhdm pml4 pdpt max_pa low s result)
    → (low' mem' : ℕ → ℕ) → IsDirect h.count pml4 pdpt low' mem'
    → (p : ℕ) → p < max_pa
    → translate_gib pml4 (hhdm_offset + p) mem' ≡ some p
IsHhdm-translate_gib pml4 pdpt max_pa low s result h low' mem' direct p l =
    translate-IsDirect h.count pml4 pdpt p low' mem' h.tables direct h.few (omega (arith, h.enough))

-- Where the top table has no entry for the direct map yet, its frame is marked used and some frame
-- is free, `vmm_hhdm_create` takes one frame for a table and succeeds, and then the processor
-- translates HHDM_OFFSET + p to p for every physical address p below the highest one, which is
-- above 0 and at most 512 GiB. The top table is aligned and below 2 ^ 64.
pub vmm_hhdm_create-translate_gib :
    (pml4 : ℕ) (s : Vmm)
    → pml4 + 4096 ≤ 2 ^ 64
    → pml4 % 4096 ≡ 0
    → load64 (slot pml4 hhdm_offset 39) s.mem % 2 ≡ 0
    → IsBitmap s.pmm
    → used s.pmm (pml4 / 4096) ≡ 1
    → (f : ℕ) → f < capacity
    → used s.pmm f ≡ 0
    → 0 < pmm_highest_address_get s.pmm
    → pmm_highest_address_get s.pmm ≤ 512 * 2 ^ 30
    → (frame : ℕ) × (pmm' : Pmm) × (mem' : ℕ → ℕ) × (pmm_frame_alloc s.pmm ≡ some (frame, pmm'))
      × (vmm_hhdm_create pml4 s ≡ some (true, record s { mem = mem'; pmm = pmm' }))
      × ((p : ℕ)
          → p < pmm_highest_address_get s.pmm
          → translate_gib pml4 (hhdm_offset + p) mem' ≡ some p)
vmm_hhdm_create-translate_gib pml4 s room aligned missing valid taken f inside free some_memory
      small =
    let al = pmm_frame_alloc-IsAllocation s.pmm valid f inside free in
    let low : ℕ → ℕ = λ k. load64 (pml4 + 8 * k) s.mem in
    let h =
      vmm_hhdm_create-IsHhdm pml4 al.frame al.out s room aligned missing taken al.returns al.inside
        al.free_before some_memory small in
    (
      al.frame * 4096,
      al.out,
      h.mem',
      al.returns,
      h.returns,
      IsHhdm-translate_gib pml4 (al.frame * 4096) (pmm_highest_address_get s.pmm) low
          (record s { pmm = al.out }) (vmm_hhdm_create pml4 s) h low h.mem' h.direct,
    )

-- `vmm_init` once its first two steps succeed.
pub vmm_init-after :
    (kernel_start kernel_end rsp pml4 : ℕ) (pmm : Pmm) (s s' : Vmm)
    → pmm_frame_alloc s.pmm ≡ some (pml4, pmm)
    → (pml4 == pmm_invalid_frame) ≡ false
    → vmm_hhdm_create pml4 (record s { pmm = pmm; mem = zero_loop offline 4096 0 pml4 s.mem })
      ≡ some (true, s')
    → vmm_init kernel_start kernel_end rsp s ≡ (
        vmm_kernel_map kernel_start kernel_end rsp pml4 s' >>= λ s''.
        some (true, record s'' { cr3 = pml4 }))
unfolding vmm_init
vmm_init-after kernel_start kernel_end rsp pml4 pmm s s' alloc usable made =
    rw (alloc, usable, made) refl
