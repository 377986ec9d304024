-- ===== src/Vmm/Fuel.antt =====
-- The fuel of the loops in Vmm.Boot, which stand for loops of kernel/vmm.c over addresses.
use bootloader_kernel_in_nas.Base.{
  ℕ, zero, suc, ◌+◌, ◌-◌, ◌*◌, ◌/◌, ◌^◌, ◌≤◌, ◌<◌, Bool, true, false, Option, some, ltb, ltb→lt,
  Bool-cases, ◌>>=◌, ◌≡◌, refl, sym, ap, ap₂, fun_ext, inl, inr, arith, bit_or,
}
use bootloader_kernel_in_nas.Page.{u64, page_size}
use bootloader_kernel_in_nas.Page.Align.{align_up-room}
use bootloader_kernel_in_nas.Pmm.{pmm_highest_address_get}
use bootloader_kernel_in_nas.Vmm.{Vmm, gib_size, hhdm_offset, page_writable, page_nx}
use bootloader_kernel_in_nas.Vmm.Boot.{
  hhdm_loop, vmm_hhdm_create, vmm_page_1gb_map_offline, image_loop, window_loop,
  vmm_page_map_internal, vmm_kernel_map, image_size, window_start, window_end,
}

hhdm_loop-enough :
    (fuel more p max_pa pml4 : ℕ) (s : Vmm)
    → fuel ≤ more
    → max_pa + 2 ^ 30 ≤ 2 ^ 64
    → max_pa + 2 ^ 30 ≤ p + fuel * 2 ^ 30
    → p < max_pa + 2 ^ 30
    → hhdm_loop more p max_pa pml4 s ≡ hhdm_loop fuel p max_pa pml4 s
unfolding hhdm_loop
hhdm_loop-enough zero more p max_pa pml4 s le small enough close = absurd (omega arith)
hhdm_loop-enough (suc fuel) zero p max_pa pml4 s le small enough close = absurd (omega arith)
hhdm_loop-enough (suc fuel) (suc more) p max_pa pml4 s le small enough close =
    elim (Bool-cases (ltb p max_pa)) [
      | inl below ↦
          let lt = ltb→lt p max_pa below in
          rw (hhdm_loop, below)
            (ap
              (λ (k : Vmm → Option (Bool × Vmm)).
                vmm_page_1gb_map_offline pml4 (u64 (p + hhdm_offset)) p
                  (bit_or page_writable page_nx) s
                >>= λ (success, s'). elim success [ true ↦ k s' | false ↦ some (false, s') ])
              (fun_ext λ s'.
                hhdm_loop-enough fuel more (u64 (p + gib_size)) max_pa pml4 s' (omega arith) small
                  (omega arith) (omega arith)))
      | inr above ↦ rw (hhdm_loop, above) refl
    ]

-- The loop of `vmm_hhdm_create` ends within its fuel, while the highest address is at most
-- 2 ^ 64 - GIB_SIZE: any larger fuel gives the same result.
pub vmm_hhdm_create-enough :
    (fuel pml4 : ℕ) (s : Vmm)
    → pmm_highest_address_get s.pmm + gib_size ≤ 2 ^ 64
    → pmm_highest_address_get s.pmm / gib_size + 2 ≤ fuel
    → vmm_hhdm_create pml4 s ≡ hhdm_loop fuel 0 (pmm_highest_address_get s.pmm) pml4 s
unfolding vmm_hhdm_create
vmm_hhdm_create-enough fuel pml4 s small le =
    let max_pa = pmm_highest_address_get s.pmm in
    sym (
      hhdm_loop-enough (max_pa / gib_size + 2) fuel 0 max_pa pml4 s le small (omega arith)
        (omega arith))

image_loop-enough :
    (fuel more i size v_start pml4 : ℕ) (s : Vmm)
    → fuel ≤ more
    → size + 4096 ≤ 2 ^ 64
    → size + 4096 ≤ i + fuel * 4096
    → i < size + 4096
    → image_loop more i size v_start pml4 s ≡ image_loop fuel i size v_start pml4 s
unfolding image_loop
image_loop-enough zero more i size v_start pml4 s le small enough close = absurd (omega arith)
image_loop-enough (suc fuel) zero i size v_start pml4 s le small enough close = absurd (omega arith)
image_loop-enough (suc fuel) (suc more) i size v_start pml4 s le small enough close =
    elim (Bool-cases (ltb i size)) [
      | inl below ↦
          let lt = ltb→lt i size below in
          rw (image_loop, below)
            (ap
              (λ (k : Vmm → Option Vmm).
                vmm_page_map_internal pml4 (u64 (v_start + i)) (u64 (v_start + i)) page_writable s
                >>= k)
              (fun_ext λ s'.
                image_loop-enough fuel more (u64 (i + page_size)) size v_start pml4 s' (omega arith)
                  small (omega arith) (omega arith)))
      | inr above ↦ rw (image_loop, above) refl
    ]

window_loop-enough :
    (fuel more va end pml4 : ℕ) (s : Vmm)
    → fuel ≤ more
    → end + 4096 ≤ 2 ^ 64
    → 0 < fuel
    → end + 4096 ≤ va + fuel * 4096
    → window_loop more va end pml4 s ≡ window_loop fuel va end pml4 s
unfolding window_loop
window_loop-enough zero more va end pml4 s le small some_fuel enough = absurd (omega arith)
window_loop-enough (suc fuel) zero va end pml4 s le small some_fuel enough = absurd (omega arith)
window_loop-enough (suc fuel) (suc more) va end pml4 s le small some_fuel enough =
    elim (Bool-cases (ltb va end)) [
      | inl below ↦
          let lt = ltb→lt va end below in
          rw (window_loop, below)
            (ap (λ (k : Vmm → Option Vmm). vmm_page_map_internal pml4 va va page_writable s >>= k)
              (fun_ext λ s'.
                window_loop-enough fuel more (u64 (va + page_size)) end pml4 s' (omega arith) small
                  (omega arith) (omega arith)))
      | inr above ↦ rw (window_loop, above) refl
    ]

-- Both loops of `vmm_kernel_map` end within their fuel, for a kernel image smaller than
-- 2 ^ 64 - PAGE_SIZE bytes and every stack pointer: any larger fuel gives the same result.
pub vmm_kernel_map-enough :
    (fuel fuel' kernel_start kernel_end rsp pml4 : ℕ) (s : Vmm)
    → image_size kernel_start kernel_end + page_size ≤ 2 ^ 64
    → image_size kernel_start kernel_end / page_size + 2 ≤ fuel
    → (window_end rsp - window_start rsp) / page_size + 2 ≤ fuel'
    → vmm_kernel_map kernel_start kernel_end rsp pml4 s ≡ (
        image_loop fuel 0 (image_size kernel_start kernel_end) kernel_start pml4 s
        >>= window_loop fuel' (window_start rsp) (window_end rsp) pml4)
unfolding vmm_kernel_map
vmm_kernel_map-enough fuel fuel' kernel_start kernel_end rsp pml4 s small le le' =
    let size = image_size kernel_start kernel_end in
    let start = window_start rsp in
    let end = window_end rsp in
    let room : end + 4096 ≤ 2 ^ 64 = align_up-room (u64 (rsp + page_size)) in
    let image =
      image_loop-enough (size / page_size + 2) fuel 0 size kernel_start pml4 s le small
        (omega arith) (omega arith) in
    let window : window_loop fuel' start end pml4
        ≡ window_loop ((end - start) / page_size + 2) start end pml4 =
      fun_ext λ s'.
        window_loop-enough ((end - start) / page_size + 2) fuel' start end pml4 s' le' room
          (omega arith) (omega arith) in
    sym (ap₂ (λ (o : Option Vmm) (k : Vmm → Option Vmm). o >>= k) image window)
