-- ===== src/Vmm/Init.antt =====
-- kernel/vmm.c, `vmm_init`: the address space that the processor runs on after it.
use bootloader_kernel_in_nas.Base.{
  ℕ, ◌+◌, ◌*◌, ◌/◌, ◌%◌, ◌^◌, ◌<◌, true, Bool, Option, some, ◌==◌, if◌then◌else◌, ◌≡◌, ◌≢◌, ap, ◌∙◌,
  arith,
}
use bootloader_kernel_in_nas.Pmm.{Pmm, pmm_frame_alloc}
use bootloader_kernel_in_nas.Pmm.Bitmap.{capacity, used, IsBitmap}
use bootloader_kernel_in_nas.Pmm.Supply.{HasFree}
use bootloader_kernel_in_nas.Vmm.{Vmm, offline, zero_loop, hhdm_offset, load64}
use bootloader_kernel_in_nas.Vmm.Boot.{vmm_hhdm_create}
use bootloader_kernel_in_nas.Vmm.Gib.{translate_gib}
use bootloader_kernel_in_nas.Vmm.Hhdm.{IsHhdm}
use bootloader_kernel_in_nas.Vmm.KernelMap.{InKernel}
use bootloader_kernel_in_nas.Vmm.Linked.{HasDirect}
use bootloader_kernel_in_nas.Vmm.Mapping.{translate}
use bootloader_kernel_in_nas.Vmm.Space.{Owners, IsPath, IsSpace, shift_at}

-- The machine on its own tables: all memory below `max_pa` at HHDM_OFFSET, image and stack one to
-- one, and `count` frames left.
pub record IsRunning (kernel_start kernel_end rsp max_pa count : ℕ) (before : Pmm)
    (result : Option (Bool × Vmm)) : Type 0 where
  pub out : Vmm
  pub own : Owners
  pub returns : result ≡ some (true, out)
  pub space : IsSpace own out.cr3 out
  pub grown : (g : ℕ) → used before g ≡ 1 → used out.pmm g ≡ 1
  pub linked : HasDirect own out.cr3 max_pa out.pmm out.mem
  pub direct : (p : ℕ) → p < max_pa → translate_gib out.cr3 (hhdm_offset + p) out.mem ≡ some p
  pub identity :
      (v : ℕ) → InKernel kernel_start kernel_end rsp v → translate out.cr3 v out.mem ≡ some v
  pub supply : ℕ → ℕ
  pub free : HasFree count supply out.pmm

-- The owners while there are only a top table and others outside the lower half.
abbrev pub top_only : (frame : ℕ) → Owners
top_only frame = record { level = λ g. if g == frame then 3 else 4; prefix = λ g. 0 }

-- A top table without an entry for the lower half.
pub top_only-IsSpace :
    (frame : ℕ) (s : Vmm)
    → IsBitmap s.pmm
    → frame < capacity
    → used s.pmm frame ≡ 1
    → ((k : ℕ) → k < 256 → load64 (frame * 4096 + 8 * k) s.mem ≡ 0)
    → IsSpace (top_only frame) (frame * 4096) s
unfolding IsPath shift_at
top_only-IsSpace frame s valid inside taken empty =
    let number : frame * 4096 / 4096 ≡ frame = omega arith in
    record {
      valid = valid;
      paths = λ v l. (
        record {
          aligned = omega arith;
          inside = omega (arith, inside);
          taken = ap (used s.pmm) number ∙ taken;
          at_level = ground (arith, number);
          at_prefix = omega arith;
        },
        λ odd. absurd (omega (arith, odd, empty (v / 2 ^ 39 % 512) (omega arith))),
      );
    }

-- What is there once the direct map is made: the top table, the direct map, and no more.
record IsMade (max_pa count : ℕ) (s : Vmm) : Type 0 where
  frame : ℕ
  pdpt : ℕ
  low : ℕ → ℕ
  start : Vmm
  top : Pmm
  returns : pmm_frame_alloc s.pmm ≡ some (frame * 4096, top)
  frame-lt : frame < capacity
  hhdm : IsHhdm (frame * 4096) (pdpt * 4096) max_pa low start (
      vmm_hhdm_create
        (frame * 4096)
        (record s { pmm = top; mem = zero_loop offline 4096 0 (frame * 4096) s.mem }))
  space : IsSpace (top_only frame) (frame * 4096) (record start { mem = hhdm.mem' })
  grown : (g : ℕ) → used s.pmm g ≡ 1 → used start.pmm g ≡ 1
  taken : used start.pmm frame ≡ 1
  taken' : used start.pmm pdpt ≡ 1
  apart : frame ≢ pdpt
  supply : ℕ → ℕ
  free : HasFree count supply start.pmm
