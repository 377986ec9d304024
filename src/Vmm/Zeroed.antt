-- ===== src/Vmm/Zeroed.antt =====
-- kernel/vmm.c, `zero`: the page at a pointer cleared, as the words of memory see it.
use bootloader_kernel_in_nas.Base.{
  ℕ, zero, suc, ◌+◌, ◌^◌, ◌≤◌, ◌<◌, ◌&&◌, leb, ltb, if◌then◌else◌, update, ◌≡◌, refl, sym, ap, ◌∙◌,
  ◌⊎◌, arith,
}
use bootloader_kernel_in_nas.Page.{u64}
use bootloader_kernel_in_nas.Vmm.{
  Mode, online, offline, pointer, behind, vmm_phys_to_virt, virt_to_phys, zero_loop, load_bytes,
  load64,
}
use bootloader_kernel_in_nas.Vmm.Memory.{load_bytes-same}

zero_loop_lem :
    (left i ptr : ℕ) (mem : ℕ → ℕ) (a : ℕ)
    → ptr + i + left ≤ 2 ^ 64
    → zero_loop offline left i ptr mem a
      ≡ (if leb (ptr + i) a && ltb a (ptr + i + left) then 0 else mem a)
unfolding zero_loop behind
zero_loop_lem zero i ptr mem a room = ground arith
zero_loop_lem (suc left) i ptr mem a room =
    zero_loop_lem left (i + 1) ptr _ a (omega arith) ∙ ground arith

pub load64-zeroed :
    (table place : ℕ) (mem : ℕ → ℕ)
    → table + 4096 ≤ 2 ^ 64
    → table ≤ place
    → place + 8 ≤ table + 4096
    → load64 place (zero_loop offline 4096 0 table mem) ≡ 0
unfolding load_bytes
load64-zeroed table place mem room l u =
    load_bytes-same 8 place (zero_loop offline 4096 0 table mem) (λ i. 0)
      (λ i li ui. zero_loop_lem 4096 0 table mem i (omega arith) ∙ ground arith)

-- A word outside the page stays.
pub load64-unzeroed :
    (table place : ℕ) (mem : ℕ → ℕ)
    → table + 4096 ≤ 2 ^ 64
    → (place + 8 ≤ table) ⊎ (table + 4096 ≤ place)
    → load64 place (zero_loop offline 4096 0 table mem) ≡ load64 place mem
unfolding load_bytes
load64-unzeroed table place mem room away =
    load_bytes-same 8 place (zero_loop offline 4096 0 table mem) mem
      (λ i li ui. zero_loop_lem 4096 0 table mem i (omega arith) ∙ ground arith)

-- The byte behind a pointer into a page.
behind-pointer :
    (mode : Mode) (table i : ℕ)
    → table + i < 2 ^ 64
    → behind mode (u64 (pointer mode table + i)) ≡ u64 (table + i)
unfolding behind pointer vmm_phys_to_virt virt_to_phys
behind-pointer online table i room = omega arith
behind-pointer offline table i room = omega arith

-- Through the direct map the same bytes are cleared as one to one.
pub zero_loop-offline :
    (mode : Mode) (left i table : ℕ) (mem : ℕ → ℕ)
    → table + i + left ≤ 2 ^ 64
    → zero_loop mode left i (pointer mode table) mem ≡ zero_loop offline left i table mem
unfolding zero_loop pointer
zero_loop-offline mode zero i table mem room = refl
zero_loop-offline mode (suc left) i table mem room =
    let here = behind-pointer mode table i (omega arith) in
    let there = behind-pointer offline table i (omega arith) in
    ap (λ (a : ℕ). zero_loop mode left (i + 1) (pointer mode table) (update mem a 0)) here
    ∙ zero_loop-offline mode left (i + 1) table (update mem (u64 (table + i)) 0) (omega arith)
    ∙ ap (λ (a : ℕ). zero_loop offline left (i + 1) table (update mem a 0)) (sym there)
