-- ===== src/Vmm/Fresh.antt =====
-- kernel/vmm.c: a missing table made from a free frame, as the words of memory see it.
use bootloader_kernel_in_nas.Base.{
  ℕ, suc, ◌+◌, ◌*◌, ◌/◌, ◌%◌, ◌^◌, ◌≤◌, ◌<◌, bit_or, false, some, ◌==◌, ◌≡◌, ◌≢◌, refl, ap, ◌∙◌,
  arith,
}
use bootloader_kernel_in_nas.Pmm.{Pmm, pmm_frame_alloc, pmm_invalid_frame}
use bootloader_kernel_in_nas.Pmm.Bitmap.{capacity, used, IsBitmap}
use bootloader_kernel_in_nas.Pmm.Reuse.{IsTaken}
use bootloader_kernel_in_nas.Pmm.Supply.{HasFree, after, HasFree-IsSupplied}
use bootloader_kernel_in_nas.Vmm.{
  Vmm, Mode, online, offline, zero_loop, load64, store64, page_present, page_writable, new_table,
}
use bootloader_kernel_in_nas.Vmm.Memory.{load64-store64, load64-apart}
use bootloader_kernel_in_nas.Vmm.GibEntry.{entry-sum}
use bootloader_kernel_in_nas.Vmm.Zeroed.{load64-zeroed, load64-unzeroed, zero_loop-offline}

-- `s'` is `s` with a table of missing entries in `frame`, which was free, entered at `place`.
pub record IsFresh (frame place : ℕ) (s s' : Vmm) : Type 0 where
  pub inside : frame < capacity
  pub free_before : used s.pmm frame ≡ 0
  pub taken : IsTaken s.pmm frame s'.pmm
  pub entry : load64 place s'.mem ≡ frame * 4096 + 3
  pub zeroed : (a : ℕ) → a % 8 ≡ 0 → a / 4096 ≡ frame → load64 a s'.mem ≡ 0
  pub kept : (a : ℕ) → a % 8 ≡ 0 → a / 4096 ≢ frame → a ≢ place → load64 a s'.mem ≡ load64 a s.mem
  pub root : s'.cr3 ≡ s.cr3

-- The state that `new_table` leaves with the frame at `table`.
entered : (table place : ℕ) → Pmm → Vmm → Vmm
entered table place pmm s = record s {
  pmm = pmm;
  mem =
      store64 place (bit_or (bit_or table page_present) page_writable)
        (zero_loop offline 4096 0 table s.mem);
}

new_table-entered :
    (mode : Mode) (place frame : ℕ) (pmm : Pmm) (s : Vmm)
    → frame < capacity
    → pmm_frame_alloc s.pmm ≡ some (frame * 4096, pmm)
    → new_table mode place s ≡ some (some (frame * 4096 + 3), entered (frame * 4096) place pmm s)
unfolding new_table entered
new_table-entered online place frame pmm s inside returns =
    let usable : (frame * 4096 == pmm_invalid_frame) ≡ false = ground (arith, inside) in
    let cleared = zero_loop-offline online 4096 0 (frame * 4096) s.mem (omega (arith, inside)) in
    rw (returns, usable, cleared, entry-sum (frame * 4096) (omega arith)) refl
new_table-entered offline place frame pmm s inside returns =
    let cleared = zero_loop-offline offline 4096 0 (frame * 4096) s.mem (omega (arith, inside)) in
    rw (returns, cleared, entry-sum (frame * 4096) (omega arith)) refl

-- What `new_table` does while a frame is free.
pub record IsAdded (mode : Mode) (place count : ℕ) (at : ℕ → ℕ) (s : Vmm) : Type 0 where
  pub frame : ℕ
  pub out : Vmm
  pub returns : new_table mode place s ≡ some (some (frame * 4096 + 3), out)
  pub fresh : IsFresh frame place s out
  pub rest : HasFree count (after 1 at) out.pmm

pub new_table-IsAdded :
    (mode : Mode) (place count : ℕ) (at : ℕ → ℕ) (s : Vmm)
    → IsBitmap s.pmm
    → HasFree (suc count) at s.pmm
    → place % 8 ≡ 0
    → used s.pmm (place / 4096) ≡ 1
    → IsAdded mode place count at s
unfolding entered
new_table-IsAdded mode place count at s valid free aligned owned =
    let got = HasFree-IsSupplied count at s.pmm valid free in
    let table : ℕ = got.frame * 4096 in
    let value : ℕ = bit_or (bit_or table page_present) page_writable in
    let low : table + 4096 ≤ 2 ^ 39 = omega (arith, got.frame-lt) in
    let sum : value ≡ table + 3 = entry-sum table (omega arith) in
    let cleared : ℕ → ℕ = zero_loop offline 4096 0 table s.mem in
    let other : place / 4096 ≢ got.frame =
      λ e. absurd (omega (arith, ap (used s.pmm) e, got.free_before)) in
    record {
      frame = got.frame;
      out = entered table place got.out s;
      returns = new_table-entered mode place got.frame got.out s got.frame-lt got.returns;
      fresh = record {
        inside = got.frame-lt;
        free_before = got.free_before;
        taken = got.taken;
        entry = load64-store64 place value cleared (omega arith) ∙ sum;
        zeroed = λ a m e.
            load64-apart place a value cleared (omega arith)
            ∙ load64-zeroed table a s.mem (omega arith) (omega arith) (omega arith);
        kept = λ a m e ne.
            load64-apart place a value cleared (ground arith)
            ∙ load64-unzeroed table a s.mem (omega arith) (ground arith);
        root = refl;
      };
      rest = got.rest;
    }
