-- ===== src/Vmm/Linked.antt =====
-- kernel/vmm.c: the direct map as a part of an address space, which outlives changes of the pages of
-- the lower half.
use bootloader_kernel_in_nas.Base.{
  ℕ, ◌+◌, ◌*◌, ◌/◌, ◌%◌, ◌^◌, ◌≤◌, ◌<◌, some, ◌≡◌, ◌≢◌, refl, sym, ap, ◌∙◌, arith,
}
use bootloader_kernel_in_nas.Pmm.{Pmm}
use bootloader_kernel_in_nas.Pmm.Bitmap.{used}
use bootloader_kernel_in_nas.Vmm.{hhdm_offset, load64}
use bootloader_kernel_in_nas.Vmm.Direct.{IsDirect, AreTables, translate-IsDirect}
use bootloader_kernel_in_nas.Vmm.Gib.{translate_gib}
use bootloader_kernel_in_nas.Vmm.GibEntry.{gib_value-odd}
use bootloader_kernel_in_nas.Vmm.Space.{Owners, data_level}
use bootloader_kernel_in_nas.Vmm.Stored.{AgreeAbove}

-- The direct map survives what leaves the tables above the last level alone.
IsDirect-AgreeAbove :
    (own : Owners) (n pml4 pdpt : ℕ) (low mem mem' : ℕ → ℕ) (p : Pmm)
    → AreTables pml4 pdpt
    → n ≤ 512
    → used p (pml4 / 4096) ≡ 1
    → used p (pdpt / 4096) ≡ 1
    → own.level (pml4 / 4096) ≢ 0
    → own.level (pdpt / 4096) ≢ 0
    → AgreeAbove own p mem mem'
    → IsDirect n pml4 pdpt low mem
    → IsDirect n pml4 pdpt (λ k. load64 (pml4 + 8 * k) mem') mem'
IsDirect-AgreeAbove own n pml4 pdpt low mem mem' p t few taken taken' above above' agree d =
    let kept : (table offset : ℕ)
        → table % 4096 ≡ 0
        → offset < 512
        → used p (table / 4096) ≡ 1
        → own.level (table / 4096) ≢ 0
        → load64 (table + 8 * offset) mem % 2 ≡ 1
        → load64 (table + 8 * offset) mem' ≡ load64 (table + 8 * offset) mem =
      λ table offset m l u v odd.
        let page : (table + 8 * offset) / 4096 ≡ table / 4096 = omega arith in
        agree (table + 8 * offset) (omega arith) (ap (used p) page ∙ u)
          (λ e. v (sym (ap own.level page) ∙ e)) odd in
    record {
      lower = λ k l. refl;
      top =
          kept pml4 256 t.aligned (omega arith) taken above (omega (arith, d.top, t.aligned'))
          ∙ d.top;
      entries = λ j l.
          kept pdpt j t.aligned' (omega arith) taken' above'
            (ap (λ (w : ℕ). w % 2) (d.entries j l) ∙ gib_value-odd _ _)
          ∙ d.entries j l;
    }

-- The top table at `pml4` and the second one, which no walk of the lower half meets, hold the direct
-- map of all memory below `max_pa`.
pub record HasDirect (own : Owners) (pml4 max_pa : ℕ) (p : Pmm) (mem : ℕ → ℕ) : Type 0 where
  pub pdpt : ℕ
  pub count : ℕ
  pub few : count ≤ 512
  pub enough : max_pa ≤ count * 2 ^ 30
  pub tables : AreTables pml4 pdpt
  pub taken : used p (pml4 / 4096) ≡ 1
  pub taken' : used p (pdpt / 4096) ≡ 1
  pub top_level : own.level (pml4 / 4096) ≡ 3
  pub second_level : own.level (pdpt / 4096) ≡ 4
  pub low : ℕ → ℕ
  pub direct : IsDirect count pml4 pdpt low mem

pub HasDirect-translate_gib :
    (own : Owners) (pml4 max_pa : ℕ) (p : Pmm) (mem : ℕ → ℕ)
    → HasDirect own pml4 max_pa p mem
    → (place : ℕ) → place < max_pa
    → translate_gib pml4 (hhdm_offset + place) mem ≡ some place
HasDirect-translate_gib own pml4 max_pa p mem h place l =
    translate-IsDirect h.count pml4 h.pdpt place h.low mem h.tables h.direct h.few
      (omega (arith, h.enough))

-- Memory, allocator and owners may change, as long as used frames keep their level and those
-- below the level of data stay used, and
-- the present entries above the last level stay.
pub HasDirect-AgreeAbove :
    (own own' : Owners) (pml4 max_pa : ℕ) (p p' : Pmm) (mem mem' : ℕ → ℕ)
    → ((g : ℕ) → used p g ≡ 1 → own.level g < data_level → used p' g ≡ 1)
    → ((g : ℕ) → used p g ≡ 1 → own'.level g ≡ own.level g)
    → AgreeAbove own p mem mem'
    → HasDirect own pml4 max_pa p mem
    → HasDirect own' pml4 max_pa p' mem'
HasDirect-AgreeAbove own own' pml4 max_pa p p' mem mem' grown kept agree h = record {
  pdpt = h.pdpt;
  count = h.count;
  few = h.few;
  enough = h.enough;
  tables = h.tables;
  taken = grown (pml4 / 4096) h.taken (omega (arith, h.top_level));
  taken' = grown (h.pdpt / 4096) h.taken' (omega (arith, h.second_level));
  top_level = kept (pml4 / 4096) h.taken ∙ h.top_level;
  second_level = kept (h.pdpt / 4096) h.taken' ∙ h.second_level;
  low = λ k. load64 (pml4 + 8 * k) mem';
  direct =
      IsDirect-AgreeAbove own h.count pml4 h.pdpt h.low mem mem' p h.tables h.few h.taken h.taken'
        (λ e. absurd (omega (arith, e, h.top_level)))
        (λ e. absurd (omega (arith, e, h.second_level))) agree h.direct;
}
