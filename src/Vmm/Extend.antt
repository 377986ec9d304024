-- ===== src/Vmm/Extend.antt =====
-- kernel/vmm.c: an address space with one page more.
use bootloader_kernel_in_nas.Base.{
  ℕ, ◌+◌, ◌/◌, ◌%◌, ◌^◌, ◌<◌, Option, some, List, ◌≡◌, ◌≢◌, sym, ap, ◌∙◌, arith,
}
use bootloader_kernel_in_nas.Pmm.Bitmap.{used}
use bootloader_kernel_in_nas.Pmm.Supply.{HasFree}
use bootloader_kernel_in_nas.Vmm.{Vmm, load64, store64, pte_value}
use bootloader_kernel_in_nas.Vmm.Entry.{
  address, slot, address-pte_value, pte_value-odd, pte_value-lt,
}
use bootloader_kernel_in_nas.Vmm.Create.{IsWalked}
use bootloader_kernel_in_nas.Vmm.Mapping.{translate}
use bootloader_kernel_in_nas.Vmm.Memory.{load64-store64}
use bootloader_kernel_in_nas.Vmm.Space.{Owners, IsPath, IsSpace}
use bootloader_kernel_in_nas.Vmm.Stored.{
  AgreeAbove, tables-AgreeAbove, tables-page, load64-store-above, IsPath-store64,
}
use bootloader_kernel_in_nas.Vmm.Translated.{translate-last, translate-Keeps, translate-store64}

-- `out` is `s` with the page of `v` mapped to the one of `paddr`; at most three frames became
-- tables. All other pages are mapped as before, and the tables of other parts stay as they are.
pub record IsExtended (own : Owners) (pml4 v paddr count : ℕ) (s out : Vmm) : Type 0 where
  pub own' : Owners
  pub space : IsSpace own' pml4 out
  pub taken : (g : ℕ) → used s.pmm g ≡ 1 → used out.pmm g ≡ 1
  pub level : (g : ℕ) → used s.pmm g ≡ 1 → own'.level g ≡ own.level g
  pub words : AgreeAbove own s.pmm s.mem out.mem
  pub there :
      (v' : ℕ) → v' / 4096 ≡ v / 4096 → translate pml4 v' out.mem ≡ some (address paddr + v' % 4096)
  pub others :
      (v' q : ℕ)
      → v' < 2 ^ 47
      → v' / 4096 ≢ v / 4096
      → translate pml4 v' s.mem ≡ some q
      → translate pml4 v' out.mem ≡ some q
  pub root : out.cr3 ≡ s.cr3
  pub supply : ℕ → ℕ
  pub free : HasFree count supply out.pmm

-- The entry stored at the end of the walk that makes tables.
module _ (own : Owners) (pml4 v paddr flags count : ℕ) (s : Vmm) (result : Option (Option ℕ × Vmm))
    (small : flags < 2 ^ 64) (clear : address flags ≡ 0) (low : v < 2 ^ 47)
    (space : IsSpace own pml4 s) (w : IsWalked own 3 pml4 v count s result) where
  abbrev place : ℕ
  place = slot w.last v 12

  abbrev value : ℕ
  value = pte_value paddr flags

  abbrev pub walked_mem : ℕ → ℕ
  walked_mem = store64 place value w.out.mem

  stored_words : AgreeAbove w.own' w.out.pmm w.out.mem walked_mem
  stored_words a aligned h above odd =
      load64-store-above w.own' w.last v value w.out.pmm w.node a w.out.mem aligned above

  stored-IsPath : (v' : ℕ) → v' < 2 ^ 47 → IsPath w.own' 3 pml4 v' w.out.pmm walked_mem
  stored-IsPath v' l =
      IsPath-store64 w.own' w.last v value w.out.pmm w.node 3 pml4 v' w.out.mem
        (w.paths 3 pml4 v' (space.paths v' l))

  stored_there :
      (v' : ℕ)
      → v' / 4096 ≡ v / 4096
      → translate pml4 v' walked_mem ≡ some (address paddr + v' % 4096)
  stored_there v' page =
      let reached =
        tables-AgreeAbove w.own' 3 pml4 v w.last w.out.pmm w.out.mem walked_mem stored_words
          (w.paths 3 pml4 v (space.paths v low)) w.found in
      let found' = tables-page 3 pml4 v' v walked_mem (omega arith) page ∙ reached.found in
      let same : slot w.last v' 12 ≡ place = omega (arith, page) in
      let back : load64 (slot w.last v' 12) walked_mem ≡ value =
        ap (λ (a : ℕ). load64 a walked_mem) same
        ∙ load64-store64 place value w.out.mem (pte_value-lt paddr flags small) in
      translate-last pml4 v' w.last walked_mem found'
        (ap (λ (x : ℕ). x % 2) back ∙ pte_value-odd paddr flags)
      ∙ ap (λ (x : ℕ). some (address x + v' % 4096)) back
      ∙ ap (λ (x : ℕ). some (x + v' % 4096)) (address-pte_value paddr flags clear)

  stored_others :
      (v' q : ℕ)
      → v' < 2 ^ 47
      → v' / 4096 ≢ v / 4096
      → translate pml4 v' s.mem ≡ some q
      → translate pml4 v' walked_mem ≡ some q
  stored_others v' q l other before =
      translate-store64 w.own' pml4 w.last v value w.out.pmm w.node v' q w.out.mem
        (w.paths 3 pml4 v' (space.paths v' l)) other
        (translate-Keeps own w.own' pml4 v' q s w.out w.keeps (space.paths v' l) before)

  -- The state `out`, which the map functions leave, has this memory.
  pub walked-IsExtended :
      (flushed : List ℕ)
      → IsExtended own pml4 v paddr count s (record w.out { mem = walked_mem; flushed = flushed })
  walked-IsExtended flushed = record {
    own' = w.own';
    space = record { valid = w.valid; paths = stored-IsPath };
    taken = w.keeps.taken;
    level = w.keeps.level;
    words = λ a m h above odd.
        let kept = w.keeps.words a m h odd in
        stored_words a m (w.keeps.taken (a / 4096) h)
          (λ e. above (sym (w.keeps.level (a / 4096) h) ∙ e)) (ap (λ (x : ℕ). x % 2) kept ∙ odd)
        ∙ kept;
    there = stored_there;
    others = stored_others;
    root = w.keeps.root;
    supply = w.supply;
    free = w.free;
  }
