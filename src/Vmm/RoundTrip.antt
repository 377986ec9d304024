-- ===== src/Vmm/RoundTrip.antt =====
-- `vmm_page_map` and `vmm_page_unmap` on an address whose tables exist.
use bootloader_kernel_in_nas.Base.{
  ℕ, ◌+◌, ◌%◌, ◌^◌, ◌≤◌, ◌<◌, true, false, Option, none, some, List, [], ◌∷◌, ◌==◌, if◌then◌else◌,
  ◌≡◌, ◌≢◌, refl, sym, ap, ◌∙◌, inl, inr, arith, Bool-cases,
}
use bootloader_kernel_in_nas.Vmm.{
  Vmm, online, load64, store64, levels_shift, pte_value, vmm_pte_get, vmm_page_map, vmm_page_unmap,
}
use bootloader_kernel_in_nas.Vmm.Memory.{load64-store64, load64-apart}
use bootloader_kernel_in_nas.Vmm.Entry.{
  address, slot, bit_and-address, address-pte_value, pte_value-odd, pte_value-lt,
}
use bootloader_kernel_in_nas.Vmm.Walk.{tables, pte_slot, some_same, some_ne_none}
use bootloader_kernel_in_nas.Vmm.Mapping.{
  translate, Avoids, pte_get-LeadsTo, pte_get-missing, tables-store64, Avoids-store64,
}

-- What unmapping does, by where the entry of `vaddr` is.
unfoldable pub unmapped : (place : Option ℕ) → (vaddr : ℕ) → Vmm → Option ℕ × Vmm
unmapped none vaddr s = (none, s)
unmapped (some place) vaddr s = (
  some (address (load64 place s.mem)),
  record s { mem = store64 place 0 s.mem; flushed = vaddr ∷ s.flushed },
)

pub vmm_page_unmap-unmapped :
    (pml4 vaddr : ℕ) (s : Vmm)
    → pml4 + 4096 ≤ 2 ^ 64
    → vmm_page_unmap pml4 vaddr s ≡ some (unmapped (pte_slot pml4 vaddr s.mem) vaddr s)
unfolding vmm_page_unmap vmm_pte_get unmapped
vmm_page_unmap-unmapped pml4 vaddr s room = go (pte_slot pml4 vaddr s.mem) refl
  where
    go :
        (o : Option ℕ)
        → pte_slot pml4 vaddr s.mem ≡ o
        → vmm_page_unmap pml4 vaddr s ≡ some (unmapped o vaddr s)
    go none e = rw (pte_get-missing online pml4 vaddr s room e) refl
    go (some place) e =
        let at_pte = pte_get-LeadsTo online pml4 vaddr place false s room e in
        rw (at_pte.returns, at_pte.leads, bit_and-address (load64 place s.mem)) refl

mapped_returns :
    (pml4 vaddr paddr flags place : ℕ) (s : Vmm)
    → pml4 + 4096 ≤ 2 ^ 64
    → pte_slot pml4 vaddr s.mem ≡ some place
    → vmm_page_map pml4 vaddr paddr flags s
      ≡ some (
        true,
        record s { mem = store64 place (pte_value paddr flags) s.mem; flushed = vaddr ∷ s.flushed },
      )
unfolding vmm_page_map vmm_pte_get
mapped_returns pml4 vaddr paddr flags place s room path =
    let at_pte = pte_get-LeadsTo online pml4 vaddr place true s room path in
    rw (at_pte.returns, at_pte.leads) refl

tables-aligned :
    (shifts : List ℕ) (table vaddr last : ℕ) (mem : ℕ → ℕ)
    → table % 8 ≡ 0
    → tables shifts table vaddr mem ≡ some last
    → last % 8 ≡ 0
unfolding tables
tables-aligned [] table vaddr last mem aligned path =
    sym (ap (λ (t : ℕ). t % 8) (some_same path)) ∙ aligned
tables-aligned (shift ∷ shifts) table vaddr last mem aligned path =
    let entry = load64 (slot table vaddr shift) mem in
    elim (Bool-cases (entry % 2 == 0)) [
      | inl missing ↦ absurd (some_ne_none (rw missing at path))
      | inr present ↦
          tables-aligned shifts (address entry) vaddr last mem (omega arith) (rw present at path)
    ]

pte_slot-aligned :
    (pml4 vaddr place : ℕ) (mem : ℕ → ℕ)
    → pml4 % 8 ≡ 0
    → pte_slot pml4 vaddr mem ≡ some place
    → place % 8 ≡ 0
unfolding pte_slot
pte_slot-aligned pml4 vaddr place mem aligned path = go (tables levels_shift pml4 vaddr mem) refl
  where
    go : (o : Option ℕ) → tables levels_shift pml4 vaddr mem ≡ o → place % 8 ≡ 0
    go none e = absurd (some_ne_none (rw e at path))
    go (some table) e = omega (
      arith,
      some_same (rw e at path),
      tables-aligned levels_shift pml4 vaddr table mem aligned e,
    )

pte_slot-store64 :
    (place value pml4 vaddr : ℕ) (mem : ℕ → ℕ)
    → place % 8 ≡ 0
    → pml4 % 8 ≡ 0
    → Avoids place levels_shift pml4 vaddr mem
    → pte_slot pml4 vaddr (store64 place value mem) ≡ pte_slot pml4 vaddr mem
unfolding pte_slot
pte_slot-store64 place value pml4 vaddr mem hp ht away =
    rw (tables-store64 place value levels_shift pml4 vaddr mem hp ht away) refl

-- What the processor makes of the entry at `place` for `vaddr`.
pub translate-entry :
    (pml4 vaddr place : ℕ) (mem : ℕ → ℕ)
    → pte_slot pml4 vaddr mem ≡ some place
    → translate pml4 vaddr mem ≡ (
        if load64 place mem % 2 == 0
        then none
        else some (address (load64 place mem) + vaddr % 4096))
unfolding translate
translate-entry pml4 vaddr place mem path = rw path refl

-- Memory after a successful map, as the processor reads it: `vaddr` is at the page of `paddr`, and
-- an address whose entry is another one, and whose walk does not read the changed one, is where it
-- was.
pub record IsMapped (pml4 vaddr paddr place : ℕ) (mem mem' : ℕ → ℕ) : Type 0 where
  pub translates : translate pml4 vaddr mem' ≡ some (address paddr + vaddr % 4096)
  pub same_slot : pte_slot pml4 vaddr mem' ≡ some place
  pub stored : address (load64 place mem') ≡ address paddr
  pub others :
      (other slot' : ℕ)
      → pte_slot pml4 other mem ≡ some slot'
      → slot' ≢ place
      → Avoids place levels_shift pml4 other mem
      → translate pml4 other mem' ≡ translate pml4 other mem

-- A store at one slot leaves the translation by another slot as it was.
translate-store64 :
    (pml4 other place value slot' : ℕ) (mem : ℕ → ℕ)
    → place % 8 ≡ 0
    → pml4 % 8 ≡ 0
    → pte_slot pml4 other mem ≡ some slot'
    → slot' ≢ place
    → Avoids place levels_shift pml4 other mem
    → translate pml4 other (store64 place value mem) ≡ translate pml4 other mem
translate-store64 pml4 other place value slot' mem hp ht path ne away =
    let there = pte_slot-store64 place value pml4 other mem hp ht away ∙ path in
    let hp' = pte_slot-aligned pml4 other slot' mem ht path in
    let same = load64-apart place slot' value mem (ground arith) in
    translate-entry pml4 other slot' (store64 place value mem) there
    ∙ ap (λ (e : ℕ). if e % 2 == 0 then none else some (address e + other % 4096)) same
    ∙ sym (translate-entry pml4 other slot' mem path)

stored-IsMapped :
    (pml4 vaddr paddr flags place : ℕ) (mem : ℕ → ℕ)
    → pml4 % 8 ≡ 0
    → flags < 2 ^ 64
    → address flags ≡ 0
    → pte_slot pml4 vaddr mem ≡ some place
    → Avoids place levels_shift pml4 vaddr mem
    → IsMapped pml4 vaddr paddr place mem (store64 place (pte_value paddr flags) mem)
stored-IsMapped pml4 vaddr paddr flags place mem aligned small clear path away =
    let hp = pte_slot-aligned pml4 vaddr place mem aligned path in
    let value = pte_value paddr flags in
    let back = load64-store64 place value mem (pte_value-lt paddr flags small) in
    let here = pte_slot-store64 place value pml4 vaddr mem hp aligned away ∙ path in
    let addr = ap address back ∙ address-pte_value paddr flags clear in
    let odd : (load64 place (store64 place value mem) % 2 == 0) ≡ false =
      ap (λ (e : ℕ). e % 2 == 0) back ∙ ground (arith, pte_value-odd paddr flags) in
    record {
      translates =
          translate-entry pml4 vaddr place (store64 place value mem) here ∙ rw (odd, addr) refl;
      same_slot = here;
      stored = addr;
      others = λ other slot' path' ne away'.
          translate-store64 pml4 other place value slot' mem hp aligned path' ne away';
    }

-- The states after a map and after an unmap at `place`.
abbrev pub map_at : (vaddr paddr flags place : ℕ) → Vmm → Vmm
map_at vaddr paddr flags place s = record s {
  mem = store64 place (pte_value paddr flags) s.mem;
  flushed = vaddr ∷ s.flushed;
}

abbrev pub unmap_at : (vaddr place : ℕ) → Vmm → Vmm
unmap_at vaddr place s = record s { mem = store64 place 0 s.mem; flushed = vaddr ∷ s.flushed }

pub unmap_at-map_at :
    (pml4 vaddr paddr flags place : ℕ) (s : Vmm)
    → pml4 + 4096 ≤ 2 ^ 64
    → pml4 % 8 ≡ 0
    → flags < 2 ^ 64
    → address flags ≡ 0
    → pte_slot pml4 vaddr s.mem ≡ some place
    → Avoids place levels_shift pml4 vaddr s.mem
    → let s' = map_at vaddr paddr flags place s in
      let s'' = unmap_at vaddr place s' in
      (vmm_page_map pml4 vaddr paddr flags s ≡ some (true, s'))
      × (translate pml4 vaddr s'.mem ≡ some (address paddr + vaddr % 4096))
      × (vmm_page_unmap pml4 vaddr s' ≡ some (some (address paddr), s''))
      × (translate pml4 vaddr s''.mem ≡ none)
unfolding unmapped
unmap_at-map_at pml4 vaddr paddr flags place s room aligned small clear path away =
    let s' : Vmm = map_at vaddr paddr flags place s in
    let after = stored-IsMapped pml4 vaddr paddr flags place s.mem aligned small clear path away in
    let hp = pte_slot-aligned pml4 vaddr place s.mem aligned path in
    let un = vmm_page_unmap-unmapped pml4 vaddr s' room in
    let away' =
      Avoids-store64 place (pte_value paddr flags) levels_shift pml4 vaddr s.mem hp aligned away in
    let still = pte_slot-store64 place 0 pml4 vaddr s'.mem hp aligned away' ∙ after.same_slot in
    (
      mapped_returns pml4 vaddr paddr flags place s room path,
      after.translates,
      rw (after.same_slot, after.stored) at un,
      translate-entry pml4 vaddr place (store64 place 0 s'.mem) still
          ∙ rw (load64-store64 place 0 s'.mem (omega arith)) refl,
    )

-- Where the tables for `vaddr` exist, mapping it with flags outside the address field and unmapping
-- it again both succeed, the unmapping gives back the page of `paddr`, and the processor then finds
-- `vaddr` unmapped. The top table is aligned and below 2 ^ 64, and the walk for `vaddr` does not
-- read the entry that it leads to.
pub map-unmap :
    (pml4 vaddr paddr flags place : ℕ) (s : Vmm)
    → pml4 + 4096 ≤ 2 ^ 64
    → pml4 % 8 ≡ 0
    → flags < 2 ^ 64
    → address flags ≡ 0
    → pte_slot pml4 vaddr s.mem ≡ some place
    → Avoids place levels_shift pml4 vaddr s.mem
    → (s' : Vmm) × (s'' : Vmm) × (vmm_page_map pml4 vaddr paddr flags s ≡ some (true, s'))
      × (vmm_page_unmap pml4 vaddr s' ≡ some (some (address paddr), s''))
      × (translate pml4 vaddr s''.mem ≡ none)
map-unmap pml4 vaddr paddr flags place s room aligned small clear path away =
    let (map, there, unmap, gone) =
      unmap_at-map_at pml4 vaddr paddr flags place s room aligned small clear path away in
    (_, _, map, unmap, gone)
