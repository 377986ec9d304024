-- ===== src/Vmm/Mapping.antt =====
-- Mapping and unmapping a page whose tables exist, against the processor's translation.
use bootloader_kernel_in_nas.Base.{
  ℕ, ◌+◌, ◌%◌, ◌^◌, ◌≤◌, Bool, false, Option, none, some, List, [], ◌∷◌, ◌==◌, if◌then◌else◌, ◌>>=◌,
  ◌≡◌, ◌≢◌, refl, sym, ◌∙◌, arith,
}
use bootloader_kernel_in_nas.Vmm.{
  Vmm, Mode, load64, store64, levels_shift, pte_get, behind, pointer, slot_pointer,
}
use bootloader_kernel_in_nas.Vmm.Memory.{load64-apart}
use bootloader_kernel_in_nas.Vmm.Entry.{address, slot, behind-slot}
use bootloader_kernel_in_nas.Vmm.Walk.{
  tables, pte_slot, walk-found, walk-missing, some_same, some_ne_none,
}

-- The processor's translation of an address, by pages of 4 KiB.
unfoldable pub translate : (pml4 vaddr : ℕ) → (ℕ → ℕ) → Option ℕ
translate pml4 vaddr mem = pte_slot pml4 vaddr mem >>= λ place.
    let entry = load64 place mem in
    if entry % 2 == 0 then none else some (address entry + vaddr % 4096)

-- No entry that the walk for `vaddr` reads is the one at `place`.
unfoldable pub Avoids : (place : ℕ) → List ℕ → (table vaddr : ℕ) → (ℕ → ℕ) → Type 0
Avoids place [] table vaddr mem = Unit
Avoids place (shift ∷ shifts) table vaddr mem =
    (slot table vaddr shift ≢ place)
    × Avoids place shifts (address (load64 (slot table vaddr shift) mem)) vaddr mem

-- The pointer of `pte_get` leads to the slot that the processor reads.
pub record LeadsTo (mode : Mode) (pml4 vaddr place : ℕ) (create : Bool) (s : Vmm) : Type 0 where
  pub pte : ℕ
  pub returns : pte_get mode pml4 vaddr create s ≡ some (some pte, s)
  pub leads : behind mode pte ≡ place

pub pte_get-LeadsTo :
    (mode : Mode) (pml4 vaddr place : ℕ) (create : Bool) (s : Vmm)
    → pml4 + 4096 ≤ 2 ^ 64
    → pte_slot pml4 vaddr s.mem ≡ some place
    → LeadsTo mode pml4 vaddr place create s
unfolding pte_get pte_slot
pte_get-LeadsTo mode pml4 vaddr place create s room path =
    go (tables levels_shift pml4 vaddr s.mem) refl
  where
    go :
        (o : Option ℕ)
        → tables levels_shift pml4 vaddr s.mem ≡ o
        → LeadsTo mode pml4 vaddr place create s
    go none e = absurd (some_ne_none (rw e at path))
    go (some table) e =
        let found = walk-found mode levels_shift pml4 vaddr table create s room e in
        record {
          pte = slot_pointer (pointer mode table) vaddr 12;
          returns = rw found.0 refl;
          leads = behind-slot mode table vaddr 12 found.1 ∙ some_same (rw e at path);
        }

pub pte_get-missing :
    (mode : Mode) (pml4 vaddr : ℕ) (s : Vmm)
    → pml4 + 4096 ≤ 2 ^ 64
    → pte_slot pml4 vaddr s.mem ≡ none
    → pte_get mode pml4 vaddr false s ≡ some (none, s)
unfolding pte_get pte_slot
pte_get-missing mode pml4 vaddr s room path = go (tables levels_shift pml4 vaddr s.mem) refl
  where
    go :
        (o : Option ℕ)
        → tables levels_shift pml4 vaddr s.mem ≡ o
        → pte_get mode pml4 vaddr false s ≡ some (none, s)
    go none e = rw (walk-missing mode levels_shift pml4 vaddr s room e) refl
    go (some table) e = absurd (some_ne_none (sym (rw e at path)))

-- A store at `place` leaves a walk alone that avoids it.
pub tables-store64 :
    (place value : ℕ) (shifts : List ℕ) (table vaddr : ℕ) (mem : ℕ → ℕ)
    → place % 8 ≡ 0
    → table % 8 ≡ 0
    → Avoids place shifts table vaddr mem
    → tables shifts table vaddr (store64 place value mem) ≡ tables shifts table vaddr mem
unfolding tables Avoids
tables-store64 place value [] table vaddr mem hp ht away = refl
tables-store64 place value (shift ∷ shifts) table vaddr mem hp ht away =
    let same = load64-apart place (slot table vaddr shift) value mem (ground (arith, away.0)) in
    let rest =
      tables-store64 place value shifts (address (load64 (slot table vaddr shift) mem)) vaddr mem hp
        (omega arith) away.1 in
    rw (same, rest) refl

-- Such a store also leaves the walk one that avoids `place`.
pub Avoids-store64 :
    (place value : ℕ) (shifts : List ℕ) (table vaddr : ℕ) (mem : ℕ → ℕ)
    → place % 8 ≡ 0
    → table % 8 ≡ 0
    → Avoids place shifts table vaddr mem
    → Avoids place shifts table vaddr (store64 place value mem)
unfolding Avoids
Avoids-store64 place value [] table vaddr mem hp ht away = tt
Avoids-store64 place value (shift ∷ shifts) table vaddr mem hp ht away =
    let here = slot table vaddr shift in
    let same = load64-apart place here value mem (ground (arith, away.0)) in
    let rest =
      Avoids-store64 place value shifts (address (load64 here mem)) vaddr mem hp (omega arith)
        away.1 in
    (away.0, rw same rest)
