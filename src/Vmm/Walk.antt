-- ===== src/Vmm/Walk.antt =====
-- The walk of vmm.c without creation, against the page walk that the processor does.
use bootloader_kernel_in_nas.Base.{
  ℕ, ◌+◌, ◌%◌, ◌^◌, ◌≤◌, Bool, true, false, Option, none, some, List, [], ◌∷◌, ◌==◌, if◌then◌else◌,
  ◌>>=◌, ◌≡◌, refl, sym, inl, inr, arith, Bool-cases,
}
use bootloader_kernel_in_nas.Vmm.{Vmm, Mode, load64, entry_at, new_table, walk, levels_shift}
use bootloader_kernel_in_nas.Vmm.Entry.{
  address, slot, bit_and-address, bit_and-present, behind-slot,
}

-- The processor's walk over the levels with these shifts: the address of the table that the last
-- entry names, and none at an entry that is not present.
unfoldable pub tables : List ℕ → (table vaddr : ℕ) → (ℕ → ℕ) → Option ℕ
tables [] table vaddr mem = some table
tables (shift ∷ shifts) table vaddr mem =
    let entry = load64 (slot table vaddr shift) mem in
    let rest = tables shifts (address entry) vaddr mem in if entry % 2 == 0 then none else rest

-- The address of the page-table entry of `vaddr`.
unfoldable pub pte_slot : (pml4 vaddr : ℕ) → (ℕ → ℕ) → Option ℕ
pte_slot pml4 vaddr mem = tables levels_shift pml4 vaddr mem >>= λ table. some (slot table vaddr 12)

-- An entry that is present is followed, whether or not missing ones may be made.
pub entry_at_present :
    (mode : Mode) (place : ℕ) (create : Bool) (s : Vmm)
    → (load64 place s.mem % 2 == 0) ≡ false
    → entry_at mode place create s ≡ some (some (load64 place s.mem), s)
unfolding entry_at
entry_at_present mode place create s present = ground (arith, bit_and-present (load64 place s.mem))

entry_at_missing :
    (mode : Mode) (place : ℕ) (s : Vmm)
    → (load64 place s.mem % 2 == 0) ≡ true
    → entry_at mode place false s ≡ some (none, s)
unfolding entry_at
entry_at_missing mode place s missing = ground (arith, bit_and-present (load64 place s.mem))

-- A missing one is made where that is asked for.
pub entry_at-new_table :
    (mode : Mode) (place : ℕ) (s : Vmm)
    → (load64 place s.mem % 2 == 0) ≡ true
    → entry_at mode place true s ≡ new_table mode place s
unfolding entry_at
entry_at-new_table mode place s missing = rw (bit_and-present (load64 place s.mem), missing) refl

pub some_same : {x y : ℕ} → ◌≡◌ {A = Option ℕ} (some x) (some y) → x ≡ y
some_same h = cc

pub some_ne_none : {A : Type 0} {x : A} → ◌≡◌ {A = Option A} none (some x) → ⊥
some_ne_none h = cc

pub walk-found :
    (mode : Mode) (shifts : List ℕ) (table vaddr last : ℕ) (create : Bool) (s : Vmm)
    → table + 4096 ≤ 2 ^ 64
    → tables shifts table vaddr s.mem ≡ some last
    → (walk mode shifts table vaddr create s ≡ some (some last, s)) × (last + 4096 ≤ 2 ^ 64)
unfolding walk tables
walk-found mode [] table vaddr last create s room path =
    let e : table ≡ last = some_same path in (rw e refl, omega arith)
walk-found mode (shift ∷ shifts) table vaddr last create s room path =
    let entry = load64 (slot table vaddr shift) s.mem in
    elim (Bool-cases (entry % 2 == 0)) [
      | inl missing ↦ absurd (some_ne_none (rw missing at path))
      | inr present ↦
          let path' : tables shifts (address entry) vaddr s.mem ≡ some last = rw present at path in
          let ih = walk-found mode shifts (address entry) vaddr last create s (omega arith) path' in
          (
            rw
                (
                  behind-slot mode table vaddr shift room,
                  entry_at_present mode _ create s present,
                  bit_and-address entry,
                )
                ih.0,
            ih.1,
          )
    ]

pub walk-missing :
    (mode : Mode) (shifts : List ℕ) (table vaddr : ℕ) (s : Vmm)
    → table + 4096 ≤ 2 ^ 64
    → tables shifts table vaddr s.mem ≡ none
    → walk mode shifts table vaddr false s ≡ some (none, s)
unfolding walk tables
walk-missing mode [] table vaddr s room path = absurd (some_ne_none (sym path))
walk-missing mode (shift ∷ shifts) table vaddr s room path =
    let entry = load64 (slot table vaddr shift) s.mem in
    elim (Bool-cases (entry % 2 == 0)) [
      | inl missing ↦
          rw (behind-slot mode table vaddr shift room, entry_at_missing mode _ s missing) refl
      | inr present ↦
          let path' : tables shifts (address entry) vaddr s.mem ≡ none = rw present at path in
          rw
            (
              behind-slot mode table vaddr shift room,
              entry_at_present mode _ false s present,
              bit_and-address entry,
            )
            (walk-missing mode shifts (address entry) vaddr s (omega arith) path')
    ]
