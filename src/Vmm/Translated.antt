-- ===== src/Vmm/Translated.antt =====
-- kernel/vmm.c: the translation by an address space, entry by entry.
use bootloader_kernel_in_nas.Base.{
  ℕ, ◌+◌, ◌/◌, ◌%◌, false, Option, none, some, ◌==◌, Bool-cases, ==_false→ne, ◌≡◌, ◌≢◌, refl, sym,
  ap, ◌∙◌, inl, inr, arith,
}
use bootloader_kernel_in_nas.Pmm.{Pmm}
use bootloader_kernel_in_nas.Pmm.Bitmap.{used}
use bootloader_kernel_in_nas.Vmm.{Vmm, load64, store64, levels_shift}
use bootloader_kernel_in_nas.Vmm.Entry.{address, slot}
use bootloader_kernel_in_nas.Vmm.Grow.{Keeps}
use bootloader_kernel_in_nas.Vmm.Mapping.{translate}
use bootloader_kernel_in_nas.Vmm.Memory.{load64-apart}
use bootloader_kernel_in_nas.Vmm.RoundTrip.{translate-entry}
use bootloader_kernel_in_nas.Vmm.Space.{
  Owners, IsNode, IsPath, IsNode-IsSameSlot, IsSameSlot, shift_at, shifts_from,
  shifts_from-levels_shift,
}
use bootloader_kernel_in_nas.Vmm.Stored.{tables-AgreeAbove, load64-store-above}
use bootloader_kernel_in_nas.Vmm.Walk.{tables, pte_slot, some_same, some_ne_none}

-- The translation of `v`, once its last table is known.
pub translate-last :
    (pml4 v last : ℕ) (mem : ℕ → ℕ)
    → tables (shifts_from 3) pml4 v mem ≡ some last
    → load64 (slot last v 12) mem % 2 ≡ 1
    → translate pml4 v mem ≡ some (address (load64 (slot last v 12) mem) + v % 4096)
unfolding pte_slot
translate-last pml4 v last mem found odd =
    let found' : tables levels_shift pml4 v mem ≡ some last =
      rw shifts_from-levels_shift at found in
    let at_slot : pte_slot pml4 v mem ≡ some (slot last v 12) = rw found' refl in
    let present : (load64 (slot last v 12) mem % 2 == 0) ≡ false = ground arith in
    translate-entry pml4 v (slot last v 12) mem at_slot ∙ rw present refl

-- What a translation goes through.
pub record IsTranslated (pml4 v q : ℕ) (mem : ℕ → ℕ) : Type 0 where
  pub last : ℕ
  pub found : tables (shifts_from 3) pml4 v mem ≡ some last
  pub odd : load64 (slot last v 12) mem % 2 ≡ 1
  pub value : address (load64 (slot last v 12) mem) + v % 4096 ≡ q

pub translate-IsTranslated :
    (pml4 v q : ℕ) (mem : ℕ → ℕ) → translate pml4 v mem ≡ some q → IsTranslated pml4 v q mem
unfolding translate pte_slot
translate-IsTranslated pml4 v q mem h = go (tables levels_shift pml4 v mem) refl
  where
    go : (o : Option ℕ) → tables levels_shift pml4 v mem ≡ o → IsTranslated pml4 v q mem
    go none e = absurd (some_ne_none (rw e at h))
    go (some last) e =
        let entry = load64 (slot last v 12) mem in
        elim (Bool-cases (entry % 2 == 0)) [
          | inl missing ↦ absurd (some_ne_none (rw (e, missing) at h))
          | inr present ↦ record {
            last = last;
            found = rw shifts_from-levels_shift e;
            odd = omega (arith, ==_false→ne (entry % 2) 0 present);
            value = some_same (rw (e, present) at h);
          }
        ]

-- A translation goes on through what keeps the present entries.
pub translate-Keeps :
    (own own' : Owners) (pml4 v q : ℕ) (s s' : Vmm)
    → Keeps own own' s s'
    → IsPath own 3 pml4 v s.pmm s.mem
    → translate pml4 v s.mem ≡ some q
    → translate pml4 v s'.mem ≡ some q
translate-Keeps own own' pml4 v q s s' k path before =
    let t = translate-IsTranslated pml4 v q s.mem before in
    let place = slot t.last v 12 in
    let r =
      tables-AgreeAbove own 3 pml4 v t.last s.pmm s.mem s'.mem
        (λ a m h above odd. k.words a m h odd) path t.found in
    let page : place / 4096 ≡ t.last / 4096 = omega (arith, r.node.aligned) in
    let same : load64 place s'.mem ≡ load64 place s.mem =
      k.words place (omega (arith, r.node.aligned)) (ap (used s.pmm) page ∙ r.node.taken) t.odd in
    translate-last pml4 v t.last s'.mem r.found (ap (λ (x : ℕ). x % 2) same ∙ t.odd)
    ∙ ap (λ (x : ℕ). some (address x + v % 4096)) same
    ∙ ap some t.value

last_index : {v v' : ℕ} → IsSameSlot 0 0 v v' → v / 4096 ≡ v' / 4096
unfolding shift_at
last_index same = omega (arith, same.index)

last_slot : (table v : ℕ) → slot table v (shift_at 0) ≡ slot table v 12
unfolding shift_at
last_slot table v = refl

-- An entry stored for `v` leaves the translations of other pages alone.
pub translate-store64 :
    (own : Owners) (pml4 last v value : ℕ) (p : Pmm)
    → IsNode own 0 last v p
    → (v' q : ℕ) (mem : ℕ → ℕ) → IsPath own 3 pml4 v' p mem
    → v' / 4096 ≢ v / 4096
    → translate pml4 v' mem ≡ some q
    → translate pml4 v' (store64 (slot last v 12) value mem) ≡ some q
translate-store64 own pml4 last v value p node v' q mem path other before =
    let t = translate-IsTranslated pml4 v' q mem before in
    let place = slot last v 12 in
    let place' = slot t.last v' 12 in
    let mem' : ℕ → ℕ = store64 place value mem in
    let r =
      tables-AgreeAbove own 3 pml4 v' t.last p mem mem'
        (λ a m h above odd. load64-store-above own last v value p node a mem m above) path
        t.found in
    let apart : place ≢ place' = λ e. other (
      sym (
        last_index (
          IsNode-IsSameSlot own 0 0 last t.last v v' p node r.node
            (last_slot last v ∙ e ∙ sym (last_slot t.last v'))))) in
    let same : load64 place' mem' ≡ load64 place' mem =
      load64-apart place place' value mem (ground (arith, apart, node.aligned, r.node.aligned)) in
    translate-last pml4 v' t.last mem' r.found (ap (λ (x : ℕ). x % 2) same ∙ t.odd)
    ∙ ap (λ (x : ℕ). some (address x + v' % 4096)) same
    ∙ ap some t.value

-- A last entry that was cleared.
pub translate-cleared :
    (pml4 v last : ℕ) (mem : ℕ → ℕ)
    → tables (shifts_from 3) pml4 v mem ≡ some last
    → load64 (slot last v 12) mem ≡ 0
    → translate pml4 v mem ≡ none
unfolding pte_slot
translate-cleared pml4 v last mem found clear =
    let found' : tables levels_shift pml4 v mem ≡ some last =
      rw shifts_from-levels_shift at found in
    let at_slot : pte_slot pml4 v mem ≡ some (slot last v 12) = rw found' refl in
    translate-entry pml4 v (slot last v 12) mem at_slot ∙ rw clear refl
