-- ===== src/Vmm/Entry.antt =====
-- Page-table entries: the address, the flags, and the address of an entry's slot.
use native.Mathlib.Nat.{pow-suc}
use bootloader_kernel_in_nas.Base.{
  ℕ, zero, suc, ◌+◌, ◌-◌, ◌*◌, ◌/◌, ◌%◌, ◌^◌, ◌≤◌, ◌<◌, bit_and, bit_or, ◌≡◌, refl, ap, ap₂, ◌∙◌,
  arith,
}
use bootloader_kernel_in_nas.Bits.{
  bit_or_step, bit_and_step, bit_and-ones, bit_and-shift, bit_or-lt, bit_or-sum,
}
use bootloader_kernel_in_nas.Vmm.{
  Mode, online, offline, pointer, behind, slot_pointer, vmm_phys_to_virt, virt_to_phys,
  page_addr_mask, page_present, pte_value,
}

-- The address in an entry: the 40 digits from the twelfth on.
abbrev pub address : ℕ → ℕ
address entry = entry / 4096 % 2 ^ 40 * 4096

-- The slot of `vaddr` in the table at `table`, for the level with this shift.
abbrev pub slot : (table vaddr shift : ℕ) → ℕ
slot table vaddr shift = table + 8 * (vaddr / 2 ^ shift % 512)

pub bit_and-address : (entry : ℕ) → bit_and entry page_addr_mask ≡ address entry
bit_and-address entry =
    omega (arith, bit_and-shift 12 entry (2 ^ 40 - 1), bit_and-ones 40 (entry / 2 ^ 12))

pub bit_and-present : (entry : ℕ) → bit_and entry page_present ≡ entry % 2
bit_and-present entry = bit_and-ones 1 entry

pub bit_or-half : (a b : ℕ) → bit_or a b / 2 ≡ bit_or (a / 2) (b / 2)
bit_or-half a b = omega (arith, bit_or_step a b)

bit_and-half : (a b : ℕ) → bit_and a b / 2 ≡ bit_and (a / 2) (b / 2)
bit_and-half a b = omega (arith, bit_and_step a b)

pub bit_or-none : (a : ℕ) → bit_or a 0 ≡ a
bit_or-none a =
    let e : a ≡ a * 2 ^ 0 = omega arith in
    ap (λ (t : ℕ). bit_or t 0) e ∙ omega (arith, bit_or-sum 0 a 0 (omega arith))

-- `&` distributes over `|`; the mask has `n` digits.
pub bit_and-bit_or :
    (n a b c : ℕ) → c < 2 ^ n → bit_and (bit_or a b) c ≡ bit_or (bit_and a c) (bit_and b c)
bit_and-bit_or zero a b c small =
    let e : c ≡ 0 = omega arith in
    let ea : bit_and a 0 ≡ 0 = omega (arith, bit_and-ones 0 a) in
    let eb : bit_and b 0 ≡ 0 = omega (arith, bit_and-ones 0 b) in
    rw (e, ea, eb) (omega (arith, bit_and-ones 0 (bit_or a b)))
bit_and-bit_or (suc n) a b c small =
    let ih = bit_and-bit_or n (a / 2) (b / 2) (c / 2) (omega (arith, pow-suc 2 n)) in
    let ih' : bit_and (bit_or a b / 2) (c / 2) ≡ bit_or (bit_and a c / 2) (bit_and b c / 2) =
      rw (bit_or-half a b, bit_and-half a c, bit_and-half b c) ih in
    omega (
      arith,
      bit_and_step (bit_or a b) c,
      bit_or_step (bit_and a c) (bit_and b c),
      bit_and_step a c,
      bit_and_step b c,
      bit_or_step a b,
    )

-- The address of a stored entry is the one that it was made from.
pub address-pte_value :
    (paddr flags : ℕ) → address flags ≡ 0 → address (pte_value paddr flags) ≡ address paddr
unfolding pte_value
address-pte_value paddr flags clear =
    let inner = bit_or (bit_and paddr page_addr_mask) flags in
    let outer = bit_and-bit_or 52 inner page_present page_addr_mask (omega arith) in
    let under =
      bit_and-bit_or 52 (bit_and paddr page_addr_mask) flags page_addr_mask (omega arith) in
    let f : bit_and flags page_addr_mask ≡ 0 = omega (arith, bit_and-address flags) in
    let one : bit_and page_present page_addr_mask ≡ 0 = refl in
    let kept : bit_and (bit_and paddr page_addr_mask) page_addr_mask ≡ address paddr =
      omega (arith, bit_and-address paddr, bit_and-address (bit_and paddr page_addr_mask)) in
    let under' : bit_and inner page_addr_mask ≡ address paddr =
      under ∙ ap₂ bit_or kept f ∙ bit_or-none (address paddr) in
    let outer' = outer ∙ ap₂ bit_or under' one ∙ bit_or-none (address paddr) in
    omega (arith, bit_and-address (bit_or inner page_present))

pub pte_value-odd : (paddr flags : ℕ) → pte_value paddr flags % 2 ≡ 1
unfolding pte_value
pte_value-odd paddr flags =
    omega (arith, bit_or_step (bit_or (bit_and paddr page_addr_mask) flags) page_present)

pub pte_value-lt : (paddr flags : ℕ) → flags < 2 ^ 64 → pte_value paddr flags < 2 ^ 64
unfolding pte_value
pte_value-lt paddr flags small =
    bit_or-lt 64 (bit_or (bit_and paddr page_addr_mask) flags) page_present
      (bit_or-lt 64 (bit_and paddr page_addr_mask) flags (omega (arith, bit_and-address paddr))
        small)
      (omega arith)

pub behind-slot :
    (mode : Mode) (table vaddr shift : ℕ)
    → table + 4096 ≤ 2 ^ 64
    → behind mode (slot_pointer (pointer mode table) vaddr shift) ≡ slot table vaddr shift
unfolding behind pointer vmm_phys_to_virt virt_to_phys
behind-slot online table vaddr shift room = omega (arith, bit_and-ones 9 (vaddr / 2 ^ shift))
behind-slot offline table vaddr shift room = omega (arith, bit_and-ones 9 (vaddr / 2 ^ shift))
