-- ===== src/Vmm/GibEntry.antt =====
-- The value of an entry of the second table, for a page of 1 GiB, and of one for a new table.
use bootloader_kernel_in_nas.Base.{
  ℕ, ◌+◌, ◌-◌, ◌*◌, ◌/◌, ◌%◌, ◌^◌, ◌<◌, bit_and, bit_or, ◌≡◌, refl, ap, ap₂, ◌∙◌, arith,
}
use bootloader_kernel_in_nas.Bits.{
  bit, bit-lt, bit-bit_or, bit_or_step, bit_and-ones, bit_and-shift, bit_or-lt,
}
use bootloader_kernel_in_nas.Vmm.{page_writable, page_present, ps_bit}
use bootloader_kernel_in_nas.Vmm.Entry.{bit_and-bit_or, bit_or-none}
use bootloader_kernel_in_nas.Vmm.Boot.{gib_value}

-- The address in the entry of a page of 1 GiB: the 22 digits from the thirtieth on.
abbrev pub gib_address : ℕ → ℕ
gib_address entry = entry / 2 ^ 30 % 2 ^ 22 * 2 ^ 30

bit_and-gib : (entry : ℕ) → bit_and entry 0x000F_FFFF_C000_0000 ≡ gib_address entry
bit_and-gib entry =
    omega (arith, bit_and-shift 30 entry (2 ^ 22 - 1), bit_and-ones 22 (entry / 2 ^ 30))

pub gib_address-gib_value :
    (paddr flags : ℕ)
    → gib_address flags ≡ 0
    → gib_address (gib_value paddr flags) ≡ gib_address paddr
unfolding gib_value
gib_address-gib_value paddr flags clear =
    let mask : ℕ = 0x000F_FFFF_C000_0000 in
    let base = bit_and paddr mask in
    let kept : bit_and base mask ≡ gib_address paddr =
      omega (arith, bit_and-gib paddr, bit_and-gib base) in
    let none_in : bit_and flags mask ≡ 0 = omega (arith, bit_and-gib flags) in
    let no_present : bit_and page_present mask ≡ 0 = refl in
    let no_ps : bit_and ps_bit mask ≡ 0 = refl in
    let with_flags =
      bit_and-bit_or 52 base flags mask (omega arith)
      ∙ ap₂ bit_or kept none_in
      ∙ bit_or-none (gib_address paddr) in
    let with_present =
      bit_and-bit_or 52 (bit_or base flags) page_present mask (omega arith)
      ∙ ap₂ bit_or with_flags no_present
      ∙ bit_or-none (gib_address paddr) in
    let with_ps =
      bit_and-bit_or 52 (bit_or (bit_or base flags) page_present) ps_bit mask (omega arith)
      ∙ ap₂ bit_or with_present no_ps
      ∙ bit_or-none (gib_address paddr) in
    omega (arith, bit_and-gib (bit_or (bit_or (bit_or base flags) page_present) ps_bit))

pub gib_value-odd : (paddr flags : ℕ) → gib_value paddr flags % 2 ≡ 1
unfolding gib_value
gib_value-odd paddr flags =
    let base = bit_or (bit_and paddr 0x000F_FFFF_C000_0000) flags in
    omega (arith, bit_or_step (bit_or base page_present) ps_bit, bit_or_step base page_present)

-- The seventh digit of a word with `2 ^ 7` set.
ps_set : (w : ℕ) → bit_or w ps_bit / 2 ^ 7 % 2 ≡ 1
unfolding bit
ps_set w = omega (arith, bit-bit_or 7 w ps_bit, bit-lt 7 w)

pub gib_value-sized : (paddr flags : ℕ) → gib_value paddr flags / 2 ^ 7 % 2 ≡ 1
unfolding gib_value
gib_value-sized paddr flags = ps_set _

pub gib_value-lt : (paddr flags : ℕ) → flags < 2 ^ 64 → gib_value paddr flags < 2 ^ 64
unfolding gib_value
gib_value-lt paddr flags small =
    let base = bit_and paddr 0x000F_FFFF_C000_0000 in
    let base_small : base < 2 ^ 64 = omega (arith, bit_and-gib paddr) in
    bit_or-lt 64 _ _ (bit_or-lt 64 _ _ (bit_or-lt 64 base flags base_small small) (omega arith))
      (omega arith)

pub entry-sum :
    (frame : ℕ) → frame % 4096 ≡ 0 → bit_or (bit_or frame page_present) page_writable ≡ frame + 3
entry-sum frame aligned =
    let first : bit_or frame 1 ≡ frame + 1 =
      omega (arith, bit_or_step frame 1, bit_or-none (frame / 2)) in
    let half : (frame + 1) / 2 ≡ frame / 2 = omega arith in
    let second : bit_or ((frame + 1) / 2) 1 ≡ frame / 2 + 1 =
      rw half (omega (arith, bit_or_step (frame / 2) 1, bit_or-none (frame / 2 / 2))) in
    ap (λ (w : ℕ). bit_or w 2) first ∙ omega (arith, bit_or_step (frame + 1) 2)
