-- ===== src/Vmm/Direct.antt =====
-- The whole direct map of physical memory that `vmm_hhdm_create` makes.
use mathlib.Core.Path.{subst}
use bootloader_kernel_in_nas.Base.{
  ℕ, zero, suc, ◌+◌, ◌*◌, ◌/◌, ◌%◌, ◌^◌, ◌≤◌, ◌<◌, bit_or, true, false, some, lt→ltb, le→ltb,
  Bool-cases, ==→eq, ==_false→ne, ◌==◌, ◌≡◌, ◌≢◌, refl, ap, ◌∙◌, arith, inl, inr,
}
use bootloader_kernel_in_nas.Page.{u64}
use bootloader_kernel_in_nas.Vmm.{
  Vmm, page_writable, page_nx, hhdm_offset, gib_size, load64, store64,
}
use bootloader_kernel_in_nas.Vmm.Memory.{load64-store64, load64-apart}
use bootloader_kernel_in_nas.Vmm.Entry.{address, slot}
use bootloader_kernel_in_nas.Vmm.Boot.{pml4_ensure, gib_value, vmm_page_1gb_map_offline, hhdm_loop}
use bootloader_kernel_in_nas.Vmm.Gib.{translate_gib, gib_map_after, ensure_present}
use bootloader_kernel_in_nas.Vmm.GibEntry.{
  gib_address, gib_address-gib_value, gib_value-odd, gib_value-sized, gib_value-lt,
}

-- The flags of the pages of the direct map.
abbrev pub flags : ℕ
flags = bit_or page_writable page_nx

-- The first `n` entries of the table at `pdpt` map their GiB, and the top table leads to it; the
-- entries of the top table for the lower half are those of `low`.
pub record IsDirect (n pml4 pdpt : ℕ) (low mem : ℕ → ℕ) : Type 0 where
  pub lower : (k : ℕ) → k < 256 → load64 (pml4 + 8 * k) mem ≡ low k
  pub top : load64 (pml4 + 8 * 256) mem ≡ pdpt + 3
  pub entries : (j : ℕ) → j < n → load64 (pdpt + 8 * j) mem ≡ gib_value (j * 2 ^ 30) flags

-- Two tables, each in a page of its own.
pub record AreTables (pml4 pdpt : ℕ) : Type 0 where
  pub room : pml4 + 4096 ≤ 2 ^ 64
  pub aligned : pml4 % 4096 ≡ 0
  pub below : pdpt < 2 ^ 52
  pub aligned' : pdpt % 4096 ≡ 0
  pub apart : pml4 ≢ pdpt

top_slot : (pml4 p : ℕ) → p < 2 ^ 39 → slot pml4 (hhdm_offset + p) 39 ≡ pml4 + 8 * 256
top_slot pml4 p l = omega arith

low_slot : (pdpt p : ℕ) → p < 2 ^ 39 → slot pdpt (hhdm_offset + p) 30 ≡ pdpt + 8 * (p / 2 ^ 30)
low_slot pdpt p l = omega arith

-- The processor's translation by such a table.
pub translate-IsDirect :
    (n pml4 pdpt p : ℕ) (low mem : ℕ → ℕ)
    → AreTables pml4 pdpt
    → IsDirect n pml4 pdpt low mem
    → n ≤ 512
    → p < n * 2 ^ 30
    → translate_gib pml4 (hhdm_offset + p) mem ≡ some p
unfolding translate_gib
translate-IsDirect n pml4 pdpt p low mem t d few l =
    let value = gib_value (p / 2 ^ 30 * 2 ^ 30) flags in
    let at_pdpt : address (pdpt + 3) ≡ pdpt = omega (arith, t.below, t.aligned') in
    let top_set : (((pdpt + 3) % 2) == 0) ≡ false = ground (arith, t.aligned') in
    let odd : (value % 2 == 0) ≡ false =
      ground (arith, gib_value-odd (p / 2 ^ 30 * 2 ^ 30) flags) in
    let sized : (value / 2 ^ 7 % 2 == 0) ≡ false =
      ground (arith, gib_value-sized (p / 2 ^ 30 * 2 ^ 30) flags) in
    let addr = gib_address-gib_value (p / 2 ^ 30 * 2 ^ 30) flags refl in
    let whole : gib_address (p / 2 ^ 30 * 2 ^ 30) + (hhdm_offset + p) % 2 ^ 30 ≡ p = omega arith in
    rw
      (
        top_slot pml4 p (omega arith),
        d.top,
        at_pdpt,
        low_slot pdpt p (omega arith),
        d.entries (p / 2 ^ 30) (omega arith),
        top_set,
        odd,
        sized,
        addr,
        whole,
      )
      refl

-- One more entry.
pub stored-IsDirect :
    (n pml4 pdpt : ℕ) (low mem : ℕ → ℕ)
    → AreTables pml4 pdpt
    → IsDirect n pml4 pdpt low mem
    → n < 512
    → IsDirect (n + 1) pml4 pdpt low (store64 (pdpt + 8 * n) (gib_value (n * 2 ^ 30) flags) mem)
stored-IsDirect n pml4 pdpt low mem t d few =
    let value = gib_value (n * 2 ^ 30) flags in
    record {
      lower = λ k l.
          load64-apart (pdpt + 8 * n) (pml4 + 8 * k) value mem
            (ground (arith, t.aligned, t.aligned', t.apart))
          ∙ d.lower k l;
      top =
          load64-apart (pdpt + 8 * n) (pml4 + 8 * 256) value mem
            (ground (arith, t.aligned, t.aligned', t.apart))
          ∙ d.top;
      entries = λ j l. elim (Bool-cases (j == n)) [
        | inl e ↦
            let same = ==→eq j n e in
            rw same (
              load64-store64 (pdpt + 8 * n) value mem
                (gib_value-lt (n * 2 ^ 30) flags (omega arith)))
        | inr e ↦
            let other = ==_false→ne j n e in
            load64-apart (pdpt + 8 * n) (pdpt + 8 * j) value mem (ground (arith, other))
            ∙ d.entries j (omega (arith, other))
      ];
    }

-- `vmm_page_1gb_map_offline` for the `n`-th GiB once the top table has its entry.
pub map-IsDirect :
    (n pml4 pdpt : ℕ) (low : ℕ → ℕ) (s s' : Vmm)
    → AreTables pml4 pdpt
    → IsDirect n pml4 pdpt low s'.mem
    → n < 512
    → pml4_ensure (slot pml4 (hhdm_offset + n * 2 ^ 30) 39) s ≡ some (true, s')
    → vmm_page_1gb_map_offline pml4 (u64 (n * 2 ^ 30 + hhdm_offset)) (n * 2 ^ 30) flags s
      ≡ some
          (true, record s' { mem = store64 (pdpt + 8 * n) (gib_value (n * 2 ^ 30) flags) s'.mem })
map-IsDirect n pml4 pdpt low s s' t d few ensured =
    let there : u64 (n * 2 ^ 30 + hhdm_offset) ≡ hhdm_offset + n * 2 ^ 30 = omega arith in
    let at_pdpt : address (pdpt + 3) ≡ pdpt = omega (arith, t.below, t.aligned') in
    let place : address (load64 (slot pml4 (hhdm_offset + n * 2 ^ 30) 39) s'.mem) ≡ pdpt =
      ap (λ (a : ℕ). address (load64 a s'.mem)) (top_slot pml4 (n * 2 ^ 30) (omega arith))
      ∙ ap address d.top
      ∙ at_pdpt in
    let low : slot pdpt (hhdm_offset + n * 2 ^ 30) 30 ≡ pdpt + 8 * n =
      low_slot pdpt (n * 2 ^ 30) (omega arith) ∙ omega arith in
    ap (λ (v : ℕ). vmm_page_1gb_map_offline pml4 v (n * 2 ^ 30) flags s) there
    ∙ gib_map_after pml4 (hhdm_offset + n * 2 ^ 30) (n * 2 ^ 30) flags s s' t.room ensured
    ∙ ap
        (λ (a : ℕ).
          some (true, record s' { mem = store64 a (gib_value (n * 2 ^ 30) flags) s'.mem }))
        (ap (λ (table : ℕ). slot table (hhdm_offset + n * 2 ^ 30) 30) place ∙ low)

-- A round of the loop.
pub hhdm_loop_step :
    (fuel n max_pa pml4 : ℕ) (s s' : Vmm)
    → n * 2 ^ 30 < max_pa
    → n < 512
    → vmm_page_1gb_map_offline pml4 (u64 (n * 2 ^ 30 + hhdm_offset)) (n * 2 ^ 30) flags s
      ≡ some (true, s')
    → hhdm_loop (suc fuel) (n * 2 ^ 30) max_pa pml4 s
      ≡ hhdm_loop fuel ((n + 1) * 2 ^ 30) max_pa pml4 s'
unfolding hhdm_loop
hhdm_loop_step fuel n max_pa pml4 s s' l few one =
    let below = lt→ltb (n * 2 ^ 30) max_pa l in
    let next : u64 (n * 2 ^ 30 + gib_size) ≡ (n + 1) * 2 ^ 30 = omega arith in
    rw (hhdm_loop, below, one, next) refl

-- The loop from the `n`-th GiB on, with `left` rounds to go.
pub hhdm_loop-IsDirect :
    (left fuel n max_pa pml4 pdpt : ℕ) (low : ℕ → ℕ) (s : Vmm)
    → left < fuel
    → n + left ≤ 512
    → max_pa ≤ (n + left) * 2 ^ 30
    → (n + left) * 2 ^ 30 < max_pa + 2 ^ 30
    → AreTables pml4 pdpt
    → IsDirect n pml4 pdpt low s.mem
    → (mem' : ℕ → ℕ) × (hhdm_loop fuel (n * 2 ^ 30) max_pa pml4 s
        ≡ some (true, record s { mem = mem' }))
      × IsDirect (n + left) pml4 pdpt low mem'
unfolding hhdm_loop
hhdm_loop-IsDirect left zero n max_pa pml4 pdpt low s enough few reach close t d =
    absurd (omega arith)
hhdm_loop-IsDirect zero (suc fuel) n max_pa pml4 pdpt low s enough few reach close t d =
    let over = le→ltb (n * 2 ^ 30) max_pa (omega arith) in
    let same : n + 0 ≡ n = omega arith in (s.mem, rw (hhdm_loop, over) refl, rw same d)
hhdm_loop-IsDirect (suc left) (suc fuel) n max_pa pml4 pdpt low s enough few reach close t d =
    let top = ap (λ (a : ℕ). load64 a s.mem) (top_slot pml4 (n * 2 ^ 30) (omega arith)) ∙ d.top in
    let present =
      ensure_present (slot pml4 (hhdm_offset + n * 2 ^ 30) 39) s (omega (arith, top, t.aligned')) in
    let one = map-IsDirect n pml4 pdpt low s s t d (omega arith) present in
    let s1 : Vmm = record s { mem = store64 (pdpt + 8 * n) (gib_value (n * 2 ^ 30) flags) s.mem } in
    let (mem', run, direct) =
      hhdm_loop-IsDirect left fuel (n + 1) max_pa pml4 pdpt low s1 (omega arith) (omega arith)
        (omega arith) (omega arith) t (stored-IsDirect n pml4 pdpt low s.mem t d (omega arith)) in
    let total : n + 1 + left ≡ n + suc left = omega arith in
    (
      mem',
      hhdm_loop_step fuel n max_pa pml4 s s1 (omega arith) (omega arith) one ∙ run,
      subst (λ (k : ℕ). IsDirect k pml4 pdpt low mem') total direct,
    )
