-- ===== src/Vmm/Memory.antt =====
-- Little-endian words in byte memory: reading back what was stored, and words that a store leaves
-- alone.
use native.Mathlib.Nat.{pow-suc}
use bootloader_kernel_in_nas.Base.{
  ℕ, zero, suc, ◌+◌, ◌*◌, ◌/◌, ◌%◌, ◌^◌, ◌≤◌, ◌<◌, ◌≡◌, refl, ap₂, ◌∙◌, ◌⊎◌, inl, arith, update,
}
use bootloader_kernel_in_nas.Vmm.{load_bytes, store_bytes, load64, store64}

pub store_bytes-outside :
    (count addr value : ℕ) (mem : ℕ → ℕ) (i : ℕ)
    → (i < addr) ⊎ (addr + count ≤ i)
    → store_bytes count addr value mem i ≡ mem i
unfolding store_bytes
store_bytes-outside zero addr value mem i away = refl
store_bytes-outside (suc count) addr value mem i away =
    store_bytes-outside count (addr + 1) (value / 256) (update mem addr (value % 256)) i
      (ground arith)
    ∙ ground arith

-- A word depends on its own bytes only.
pub load_bytes-same :
    (count addr : ℕ) (mem mem' : ℕ → ℕ)
    → ((i : ℕ) → addr ≤ i → i < addr + count → mem i ≡ mem' i)
    → load_bytes count addr mem ≡ load_bytes count addr mem'
unfolding load_bytes
load_bytes-same zero addr mem mem' same = refl
load_bytes-same (suc count) addr mem mem' same =
    ap₂ (λ (a b : ℕ). a + 256 * b) (same addr (omega arith) (omega arith))
      (load_bytes-same count (addr + 1) mem mem' (λ i l u. same i (omega arith) (omega arith)))

pub load-store :
    (count addr value : ℕ) (mem : ℕ → ℕ)
    → value < 256 ^ count
    → load_bytes count addr (store_bytes count addr value mem) ≡ value
unfolding load_bytes store_bytes
load-store zero addr value mem small = omega arith
load-store (suc count) addr value mem small =
    let rest =
      load-store count (addr + 1) (value / 256) (update mem addr (value % 256))
        (omega (arith, pow-suc 256 count)) in
    let first =
      store_bytes-outside count (addr + 1) (value / 256) (update mem addr (value % 256)) addr
        (inl (omega arith)) in
    let head : update mem addr (value % 256) addr ≡ value % 256 = ground arith in omega arith

pub load64-store64 :
    (addr value : ℕ) (mem : ℕ → ℕ) → value < 2 ^ 64 → load64 addr (store64 addr value mem) ≡ value
load64-store64 addr value mem small = load-store 8 addr value mem small

-- A store leaves the words alone that do not meet it.
pub load64-apart :
    (addr other value : ℕ) (mem : ℕ → ℕ)
    → (other + 8 ≤ addr) ⊎ (addr + 8 ≤ other)
    → load64 other (store64 addr value mem) ≡ load64 other mem
load64-apart addr other value mem apart =
    load_bytes-same 8 other (store64 addr value mem) mem
      (λ i l u. store_bytes-outside 8 addr value mem i (ground arith))
