-- ===== src/Loader/Filled.antt =====
-- The memory that the loader fills, and the sectors of it.
use bootloader_kernel_in_nas.Base.{
  ℕ, zero, suc, ◌+◌, ◌-◌, ◌*◌, ◌≤◌, ◌<◌, ◌&&◌, List, [], ◌∷◌, ◌++◌, ltb, leb, if◌then◌else◌, ◌≡◌,
  ◌⊎◌, refl, ap, ap₂, ◌∙◌, arith, update,
}
use bootloader_kernel_in_nas.Port.{load_words}
use bootloader_kernel_in_nas.AtaPoll.Outcome.{sectors_of}
use bootloader_kernel_in_nas.Idt
use bootloader_kernel_in_nas.Loader.{Loader, image_address, fill_bytes, zero_bss, prepared}

fill_bytes_lem :
    (left p byte : ℕ) (mem : ℕ → ℕ) (a : ℕ)
    → fill_bytes left p byte mem a ≡ (if leb p a && ltb a (p + left) then byte else mem a)
unfolding fill_bytes
fill_bytes_lem zero p byte mem a = ground arith
fill_bytes_lem (suc left) p byte mem a =
    fill_bytes_lem left (p + 1) byte (update mem p byte) a ∙ ground arith

abbrev pub repeated {ℓ} : {A : Type ℓ} → ℕ → A → List A
repeated zero x = []
repeated (suc n) x = x ∷ repeated n x

repeated-snoc {ℓ} : {A : Type ℓ} (n : ℕ) (x : A) → repeated n x ++ x ∷ [] ≡ x ∷ repeated n x
repeated-snoc zero x = refl
repeated-snoc (suc n) x = ap (λ (xs : List _). x ∷ xs) (repeated-snoc n x)

-- The bytes from `p` up to `q` are all `byte`.
abbrev pub AreAll : (p q byte : ℕ) → (ℕ → ℕ) → Type 0
AreAll p q byte mem = (a : ℕ) → p ≤ a → a < q → mem a ≡ byte

load_words-repeated :
    (n addr byte : ℕ) (mem : ℕ → ℕ)
    → AreAll addr (addr + 2 * n) byte mem
    → load_words n addr mem ≡ repeated n (byte + 256 * byte)
unfolding load_words
load_words-repeated zero addr byte mem all = refl
load_words-repeated (suc n) addr byte mem all =
    ap₂ (λ (w : ℕ) (ws : List ℕ). w ∷ ws)
      (ap₂ (λ (x : ℕ) (y : ℕ). x + 256 * y) (all addr (omega arith) (omega arith))
        (all (addr + 1) (omega arith) (omega arith)))
      (load_words-repeated n (addr + 2) byte mem (λ a l u. all a (omega arith) (omega arith)))

pub sectors_of-repeated :
    (n addr byte : ℕ) (mem : ℕ → ℕ)
    → AreAll addr (addr + 512 * n) byte mem
    → sectors_of n addr mem ≡ repeated n (repeated 256 (byte + 256 * byte))
sectors_of-repeated zero addr byte mem all = refl
sectors_of-repeated (suc n) addr byte mem all =
    ap₂ (λ (xs : List (List ℕ)) (x : List ℕ). xs ++ x ∷ [])
      (sectors_of-repeated n (addr + 512) byte mem (λ a l u. all a (omega arith) (omega arith)))
      (load_words-repeated 256 addr byte mem (λ a l u. all a (omega arith) (omega arith)))
    ∙ repeated-snoc n (repeated 256 (byte + 256 * byte))

mem-prepared :
    (bss_start bss_end : ℕ) (address : Idt.Isr → ℕ) (s : Loader) (a : ℕ)
    → (prepared bss_start bss_end address s).io.mem a ≡ (
        if leb image_address a && ltb a (image_address + 256 * 512)
        then 0xCC
        else if leb bss_start a && ltb a (bss_start + (bss_end - bss_start))
        then 0
        else s.io.mem a)
unfolding prepared zero_bss
mem-prepared bss_start bss_end address s a =
    fill_bytes_lem (256 * 512) image_address 0xCC
      (fill_bytes (bss_end - bss_start) bss_start 0 s.io.mem) a
    ∙ ap (λ (x : ℕ). if leb image_address a && ltb a (image_address + 256 * 512) then 0xCC else x)
        (fill_bytes_lem (bss_end - bss_start) bss_start 0 s.io.mem a)

-- The memory at the first call of `ata_init`, in the image, in .bss and elsewhere.
pub image-prepared :
    (bss_start bss_end : ℕ) (address : Idt.Isr → ℕ) (s : Loader)
    → AreAll image_address
        (image_address + 256 * 512)
        0xCC
        (prepared bss_start bss_end address s).io.mem
image-prepared bss_start bss_end address s a l u =
    mem-prepared bss_start bss_end address s a ∙ ground arith

pub bss-prepared :
    (bss_start bss_end : ℕ) (address : Idt.Isr → ℕ) (s : Loader) (a : ℕ)
    → bss_start ≤ a
    → a < bss_end
    → a < image_address
    → (prepared bss_start bss_end address s).io.mem a ≡ 0
bss-prepared bss_start bss_end address s a l u below =
    mem-prepared bss_start bss_end address s a ∙ ground arith

pub outside-prepared :
    (bss_start bss_end : ℕ) (address : Idt.Isr → ℕ) (s : Loader) (a : ℕ)
    → (a < bss_start) ⊎ (bss_end ≤ a)
    → (a < image_address) ⊎ (image_address + 256 * 512 ≤ a)
    → (prepared bss_start bss_end address s).io.mem a ≡ s.io.mem a
outside-prepared bss_start bss_end address s a out away =
    mem-prepared bss_start bss_end address s a ∙ ground arith
