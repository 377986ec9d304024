-- ===== src/Port/Memory.antt =====
-- Words stored in memory and loaded back.
use bootloader_kernel_in_nas.Base.{
  ℕ, zero, suc, ◌+◌, ◌*◌, ◌/◌, ◌%◌, ◌^◌, ◌≤◌, ◌<◌, ◌≡◌, ◌⊎◌, inl, refl, arith, List, [], ◌∷◌, ap,
  ap₂, ◌∙◌, update,
}
use bootloader_kernel_in_nas.Port.{incoming, store_words, load_words}

abbrev pub length : List ℕ → ℕ
length [] = 0
length (w ∷ ws) = suc (length ws)

-- Every word has sixteen digits.
abbrev pub AreWords : List ℕ → Type 0
AreWords [] = Unit {0}
AreWords (w ∷ ws) = (w < 2 ^ 16) × AreWords ws

pub length-incoming : (count pos : ℕ) (words : ℕ → ℕ) → length (incoming count pos words) ≡ count
unfolding incoming
length-incoming zero pos words = refl
length-incoming (suc count) pos words = ap suc (length-incoming count (pos + 1) words)

pub incoming-AreWords : (count pos : ℕ) (words : ℕ → ℕ) → AreWords (incoming count pos words)
unfolding incoming
incoming-AreWords zero pos words = tt
incoming-AreWords (suc count) pos words = (omega arith, incoming-AreWords count (pos + 1) words)

-- A store changes no byte outside its words.
pub store_words_outside :
    (addr : ℕ) (ws : List ℕ) (mem : ℕ → ℕ) (a : ℕ)
    → (a < addr) ⊎ (addr + 2 * length ws ≤ a)
    → store_words addr ws mem a ≡ mem a
unfolding store_words
store_words_outside addr [] mem a h = refl
store_words_outside addr (w ∷ ws) mem a h =
    store_words_outside (addr + 2) ws _ a (ground arith) ∙ ground arith

-- A load reads only the bytes of its words.
pub load_words_ext :
    (count addr : ℕ) (mem mem' : ℕ → ℕ)
    → ((a : ℕ) → addr ≤ a → a < addr + 2 * count → mem a ≡ mem' a)
    → load_words count addr mem ≡ load_words count addr mem'
unfolding load_words
load_words_ext zero addr mem mem' h = refl
load_words_ext (suc count) addr mem mem' h =
    ap₂ ◌∷◌
      (ap₂ (λ x y. x + 256 * y) (h addr (omega arith) (omega arith))
        (h (addr + 1) (omega arith) (omega arith)))
      (load_words_ext count (addr + 2) mem mem' (λ a p q. h a (omega arith) (omega arith)))

-- What is stored is loaded back.
pub load-store_words :
    (addr : ℕ) (ws : List ℕ) (mem : ℕ → ℕ)
    → AreWords ws
    → load_words (length ws) addr (store_words addr ws mem) ≡ ws
unfolding load_words store_words
load-store_words addr [] mem h = refl
load-store_words addr (w ∷ ws) mem h =
    let mem' : ℕ → ℕ = update (update mem addr (w % 256)) (addr + 1) (w / 256 % 256) in
    let low = store_words_outside (addr + 2) ws mem' addr (inl (omega arith)) in
    let high = store_words_outside (addr + 2) ws mem' (addr + 1) (inl (omega arith)) in
    ap₂ ◌∷◌ (ground arith) (load-store_words (addr + 2) ws mem' h.1)
