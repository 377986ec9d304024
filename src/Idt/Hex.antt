-- ===== src/Idt/Hex.antt =====
-- Numbers on the screen: `vga_hex_draw` and reading back what it draws.
use native.Mathlib.Nat.{pow-suc, div-div-eq-div-mul, mul_comm}
use bootloader_kernel_in_nas.Base.{
  ℕ, zero, suc, ◌+◌, ◌-◌, ◌*◌, ◌/◌, ◌%◌, ◌^◌, ◌<◌, ◌≤◌, bit_and, Bool, true, ◌&&◌, ltb, ◌==◌,
  if◌then◌else◌, ==→eq, inl, ◌≡◌, ◌⊎◌, refl, sym, ap, ap₂, ◌∙◌, arith, update,
}
use bootloader_kernel_in_nas.Bits.{bit_and-ones}
use bootloader_kernel_in_nas.Port.{u8}
use bootloader_kernel_in_nas.Idt

-- A cell's character, and the value of a hexadecimal digit.
abbrev pub character : ℕ → ℕ
character c = c % 256

abbrev pub hex_value : ℕ → ℕ
hex_value c = if ltb c b'A' then c - b'0' else c - b'A' + 10

-- The number that `n` cells from `place` on show.
unfoldable pub shown : (n place : ℕ) → (ℕ → ℕ) → ℕ
shown zero place v = 0
shown (suc n) place v = hex_value (character (v place)) * 2 ^ (4 * n) + shown n (place + 1) v

unfoldable pub all_below : ℕ → (ℕ → Bool) → Bool
all_below zero p = true
all_below (suc n) p = p n && all_below n p

pub below_all : (n : ℕ) (p : ℕ → Bool) (x : ℕ) → all_below n p ≡ true → x < n → p x ≡ true
unfolding all_below
below_all zero p x h l = absurd (omega arith)
below_all (suc n) p x h l = ground (arith, below_all n p x)

digit_table :
    all_below 16 (λ d. hex_value (character (Idt.cell (Idt.get_or Idt.hex_chars d 0))) == d) ≡ true
unfolding all_below Idt.cell
digit_table = refl

hex_digit : (d : ℕ) → d < 16 → hex_value (character (Idt.cell (Idt.get_or Idt.hex_chars d 0))) ≡ d
hex_digit d l = ==→eq _ _ (below_all 16 _ d digit_table l)

nibble-value : (x : ℕ) → u8 (bit_and x 0xF) ≡ x % 16
nibble-value x = omega (arith, bit_and-ones 4 x)

nibble_loop_outside :
    (left place value : ℕ) (v : ℕ → ℕ) (i : ℕ)
    → (i < place) ⊎ (place + left ≤ i)
    → Idt.nibble_loop left place value v i ≡ v i
unfolding Idt.nibble_loop
nibble_loop_outside zero place value v i away = refl
nibble_loop_outside (suc left) place value v i away =
    nibble_loop_outside left (place + 1) value _ i (ground arith) ∙ ground arith

split_digit : (q p : ℕ) → q % 16 * p + q / 16 * (16 * p) ≡ q * p
split_digit q p =
    let e : q ≡ q % 16 + 16 * (q / 16) = omega arith in
    let r : ℕ = q % 16 in
    let h : ℕ = q / 16 in
    let d : (r + 16 * h) * p ≡ r * p + h * (16 * p) = grind arith in
    sym d ∙ ap (λ (t : ℕ). t * p) (sym e)

pow_digit : (left : ℕ) → 2 ^ (4 * suc left) ≡ 16 * 2 ^ (4 * left)
pow_digit left =
    let k : ℕ = 4 * left in
    let e : 4 * suc left ≡ suc (suc (suc (suc k))) = omega arith in
    rw e (
      omega (
        arith,
        pow-suc 2 (suc (suc (suc k))),
        pow-suc 2 (suc (suc k)),
        pow-suc 2 (suc k),
        pow-suc 2 k,
      ))

-- The digits drawn, and what stands above them, make the value.
shown-nibble_loop :
    (left place value : ℕ) (v : ℕ → ℕ)
    → shown left place (Idt.nibble_loop left place value v)
        + value / 2 ^ (4 * left) * 2 ^ (4 * left)
      ≡ value
unfolding shown Idt.nibble_loop
shown-nibble_loop zero place value v = omega arith
shown-nibble_loop (suc left) place value v =
    let p : ℕ = 2 ^ (4 * left) in
    let q : ℕ = value / p in
    let digit : ℕ = u8 (bit_and q 0xF) in
    let v' : ℕ → ℕ = update v place (Idt.cell (Idt.get_or Idt.hex_chars digit 0)) in
    let here : Idt.nibble_loop left (place + 1) value v' place
        ≡ Idt.cell (Idt.get_or Idt.hex_chars digit 0) =
      nibble_loop_outside left (place + 1) value v' place (inl (omega arith)) ∙ ground arith in
    let read : hex_value (character (Idt.nibble_loop left (place + 1) value v' place)) ≡ q % 16 =
      ap (λ (c : ℕ). hex_value (character c)) here
      ∙ hex_digit digit (omega (arith, nibble-value q))
      ∙ nibble-value q in
    let above : value / (16 * p) ≡ q / 16 =
      ap (λ (t : ℕ). value / t) (mul_comm 16 p) ∙ sym (div-div-eq-div-mul value p 16) in
    let rest = shown-nibble_loop left (place + 1) value v' in
    rw (read, pow_digit left, above) (omega (arith, split_digit q p))

-- What is shown depends on its own cells only.
pub shown_same :
    (n place : ℕ) (v v' : ℕ → ℕ)
    → ((i : ℕ) → place ≤ i → i < place + n → v i ≡ v' i)
    → shown n place v ≡ shown n place v'
unfolding shown
shown_same zero place v v' same = refl
shown_same (suc n) place v v' same =
    ap₂ (λ (c : ℕ) (rest : ℕ). hex_value (character c) * 2 ^ (4 * n) + rest)
      (same place (omega arith) (omega arith))
      (shown_same n (place + 1) v v' (λ i l u. same i (omega arith) (omega arith)))

-- A row that shows a number after the prefix 0x.
pub record ShowsRow (row value : ℕ) (v : ℕ → ℕ) : Type 0 where
  pub zero_sign : character (v (row * 80)) ≡ b'0'
  pub x_sign : character (v (row * 80 + 1)) ≡ b'x'
  pub number : shown 16 (row * 80 + 2) v ≡ value

pub ShowsRow-same :
    {row value : ℕ} {v v' : ℕ → ℕ}
    → ((i : ℕ) → row * 80 ≤ i → i < row * 80 + 18 → v i ≡ v' i)
    → ShowsRow row value v
    → ShowsRow row value v'
ShowsRow-same {row} {value} {v} {v'} same s = record {
  zero_sign = ap character (sym (same (row * 80) (omega arith) (omega arith))) ∙ s.zero_sign;
  x_sign = ap character (sym (same (row * 80 + 1) (omega arith) (omega arith))) ∙ s.x_sign;
  number =
      sym (shown_same 16 (row * 80 + 2) v v' (λ i l u. same i (omega arith) (omega arith)))
      ∙ s.number;
}

pub vga_hex_draw_outside :
    (value row : ℕ) (v : ℕ → ℕ) (i : ℕ)
    → (i < row * 80) ⊎ (row * 80 + 18 ≤ i)
    → Idt.vga_hex_draw value row v i ≡ v i
unfolding Idt.vga_hex_draw
vga_hex_draw_outside value row v i away =
    let w : ℕ → ℕ = update (update v (row * 80) (Idt.cell b'0')) (row * 80 + 1) (Idt.cell b'x') in
    let kept : w i ≡ v i = ground arith in
    nibble_loop_outside 16 (row * 80 + 2) value w i (ground arith) ∙ kept

-- `vga_hex_draw` writes 18 cells of its row, from which the 64-bit number is read back digit by
-- digit after the prefix 0x, and no other cell.
pub vga_hex_draw-ShowsRow :
    (value row : ℕ) (v : ℕ → ℕ)
    → value < 2 ^ 64
    → ShowsRow row value (Idt.vga_hex_draw value row v)
      × ((i : ℕ) → (i < row * 80) ⊎ (row * 80 + 18 ≤ i) → Idt.vga_hex_draw value row v i ≡ v i)
unfolding Idt.vga_hex_draw Idt.cell
vga_hex_draw-ShowsRow value row v small =
    let w : ℕ → ℕ = update (update v (row * 80) (Idt.cell b'0')) (row * 80 + 1) (Idt.cell b'x') in
    let first = nibble_loop_outside 16 (row * 80 + 2) value w (row * 80) (inl (omega arith)) in
    let second = nibble_loop_outside 16 (row * 80 + 2) value w (row * 80 + 1) (inl (omega arith)) in
    let at_first : w (row * 80) ≡ Idt.cell b'0' = ground arith in
    let at_second : w (row * 80 + 1) ≡ Idt.cell b'x' = ground arith in
    (
      record {
        zero_sign = ap character (first ∙ at_first);
        x_sign = ap character (second ∙ at_second);
        number = omega (arith, shown-nibble_loop 16 (row * 80 + 2) value w);
      },
      λ i away. vga_hex_draw_outside value row v i away,
    )
