-- ===== src/Bits.antt =====
-- Binary digits of machine words: `|`, `&` and `~` bit by bit, and masks as remainders.
mod Step
pub use Step.{bit_or_step, bit_and_step, zero-bit_and}
use native.Mathlib.Nat.{pow-suc, one-le-pow, div-div-eq-div-mul, mul_comm}
use bootloader_kernel_in_nas.Base.{
  ℕ, zero, suc, ◌+◌, ◌-◌, ◌*◌, ◌/◌, ◌%◌, ◌^◌, ◌≤◌, ◌<◌, min, max, bit_and, bit_or, ◌≡◌, refl, sym,
  ap, ◌∙◌, arith, ◌==◌, if◌then◌else◌, Bool-cases, ==→eq, inl, inr, ltb,
}

-- The binary digit `k` of `w`.
unfoldable pub bit : ℕ → ℕ → ℕ
bit zero w = w % 2
bit (suc k) w = bit k (w / 2)

-- ~w on 64 bits
abbrev pub not64 : ℕ → ℕ
not64 w = 2 ^ 64 - 1 - w

pub bit-lt : (k w : ℕ) → bit k w < 2
unfolding bit
bit-lt zero w = omega arith
bit-lt (suc k) w = bit-lt k (w / 2)

pub bit-bit_or : (k a b : ℕ) → bit k (bit_or a b) ≡ max (bit k a) (bit k b)
unfolding bit
bit-bit_or zero a b = omega (arith, bit_or_step a b)
bit-bit_or (suc k) a b = ap (bit k) (omega (arith, bit_or_step a b)) ∙ bit-bit_or k (a / 2) (b / 2)

pub bit-bit_and : (k a b : ℕ) → bit k (bit_and a b) ≡ min (bit k a) (bit k b)
unfolding bit
bit-bit_and zero a b = omega (arith, bit_and_step a b)
bit-bit_and (suc k) a b =
    ap (bit k) (omega (arith, bit_and_step a b)) ∙ bit-bit_and k (a / 2) (b / 2)

pub bit-zero : (k : ℕ) → bit k 0 ≡ 0
unfolding bit
bit-zero zero = refl
bit-zero (suc k) = bit-zero k

pub bit-pow : (k j : ℕ) → bit j (2 ^ k) ≡ (if j == k then 1 else 0)
unfolding bit
bit-pow zero zero = refl
bit-pow zero (suc j) = bit-zero j ∙ ground arith
bit-pow (suc k) zero = ground (arith, pow-suc 2 k)
bit-pow (suc k) (suc j) = ap (bit j) (omega (arith, pow-suc 2 k)) ∙ bit-pow k j ∙ ground arith

pub bit-complement : (n j x : ℕ) → x < 2 ^ n → j < n → bit j (2 ^ n - 1 - x) ≡ 1 - bit j x
unfolding bit
bit-complement zero j x h l = absurd (omega arith)
bit-complement (suc n) zero x h l = omega (arith, pow-suc 2 n)
bit-complement (suc n) (suc j) x h l =
    ap (bit j) (omega (arith, pow-suc 2 n))
    ∙ bit-complement n j (x / 2) (omega (arith, pow-suc 2 n)) (omega arith)

lt-two-pow : (n : ℕ) → n < 2 ^ n
lt-two-pow zero = omega arith
lt-two-pow (suc n) = omega (arith, pow-suc 2 n, lt-two-pow n)

bit_and-zero : (k a : ℕ) → a < 2 ^ k → bit_and a 0 ≡ 0
bit_and-zero zero a h = let e : a ≡ 0 = omega arith in rw e refl
bit_and-zero (suc k) a h =
    omega
      (arith, bit_and_step a 0, pow-suc 2 k, bit_and-zero k (a / 2) (omega (arith, pow-suc 2 k)))

-- Only the low places of a word survive a mask of low ones.
bit_and-low : (k q r : ℕ) → r < 2 ^ k → bit_and (q * 2 ^ k + r) (2 ^ k - 1) ≡ r
bit_and-low zero q r small =
    let e : r ≡ 0 = omega arith in
    let e' : q * 1 + 0 ≡ q = omega arith in
    rw (e, e') (omega (arith, bit_and_step q 0, bit_and-zero q q (lt-two-pow q)))
bit_and-low (suc k) q r small =
    let p : 2 ^ suc k ≡ 2 * 2 ^ k = omega (arith, pow-suc 2 k) in
    let pos : 1 ≤ 2 ^ k = one-le-pow k 2 (omega arith) in
    let qp : q * 2 ^ suc k ≡ 2 * (q * 2 ^ k) = omega (arith, ap (λ (t : ℕ). q * t) p) in
    let half : (q * 2 ^ suc k + r) / 2 ≡ q * 2 ^ k + r / 2 = omega arith in
    let half_mask : (2 ^ suc k - 1) / 2 ≡ 2 ^ k - 1 = omega arith in
    let ih = bit_and-low k q (r / 2) (omega arith) in
    let step = bit_and_step (q * 2 ^ suc k + r) (2 ^ suc k - 1) in
    let ih' : bit_and ((q * 2 ^ suc k + r) / 2) ((2 ^ suc k - 1) / 2) ≡ r / 2 =
      rw (half, half_mask) ih in
    omega arith

-- A mask of `k` ones in the low places is the remainder by `2 ^ k`.
pub bit_and-ones : (k a : ℕ) → bit_and a (2 ^ k - 1) ≡ a % 2 ^ k
bit_and-ones k a =
    let pos : 1 ≤ 2 ^ k = one-le-pow k 2 (omega arith) in
    let e : a / 2 ^ k * 2 ^ k + a % 2 ^ k ≡ a = grind arith in
    let low = bit_and-low k (a / 2 ^ k) (a % 2 ^ k) (grind arith) in rw e at low

-- A mask with `k` zeros in the low places works on the quotient by `2 ^ k`.
pub bit_and-shift : (k a m : ℕ) → bit_and a (m * 2 ^ k) ≡ bit_and (a / 2 ^ k) m * 2 ^ k
bit_and-shift zero a m =
    let e : m * 1 ≡ m = omega arith in let e' : a / 1 ≡ a = omega arith in rw (e, e') (omega arith)
bit_and-shift (suc k) a m =
    let p : 2 ^ suc k ≡ 2 * 2 ^ k = omega (arith, pow-suc 2 k) in
    let mp : m * 2 ^ suc k ≡ 2 * (m * 2 ^ k) = omega (arith, ap (λ (t : ℕ). m * t) p) in
    let half : m * 2 ^ suc k / 2 ≡ m * 2 ^ k = omega arith in
    let quot : a / 2 / 2 ^ k ≡ a / 2 ^ suc k =
      div-div-eq-div-mul a 2 (2 ^ k) ∙ ap (λ (t : ℕ). a / t) (sym p) in
    let ih = bit_and-shift k (a / 2) m in
    let step = bit_and_step a (m * 2 ^ suc k) in
    let ih' : bit_and (a / 2) (m * 2 ^ suc k / 2) ≡ bit_and (a / 2 ^ suc k) m * 2 ^ k =
      rw (half, ← quot) ih in
    let b : ℕ = bit_and (a / 2 ^ suc k) m in omega (arith, ap (λ (t : ℕ). b * t) p)

-- A right shift followed by `& 1` reads one digit.
pub bit_and-shr : (k w : ℕ) → bit_and (w / 2 ^ k) 1 ≡ bit k w
unfolding bit
bit_and-shr zero w = omega (arith, bit_and-ones 1 (w / 1))
bit_and-shr (suc k) w =
    let quot : w / 2 ^ suc k ≡ w / 2 / 2 ^ k =
      ap (λ (t : ℕ). w / t) (pow-suc 2 k ∙ mul_comm (2 ^ k) 2)
      ∙ sym (div-div-eq-div-mul w 2 (2 ^ k)) in
    rw quot (bit_and-shr k (w / 2))

-- `__builtin_ctzll`: how many zeros stand below the lowest one among `n` places.
unfoldable pub ctz : ℕ → ℕ → ℕ
ctz zero w = 0
ctz (suc n) w = if w % 2 == 1 then 0 else suc (ctz n (w / 2))

-- On a word that is not 0 the result is the place of its lowest one.
pub ctz_lowest :
    (n w : ℕ)
    → 0 < w
    → w < 2 ^ n
    → (ctz n w < n) × (bit (ctz n w) w ≡ 1) × ((j : ℕ) → j < ctz n w → bit j w ≡ 0)
unfolding ctz bit
ctz_lowest zero w pos small = absurd (omega arith)
ctz_lowest (suc n) w pos small = elim (Bool-cases (w % 2 == 1)) [
  | inl odd ↦ rw odd (omega arith, ==→eq _ _ odd, λ j l. absurd (omega arith))
  | inr even ↦
      let r = ctz_lowest n (w / 2) (ground arith) (omega (arith, pow-suc 2 n)) in
      rw even (
        omega arith,
        r.1,
        λ j. elim j as (λ j. j < suc (ctz n (w / 2)) → bit j w ≡ 0) [
          | zero ↦ λ l. ground arith
          | suc i ↦ λ l. r.2 i (omega arith)
        ],
      )
]

pub bit_or-lt : (n a b : ℕ) → a < 2 ^ n → b < 2 ^ n → bit_or a b < 2 ^ n
bit_or-lt zero a b ha hb =
    let e : a ≡ 0 = omega arith in let e' : b ≡ 0 = omega arith in rw (e, e') (omega arith)
bit_or-lt (suc n) a b ha hb = omega (
  arith,
  pow-suc 2 n,
  bit_or_step a b,
  bit_or-lt n (a / 2) (b / 2) (omega (arith, pow-suc 2 n)) (omega (arith, pow-suc 2 n)),
)

bit_and-le_fuel : (n a b : ℕ) → a < 2 ^ n → bit_and a b ≤ a
bit_and-le_fuel zero a b h = let e : a ≡ 0 = omega arith in rw (e, zero-bit_and b) (omega arith)
bit_and-le_fuel (suc n) a b h =
    omega (arith, bit_and_step a b, bit_and-le_fuel n (a / 2) (b / 2) (omega (arith, pow-suc 2 n)))

pub bit_and-le : (a b : ℕ) → bit_and a b ≤ a
bit_and-le a b = bit_and-le_fuel a a b (lt-two-pow a)

bit_or-none : (n a : ℕ) → a < 2 ^ n → bit_or a 0 ≡ a
bit_or-none zero a h = let e : a ≡ 0 = omega arith in rw e refl
bit_or-none (suc n) a h =
    omega (arith, bit_or_step a 0, bit_or-none n (a / 2) (omega (arith, pow-suc 2 n)))

-- `|` of a multiple of `2 ^ k` and a smaller number is their sum.
pub bit_or-sum : (k q r : ℕ) → r < 2 ^ k → bit_or (q * 2 ^ k) r ≡ q * 2 ^ k + r
bit_or-sum zero q r small =
    let e : r ≡ 0 = omega arith in
    let e' : q * 1 ≡ q = omega arith in rw (e, e') (omega (arith, bit_or-none q q (lt-two-pow q)))
bit_or-sum (suc k) q r small =
    let p : 2 ^ suc k ≡ 2 * 2 ^ k = omega (arith, pow-suc 2 k) in
    let qp : q * 2 ^ suc k ≡ 2 * (q * 2 ^ k) = omega (arith, ap (λ (t : ℕ). q * t) p) in
    let half : q * 2 ^ suc k / 2 ≡ q * 2 ^ k = omega arith in
    let ih = bit_or-sum k q (r / 2) (omega arith) in
    let ih' : bit_or (q * 2 ^ suc k / 2) (r / 2) ≡ q * 2 ^ k + r / 2 = rw half ih in
    omega (arith, bit_or_step (q * 2 ^ suc k) r)

-- The digits of a block of `n` ones.
pub bit-ones : (n k : ℕ) → bit k (2 ^ n - 1) ≡ (if ltb k n then 1 else 0)
unfolding bit
bit-ones zero k = bit-zero k ∙ ground arith
bit-ones (suc n) zero = ground (arith, pow-suc 2 n, one-le-pow n 2)
bit-ones (suc n) (suc k) =
    ap (bit k) (omega (arith, pow-suc 2 n, one-le-pow n 2 (omega arith)))
    ∙ bit-ones n k
    ∙ ground arith
