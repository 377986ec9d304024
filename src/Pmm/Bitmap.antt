-- ===== src/Pmm/Bitmap.antt =====
-- The bitmap as one binary digit for each frame: what setting, clearing and testing one does.
use bootloader_kernel_in_nas.Base.{
  ℕ, ◌*◌, ◌/◌, ◌%◌, ◌^◌, ◌<◌, bit_and, bit_or, ◌≡◌, refl, ◌∙◌, ap, arith, Bool, true, Bool-cases,
  Option, some, inl, inr, ltb, ◌==◌, if◌then◌else◌, ◌>>=◌, update, lt→ltb, ==→eq,
}
use bootloader_kernel_in_nas.Bits.{
  bit, not64, bit-lt, bit-bit_or, bit-bit_and, bit-pow, bit-complement, bit_and-shr, bit_and-ones,
  bit_or-lt, bit_and-le,
}
use bootloader_kernel_in_nas.Pmm.{
  Pmm, bitmap_bytes, frame_bitmap_set, frame_bitmap_clear, frame_bitmap_test,
}
use native.Mathlib.Nat.{pow-le-pow_right}

-- How many frames have a digit in the array.
abbrev pub capacity : ℕ
capacity = bitmap_bytes * 64

-- 1 when the frame is marked used, 0 when it is free.
unfoldable pub used : Pmm → ℕ → ℕ
used p f = bit (f % 64) (p.g_frame_bitmap (f / 64))

-- Every element of the array is a uint64_t.
pub record IsBitmap (p : Pmm) : Type 0 where
  pub word-lt : (i : ℕ) → p.g_frame_bitmap i < 2 ^ 64

-- `result` is a normal return: frame `g` has the digit `digit g`, and the ceiling is `ceiling`.
pub record Yields (ceiling : ℕ) (digit : ℕ → ℕ) (result : Option Pmm) : Type 0 where
  pub out : Pmm
  pub returns : result ≡ some out
  pub valid : IsBitmap out
  pub top : out.g_phys_ceiling ≡ ceiling
  pub digits : (g : ℕ) → used out g ≡ digit g

-- `result` is a normal return that gave the digit `v` to the frames in `In` and to no other.
abbrev pub IsMarked : ℕ → (ℕ → Bool) → Pmm → Option Pmm → Type 0
IsMarked v In p = Yields p.g_phys_ceiling (λ g. if In g then v else used p g)

-- The same outcome under another description of its digits.
pub Yields-ext :
    {c c' : ℕ} {d d' : ℕ → ℕ} {result : Option Pmm}
    → c ≡ c'
    → ((g : ℕ) → d g ≡ d' g)
    → Yields c d result
    → Yields c' d' result
Yields-ext e h y = record {
  out = y.out;
  returns = y.returns;
  valid = y.valid;
  top = y.top ∙ e;
  digits = λ g. y.digits g ∙ h g;
}

pub Yields-bind :
    {c c' : ℕ} {d d' : ℕ → ℕ} {result : Option Pmm} (k : Pmm → Option Pmm)
    → Yields c d result
    → ((q : Pmm)
        → IsBitmap q
        → q.g_phys_ceiling ≡ c
        → ((g : ℕ) → used q g ≡ d g)
        → Yields c' d' (k q))
    → Yields c' d' (result >>= k)
Yields-bind k y next = rw y.returns (next y.out y.valid y.top y.digits)

low_six : (f : ℕ) → bit_and f 63 ≡ f % 64
low_six f = bit_and-ones 6 f

module _ (f : ℕ) (p : Pmm) (valid : IsBitmap p) (inside : f < capacity) where
  in_array : ltb (f / 2 ^ 6) bitmap_bytes ≡ true
  in_array = lt→ltb _ _ (omega arith)

  abbrev word : ℕ
  word = p.g_frame_bitmap (f / 64)

  abbrev written : ℕ → Pmm
  written w = record p { g_frame_bitmap = update p.g_frame_bitmap (f / 64) w }

  written-IsBitmap : (w : ℕ) → w < 2 ^ 64 → IsBitmap (written w)
  written-IsBitmap w small = record {
    word-lt = λ i. elim (Bool-cases (i == f / 64)) [
      | inl e ↦ rw e small
      | inr ne ↦ rw ne (valid.word-lt i)
    ];
  }

  -- A write that gives digit `v` at `f` and keeps the others of its word marks `f` alone.
  written-digits :
      (w v : ℕ)
      → ((j : ℕ) → j < 64 → bit j w ≡ (if j == f % 64 then v else bit j word))
      → (g : ℕ) → used (written w) g ≡ (if g == f then v else used p g)
  unfolding used
  written-digits w v h g = elim (Bool-cases (g / 64 == f / 64)) [
    | inl e ↦
        let same : g / 64 ≡ f / 64 = ==→eq _ _ e in
        rw e (h (g % 64) (omega arith) ∙ rw same (ground arith))
    | inr ne ↦ rw ne (ground arith)
  ]

  written-IsMarked :
      (w v : ℕ) (result : Option Pmm)
      → result ≡ some (written w)
      → w < 2 ^ 64
      → ((j : ℕ) → j < 64 → bit j w ≡ (if j == f % 64 then v else bit j word))
      → IsMarked v (λ g. g == f) p result
  written-IsMarked w v result returns small h = record {
    out = written w;
    returns = returns;
    valid = written-IsBitmap w small;
    top = refl;
    digits = written-digits w v h;
  }

  power-lt : 2 ^ (f % 64) < 2 ^ 64
  power-lt =
      omega (arith, pow-le-pow_right {n = 2} (omega arith) {i = f % 64} {j = 63} (omega arith))

  pub set-IsMarked : IsMarked 1 (λ g. g == f) p (frame_bitmap_set f p)
  unfolding frame_bitmap_set
  set-IsMarked =
      written-IsMarked (bit_or word (2 ^ (f % 64))) 1 _ (rw (in_array, low_six f))
        (bit_or-lt 64 word (2 ^ (f % 64)) (valid.word-lt (f / 64)) power-lt)
        (λ j l.
          bit-bit_or j word (2 ^ (f % 64)) ∙ ground (arith, bit-pow (f % 64) j, bit-lt j word))

  pub clear-IsMarked : IsMarked 0 (λ g. g == f) p (frame_bitmap_clear f p)
  unfolding frame_bitmap_clear
  clear-IsMarked =
      written-IsMarked (bit_and word (not64 (2 ^ (f % 64)))) 0 _ (rw (in_array, low_six f))
        (omega (arith, bit_and-le word (not64 (2 ^ (f % 64))), valid.word-lt (f / 64)))
        (λ j l.
          bit-bit_and j word (not64 (2 ^ (f % 64)))
          ∙ ground (
            arith,
            bit-complement 64 j (2 ^ (f % 64)) power-lt l,
            bit-pow (f % 64) j,
            bit-lt j word,
          ))

  -- `frame_bitmap_test` reads the digit of its frame.
  pub test-used : frame_bitmap_test f p ≡ some (used p f)
  unfolding frame_bitmap_test used
  test-used = rw (in_array, low_six f) (ap some (bit_and-shr (f % 64) word))
