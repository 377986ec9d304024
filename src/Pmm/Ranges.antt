-- ===== src/Pmm/Ranges.antt =====
-- The loops of pmm.c that mark a range of frames, and the loop that fills the array.
use bootloader_kernel_in_nas.Base.{
  ℕ, zero, suc, ◌+◌, ◌/◌, ◌%◌, ◌≤◌, ◌≡◌, refl, ◌∙◌, arith, Bool, ◌&&◌, some, ltb, leb, ◌==◌,
  if◌then◌else◌, update, lt→ltb,
}
use bootloader_kernel_in_nas.Bits.{bit-ones}
use bootloader_kernel_in_nas.Pmm.{Pmm, bitmap_bytes, put_word, fill_loop, clear_loop, set_loop}
use bootloader_kernel_in_nas.Pmm.Bitmap.{
  capacity, used, IsBitmap, Yields, IsMarked, Yields-ext, Yields-bind, set-IsMarked, clear-IsMarked,
}

-- `lo <= g && g < hi`
abbrev pub between : ℕ → ℕ → ℕ → Bool
between lo hi g = leb lo g && ltb g hi

-- Marking `j` and then the range behind it marks the range from `j` on.
range_step :
    (v left j g a : ℕ)
    → (if between (j + 1) (j + 1 + left) g then v else (if g == j then v else a))
      ≡ (if between j (j + suc left) g then v else a)
range_step v left j g a = ground arith

-- Setting `left` frames from `j` on marks exactly those used.
pub set_loop-IsMarked :
    (left j : ℕ) (p : Pmm)
    → IsBitmap p
    → j + left ≤ capacity
    → IsMarked 1 (between j (j + left)) p (set_loop left j p)
unfolding set_loop
set_loop-IsMarked zero j p valid fits = record {
  out = p;
  returns = refl;
  valid = valid;
  top = refl;
  digits = λ g. ground arith;
}
set_loop-IsMarked (suc left) j p valid fits =
    Yields-bind (set_loop left (j + 1)) (set-IsMarked j p valid (omega arith)) λ q ok top digits.
      Yields-ext top (λ g. rw (digits g) (range_step 1 left j g (used p g)))
        (set_loop-IsMarked left (j + 1) q ok (omega arith))

-- Clearing `left` frames from `j` on marks exactly those free.
pub clear_loop-IsMarked :
    (left j : ℕ) (p : Pmm)
    → IsBitmap p
    → j + left ≤ capacity
    → IsMarked 0 (between j (j + left)) p (clear_loop left j p)
unfolding clear_loop
clear_loop-IsMarked zero j p valid fits = record {
  out = p;
  returns = refl;
  valid = valid;
  top = refl;
  digits = λ g. ground arith;
}
clear_loop-IsMarked (suc left) j p valid fits =
    Yields-bind (clear_loop left (j + 1)) (clear-IsMarked j p valid (omega arith))
      λ q ok top digits.
        Yields-ext top (λ g. rw (digits g) (range_step 0 left j g (used p g)))
          (clear_loop-IsMarked left (j + 1) q ok (omega arith))

abbrev filled : ℕ → ℕ → Pmm → ℕ → ℕ
filled lo hi p i = if between lo hi i then 0xFF else p.g_frame_bitmap i

fill_loop_lem :
    (left i : ℕ) (p : Pmm)
    → i + left ≤ bitmap_bytes
    → (q : Pmm) × (fill_loop left i p ≡ some q)
      × (q.g_phys_ceiling ≡ p.g_phys_ceiling)
      × ((k : ℕ) → q.g_frame_bitmap k ≡ filled i (i + left) p k)
unfolding fill_loop put_word
fill_loop_lem zero i p fits = (p, refl, refl, λ k. ground arith)
fill_loop_lem (suc left) i p fits =
    let p' : Pmm = record p { g_frame_bitmap = update p.g_frame_bitmap i 0xFF } in
    let (q, returns, top, cells) = fill_loop_lem left (i + 1) p' (omega arith) in
    (q, rw (lt→ltb i bitmap_bytes (omega arith)) returns, top, λ k. cells k ∙ ground arith)

-- The initial fill sets the lowest eight digits of each word, not all of them.
pub fill_loop-Yields :
    (p : Pmm)
    → IsBitmap p
    → Yields p.g_phys_ceiling
        (λ g. if ltb g capacity then (if ltb (g % 64) 8 then 1 else 0) else used p g)
        (fill_loop bitmap_bytes 0 p)
unfolding used
fill_loop-Yields p valid =
    let (q, returns, top, cells) = fill_loop_lem bitmap_bytes 0 p (omega arith) in
    record {
      out = q;
      returns = returns;
      valid = record { word-lt = λ i. ground (arith, cells i, valid.word-lt i) };
      top = top;
      digits = λ g. ground (arith, cells (g / 64), bit-ones 8 (g % 64));
    }
