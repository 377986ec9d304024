-- ===== src/Pmm/Alloc.antt =====
-- `pmm_frame_alloc` and `pmm_frame_free`.
use bootloader_kernel_in_nas.Base.{
  ℕ, zero, suc, ◌+◌, ◌-◌, ◌*◌, ◌/◌, ◌%◌, ◌^◌, ◌≤◌, ◌<◌, bit_or, ◌≡◌, ◌≢◌, refl, ◌∙◌, arith, true,
  Option, none, some, ltb, leb, ◌==◌, if◌then◌else◌, ==_false→ne, ltb_false→le, ◌&&◌, ==→eq,
  Bool-cases, inl, inr,
}
use bootloader_kernel_in_nas.Bits.{
  bit, not64, ctz, ctz_lowest, bit-complement, bit-zero, bit-lt, bit_or-sum,
}
use bootloader_kernel_in_nas.Page.{u64}
use bootloader_kernel_in_nas.Pmm.{
  Pmm, max_frames, bitmap_bytes, pmm_reserved_frames, word_at, claim_block, alloc_loop,
  pmm_frame_alloc, pmm_frame_free,
}
use bootloader_kernel_in_nas.Pmm.Bitmap.{
  capacity, used, IsBitmap, Yields, IsMarked, Yields-ext, set-IsMarked, clear-IsMarked,
}

-- `result` is a normal return of the address of a free frame with no free frame below it, which
-- it marks used; it changes no other frame.
pub record IsAllocation (p : Pmm) (result : Option (ℕ × Pmm)) : Type 0 where
  pub frame : ℕ
  pub out : Pmm
  pub returns : result ≡ some (frame * 4096, out)
  pub inside : frame < capacity
  pub free_before : used p frame ≡ 0
  pub lowest : (g : ℕ) → g < frame → used p g ≡ 1
  pub marked : IsMarked 1 (λ g. g == frame) p (some out)

-- All frames of a full block are used.
pub full_block :
    (i : ℕ) (p : Pmm) → p.g_frame_bitmap i ≡ 2 ^ 64 - 1 → (g : ℕ) → g / 64 ≡ i → used p g ≡ 1
unfolding used
full_block i p full g e =
    rw (e, full)
      (omega (arith, bit-complement 64 (g % 64) 0 (omega arith) (omega arith), bit-zero (g % 64)))

module _ (i : ℕ) (p : Pmm) (valid : IsBitmap p) (inside : i < bitmap_bytes)
    (open_block : p.g_frame_bitmap i ≢ 2 ^ 64 - 1) where
  abbrev word : ℕ
  word = p.g_frame_bitmap i

  abbrev place : ℕ
  place = ctz 64 (not64 word)

  place_lowest :
      (place < 64) × (bit place (not64 word) ≡ 1) × ((j : ℕ) → j < place → bit j (not64 word) ≡ 0)
  place_lowest = ctz_lowest 64 (not64 word) (omega (arith, valid.word-lt i)) (omega arith)

  flip : (j : ℕ) → j < 64 → bit j (not64 word) ≡ 1 - bit j word
  flip j l = bit-complement 64 j word (valid.word-lt i) l

  used_in_block : (j : ℕ) → j < 64 → used p (i * 64 + j) ≡ bit j word
  unfolding used
  used_in_block j l =
      let e : (i * 64 + j) % 64 ≡ j = omega arith in
      let e' : (i * 64 + j) / 64 ≡ i = omega arith in rw (e, e') refl

  abbrev found : ℕ
  found = i * 64 + place

  found-lt : found < capacity
  found-lt = omega (arith, place_lowest.0)

  found_index : bit_or (u64 (i * 2 ^ 6)) place ≡ found
  found_index =
      let e : u64 (i * 2 ^ 6) ≡ i * 2 ^ 6 = omega arith in
      rw e (bit_or-sum 6 i place place_lowest.0)

  found_address : u64 (found * 4096) ≡ found * 4096
  found_address = omega (arith, found-lt)

  found_lowest : ((g : ℕ) → g < i * 64 → used p g ≡ 1) → (g : ℕ) → g < found → used p g ≡ 1
  found_lowest below g l = elim (Bool-cases (ltb g (i * 64))) [
    | inl e ↦ below g (ground arith)
    | inr e ↦
        let j = g - i * 64 in
        let j_lt : j < place = ground arith in
        let at : i * 64 + j ≡ g = ground arith in
        let here = used_in_block j (omega (arith, place_lowest.0)) in
        let down = flip j (omega (arith, place_lowest.0)) in
        let u : used p (i * 64 + j) ≡ 1 = omega (arith, place_lowest.2 j j_lt, bit-lt j word) in
        rw at at u
  ]

  claim_block-IsAllocation :
      ((g : ℕ) → g < i * 64 → used p g ≡ 1) → IsAllocation p (claim_block i word p)
  unfolding claim_block
  claim_block-IsAllocation below =
      let marked = set-IsMarked found p valid found-lt in
      record {
        frame = found;
        out = marked.out;
        returns = rw (found_index, marked.returns, found_address) refl;
        inside = found-lt;
        free_before =
            used_in_block place place_lowest.0
            ∙ omega (arith, flip place place_lowest.0, place_lowest.1, bit-lt place word);
        lowest = found_lowest below;
        marked = record {
          out = marked.out;
          returns = refl;
          valid = marked.valid;
          top = marked.top;
          digits = marked.digits;
        };
      }

block_done :
    (i : ℕ) (p : Pmm)
    → p.g_frame_bitmap i ≡ 2 ^ 64 - 1
    → ((g : ℕ) → g < i * 64 → used p g ≡ 1)
    → (g : ℕ) → g < (i + 1) * 64
    → used p g ≡ 1
block_done i p full below g l = elim (Bool-cases (ltb g (i * 64))) [
  | inl e ↦ below g (ground arith)
  | inr e ↦ full_block i p full g (ground arith)
]

alloc_loop-IsAllocation :
    (left i : ℕ) (p : Pmm)
    → IsBitmap p
    → ((g : ℕ) → g < i * 64 → used p g ≡ 1)
    → (f : ℕ) → f < capacity
    → used p f ≡ 0
    → f < (i + left) * 64
    → IsAllocation p (alloc_loop left i p)
unfolding alloc_loop word_at
alloc_loop-IsAllocation zero i p valid below f inside free reach =
    absurd (omega (arith, below f (omega arith)))
alloc_loop-IsAllocation (suc left) i p valid below f inside free reach =
    elim (Bool-cases (ltb i bitmap_bytes)) [
      | inl e ↦ elim (Bool-cases (p.g_frame_bitmap i == 2 ^ 64 - 1)) [
        | inl full ↦
            rw (e, full)
              (alloc_loop-IsAllocation left (i + 1) p valid (block_done i p (==→eq _ _ full) below)
                f inside free (omega arith))
        | inr room ↦
            rw (e, room)
              (claim_block-IsAllocation i p valid (ground arith) (==_false→ne _ _ room) below)
      ]
      | inr e ↦ absurd (
          omega (
            arith,
            ltb_false→le i bitmap_bytes e,
            below f (omega (arith, ltb_false→le i bitmap_bytes e)),
          ))
    ]

-- While some frame of the array is free, `pmm_frame_alloc` returns the address of the lowest
-- free frame, which was free, and marks that frame used and no other.
pub pmm_frame_alloc-IsAllocation :
    (p : Pmm)
    → IsBitmap p
    → (f : ℕ) → f < capacity
    → used p f ≡ 0
    → IsAllocation p (pmm_frame_alloc p)
unfolding pmm_frame_alloc
pmm_frame_alloc-IsAllocation p valid f inside free =
    alloc_loop-IsAllocation max_frames 0 p valid (λ g l. absurd (omega arith)) f inside free
      (omega arith)

alloc_loop_exhausted :
    (left i : ℕ) (p : Pmm)
    → ((k : ℕ) → k < bitmap_bytes → p.g_frame_bitmap k ≡ 2 ^ 64 - 1)
    → i ≤ bitmap_bytes
    → bitmap_bytes < i + left
    → alloc_loop left i p ≡ none
unfolding alloc_loop word_at
alloc_loop_exhausted zero i p full low reach = absurd (omega arith)
alloc_loop_exhausted (suc left) i p full low reach = elim (Bool-cases (ltb i bitmap_bytes)) [
  | inl e ↦
      let all_ones : (p.g_frame_bitmap i == 2 ^ 64 - 1) ≡ true = ground (arith, full i) in
      rw (e, all_ones) (alloc_loop_exhausted left (i + 1) p full (ground arith) (omega arith))
  | inr e ↦ rw e refl
]

-- With every frame used, `pmm_frame_alloc` reads behind the end of its array: it never returns
-- `pmm_invalid_frame`.
pub pmm_frame_alloc_exhausted :
    (p : Pmm)
    → ((k : ℕ) → k < bitmap_bytes → p.g_frame_bitmap k ≡ 2 ^ 64 - 1)
    → pmm_frame_alloc p ≡ none
unfolding pmm_frame_alloc
pmm_frame_alloc_exhausted p full =
    alloc_loop_exhausted max_frames 0 p full (omega arith) (omega arith)

-- `pmm_frame_free` leaves the reserved frames alone and frees any other frame of the array.
pub pmm_frame_free-Yields :
    (f : ℕ) (p : Pmm)
    → IsBitmap p
    → f < capacity
    → Yields p.g_phys_ceiling
        (λ g. if leb pmm_reserved_frames f && (g == f) then 0 else used p g)
        (pmm_frame_free f p)
unfolding pmm_frame_free
pmm_frame_free-Yields f p valid inside = elim (Bool-cases (ltb f pmm_reserved_frames)) [
  | inl low ↦
      rw low
        (record { out = p; returns = refl; valid = valid; top = refl; digits = λ g. ground arith })
  | inr e ↦ rw e (Yields-ext refl (λ g. ground arith) (clear-IsMarked f p valid inside))
]
