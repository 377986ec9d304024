-- ===== src/Pmm/Init.antt =====
-- `pmm_init_from_map` and `pmm_init`: which frames are free once the memory map is read.
use bootloader_kernel_in_nas.Base.{
  ℕ, zero, suc, ◌+◌, ◌-◌, ◌*◌, ◌/◌, ◌%◌, ◌^◌, ◌≤◌, ◌<◌, min, max, ◌≡◌, refl, ◌∙◌, ap, arith, Bool,
  true, false, ◌&&◌, ◌||◌, some, List, [], ◌∷◌, ltb, leb, ◌==◌, if◌then◌else◌, ◌>>=◌, Bool-cases,
  inl, inr,
}
use bootloader_kernel_in_nas.Page.{E820Entry, u64}
use bootloader_kernel_in_nas.Page.Align.{align_down_lem, align_up_lem}
use bootloader_kernel_in_nas.Pmm.{
  Pmm, max_frames, pmm_reserved_frames, raise_ceiling, init_entry, init_entries, free_region,
  set_loop, pmm_init_from_map, pmm_init,
}
use bootloader_kernel_in_nas.Pmm.Bitmap.{
  capacity, used, IsBitmap, Yields, IsMarked, Yields-ext, Yields-bind,
}
use bootloader_kernel_in_nas.Pmm.Ranges.{
  between, clear_loop-IsMarked, set_loop-IsMarked, fill_loop-Yields,
}

-- The region ends at least a page below 2^64, so that none of its sums wraps.
abbrev pub IsWellFormed : E820Entry → Type 0
IsWellFormed e = e.base + e.length + 4096 ≤ 2 ^ 64

-- Frame `g` lies whole in a usable region of the map, and below the limit on frames.
abbrev pub covers : E820Entry → ℕ → Bool
covers e g =
    (e.type == 1)
    && leb e.base (g * 4096)
    && leb (g * 4096 + 4096) (e.base + e.length)
    && ltb g max_frames

used-raise_ceiling : (end : ℕ) (p : Pmm) (g : ℕ) → used (raise_ceiling end p) g ≡ used p g
unfolding raise_ceiling used
used-raise_ceiling end p g = ground arith

IsBitmap-raise_ceiling : (end : ℕ) (p : Pmm) → IsBitmap p → IsBitmap (raise_ceiling end p)
unfolding raise_ceiling
IsBitmap-raise_ceiling end p ok = elim (Bool-cases (ltb p.g_phys_ceiling end)) [
  | inl e ↦ rw e (record { word-lt = ok.word-lt })
  | inr e ↦ rw e ok
]

top-raise_ceiling :
    (end : ℕ) (p : Pmm) → (raise_ceiling end p).g_phys_ceiling ≡ max p.g_phys_ceiling end
unfolding raise_ceiling
top-raise_ceiling end p = ground arith

-- No frame is covered by the region where the code skips the loop.
skipped :
    (c : ℕ) (d : ℕ → ℕ) (p : Pmm)
    → IsBitmap p
    → p.g_phys_ceiling ≡ c
    → ((g : ℕ) → used p g ≡ d g)
    → Yields c d (some p)
skipped c d p ok top digits = record {
  out = p;
  returns = refl;
  valid = ok;
  top = top;
  digits = digits;
}

free_region-IsMarked :
    (start end : ℕ) (p : Pmm)
    → IsBitmap p
    → IsMarked 0 (between start (min end max_frames)) p (free_region start end p)
unfolding free_region
free_region-IsMarked start end p ok = elim (Bool-cases (leb max_frames start)) [
  | inl e ↦ rw e (skipped _ _ p ok refl (λ g. ground arith))
  | inr low ↦ elim (Bool-cases (ltb max_frames end)) [
    | inl cut ↦ elim (Bool-cases (leb max_frames start)) [
      | inl e ↦ rw (cut, e) (skipped _ _ p ok refl (λ g. ground arith))
      | inr e ↦
          rw (cut, e)
            (Yields-ext refl (λ g. ground arith)
              (clear_loop-IsMarked (max_frames - start) start p ok (ground arith)))
    ]
    | inr whole ↦ elim (Bool-cases (leb end start)) [
      | inl e ↦ rw (low, whole, e) (skipped _ _ p ok refl (λ g. ground arith))
      | inr e ↦
          rw (low, whole, e)
            (Yields-ext refl (λ g. ground arith)
              (clear_loop-IsMarked (end - start) start p ok (ground arith)))
    ]
  ]
]

-- One entry of the map frees the frames that its region covers, if it is usable memory, and
-- raises the ceiling to its end in any case.
pub init_entry-Yields :
    (e : E820Entry) (p : Pmm)
    → IsBitmap p
    → IsWellFormed e
    → Yields
        (max p.g_phys_ceiling (e.base + e.length))
        (λ g. if covers e g then 0 else used p g)
        (init_entry e p)
unfolding init_entry
init_entry-Yields e p ok wf =
    let sum : u64 (e.base + e.length) ≡ e.base + e.length = omega arith in
    let q = raise_ceiling (e.base + e.length) p in
    let q_ok = IsBitmap-raise_ceiling (e.base + e.length) p ok in
    let top = top-raise_ceiling (e.base + e.length) p in
    let same = used-raise_ceiling (e.base + e.length) p in
    elim (Bool-cases (e.type == 1)) [
      | inl usable ↦
          rw
            (
              usable,
              sum,
              align_up_lem e.base (omega arith),
              align_down_lem (e.base + e.length) (omega arith),
            )
            (Yields-ext top (λ g. rw (same g) (ground arith))
              (free_region-IsMarked ((e.base + 4095) / 4096 * 4096 / 4096)
                ((e.base + e.length) / 4096 * 4096 / 4096) q q_ok))
      | inr not_ram ↦ rw (not_ram, sum) (skipped _ _ q q_ok top same)
    ]

-- Some usable region among the first `count` entries covers the frame.
abbrev pub covered : ℕ → List E820Entry → ℕ → Bool
covered zero map g = false
covered (suc count) [] g = false
covered (suc count) (e ∷ map) g = covers e g || covered count map g

-- The first `count` entries are there, and none of their sums wraps.
abbrev pub IsMap : ℕ → List E820Entry → Type 0
IsMap zero map = Unit {0}
IsMap (suc count) [] = ⊥
IsMap (suc count) (e ∷ map) = IsWellFormed e × IsMap count map

-- The highest end of a region, usable or not.
abbrev pub highest_end : ℕ → List E820Entry → ℕ → ℕ
highest_end zero map c = c
highest_end (suc count) [] c = c
highest_end (suc count) (e ∷ map) c = highest_end count map (max c (e.base + e.length))

pub init_entries-Yields :
    (count : ℕ) (map : List E820Entry) (p : Pmm)
    → IsBitmap p
    → IsMap count map
    → Yields
        (highest_end count map p.g_phys_ceiling)
        (λ g. if covered count map g then 0 else used p g)
        (init_entries count map p)
unfolding init_entries
init_entries-Yields zero map p ok m = skipped _ _ p ok refl (λ g. refl)
init_entries-Yields (suc count) [] p ok m = absurd m
init_entries-Yields (suc count) (e ∷ map) p ok m =
    Yields-bind (init_entries count map) (init_entry-Yields e p ok m.0) λ q q_ok top digits.
      Yields-ext (ap (highest_end count map) top) (λ g. rw (digits g) (ground arith))
        (init_entries-Yields count map q q_ok m.1)

covered-lt-max_frames :
    (count : ℕ) (map : List E820Entry) (g : ℕ) → covered count map g ≡ true → g < max_frames
covered-lt-max_frames zero map g h = cc
covered-lt-max_frames (suc count) [] g h = cc
covered-lt-max_frames (suc count) (e ∷ map) g h = ground (arith, covered-lt-max_frames count map g)

-- What the digit of frame `g` is after the map is read.
abbrev pub expected : ℕ → List E820Entry → ℕ → ℕ
expected count map g =
    if ltb g pmm_reserved_frames
    then 1
    else if covered count map g
    then 0
    else if ltb (g % 64) 8
    then 1
    else 0

-- Once `pmm_init_from_map` has read the first `count` entries, whose sums do not wrap, the ceiling
-- is the highest end of a region or the old ceiling, and of the frames of the array these are
-- used: the reserved ones, and those that no usable region covers whole and whose place in their
-- word is below 8. All others are free.
pub pmm_init_from_map-Yields :
    (map : List E820Entry) (count : ℕ) (p : Pmm)
    → IsBitmap p
    → IsMap count map
    → Yields
        (highest_end count map p.g_phys_ceiling)
        (λ g. if ltb g capacity then expected count map g else used p g)
        (pmm_init_from_map map count p)
unfolding pmm_init_from_map
pmm_init_from_map-Yields map count p ok m =
    Yields-bind (λ q. init_entries count map q >>= set_loop pmm_reserved_frames 0)
      (fill_loop-Yields p ok)
      λ q q_ok q_top q_digits.
        Yields-bind (set_loop pmm_reserved_frames 0) (init_entries-Yields count map q q_ok m)
          λ r r_ok r_top r_digits.
            Yields-ext (r_top ∙ ap (highest_end count map) q_top)
              (λ g. rw (r_digits g, q_digits g) (ground (arith, covered-lt-max_frames count map g)))
              (set_loop-IsMarked pmm_reserved_frames 0 r r_ok (omega arith))

-- `pmm_init` leaves the frames as `pmm_init_from_map` does, but for those of the kernel image, from
-- the one that holds its first byte to the one that holds its last, which it marks used. The
-- image ends inside the array's frames and the sums of the map do not wrap.
pub pmm_init-Yields :
    (kernel_start kernel_end : ℕ) (map : List E820Entry) (count : ℕ) (p : Pmm)
    → IsBitmap p
    → IsMap count map
    → kernel_start ≤ kernel_end
    → kernel_end + 4095 < capacity * 4096
    → Yields
        (highest_end count map p.g_phys_ceiling)
        (λ g.
          if leb (kernel_start / 4096) g && ltb g ((kernel_end + 4095) / 4096)
          then 1
          else if ltb g capacity
          then expected count map g
          else used p g)
        (pmm_init kernel_start kernel_end map count p)
unfolding pmm_init
pmm_init-Yields kernel_start kernel_end map count p ok m order fits =
    Yields-bind _ (pmm_init_from_map-Yields map count p ok m) λ q q_ok q_top q_digits.
      rw (align_down_lem kernel_start (omega arith), align_up_lem kernel_end (omega arith))
        (Yields-ext q_top (λ g. rw (q_digits g) (ground arith))
          (set_loop-IsMarked
            ((kernel_end + 4095) / 4096 * 4096 / 4096 - kernel_start / 4096 * 4096 / 4096)
            (kernel_start / 4096 * 4096 / 4096) q q_ok (omega arith)))
