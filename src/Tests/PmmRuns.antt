-- ===== src/Tests/PmmRuns.antt =====
-- The frame allocator at concrete states and memory maps.
use bootloader_kernel_in_nas.Base.{
  ◌+◌, ◌*◌, ◌/◌, ◌<◌, ◌≡◌, refl, arith, some, none, List, [], ◌∷◌, ltb, leb, ◌&&◌, ◌==◌,
  if◌then◌else◌,
}
use bootloader_kernel_in_nas.Bits.{bit, ctz}
use bootloader_kernel_in_nas.Page.{E820Entry}
use bootloader_kernel_in_nas.Pmm.{
  Pmm, pmm_reserved_frames, word_at, claim_block, alloc_loop, pmm_frame_alloc, pmm_frame_free,
  pmm_init_from_map, pmm_init, frame_bitmap_set,
}
use bootloader_kernel_in_nas.Pmm.Bitmap.{capacity, used, IsBitmap, Yields}
use bootloader_kernel_in_nas.Pmm.Init.{
  IsMap, expected, highest_end, pmm_init_from_map-Yields, pmm_init-Yields,
}
use bootloader_kernel_in_nas.Pmm.Alloc.{
  IsAllocation, pmm_frame_alloc-IsAllocation, pmm_frame_alloc_exhausted, pmm_frame_free-Yields,
}
use bootloader_kernel_in_nas.Pmm.Reuse.{alloc-alloc-lt, alloc-free-alloc}
use bootloader_kernel_in_nas.Pmm.Holes.{init-alloc_hole}

-- Every frame free.
abbrev clear : Pmm
clear = record { g_frame_bitmap = λ i. 0; g_phys_ceiling = 0 }

-- The reserved frames used, all others free.
abbrev low_used : Pmm
low_used = record {
  g_frame_bitmap = λ i. if ltb i 256 then 0xFFFF_FFFF_FFFF_FFFF else 0;
  g_phys_ceiling = 0;
}

-- Every frame used.
abbrev full : Pmm
full = record { g_frame_bitmap = λ i. 0xFFFF_FFFF_FFFF_FFFF; g_phys_ceiling = 0 }

-- Low memory, a reserved hole, and usable memory from 1 MiB to 128 MiB.
abbrev map : List E820Entry
map =
    record { base = 0; length = 0x9_FC00; type = 1; attr = 0 }
    ∷ record { base = 0x9_FC00; length = 0x400; type = 2; attr = 0 }
    ∷ record { base = 0x10_0000; length = 0x7F0_0000; type = 1; attr = 0 }
    ∷ []

-- No usable memory at all.
abbrev bare : List E820Entry
bare = record { base = 0; length = 0x1_0000_0000; type = 2; attr = 0 } ∷ []

clear-IsBitmap : IsBitmap clear
clear-IsBitmap = record { word-lt = λ i. omega arith }

low_used-IsBitmap : IsBitmap low_used
low_used-IsBitmap = record { word-lt = λ i. ground arith }

map-IsMap : IsMap 3 map
map-IsMap = omega arith

bare-IsMap : IsMap 1 bare
bare-IsMap = omega arith

frame_zero_free : used clear 0 ≡ 0
unfolding used bit
frame_zero_free = refl

frame_one_free : used clear 1 ≡ 0
unfolding used bit
frame_one_free = refl

first_free : used low_used 16384 ≡ 0
unfolding used bit
first_free = refl

pmm_init_from_map-Yields_example :
    Yields
      (highest_end 3 map 0)
      (λ g. if ltb g capacity then expected 3 map g else used clear g)
      (pmm_init_from_map map 3 clear)
pmm_init_from_map-Yields_example = pmm_init_from_map-Yields map 3 clear clear-IsBitmap map-IsMap

map_digits :
    (expected 3 map 5 ≡ 1)
    × (expected 3 map 20000 ≡ 0)
    × (expected 3 map 40000 ≡ 1)
    × (expected 3 map 40010 ≡ 0)
map_digits = (refl, refl, refl, refl)

pmm_init-Yields_example :
    Yields
      (highest_end 3 map 0)
      (λ g.
        if leb (0x40_0000 / 4096) g && ltb g ((0x41_0000 + 4095) / 4096)
        then 1
        else if ltb g capacity
        then expected 3 map g
        else used clear g)
      (pmm_init 0x40_0000 0x41_0000 map 3 clear)
pmm_init-Yields_example =
    pmm_init-Yields 0x40_0000 0x41_0000 map 3 clear clear-IsBitmap map-IsMap (omega arith)
      (omega arith)

pmm_frame_alloc-IsAllocation_example : IsAllocation clear (pmm_frame_alloc clear)
pmm_frame_alloc-IsAllocation_example =
    pmm_frame_alloc-IsAllocation clear clear-IsBitmap 0 (omega arith) frame_zero_free

pmm_frame_alloc_exhausted_example : pmm_frame_alloc full ≡ none
pmm_frame_alloc_exhausted_example = pmm_frame_alloc_exhausted full (λ k l. refl)

pmm_frame_free-Yields_example :
    Yields 0
      (λ g. if leb pmm_reserved_frames 20000 && (g == 20000) then 0 else used clear g)
      (pmm_frame_free 20000 clear)
pmm_frame_free-Yields_example = pmm_frame_free-Yields 20000 clear clear-IsBitmap (omega arith)

-- `low_used` after its first frame is taken.
abbrev one_taken : Pmm
one_taken = record {
  g_frame_bitmap = λ i. if i == 256 then 1 else if ltb i 256 then 0xFFFF_FFFF_FFFF_FFFF else 0;
  g_phys_ceiling = 0;
}

abbrev two_taken : Pmm
two_taken = record {
  g_frame_bitmap = λ i.
      if i == 256
      then 3
      else if i == 256
      then 1
      else if ltb i 256
      then 0xFFFF_FFFF_FFFF_FFFF
      else 0;
  g_phys_ceiling = 0;
}

first_alloc : pmm_frame_alloc low_used ≡ some (16384 * 4096, one_taken)
unfolding pmm_frame_alloc alloc_loop claim_block word_at frame_bitmap_set ctz
first_alloc = refl

second_alloc : pmm_frame_alloc one_taken ≡ some (16385 * 4096, two_taken)
unfolding pmm_frame_alloc alloc_loop claim_block word_at frame_bitmap_set ctz
second_alloc = refl

second_free : used one_taken 16385 ≡ 0
unfolding used bit
second_free = refl

alloc-alloc-lt_example : 16384 * 4096 < 16385 * 4096
alloc-alloc-lt_example =
    alloc-alloc-lt low_used {q = one_taken} {r = two_taken} low_used-IsBitmap 16384 (omega arith)
      first_free 16385 (omega arith) second_free first_alloc second_alloc

alloc-free-alloc_example :
    (r : Pmm) × (s : Pmm) × (pmm_frame_free (16384 * 4096 / 4096) one_taken ≡ some r)
    × (pmm_frame_alloc r ≡ some (16384 * 4096, s))
alloc-free-alloc_example =
    alloc-free-alloc low_used {q = one_taken} low_used-IsBitmap 16384 (omega arith) first_free
      first_alloc (omega arith)

init-alloc_hole_example :
    (q : Pmm) × (r : Pmm) × (pmm_init_from_map bare 1 clear ≡ some q)
    × (pmm_frame_alloc q ≡ some ((pmm_reserved_frames + 8) * 4096, r))
init-alloc_hole_example = init-alloc_hole bare 1 clear clear-IsBitmap bare-IsMap (λ g p q. refl)
