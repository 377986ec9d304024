-- ===== src/Pmm.antt =====
-- kernel/pmm.c and kernel/pmm.h: the physical frame allocator over a static bitmap.
-- An access outside `g_frame_bitmap` or outside the memory map is `none`.
pub mod Alloc
pub mod Bitmap
pub mod Holes
pub mod Init
pub mod Ranges
pub mod Reuse
pub mod Supply
use bootloader_kernel_in_nas.Base.{
  ℕ, zero, suc, ◌+◌, ◌-◌, ◌*◌, ◌/◌, ◌^◌, bit_and, bit_or, Bool, not, Option, none, some, List, [],
  ◌∷◌, ltb, leb, ◌==◌, if◌then◌else◌, ◌>>=◌, update,
}
use bootloader_kernel_in_nas.Bits.{not64, ctz}
use bootloader_kernel_in_nas.Page.{u64, page_shift, page_size, align_down, align_up, E820Entry}

abbrev pub max_ram_bytes : ℕ
max_ram_bytes = 64 * 1024 * 1024 * 1024

abbrev pub max_frames : ℕ
max_frames = max_ram_bytes / page_size

-- The array has this many uint64_t words.
abbrev pub bitmap_bytes : ℕ
bitmap_bytes = (max_frames + 7) / 8

abbrev pub pmm_invalid_frame : ℕ
pmm_invalid_frame = 2 ^ 64 - 1

abbrev pub pmm_reserved_frames : ℕ
pmm_reserved_frames = 64 * 1024 * 1024 / 2 ^ page_shift

-- The static variables of pmm.c.
pub record Pmm : Type 0 where
  pub g_frame_bitmap : ℕ → ℕ
  pub g_phys_ceiling : ℕ

unfoldable pub word_at : ℕ → Pmm → Option ℕ
word_at i p = if ltb i bitmap_bytes then some (p.g_frame_bitmap i) else none

unfoldable pub put_word : ℕ → ℕ → Pmm → Option Pmm
put_word i w p =
    if ltb i bitmap_bytes
    then some (record p { g_frame_bitmap = update p.g_frame_bitmap i w })
    else none

unfoldable pub frame_bitmap_set : ℕ → Pmm → Option Pmm
unfolding word_at put_word
frame_bitmap_set frame_idx p = do
  w ← word_at (frame_idx / 2 ^ 6) p
  put_word (frame_idx / 2 ^ 6) (bit_or w (2 ^ bit_and frame_idx 63)) p

unfoldable pub frame_bitmap_clear : ℕ → Pmm → Option Pmm
unfolding word_at put_word
frame_bitmap_clear frame_idx p = do
  w ← word_at (frame_idx / 2 ^ 6) p
  put_word (frame_idx / 2 ^ 6) (bit_and w (not64 (2 ^ bit_and frame_idx 63))) p

unfoldable pub frame_bitmap_test : ℕ → Pmm → Option ℕ
unfolding word_at
frame_bitmap_test frame_idx p = do
  w ← word_at (frame_idx / 2 ^ 6) p
  some (bit_and (w / 2 ^ bit_and frame_idx 63) 1)

-- `for (i = ...) g_frame_bitmap[i] = 0xFF`, with `left` rounds to go
unfoldable pub fill_loop : (left i : ℕ) → Pmm → Option Pmm
fill_loop zero i p = some p
fill_loop (suc left) i p = do p' ← put_word i 0xFF p; fill_loop left (i + 1) p'

-- `for (j = ...) frame_bitmap_clear(j)`
unfoldable pub clear_loop : (left j : ℕ) → Pmm → Option Pmm
clear_loop zero j p = some p
clear_loop (suc left) j p = do p' ← frame_bitmap_clear j p; clear_loop left (j + 1) p'

-- `for (i = ...) frame_bitmap_set(i)`
unfoldable pub set_loop : (left i : ℕ) → Pmm → Option Pmm
set_loop zero i p = some p
set_loop (suc left) i p = do p' ← frame_bitmap_set i p; set_loop left (i + 1) p'

unfoldable pub raise_ceiling : ℕ → Pmm → Pmm
raise_ceiling end p = if ltb p.g_phys_ceiling end then record p { g_phys_ceiling = end } else p

-- The bounds checks against `max_frames`, each a `continue`, and the loop that frees a region.
unfoldable pub free_region : (start_idx end_idx : ℕ) → Pmm → Option Pmm
free_region start_idx end_idx p =
    let capped = if ltb max_frames end_idx then max_frames else end_idx in
    if leb max_frames start_idx
    then some p
    else if leb capped start_idx
    then some p
    else clear_loop (capped - start_idx) start_idx p

-- The body of the loop over the map; an entry that is not usable RAM is a `continue`.
unfoldable pub init_entry : E820Entry → Pmm → Option Pmm
init_entry entry p =
    let end = u64 (entry.base + entry.length) in
    let p' = raise_ceiling end p in
    let start_idx = align_up entry.base / 2 ^ page_shift in
    let end_idx = align_down end / 2 ^ page_shift in
    if not (entry.type == 1) then some p' else free_region start_idx end_idx p'

-- `for (i = 0; i < count; i++)` over the rest of the map
unfoldable pub init_entries : ℕ → List E820Entry → Pmm → Option Pmm
init_entries zero map p = some p
init_entries (suc count) [] p = none
init_entries (suc count) (entry ∷ map) p = do p' ← init_entry entry p; init_entries count map p'

unfoldable pub pmm_init_from_map : List E820Entry → ℕ → Pmm → Option Pmm
pmm_init_from_map map count p = do
  p ← fill_loop bitmap_bytes 0 p
  p ← init_entries count map p
  set_loop pmm_reserved_frames 0 p

unfoldable pub pmm_highest_address_get : Pmm → ℕ
pmm_highest_address_get p = p.g_phys_ceiling

-- The end of a round at a block that is not full.
unfoldable pub claim_block : (i frame_block : ℕ) → Pmm → Option (ℕ × Pmm)
claim_block i frame_block p =
    let frame_idx = bit_or (u64 (i * 2 ^ 6)) (ctz 64 (not64 frame_block)) in
    do p' ← frame_bitmap_set frame_idx p; some (u64 (frame_idx * 2 ^ page_shift), p')

-- The search from block `i` on, with `left` rounds to go.
unfoldable pub alloc_loop : (left i : ℕ) → Pmm → Option (ℕ × Pmm)
alloc_loop zero i p = some (pmm_invalid_frame, p)
alloc_loop (suc left) i p =
    let rest = alloc_loop left (i + 1) p in
    word_at i p >>= λ frame_block.
    if frame_block == 2 ^ 64 - 1 then rest else claim_block i frame_block p

unfoldable pub pmm_frame_alloc : Pmm → Option (ℕ × Pmm)
pmm_frame_alloc p = alloc_loop max_frames 0 p

unfoldable pub pmm_frame_free : ℕ → Pmm → Option Pmm
pmm_frame_free frame_idx p =
    if ltb frame_idx pmm_reserved_frames then some p else frame_bitmap_clear frame_idx p

-- The linker's `__kernel_start` and `__kernel_end` are arguments.
unfoldable pub pmm_init : (kernel_start kernel_end : ℕ) → List E820Entry → ℕ → Pmm → Option Pmm
pmm_init kernel_start kernel_end map count p = do
  p ← pmm_init_from_map map count p
  let frame_start_idx = align_down kernel_start / 2 ^ page_shift
  let frame_end_idx = align_up kernel_end / 2 ^ page_shift
  set_loop (frame_end_idx - frame_start_idx) frame_start_idx p
