-- ===== src/Pmm/Holes.antt =====
-- Frames that no usable region of the memory map covers, after `pmm_init_from_map`.
use bootloader_kernel_in_nas.Base.{ℕ, ◌+◌, ◌*◌, ◌≤◌, ◌≡◌, ◌∙◌, arith, false, some, List}
use bootloader_kernel_in_nas.Page.{E820Entry}
use bootloader_kernel_in_nas.Pmm.{Pmm, pmm_reserved_frames, pmm_init_from_map, pmm_frame_alloc}
use bootloader_kernel_in_nas.Pmm.Bitmap.{used, IsBitmap}
use bootloader_kernel_in_nas.Pmm.Init.{IsMap, covered, pmm_init_from_map-Yields}
use bootloader_kernel_in_nas.Pmm.Alloc.{pmm_frame_alloc-IsAllocation}

-- If no usable region of the map covers the first nine frames above the reserved ones, then the
-- first allocation after initialisation succeeds and returns the ninth, which is no usable memory.
pub init-alloc_hole :
    (map : List E820Entry) (count : ℕ) (p : Pmm)
    → IsBitmap p
    → IsMap count map
    → ((g : ℕ)
        → pmm_reserved_frames ≤ g
        → g ≤ pmm_reserved_frames + 8
        → covered count map g ≡ false)
    → (q : Pmm) × (r : Pmm) × (pmm_init_from_map map count p ≡ some q)
      × (pmm_frame_alloc q ≡ some ((pmm_reserved_frames + 8) * 4096, r))
init-alloc_hole map count p ok m bare =
    let y = pmm_init_from_map-Yields map count p ok m in
    let ninth : ℕ = pmm_reserved_frames + 8 in
    let free : used y.out ninth ≡ 0 = y.digits ninth ∙ ground (arith, bare ninth) in
    let al = pmm_frame_alloc-IsAllocation y.out y.valid ninth (omega arith) free in
    let there : al.frame ≡ ninth =
      ground (arith, al.free_before, al.lowest ninth, y.digits al.frame, bare al.frame) in
    (y.out, al.out, y.returns, rw there at al.returns)
