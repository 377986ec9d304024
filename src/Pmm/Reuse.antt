-- ===== src/Pmm/Reuse.antt =====
-- Sequences of allocations and frees.
use bootloader_kernel_in_nas.Base.{
  ℕ, ◌*◌, ◌/◌, ◌≤◌, ◌<◌, ◌≡◌, sym, ◌∙◌, arith, Option, some, ◌==◌, if◌then◌else◌,
}
use bootloader_kernel_in_nas.Pmm.{Pmm, pmm_reserved_frames, pmm_frame_alloc, pmm_frame_free}
use bootloader_kernel_in_nas.Pmm.Bitmap.{capacity, used, IsBitmap}
use bootloader_kernel_in_nas.Pmm.Alloc.{
  IsAllocation, pmm_frame_alloc-IsAllocation, pmm_frame_free-Yields,
}

-- An allocation with its result split: the address and the state after it.
record Allocated (p : Pmm) (a : ℕ) (q : Pmm) : Type 0 where
  frame : ℕ
  address : a ≡ frame * 4096
  inside : frame < capacity
  free_before : used p frame ≡ 0
  lowest : (g : ℕ) → g < frame → used p g ≡ 1
  valid : IsBitmap q
  digits : (g : ℕ) → used q g ≡ (if g == frame then 1 else used p g)

first_of_pair :
    {a b : ℕ} {q r : Pmm} → ◌≡◌ {A = Option (ℕ × Pmm)} (some (a, q)) (some (b, r)) → a ≡ b
first_of_pair e = cc

second_of_pair :
    {a b : ℕ} {q r : Pmm} → ◌≡◌ {A = Option (ℕ × Pmm)} (some (a, q)) (some (b, r)) → q ≡ r
second_of_pair e = cc

some_same : {q r : Pmm} → ◌≡◌ {A = Option Pmm} (some q) (some r) → q ≡ r
some_same e = cc

-- The state after an allocation.
pub record IsTaken (p : Pmm) (frame : ℕ) (q : Pmm) : Type 0 where
  pub valid : IsBitmap q
  pub top : q.g_phys_ceiling ≡ p.g_phys_ceiling
  pub digits : (g : ℕ) → used q g ≡ (if g == frame then 1 else used p g)

pub IsAllocation-IsTaken :
    (p : Pmm) (r : Option (ℕ × Pmm)) (al : IsAllocation p r) → IsTaken p al.frame al.out
IsAllocation-IsTaken p r al =
    let same : al.marked.out ≡ al.out = some_same (sym al.marked.returns) in
    record {
      valid = rw same at al.marked.valid;
      top = rw same at al.marked.top;
      digits = λ g. rw same at (al.marked.digits g);
    }

alloc-Allocated :
    (p : Pmm) {a : ℕ} {q : Pmm}
    → IsBitmap p
    → (f : ℕ) → f < capacity
    → used p f ≡ 0
    → pmm_frame_alloc p ≡ some (a, q)
    → Allocated p a q
alloc-Allocated p {a} {q} valid f inside free h =
    let al = pmm_frame_alloc-IsAllocation p valid f inside free in
    let e = sym al.returns ∙ h in
    let same : al.marked.out ≡ q = some_same (sym al.marked.returns) ∙ second_of_pair e in
    record {
      frame = al.frame;
      address = sym (first_of_pair e);
      inside = al.inside;
      free_before = al.free_before;
      lowest = al.lowest;
      valid = rw same at al.marked.valid;
      digits = λ g. rw same at (al.marked.digits g);
    }

-- While a frame is free before each of two allocations in a row, the second returns a higher
-- address than the first.
pub alloc-alloc-lt :
    (p : Pmm) {a b : ℕ} {q r : Pmm}
    → IsBitmap p
    → (f : ℕ) → f < capacity
    → used p f ≡ 0
    → (f' : ℕ) → f' < capacity
    → used q f' ≡ 0
    → pmm_frame_alloc p ≡ some (a, q)
    → pmm_frame_alloc q ≡ some (b, r)
    → a < b
alloc-alloc-lt p {a} {b} {q} {r} valid f inside free f' inside' free' h h' =
    let one = alloc-Allocated p valid f inside free h in
    let two = alloc-Allocated q one.valid f' inside' free' h' in
    ground
      (arith, one.address, two.address, two.free_before, one.digits two.frame, one.lowest two.frame)

-- Freeing the frame that an allocation returned, unless it is a reserved one, and allocating
-- again returns the same address.
pub alloc-free-alloc :
    (p : Pmm) {a : ℕ} {q : Pmm}
    → IsBitmap p
    → (f : ℕ) → f < capacity
    → used p f ≡ 0
    → pmm_frame_alloc p ≡ some (a, q)
    → pmm_reserved_frames * 4096 ≤ a
    → (r : Pmm) × (s : Pmm) × (pmm_frame_free (a / 4096) q ≡ some r)
      × (pmm_frame_alloc r ≡ some (a, s))
alloc-free-alloc p {a} {q} valid f inside free h above =
    let one = alloc-Allocated p valid f inside free h in
    let at : a / 4096 ≡ one.frame = omega (arith, one.address) in
    let freed = pmm_frame_free-Yields one.frame q one.valid one.inside in
    let hole : used freed.out one.frame ≡ 0 = ground (arith, freed.digits one.frame, one.address) in
    let two = pmm_frame_alloc-IsAllocation freed.out freed.valid one.frame one.inside hole in
    let again : two.frame * 4096 ≡ a = ground (
      arith,
      one.address,
      two.free_before,
      two.lowest one.frame,
      freed.digits two.frame,
      one.digits two.frame,
      one.lowest two.frame,
    ) in
    (freed.out, two.out, rw at freed.returns, rw again at two.returns)
