-- ===== src/Pmm/Supply.antt =====
-- kernel/pmm.c: free frames that are there to be taken one after the other.
use bootloader_kernel_in_nas.Base.{ℕ, suc, ◌+◌, ◌*◌, ◌<◌, ◌≤◌, ◌≡◌, ◌≢◌, ◌∙◌, arith, some}
use bootloader_kernel_in_nas.Pmm.{Pmm, pmm_frame_alloc}
use bootloader_kernel_in_nas.Pmm.Bitmap.{capacity, used, IsBitmap}
use bootloader_kernel_in_nas.Pmm.Alloc.{pmm_frame_alloc-IsAllocation}
use bootloader_kernel_in_nas.Pmm.Reuse.{IsTaken, IsAllocation-IsTaken}

-- The frames `place 0`, `place 1`, ... up to `count` of them are free, in rising order.
pub record HasFree (count : ℕ) (place : ℕ → ℕ) (p : Pmm) : Type 0 where
  pub rising : (i j : ℕ) → i < j → j < count → place i < place j
  pub inside : (i : ℕ) → i < count → place i < capacity
  pub free : (i : ℕ) → i < count → used p (place i) ≡ 0

-- Without the first `n` of them.
abbrev pub after : (n : ℕ) → (ℕ → ℕ) → ℕ → ℕ
after n place i = place (n + i)

pub HasFree-after :
    (n count total : ℕ) (place : ℕ → ℕ) (p : Pmm)
    → n + count ≤ total
    → HasFree total place p
    → HasFree count (after n place) p
HasFree-after n count total place p room h = record {
  rising = λ i j l u. h.rising (n + i) (n + j) (omega arith) (omega arith);
  inside = λ i u. h.inside (n + i) (omega arith);
  free = λ i u. h.free (n + i) (omega arith);
}

-- One frame taken: the lowest free one, so that the others stay.
pub record IsSupplied (count : ℕ) (place : ℕ → ℕ) (p : Pmm) : Type 0 where
  pub frame : ℕ
  pub out : Pmm
  pub returns : pmm_frame_alloc p ≡ some (frame * 4096, out)
  pub frame-lt : frame < capacity
  pub free_before : used p frame ≡ 0
  pub taken : IsTaken p frame out
  pub rest : HasFree count (after 1 place) out

pub HasFree-IsSupplied :
    (count : ℕ) (place : ℕ → ℕ) (p : Pmm)
    → IsBitmap p
    → HasFree (suc count) place p
    → IsSupplied count place p
HasFree-IsSupplied count place p valid h =
    let al =
      pmm_frame_alloc-IsAllocation p valid (place 0) (h.inside 0 (omega arith))
        (h.free 0 (omega arith)) in
    let taken = IsAllocation-IsTaken p (pmm_frame_alloc p) al in
    let later : (i : ℕ) → i < count → al.frame ≢ place (1 + i) = λ i u e. absurd (
      omega (
        arith,
        al.lowest (place 0),
        h.free 0 (omega arith),
        h.rising 0 (1 + i) (omega arith) (omega arith),
      )) in
    record {
      frame = al.frame;
      out = al.out;
      returns = al.returns;
      frame-lt = al.inside;
      free_before = al.free_before;
      taken = taken;
      rest = record {
        rising = λ i j l u. h.rising (1 + i) (1 + j) (omega arith) (omega arith);
        inside = λ i u. h.inside (1 + i) (omega arith);
        free = λ i u.
            taken.digits (place (1 + i)) ∙ ground (arith, later i u, h.free (1 + i) (omega arith));
      };
    }
