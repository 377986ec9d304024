-- ===== src/Vmm/Space.antt =====
-- kernel/vmm.c: the tables of the lower half of an address space as a tree. Every frame that holds a
-- table is the table of one level and of one part of the address space.
use bootloader_kernel_in_nas.Base.{
  ℕ, zero, suc, ◌+◌, ◌/◌, ◌%◌, ◌^◌, ◌<◌, List, [], ◌∷◌, ◌≡◌, refl, sym, ap, ◌∙◌, arith,
}
use bootloader_kernel_in_nas.Pmm.{Pmm}
use bootloader_kernel_in_nas.Pmm.Bitmap.{capacity, used, IsBitmap}
use bootloader_kernel_in_nas.Vmm.{Vmm, load64, levels_shift}
use bootloader_kernel_in_nas.Vmm.Entry.{address, slot}

-- The shift of the level that has `n` levels below it.
unfoldable pub shift_at : ℕ → ℕ
shift_at zero = 12
shift_at (suc n) = shift_at n + 9

-- The shifts of the levels from there on, without the last one.
unfoldable pub shifts_from : ℕ → List ℕ
shifts_from zero = []
shifts_from (suc n) = shift_at (suc n) ∷ shifts_from n

pub shifts_from-levels_shift : shifts_from 3 ≡ levels_shift
unfolding shift_at shifts_from
shifts_from-levels_shift = refl

-- One level up, the index is nine digits shorter.
pub shift_up : (n v : ℕ) → n < 3 → v / 2 ^ shift_at (suc n) ≡ v / 2 ^ shift_at n / 512
unfolding shift_at
shift_up zero v few = omega arith
shift_up (suc zero) v few = omega arith
shift_up (suc (suc zero)) v few = omega arith
shift_up (suc (suc (suc n))) v few = absurd (omega arith)

-- What each frame is the table of: the number of levels below it, and the leading digits of the
-- addresses whose walks lead to it.
pub record Owners : Type 0 where
  pub level : ℕ → ℕ
  pub prefix : ℕ → ℕ

-- The level of a frame that holds data.
abbrev pub data_level : ℕ
data_level = 5

-- The page at `table` is a used frame, and the table of `v` with `n` levels below it.
pub record IsNode (own : Owners) (n table v : ℕ) (p : Pmm) : Type 0 where
  pub aligned : table % 4096 ≡ 0
  pub inside : table / 4096 < capacity
  pub taken : used p (table / 4096) ≡ 1
  pub at_level : own.level (table / 4096) ≡ n
  pub at_prefix : own.prefix (table / 4096) ≡ v / 2 ^ shift_at n / 512

-- All the tables that the walk for `v` meets from `table` on are such.
unfoldable pub IsPath : Owners → (n table v : ℕ) → Pmm → (ℕ → ℕ) → Type 0
IsPath own zero table v p mem = IsNode own zero table v p
IsPath own (suc n) table v p mem =
    IsNode own (suc n) table v p
    × (load64 (slot table v (shift_at (suc n))) mem % 2 ≡ 1
        → IsPath own n (address (load64 (slot table v (shift_at (suc n))) mem)) v p mem)

-- Every walk of the lower half meets such tables only.
pub record IsSpace (own : Owners) (pml4 : ℕ) (s : Vmm) : Type 0 where
  pub valid : IsBitmap s.pmm
  pub paths : (v : ℕ) → v < 2 ^ 47 → IsPath own 3 pml4 v s.pmm s.mem

pub IsPath-IsNode :
    (own : Owners) (n table v : ℕ) (p : Pmm) (mem : ℕ → ℕ)
    → IsPath own n table v p mem
    → IsNode own n table v p
unfolding IsPath
IsPath-IsNode own zero table v p mem h = h
IsPath-IsNode own (suc n) table v p mem h = h.0

-- The slots of two tables meet only where level, table and index are the same.
pub record IsSameSlot (n n' v v' : ℕ) : Type 0 where
  pub level : n ≡ n'
  pub index : v / 2 ^ shift_at n ≡ v' / 2 ^ shift_at n

pub IsNode-IsSameSlot :
    (own : Owners) (n n' table table' v v' : ℕ) (p : Pmm)
    → IsNode own n table v p
    → IsNode own n' table' v' p
    → slot table v (shift_at n) ≡ slot table' v' (shift_at n')
    → IsSameSlot n n' v v'
IsNode-IsSameSlot own n n' table table' v v' p node node' meet =
    let page : table / 4096 ≡ table' / 4096 = omega (arith, node.aligned, node'.aligned, meet) in
    let level : n ≡ n' = sym node.at_level ∙ ap own.level page ∙ node'.at_level in
    let prefix =
      sym node.at_prefix
      ∙ ap own.prefix page
      ∙ node'.at_prefix
      ∙ ap (λ (k : ℕ). v' / 2 ^ shift_at k / 512) (sym level) in
    let digits : slot table v (shift_at n) ≡ slot table' v' (shift_at n) =
      meet ∙ ap (λ (k : ℕ). slot table' v' (shift_at k)) (sym level) in
    record {
      level = level;
      index = omega (arith, node.aligned, node'.aligned, digits, prefix, page);
    }
