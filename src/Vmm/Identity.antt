-- ===== src/Vmm/Identity.antt =====
-- kernel/vmm.c, `vmm_kernel_map`: pages mapped one to one, loop by loop.
use bootloader_kernel_in_nas.Base.{
  ℕ, ◌+◌, ◌/◌, ◌%◌, ◌^◌, ◌≤◌, ◌<◌, Option, some, ◌==◌, Bool-cases, ==→eq, ==_false→ne, ltb, ◌>>=◌,
  ◌≡◌, refl, sym, ap, ◌∙◌, ◌⊎◌, inl, inr, arith,
}
use bootloader_kernel_in_nas.Pmm.Bitmap.{used}
use bootloader_kernel_in_nas.Pmm.Supply.{HasFree}
use bootloader_kernel_in_nas.Vmm.{Vmm, page_writable}
use bootloader_kernel_in_nas.Vmm.Boot.{vmm_page_map_internal}
use bootloader_kernel_in_nas.Vmm.Entry.{address}
use bootloader_kernel_in_nas.Vmm.MapPage.{vmm_page_map_internal-IsExtended}
use bootloader_kernel_in_nas.Vmm.Mapping.{translate}
use bootloader_kernel_in_nas.Vmm.Space.{Owners, IsSpace}
use bootloader_kernel_in_nas.Vmm.Stored.{AgreeAbove}

-- `result` is a normal return: the addresses in `In`, and those that were before, are mapped one to
-- one, and the tables of other parts stay as they are.
pub record IsIdentity (own : Owners) (pml4 : ℕ) (In : ℕ → Type 0) (count : ℕ) (s : Vmm)
    (result : Option Vmm) : Type 0 where
  pub out : Vmm
  pub own' : Owners
  pub returns : result ≡ some out
  pub space : IsSpace own' pml4 out
  pub taken : (g : ℕ) → used s.pmm g ≡ 1 → used out.pmm g ≡ 1
  pub level : (g : ℕ) → used s.pmm g ≡ 1 → own'.level g ≡ own.level g
  pub words : AgreeAbove own s.pmm s.mem out.mem
  pub there : (v : ℕ) → v < 2 ^ 47 → In v → translate pml4 v out.mem ≡ some v
  pub still :
      (v : ℕ) → v < 2 ^ 47 → translate pml4 v s.mem ≡ some v → translate pml4 v out.mem ≡ some v
  pub supply : ℕ → ℕ
  pub free : HasFree count supply out.pmm

-- The addresses from `low` up to `high`.
abbrev pub Between : (low high : ℕ) → ℕ → Type 0
Between low high v = (low ≤ v) × (v < high)

pub nothing-IsIdentity :
    (own : Owners) (pml4 : ℕ) (In : ℕ → Type 0) (count : ℕ) (at : ℕ → ℕ) (s : Vmm)
    → IsSpace own pml4 s
    → HasFree count at s.pmm
    → ((v : ℕ) → In v → ⊥)
    → IsIdentity own pml4 In count s (some s)
nothing-IsIdentity own pml4 In count at s space free empty = record {
  out = s;
  own' = own;
  returns = refl;
  space = space;
  taken = λ g h. h;
  level = λ g h. refl;
  words = λ a m h above odd. refl;
  there = λ v l h. absurd (empty v h);
  still = λ v l h. h;
  supply = at;
  free = free;
}

-- One part after the other.
pub IsIdentity-bind :
    (own : Owners) (pml4 : ℕ) (In In' In'' : ℕ → Type 0) (count count' : ℕ) (s : Vmm)
    (result : Option Vmm) (k : Vmm → Option Vmm)
    → (i : IsIdentity own pml4 In count s result)
    → IsIdentity i.own' pml4 In' count' i.out (k i.out)
    → ((v : ℕ) → In'' v → In v ⊎ In' v)
    → IsIdentity own pml4 In'' count' s (result >>= k)
IsIdentity-bind own pml4 In In' In'' count count' s result k i j split = record {
  out = j.out;
  own' = j.own';
  returns = rw i.returns j.returns;
  space = j.space;
  taken = λ g h. j.taken g (i.taken g h);
  level = λ g h. j.level g (i.taken g h) ∙ i.level g h;
  words = λ a m h above odd.
      let same = i.words a m h above odd in
      j.words a m (i.taken (a / 4096) h) (λ e. above (sym (i.level (a / 4096) h) ∙ e))
        (ap (λ (w : ℕ). w % 2) same ∙ odd)
      ∙ same;
  there = λ v l h. elim (split v h) [
    | inl first ↦ j.still v l (i.there v l first)
    | inr second ↦ j.there v l second
  ];
  still = λ v l h. j.still v l (i.still v l h);
  supply = j.supply;
  free = j.free;
}

-- A page mapped to itself.
pub page-IsIdentity :
    (own : Owners) (pml4 v count : ℕ) (at : ℕ → ℕ) (s : Vmm)
    → v % 4096 ≡ 0
    → v < 2 ^ 47
    → IsSpace own pml4 s
    → HasFree (3 + count) at s.pmm
    → IsIdentity own pml4
        (Between v (v + 4096))
        count
        s
        (vmm_page_map_internal pml4 v v page_writable s)
page-IsIdentity own pml4 v count at s aligned low space free =
    let (out, returns, x) =
      vmm_page_map_internal-IsExtended own pml4 v v page_writable count at s (omega arith) refl low
        space free in
    let whole : (v' : ℕ) → v' / 4096 ≡ v / 4096 → address v + v' % 4096 ≡ v' =
      λ v' e. omega arith in
    record {
      out = out;
      own' = x.own';
      returns = returns;
      space = x.space;
      taken = x.taken;
      level = x.level;
      words = x.words;
      there = λ v' l h.
          x.there v' (omega (arith, h.0, h.1)) ∙ ap some (whole v' (omega (arith, h.0, h.1)));
      still = λ v' l h. elim (Bool-cases (v' / 4096 == v / 4096)) [
        | inl e ↦
            let page = ==→eq (v' / 4096) (v / 4096) e in x.there v' page ∙ ap some (whole v' page)
        | inr e ↦ x.others v' v' l (==_false→ne (v' / 4096) (v / 4096) e) h
      ];
      supply = x.supply;
      free = x.free;
    }

-- A page mapped to itself, and the rounds after it up to `high`.
pub round-IsIdentity :
    (own : Owners) (pml4 v high count count' : ℕ) (s : Vmm) (k : Vmm → Option Vmm)
    → (first : IsIdentity own pml4
        (Between v (v + 4096))
        count
        s
        (vmm_page_map_internal pml4 v v page_writable s))
    → IsIdentity first.own' pml4 (Between (v + 4096) high) count' first.out (k first.out)
    → IsIdentity own pml4
        (Between v high)
        count'
        s
        (vmm_page_map_internal pml4 v v page_writable s >>= k)
round-IsIdentity own pml4 v high count count' s k first later =
    IsIdentity-bind own pml4 (Between v (v + 4096)) (Between (v + 4096) high) (Between v high) count
      count' s (vmm_page_map_internal pml4 v v page_writable s) k first later
      (λ v' h. split v' h.0 h.1)
  where
    split : (v' : ℕ) → v ≤ v' → v' < high → Between v (v + 4096) v' ⊎ Between (v + 4096) high v'
    split v' l u = elim (Bool-cases (ltb v' (v + 4096))) [
      | inl e ↦ inl (l, ground arith)
      | inr e ↦ inr (ground arith, u)
    ]
