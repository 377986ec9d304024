-- ===== src/Vmm/Serve.antt =====
-- kernel/vmm.c: pages handed out, against a map from pages to frames.
use bootloader_kernel_in_nas.Base.{
  ℕ, ◌+◌, ◌*◌, ◌/◌, ◌%◌, ◌^◌, ◌≤◌, ◌<◌, Option, none, some, update, ◌==◌, Bool-cases, ==→eq,
  ==_false→ne, ◌≡◌, ◌≢◌, sym, ap, ◌∙◌, ◌⊎◌, inl, inr, arith,
}
use mathlib.Core.Path.{subst}
use bootloader_kernel_in_nas.Pmm.{pmm_reserved_frames}
use bootloader_kernel_in_nas.Pmm.Bitmap.{capacity, used}
use bootloader_kernel_in_nas.Pmm.Supply.{HasFree}
use bootloader_kernel_in_nas.Vmm.{Vmm, vmm_page_alloc}
use bootloader_kernel_in_nas.Vmm.Entry.{address}
use bootloader_kernel_in_nas.Vmm.Give.{IsGiven, vmm_page_alloc-IsGiven}
use bootloader_kernel_in_nas.Vmm.Linked.{HasDirect, HasDirect-AgreeAbove}
use bootloader_kernel_in_nas.Vmm.Mapping.{translate}
use bootloader_kernel_in_nas.Vmm.Space.{Owners, IsSpace, data_level}

-- A page that holds the frame `f`.
pub record IsHeld (own : Owners) (s : Vmm) (page f : ℕ) : Type 0 where
  pub low : page < 2 ^ 35
  pub inside : f < capacity
  pub usable : pmm_reserved_frames ≤ f
  pub taken : used s.pmm f ≡ 1
  pub level : own.level f ≡ data_level
  pub there :
      (v : ℕ) → v / 4096 ≡ page → translate (address s.cr3) v s.mem ≡ some (f * 4096 + v % 4096)

-- The pages in `given` hold their frames, each its own; the addresses in `Fixed` are mapped one to one,
-- all memory below `max_pa` is mapped directly, and `count` frames are free.
pub record IsServing (own : Owners) (Fixed : ℕ → Type 0) (max_pa count : ℕ) (given : ℕ → Option ℕ)
    (s : Vmm) : Type 0 where
  pub space : IsSpace own (address s.cr3) s
  pub linked : HasDirect own (address s.cr3) max_pa s.pmm s.mem
  pub reserved : (g : ℕ) → g < pmm_reserved_frames → used s.pmm g ≡ 1
  pub fixed : (v : ℕ) → v < 2 ^ 47 → Fixed v → translate (address s.cr3) v s.mem ≡ some v
  pub held : (page f : ℕ) → given page ≡ some f → IsHeld own s page f
  pub apart : (page page' f : ℕ) → given page ≡ some f → given page' ≡ some f → page ≡ page'
  pub supply : ℕ → ℕ
  pub free : HasFree count supply s.pmm

-- No fixed address lies on the page of `v`.
abbrev pub IsLoose : (ℕ → Type 0) → ℕ → Type 0
IsLoose Fixed v = (w : ℕ) → w / 4096 ≡ v / 4096 → Fixed w → ⊥

some_same : {x y : ℕ} → ◌≡◌ {A = Option ℕ} (some x) (some y) → x ≡ y
some_same h = cc

pub none_ne_some : {x : ℕ} → ◌≡◌ {A = Option ℕ} none (some x) → ⊥
none_ne_some h = cc

-- What `vmm_page_alloc` makes of such a state.
pub record IsServed (own : Owners) (Fixed : ℕ → Type 0) (max_pa count : ℕ) (given : ℕ → Option ℕ)
    (v : ℕ) (s : Vmm) (result : Option (Option ℕ × Vmm)) : Type 0 where
  pub out : Vmm
  pub own' : Owners
  pub frame : ℕ
  pub returns : result ≡ some (some v, out)
  pub serving : IsServing own' Fixed max_pa count (update given (v / 4096) (some frame)) out

-- A page that was held before still is.
still-IsHeld :
    (own : Owners) (v count page f : ℕ) (s : Vmm) (result : Option (Option ℕ × Vmm))
    (g : IsGiven own v count s result)
    → page ≢ v / 4096
    → IsHeld own s page f
    → IsHeld g.own' g.out page f
still-IsHeld own v count page f s result g other h = record {
  low = h.low;
  inside = h.inside;
  usable = h.usable;
  taken = g.grown f h.taken;
  level = g.level f h.taken ∙ h.level;
  there = λ w e.
      ap (λ (r : ℕ). translate (address r) w g.out.mem) g.root
      ∙ g.others w (f * 4096 + w % 4096) (omega (arith, h.low)) (λ e'. other (sym e ∙ e'))
          (h.there w e);
}

-- An entry of a map with one place changed: the new one, or an old one elsewhere.
pub update-some :
    (given : ℕ → Option ℕ) (p : ℕ) (o : Option ℕ) (page f : ℕ)
    → update given p o page ≡ some f
    → ((page ≡ p) × (o ≡ some f)) ⊎ ((page ≢ p) × (given page ≡ some f))
update-some given p o page f h = elim (Bool-cases (page == p)) [
  | inl e ↦ inl (==→eq page p e, rw e at h)
  | inr e ↦ inr (==_false→ne page p e, rw e at h)
]

-- The page that was given now.
given-IsHeld :
    (own : Owners) (v count : ℕ) (s : Vmm) (result : Option (Option ℕ × Vmm))
    (g : IsGiven own v count s result)
    → v < 2 ^ 47
    → ((f : ℕ) → f < pmm_reserved_frames → used s.pmm f ≡ 1)
    → IsHeld g.own' g.out (v / 4096) g.frame
given-IsHeld own v count s result g low reserved = record {
  low = omega arith;
  inside = g.inside;
  usable = ground (arith, reserved g.frame, g.free_before);
  taken = g.taken;
  level = g.no_table;
  there = λ w e. ap (λ (r : ℕ). translate (address r) w g.out.mem) g.root ∙ g.there w e;
}

-- All pages that are held after a page was given, and that their frames differ.
module _ (own : Owners) (v count : ℕ) (given : ℕ → Option ℕ) (s : Vmm)
    (result : Option (Option ℕ × Vmm)) (g : IsGiven own v count s result)
    (held : (page f : ℕ) → given page ≡ some f → IsHeld own s page f) where
  after-IsHeld :
      v < 2 ^ 47
      → ((f : ℕ) → f < pmm_reserved_frames → used s.pmm f ≡ 1)
      → (page f : ℕ) → update given (v / 4096) (some g.frame) page ≡ some f
      → IsHeld g.own' g.out page f
  after-IsHeld low reserved page f h = elim (update-some given (v / 4096) (some g.frame) page f h) [
    | inl new ↦
        subst (λ (p : ℕ). IsHeld g.own' g.out p f) (sym new.0)
          (subst (IsHeld g.own' g.out (v / 4096)) (some_same new.1)
            (given-IsHeld own v count s result g low reserved))
    | inr old ↦ still-IsHeld own v count page f s result g old.0 (held page f old.1)
  ]

  -- A frame that was held before is not the one that was given now.
  old_frame : (page f : ℕ) → given page ≡ some f → ◌≡◌ {A = Option ℕ} (some g.frame) (some f) → ⊥
  old_frame page f h e =
      omega (arith, (held page f h).taken, ap (used s.pmm) (some_same e), g.free_before)

  apart_after :
      ((page page' f : ℕ) → given page ≡ some f → given page' ≡ some f → page ≡ page')
      → (page page' f : ℕ) → update given (v / 4096) (some g.frame) page ≡ some f
      → update given (v / 4096) (some g.frame) page' ≡ some f
      → page ≡ page'
  apart_after apart page page' f h h' =
      elim (update-some given (v / 4096) (some g.frame) page f h) [
        | inl new ↦ elim (update-some given (v / 4096) (some g.frame) page' f h') [
          | inl new' ↦ new.0 ∙ sym new'.0
          | inr old' ↦ absurd (old_frame page' f old'.1 new.1)
        ]
        | inr old ↦ elim (update-some given (v / 4096) (some g.frame) page' f h') [
          | inl new' ↦ absurd (old_frame page f old.1 new'.1)
          | inr old' ↦ apart page page' f old.1 old'.1
        ]
      ]

-- Where a state serves, four frames are free besides `count` others, and no fixed address lies on the
-- page of an address of the lower half, `vmm_page_alloc` for it, with flags outside the address field,
-- returns the address, and the state serves with that page in a frame of its own.
pub vmm_page_alloc-IsServed :
    (own : Owners) (Fixed : ℕ → Type 0) (max_pa count : ℕ) (given : ℕ → Option ℕ) (v flags : ℕ)
    (s : Vmm)
    → flags < 2 ^ 64
    → address flags ≡ 0
    → v < 2 ^ 47
    → IsLoose Fixed v
    → IsServing own Fixed max_pa (4 + count) given s
    → IsServed own Fixed max_pa count given v s (vmm_page_alloc v flags s)
vmm_page_alloc-IsServed own Fixed max_pa count given v flags s small clear low loose i =
    let g = vmm_page_alloc-IsGiven own v flags count i.supply s small clear low i.space i.free in
    record {
      out = g.out;
      own' = g.own';
      frame = g.frame;
      returns = g.returns;
      serving = record {
        space = g.space;
        linked =
            subst (λ (r : ℕ). HasDirect g.own' (address r) max_pa g.out.pmm g.out.mem) (sym g.root)
              (HasDirect-AgreeAbove own g.own' (address s.cr3) max_pa s.pmm g.out.pmm s.mem
                g.out.mem (λ f h b. g.grown f h) g.level g.words i.linked);
        reserved = λ f l. g.grown f (i.reserved f l);
        fixed = λ w l x.
            ap (λ (r : ℕ). translate (address r) w g.out.mem) g.root
            ∙ g.others w w l (λ e. absurd (loose w e x)) (i.fixed w l x);
        held = after-IsHeld own v count given s (vmm_page_alloc v flags s) g i.held low i.reserved;
        apart = apart_after own v count given s (vmm_page_alloc v flags s) g i.held i.apart;
        supply = g.supply;
        free = g.free;
      };
    }
