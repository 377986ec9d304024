-- ===== src/Vmm/Give.antt =====
-- kernel/vmm.c: `vmm_page_alloc` on the tree of tables.
use bootloader_kernel_in_nas.Base.{
  ℕ, ◌+◌, ◌*◌, ◌/◌, ◌%◌, ◌^◌, ◌<◌, true, false, Option, some, ◌==◌, ◌≡◌, ◌≢◌, refl, sym, ap, ◌∙◌,
  arith,
}
use mathlib.Core.Path.{subst}
use bootloader_kernel_in_nas.Pmm.{Pmm, pmm_frame_alloc, pmm_invalid_frame}
use bootloader_kernel_in_nas.Pmm.Bitmap.{capacity, used}
use bootloader_kernel_in_nas.Pmm.Reuse.{IsTaken}
use bootloader_kernel_in_nas.Vmm.Extend.{IsExtended}
use bootloader_kernel_in_nas.Pmm.Supply.{HasFree, after, HasFree-IsSupplied}
use bootloader_kernel_in_nas.Vmm.{Vmm, vmm_page_map, vmm_page_alloc}
use bootloader_kernel_in_nas.Vmm.Entry.{address}
use bootloader_kernel_in_nas.Vmm.Grow.{Keeps, IsPath-Keeps, claim}
use bootloader_kernel_in_nas.Vmm.MapPage.{vmm_page_map-IsExtended}
use bootloader_kernel_in_nas.Vmm.Mapping.{translate}
use bootloader_kernel_in_nas.Vmm.PageAlloc.{pml4-address, alloc_after}
use bootloader_kernel_in_nas.Vmm.Stored.{AgreeAbove}
use bootloader_kernel_in_nas.Vmm.Space.{Owners, IsSpace, data_level}

-- `result` is a normal return of `v`, whose page is now in `frame`.
pub record IsGiven (own : Owners) (v count : ℕ) (s : Vmm) (result : Option (Option ℕ × Vmm))
    : Type 0 where
  pub frame : ℕ
  pub out : Vmm
  pub own' : Owners
  pub returns : result ≡ some (some v, out)
  pub space : IsSpace own' (address out.cr3) out
  pub inside : frame < capacity
  pub free_before : used s.pmm frame ≡ 0
  pub taken : used out.pmm frame ≡ 1
  pub no_table : own'.level frame ≡ data_level
  pub grown : (g : ℕ) → used s.pmm g ≡ 1 → used out.pmm g ≡ 1
  pub level : (g : ℕ) → used s.pmm g ≡ 1 → own'.level g ≡ own.level g
  pub words : AgreeAbove own s.pmm s.mem out.mem
  pub there :
      (v' : ℕ)
      → v' / 4096 ≡ v / 4096
      → translate (address s.cr3) v' out.mem ≡ some (frame * 4096 + v' % 4096)
  pub others :
      (v' q : ℕ)
      → v' < 2 ^ 47
      → v' / 4096 ≢ v / 4096
      → translate (address s.cr3) v' s.mem ≡ some q
      → translate (address s.cr3) v' out.mem ≡ some q
  pub root : out.cr3 ≡ s.cr3
  pub supply : ℕ → ℕ
  pub free : HasFree count supply out.pmm

-- The owners and the state once the page has its frame, before it is mapped.
abbrev own_data : Owners → ℕ → Owners
own_data own frame = claim own frame data_level 0

data-Keeps :
    (own : Owners) (frame : ℕ) (pmm : Pmm) (s : Vmm)
    → used s.pmm frame ≡ 0
    → IsTaken s.pmm frame pmm
    → Keeps own (own_data own frame) s (record s { pmm = pmm })
data-Keeps own frame pmm s free_before taken =
    let other : (g : ℕ) → used s.pmm g ≡ 1 → g ≢ frame =
      λ g h e. absurd (omega (arith, ap (used s.pmm) e, free_before)) in
    record {
      taken = λ g h. taken.digits g ∙ ground arith;
      level = λ g h. ground (arith, other g h);
      prefix = λ g h. ground (arith, other g h);
      words = λ a m h odd. refl;
      root = refl;
    }

-- The frame taken, then the page mapped.
mapped-IsGiven :
    (own : Owners) (v flags frame count : ℕ) (pmm : Pmm) (s out : Vmm)
    → pmm_frame_alloc s.pmm ≡ some (frame * 4096, pmm)
    → frame < capacity
    → used s.pmm frame ≡ 0
    → IsTaken s.pmm frame pmm
    → vmm_page_map (address s.cr3) v (frame * 4096) flags (record s { pmm = pmm })
      ≡ some (true, out)
    → IsExtended
        (own_data own frame)
        (address s.cr3)
        v
        (frame * 4096)
        count
        (record s { pmm = pmm })
        out
    → IsGiven own v count s (vmm_page_alloc v flags s)
mapped-IsGiven own v flags frame count pmm s out alloc inside free_before taken mapped x =
    let s1 : Vmm = record s { pmm = pmm } in
    let keeps = data-Keeps own frame pmm s free_before taken in
    let held : used pmm frame ≡ 1 = taken.digits frame ∙ ground arith in
    let usable : (frame * 4096 == pmm_invalid_frame) ≡ false = ground (arith, inside) in
    let whole : address (frame * 4096) ≡ frame * 4096 = omega (arith, inside) in
    record {
      frame = frame;
      out = out;
      own' = x.own';
      returns =
          alloc_after v flags (frame * 4096) pmm s out alloc usable
            (ap (λ (p : ℕ). vmm_page_map p v (frame * 4096) flags s1) (pml4-address s) ∙ mapped);
      space = subst (λ (r : ℕ). IsSpace x.own' (address r) out) (sym x.root) x.space;
      inside = inside;
      free_before = free_before;
      taken = x.taken frame held;
      no_table = x.level frame held ∙ ground arith;
      grown = λ g h. x.taken g (keeps.taken g h);
      level = λ g h. x.level g (keeps.taken g h) ∙ keeps.level g h;
      words = λ a m h above odd.
          x.words a m (keeps.taken (a / 4096) h) (λ e. above (sym (keeps.level (a / 4096) h) ∙ e))
            odd;
      there = λ v' e. x.there v' e ∙ ap (λ (p : ℕ). some (p + v' % 4096)) whole;
      others = x.others;
      root = x.root;
      supply = x.supply;
      free = x.free;
    }

-- Where the tables of the lower half are a tree below CR3 and four frames are free besides `count`
-- others, `vmm_page_alloc` for an address of the lower half, with flags outside the address field,
-- returns that address; then its page is in a frame that was free and holds no table, all other
-- pages of the lower half that were mapped are mapped as before, the tables are such a tree again,
-- and `count` frames are free.
pub vmm_page_alloc-IsGiven :
    (own : Owners) (v flags count : ℕ) (at : ℕ → ℕ) (s : Vmm)
    → flags < 2 ^ 64
    → address flags ≡ 0
    → v < 2 ^ 47
    → IsSpace own (address s.cr3) s
    → HasFree (4 + count) at s.pmm
    → IsGiven own v count s (vmm_page_alloc v flags s)
vmm_page_alloc-IsGiven own v flags count at s small clear low space free =
    let pml4 = address s.cr3 in
    let one =
      HasFree-IsSupplied (3 + count) at s.pmm space.valid
        (subst (λ (n : ℕ). HasFree n at s.pmm) (omega arith) free) in
    let own1 : Owners = own_data own one.frame in
    let keeps = data-Keeps own one.frame one.out s one.free_before one.taken in
    let space1 : IsSpace own1 pml4 (record s { pmm = one.out }) = record {
      valid = one.taken.valid;
      paths = λ v' l. IsPath-Keeps own own1 s one.out keeps 3 pml4 v' (space.paths v' l);
    } in
    let (out, returns, x) =
      vmm_page_map-IsExtended own1 pml4 v (one.frame * 4096) flags count (after 1 at)
        (record s { pmm = one.out }) small clear low space1 one.rest in
    mapped-IsGiven own v flags one.frame count one.out s out one.returns one.frame-lt
      one.free_before one.taken returns x
