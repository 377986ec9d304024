-- ===== src/Vmm/Unmap.antt =====
-- kernel/vmm.c: `vmm_page_unmap` and `vmm_page_free` on the tree of tables.
use bootloader_kernel_in_nas.Base.{
  ℕ, zero, suc, ◌+◌, ◌*◌, ◌/◌, ◌%◌, ◌^◌, ◌≤◌, ◌<◌, Option, none, some, ◌∷◌, ◌==◌, if◌then◌else◌,
  ◌≡◌, ◌≢◌, refl, sym, ap, ap₂, ◌∙◌, arith,
}
use mathlib.Core.Path.{subst}
use bootloader_kernel_in_nas.Pmm.{Pmm, pmm_frame_free, pmm_reserved_frames}
use bootloader_kernel_in_nas.Pmm.Bitmap.{capacity, used}
use bootloader_kernel_in_nas.Pmm.Alloc.{pmm_frame_free-Yields}
use bootloader_kernel_in_nas.Vmm.{Vmm, load64, store64, levels_shift, vmm_page_unmap, vmm_page_free}
use bootloader_kernel_in_nas.Vmm.Entry.{address, slot}
use bootloader_kernel_in_nas.Vmm.Mapping.{translate}
use bootloader_kernel_in_nas.Vmm.Memory.{load64-store64}
use bootloader_kernel_in_nas.Vmm.PageAlloc.{pml4-address, free_after}
use bootloader_kernel_in_nas.Vmm.RoundTrip.{unmapped, vmm_page_unmap-unmapped}
use bootloader_kernel_in_nas.Vmm.Space.{
  Owners, IsPath, IsPath-IsNode, IsSpace, shifts_from, shifts_from-levels_shift,
}
use bootloader_kernel_in_nas.Vmm.Stored.{
  AgreeAbove, tables-AgreeAbove, tables-page, load64-store-above, IsPath-store64,
}
use bootloader_kernel_in_nas.Vmm.Translated.{
  translate-IsTranslated, translate-store64, translate-cleared,
}
use bootloader_kernel_in_nas.Vmm.Walk.{tables, pte_slot}

-- `out` is `s` without the page of `v`.
pub record IsShrunk (own : Owners) (pml4 v : ℕ) (s out : Vmm) : Type 0 where
  pub paths : (v' : ℕ) → v' < 2 ^ 47 → IsPath own 3 pml4 v' s.pmm out.mem
  pub frames : out.pmm ≡ s.pmm
  pub root : out.cr3 ≡ s.cr3
  pub words : AgreeAbove own s.pmm s.mem out.mem
  pub gone : (v' : ℕ) → v' / 4096 ≡ v / 4096 → translate pml4 v' out.mem ≡ none
  pub others :
      (v' q : ℕ)
      → v' < 2 ^ 47
      → v' / 4096 ≢ v / 4096
      → translate pml4 v' s.mem ≡ some q
      → translate pml4 v' out.mem ≡ some q

unmapped_returns :
    (pml4 v last page : ℕ) (s : Vmm)
    → pml4 + 4096 ≤ 2 ^ 64
    → tables (shifts_from 3) pml4 v s.mem ≡ some last
    → address (load64 (slot last v 12) s.mem) ≡ page
    → vmm_page_unmap pml4 v s
      ≡ some
          (some page, record s { mem = store64 (slot last v 12) 0 s.mem; flushed = v ∷ s.flushed })
unfolding unmapped pte_slot
unmapped_returns pml4 v last page s room found value =
    let found' : tables levels_shift pml4 v s.mem ≡ some last =
      rw shifts_from-levels_shift at found in
    let at_slot : pte_slot pml4 v s.mem ≡ some (slot last v 12) = rw found' refl in
    vmm_page_unmap-unmapped pml4 v s room ∙ rw (at_slot, value) refl

-- What `vmm_page_unmap` does to a page that is mapped.
pub vmm_page_unmap-IsShrunk :
    (own : Owners) (pml4 v page : ℕ) (s : Vmm)
    → v < 2 ^ 47
    → IsSpace own pml4 s
    → translate pml4 v s.mem ≡ some (page + v % 4096)
    → (out : Vmm) × (vmm_page_unmap pml4 v s ≡ some (some page, out)) × IsShrunk own pml4 v s out
vmm_page_unmap-IsShrunk own pml4 v page s low space before =
    let t = translate-IsTranslated pml4 v (page + v % 4096) s.mem before in
    let place = slot t.last v 12 in
    let mem' : ℕ → ℕ = store64 place 0 s.mem in
    let path = space.paths v low in
    let top = IsPath-IsNode own 3 pml4 v s.pmm s.mem path in
    let node =
      (tables-AgreeAbove own 3 pml4 v t.last s.pmm s.mem s.mem (λ a m h above odd. refl) path
        t.found).node in
    let r =
      tables-AgreeAbove own 3 pml4 v t.last s.pmm s.mem mem'
        (λ a m h above odd. load64-store-above own t.last v 0 s.pmm node a s.mem m above) path
        t.found in
    (
      record s { mem = mem'; flushed = v ∷ s.flushed },
      unmapped_returns pml4 v t.last page s (omega (arith, top.inside, top.aligned)) t.found
          (omega (arith, t.value)),
      record {
        paths = λ v' l. IsPath-store64 own t.last v 0 s.pmm node 3 pml4 v' s.mem (space.paths v' l);
        frames = refl;
        root = refl;
        words = λ a m h above odd. load64-store-above own t.last v 0 s.pmm node a s.mem m above;
        gone = λ v' e.
            let same : slot t.last v' 12 ≡ place = omega (arith, e) in
            translate-cleared pml4 v' t.last mem'
              (tables-page 3 pml4 v' v mem' (omega arith) e ∙ r.found)
              (ap (λ (a : ℕ). load64 a mem') same ∙ load64-store64 place 0 s.mem (omega arith));
        others = λ v' q l other h.
            translate-store64 own pml4 t.last v 0 s.pmm node v' q s.mem (space.paths v' l) other h;
      },
    )

-- `result` is a normal return: the page of `v` is unmapped and `frame` is free again.
pub record IsReleased (own : Owners) (v frame : ℕ) (s : Vmm) (result : Option Vmm) : Type 0 where
  pub out : Vmm
  pub returns : result ≡ some out
  pub space : IsSpace own (address out.cr3) out
  pub digits : (g : ℕ) → used out.pmm g ≡ (if g == frame then 0 else used s.pmm g)
  pub root : out.cr3 ≡ s.cr3
  pub words : AgreeAbove own s.pmm s.mem out.mem
  pub gone : (v' : ℕ) → v' / 4096 ≡ v / 4096 → translate (address s.cr3) v' out.mem ≡ none
  pub others :
      (v' q : ℕ)
      → v' < 2 ^ 47
      → v' / 4096 ≢ v / 4096
      → translate (address s.cr3) v' s.mem ≡ some q
      → translate (address s.cr3) v' out.mem ≡ some q

-- The tables survive the release of a frame that holds none of them.
IsPath-freed :
    (own : Owners) (frame : ℕ) (p p' : Pmm) (mem : ℕ → ℕ)
    → ((g : ℕ) → used p' g ≡ (if g == frame then 0 else used p g))
    → 3 < own.level frame
    → (n table v : ℕ) → n ≤ 3
    → IsPath own n table v p mem
    → IsPath own n table v p' mem
unfolding IsPath
IsPath-freed own frame p p' mem digits above zero table v few path = record {
  aligned = path.aligned;
  inside = path.inside;
  taken = digits (table / 4096) ∙ ground (arith, path.taken, path.at_level);
  at_level = path.at_level;
  at_prefix = path.at_prefix;
}
IsPath-freed own frame p p' mem digits above (suc n) table v few path = (
  record {
    aligned = path.0.aligned;
    inside = path.0.inside;
    taken = digits (table / 4096) ∙ ground (arith, path.0.taken, path.0.at_level);
    at_level = path.0.at_level;
    at_prefix = path.0.at_prefix;
  },
  λ odd. IsPath-freed own frame p p' mem digits above n _ v (omega arith) (path.1 odd),
)

-- Where the tables of the lower half are a tree below CR3, an address of it is mapped to `frame`, and
-- that frame is in the array, not reserved, and holds no table, `vmm_page_free` returns; then the
-- whole page is unmapped, all other pages of the lower half that were mapped are mapped as before,
-- `frame` alone is free besides those that were, and the tables are such a tree again.
pub vmm_page_free-IsReleased :
    (own : Owners) (v flags frame : ℕ) (s : Vmm)
    → v < 2 ^ 47
    → IsSpace own (address s.cr3) s
    → translate (address s.cr3) v s.mem ≡ some (frame * 4096 + v % 4096)
    → frame < capacity
    → pmm_reserved_frames ≤ frame
    → 3 < own.level frame
    → IsReleased own v frame s (vmm_page_free v flags s)
vmm_page_free-IsReleased own v flags frame s low space before inside usable above =
    let pml4 = address s.cr3 in
    let (out, returns, x) = vmm_page_unmap-IsShrunk own pml4 v (frame * 4096) s low space before in
    let back = pmm_frame_free-Yields frame s.pmm space.valid inside in
    let number : frame * 4096 / 4096 ≡ frame = omega arith in
    let freed : pmm_frame_free (frame * 4096 / 4096) out.pmm ≡ some back.out =
      ap₂ pmm_frame_free number x.frames ∙ back.returns in
    let digits : (g : ℕ) → used back.out g ≡ (if g == frame then 0 else used s.pmm g) =
      λ g. back.digits g ∙ ground arith in
    record {
      out = record out { pmm = back.out };
      returns =
          free_after v flags (frame * 4096) back.out s out
            (ap (λ (p : ℕ). vmm_page_unmap p v s) (pml4-address s) ∙ returns) freed;
      space = record {
        valid = back.valid;
        paths = λ v' l.
            subst (λ (r : ℕ). IsPath own 3 (address r) v' back.out out.mem) (sym x.root)
              (IsPath-freed own frame s.pmm back.out out.mem digits above 3 pml4 v' (omega arith)
                (x.paths v' l));
      };
      digits = digits;
      root = x.root;
      words = x.words;
      gone = x.gone;
      others = x.others;
    }
