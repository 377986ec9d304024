-- ===== src/Vmm/Reclaim.antt =====
-- kernel/vmm.c: pages taken back, against the map from pages to frames.
use bootloader_kernel_in_nas.Base.{
  ℕ, ◌+◌, ◌*◌, ◌/◌, ◌%◌, ◌^◌, ◌<◌, Option, none, some, update, ◌≡◌, ◌≢◌, refl, sym, ap, ◌∙◌, inl,
  inr, arith,
}
use mathlib.Core.Path.{subst}
use bootloader_kernel_in_nas.Vmm.{Vmm, vmm_page_free}
use bootloader_kernel_in_nas.Vmm.Entry.{address}
use bootloader_kernel_in_nas.Vmm.Linked.{HasDirect, HasDirect-AgreeAbove}
use bootloader_kernel_in_nas.Vmm.Mapping.{translate}
use bootloader_kernel_in_nas.Vmm.Space.{Owners, data_level}
use bootloader_kernel_in_nas.Vmm.Unmap.{IsReleased, vmm_page_free-IsReleased}
use bootloader_kernel_in_nas.Vmm.Serve.{IsHeld, IsServing, IsLoose, update-some, none_ne_some}

-- A page that was held before still is, but for the one that was taken back.
still-IsHeld :
    (own : Owners) (v f page f' : ℕ) (s : Vmm) (result : Option Vmm)
    (r : IsReleased own v f s result)
    → page ≢ v / 4096
    → f' ≢ f
    → IsHeld own s page f'
    → IsHeld own r.out page f'
still-IsHeld own v f page f' s result r other ne h = record {
  low = h.low;
  inside = h.inside;
  usable = h.usable;
  taken = r.digits f' ∙ ground (arith, h.taken);
  level = h.level;
  there = λ w e.
      ap (λ (c : ℕ). translate (address c) w r.out.mem) r.root
      ∙ r.others w (f' * 4096 + w % 4096) (omega (arith, h.low)) (λ e'. other (sym e ∙ e'))
          (h.there w e);
}

released-IsServing :
    (own : Owners) (Fixed : ℕ → Type 0) (max_pa count : ℕ) (given : ℕ → Option ℕ) (v f : ℕ)
    (s : Vmm) (result : Option Vmm)
    → IsLoose Fixed v
    → (i : IsServing own Fixed max_pa count given s) → given (v / 4096) ≡ some f
    → (r : IsReleased own v f s result)
    → IsServing own Fixed max_pa count (update given (v / 4096) none) r.out
released-IsServing own Fixed max_pa count given v f s result loose i h r =
    let k = i.held (v / 4096) f h in
    let old : (page f' : ℕ)
        → update given (v / 4096) none page ≡ some f'
        → (page ≢ v / 4096) × (given page ≡ some f') =
      λ page f' e. elim (update-some given (v / 4096) none page f' e) [
        | inl new ↦ absurd (none_ne_some new.1)
        | inr old ↦ old
      ] in
    let other : (g : ℕ) → own.level g < data_level → g ≢ f =
      λ g l e. absurd (omega (arith, k.level, ap own.level e)) in
    record {
      space = r.space;
      linked =
          subst (λ (c : ℕ). HasDirect own (address c) max_pa r.out.pmm r.out.mem) (sym r.root)
            (HasDirect-AgreeAbove own own (address s.cr3) max_pa s.pmm r.out.pmm s.mem r.out.mem
              (λ g t l. r.digits g ∙ ground (arith, other g l)) (λ g t. refl) r.words i.linked);
      reserved = λ g l. r.digits g ∙ ground (arith, i.reserved g l, k.usable);
      fixed = λ w l x.
          ap (λ (c : ℕ). translate (address c) w r.out.mem) r.root
          ∙ r.others w w l (λ e. absurd (loose w e x)) (i.fixed w l x);
      held = λ page f' e.
          let o = old page f' e in
          still-IsHeld own v f page f' s result r o.0
            (λ e'. o.0 (i.apart page (v / 4096) f' o.1 (h ∙ ap some (sym e'))))
            (i.held page f' o.1);
      apart = λ page page' f' e e'. i.apart page page' f' (old page f' e).1 (old page' f' e').1;
      supply = i.supply;
      free = record {
        rising = i.free.rising;
        inside = i.free.inside;
        free = λ j l. r.digits (i.supply j) ∙ ground (arith, i.free.free j l);
      };
    }

-- Where a state serves and a page is given, `vmm_page_free` for an address on it returns, and the state
-- serves without that page.
pub vmm_page_free-IsServing :
    (own : Owners) (Fixed : ℕ → Type 0) (max_pa count : ℕ) (given : ℕ → Option ℕ) (v flags f : ℕ)
    (s : Vmm)
    → IsLoose Fixed v
    → IsServing own Fixed max_pa count given s
    → given (v / 4096) ≡ some f
    → (out : Vmm) × (vmm_page_free v flags s ≡ some out)
      × IsServing own Fixed max_pa count (update given (v / 4096) none) out
vmm_page_free-IsServing own Fixed max_pa count given v flags f s loose i h =
    let k = i.held (v / 4096) f h in
    let low : v < 2 ^ 47 = omega (arith, k.low) in
    let r =
      vmm_page_free-IsReleased own v flags f s low i.space (k.there v refl) k.inside k.usable
        (omega (arith, k.level)) in
    (r.out, r.returns, released-IsServing own Fixed max_pa count given v f s _ loose i h r)
