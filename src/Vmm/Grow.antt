-- ===== src/Vmm/Grow.antt =====
-- kernel/vmm.c: what a table made on the way leaves of the other tables.
use bootloader_kernel_in_nas.Base.{
  ℕ, zero, suc, ◌*◌, ◌/◌, ◌%◌, ◌^◌, ◌<◌, update, ◌==◌, Bool-cases, ==→eq, ==_false→ne, ◌≡◌, ◌≢◌,
  refl, sym, ap, ◌∙◌, inl, inr, arith,
}
use mathlib.Core.Path.{subst}
use bootloader_kernel_in_nas.Pmm.{Pmm}
use bootloader_kernel_in_nas.Pmm.Bitmap.{used}
use bootloader_kernel_in_nas.Vmm.{Vmm, load64}
use bootloader_kernel_in_nas.Vmm.Entry.{address, slot}
use bootloader_kernel_in_nas.Vmm.Fresh.{IsFresh}
use bootloader_kernel_in_nas.Vmm.Space.{
  Owners, IsNode, IsPath, IsNode-IsSameSlot, shift_at, shift_up,
}

-- `s'` has every used frame of `s` in its place, and every entry of one that was present.
pub record Keeps (own own' : Owners) (s s' : Vmm) : Type 0 where
  pub taken : (g : ℕ) → used s.pmm g ≡ 1 → used s'.pmm g ≡ 1
  pub level : (g : ℕ) → used s.pmm g ≡ 1 → own'.level g ≡ own.level g
  pub prefix : (g : ℕ) → used s.pmm g ≡ 1 → own'.prefix g ≡ own.prefix g
  pub words :
      (a : ℕ)
      → a % 8 ≡ 0
      → used s.pmm (a / 4096) ≡ 1
      → load64 a s.mem % 2 ≡ 1
      → load64 a s'.mem ≡ load64 a s.mem
  pub root : s'.cr3 ≡ s.cr3

pub Keeps-refl : (own : Owners) (s : Vmm) → Keeps own own s s
Keeps-refl own s = record {
  taken = λ g h. h;
  level = λ g h. refl;
  prefix = λ g h. refl;
  words = λ a m h o. refl;
  root = refl;
}

pub Keeps-trans :
    (own own' own'' : Owners) (s s' s'' : Vmm)
    → Keeps own own' s s'
    → Keeps own' own'' s' s''
    → Keeps own own'' s s''
Keeps-trans own own' own'' s s' s'' k l = record {
  taken = λ g h. l.taken g (k.taken g h);
  level = λ g h. l.level g (k.taken g h) ∙ k.level g h;
  prefix = λ g h. l.prefix g (k.taken g h) ∙ k.prefix g h;
  words = λ a m h o.
      let same = k.words a m h o in
      l.words a m (k.taken (a / 4096) h) (ap (λ (w : ℕ). w % 2) same ∙ o) ∙ same;
  root = l.root ∙ k.root;
}

pub IsNode-Keeps :
    (own own' : Owners) (s s' : Vmm) (n table v : ℕ)
    → Keeps own own' s s'
    → IsNode own n table v s.pmm
    → IsNode own' n table v s'.pmm
IsNode-Keeps own own' s s' n table v k node = record {
  aligned = node.aligned;
  inside = node.inside;
  taken = k.taken (table / 4096) node.taken;
  at_level = k.level (table / 4096) node.taken ∙ node.at_level;
  at_prefix = k.prefix (table / 4096) node.taken ∙ node.at_prefix;
}

-- Frames that are taken elsewhere leave the tables alone.
pub IsPath-Keeps :
    (own own' : Owners) (s : Vmm) (p' : Pmm)
    → Keeps own own' s (record s { pmm = p' })
    → (n table v : ℕ) → IsPath own n table v s.pmm s.mem
    → IsPath own' n table v p' s.mem
unfolding IsPath
IsPath-Keeps own own' s p' k zero table v path =
    IsNode-Keeps own own' s (record s { pmm = p' }) zero table v k path
IsPath-Keeps own own' s p' k (suc n) table v path = (
  IsNode-Keeps own own' s (record s { pmm = p' }) (suc n) table v k path.0,
  λ odd. IsPath-Keeps own own' s p' k n _ v (path.1 odd),
)

-- The owners with one frame more.
abbrev pub claim : Owners → (frame level prefix : ℕ) → Owners
claim own frame level prefix = record {
  level = update own.level frame level;
  prefix = update own.prefix frame prefix;
}

-- A table without a present entry ends every walk.
IsPath-empty :
    (own : Owners) (n table v : ℕ) (p : Pmm) (mem : ℕ → ℕ)
    → IsNode own n table v p
    → ((a : ℕ) → a % 8 ≡ 0 → a / 4096 ≡ table / 4096 → load64 a mem ≡ 0)
    → IsPath own n table v p mem
unfolding IsPath
IsPath-empty own zero table v p mem node empty = node
IsPath-empty own (suc n) table v p mem node empty = (
  node,
  λ odd. absurd (
      omega (
        arith,
        odd,
        node.aligned,
        empty (slot table v (shift_at (suc n))) (omega (arith, node.aligned))
            (omega (arith, node.aligned)),
      )),
)

-- A table for the entry at `slot table v (shift_at (suc n))`, which was missing.
module _ (own : Owners) (n table v frame : ℕ) (s s' : Vmm) (few : n < 3)
    (node : IsNode own (suc n) table v s.pmm)
    (missing : load64 (slot table v (shift_at (suc n))) s.mem % 2 ≡ 0)
    (fresh : IsFresh frame (slot table v (shift_at (suc n))) s s') where
  abbrev own' : Owners
  own' = claim own frame n (v / 2 ^ shift_at (suc n))

  other_frame : (g : ℕ) → used s.pmm g ≡ 1 → g ≢ frame
  other_frame g h e = absurd (omega (arith, ap (used s.pmm) e, fresh.free_before))

  pub grown-Keeps : Keeps own own' s s'
  grown-Keeps = record {
    taken = λ g h. fresh.taken.digits g ∙ ground arith;
    level = λ g h. ground (arith, other_frame g h);
    prefix = λ g h. ground (arith, other_frame g h);
    words = λ a m h o.
        fresh.kept a m (other_frame (a / 4096) h)
          (λ e. absurd (omega (arith, missing, o, ap (λ (w : ℕ). load64 w s.mem) e)));
    root = fresh.root;
  }

  -- The new table is one for every address that it lies on the way of.
  fresh-IsNode :
      (v' : ℕ)
      → v / 2 ^ shift_at (suc n) ≡ v' / 2 ^ shift_at (suc n)
      → IsNode own' n (frame * 4096) v' s'.pmm
  fresh-IsNode v' same =
      let number : frame * 4096 / 4096 ≡ frame = omega arith in
      record {
        aligned = omega arith;
        inside = omega (arith, fresh.inside);
        taken = ap (used s'.pmm) number ∙ fresh.taken.digits frame ∙ ground arith;
        at_level = ground (arith, number);
        at_prefix = ground (arith, number, same, shift_up n v' few);
      }

  fresh-IsPath :
      (v' : ℕ)
      → v / 2 ^ shift_at (suc n) ≡ v' / 2 ^ shift_at (suc n)
      → IsPath own' n (frame * 4096) v' s'.pmm s'.mem
  fresh-IsPath v' same =
      IsPath-empty own' n (frame * 4096) v' s'.pmm s'.mem (fresh-IsNode v' same)
        (λ a m e. fresh.zeroed a m (omega arith))

  entered_address : address (load64 (slot table v (shift_at (suc n))) s'.mem) ≡ frame * 4096
  entered_address = ap address fresh.entry ∙ omega (arith, fresh.inside)

  -- Every walk that met tables of the tree only still does.
  pub grown-IsPath :
      (m table' v' : ℕ) → IsPath own m table' v' s.pmm s.mem → IsPath own' m table' v' s'.pmm s'.mem
  unfolding IsPath
  grown-IsPath zero table' v' path = IsNode-Keeps own own' s s' zero table' v' grown-Keeps path
  grown-IsPath (suc m) table' v' path =
      let place = slot table v (shift_at (suc n)) in
      let place' = slot table' v' (shift_at (suc m)) in
      let node' = IsNode-Keeps own own' s s' (suc m) table' v' grown-Keeps path.0 in
      elim (Bool-cases (place' == place)) [
        | inl e ↦
            let meet : place ≡ place' = sym (==→eq place' place e) in
            let same =
              IsNode-IsSameSlot own (suc n) (suc m) table table' v v' s.pmm node path.0 meet in
            let level : n ≡ m = omega (arith, same.level) in
            let there : address (load64 place' s'.mem) ≡ frame * 4096 =
              ap (λ (a : ℕ). address (load64 a s'.mem)) (sym meet) ∙ entered_address in
            (
              node',
              λ odd.
                  subst (λ (k : ℕ). IsPath own' k (address (load64 place' s'.mem)) v' s'.pmm s'.mem)
                    level
                    (subst (λ (a : ℕ). IsPath own' n a v' s'.pmm s'.mem) (sym there)
                      (fresh-IsPath v' same.index)),
            )
        | inr e ↦
            let aligned : place' % 8 ≡ 0 = omega (arith, path.0.aligned) in
            let page : place' / 4096 ≡ table' / 4096 = omega (arith, path.0.aligned) in
            let kept : load64 place' s'.mem ≡ load64 place' s.mem =
              fresh.kept place' aligned
                (other_frame (place' / 4096) (ap (used s.pmm) page ∙ path.0.taken))
                (==_false→ne place' place e) in
            (
              node',
              λ odd.
                  subst (λ (w : ℕ). IsPath own' m (address w) v' s'.pmm s'.mem) (sym kept)
                    (grown-IsPath m (address (load64 place' s.mem)) v'
                      (path.1 (ap (λ (w : ℕ). w % 2) (sym kept) ∙ odd))),
            )
      ]

  pub fresh_own-IsPath : IsPath own' n (frame * 4096) v s'.pmm s'.mem
  fresh_own-IsPath = fresh-IsPath v refl
