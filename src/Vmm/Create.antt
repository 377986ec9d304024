-- ===== src/Vmm/Create.antt =====
-- kernel/vmm.c: the walk that makes the tables that are missing.
use bootloader_kernel_in_nas.Base.{
  ℕ, zero, suc, ◌+◌, ◌*◌, ◌/◌, ◌%◌, ◌^◌, ◌≤◌, ◌<◌, true, false, Option, some, ◌==◌, Bool-cases,
  ==→eq, ==_false→ne, ◌≡◌, refl, sym, ap, ◌∙◌, inl, inr, arith,
}
use mathlib.Core.Path.{subst}
use bootloader_kernel_in_nas.Pmm.Bitmap.{used, IsBitmap}
use bootloader_kernel_in_nas.Pmm.Supply.{HasFree, after, HasFree-after}
use bootloader_kernel_in_nas.Vmm.{Vmm, Mode, load64, entry_at, walk}
use bootloader_kernel_in_nas.Vmm.Entry.{address, slot, bit_and-address, behind-slot}
use bootloader_kernel_in_nas.Vmm.Fresh.{new_table-IsAdded}
use bootloader_kernel_in_nas.Vmm.Grow.{
  Keeps, Keeps-refl, Keeps-trans, claim, grown-Keeps, grown-IsPath, fresh_own-IsPath,
}
use bootloader_kernel_in_nas.Vmm.Space.{Owners, IsNode, IsPath, shift_at, shifts_from}
use bootloader_kernel_in_nas.Vmm.Walk.{tables, entry_at_present, entry_at-new_table}

-- An entry that was found or made: it is present, and the walk goes on below it.
record IsEntered (own : Owners) (n table v count : ℕ) (at : ℕ → ℕ) (s : Vmm)
    (result : Option (Option ℕ × Vmm)) : Type 0 where
  out : Vmm
  own' : Owners
  returns : result ≡ some (some (load64 (slot table v (shift_at (suc n))) out.mem), out)
  present : load64 (slot table v (shift_at (suc n))) out.mem % 2 ≡ 1
  path :
      IsPath own' n (address (load64 (slot table v (shift_at (suc n))) out.mem)) v out.pmm out.mem
  paths :
      (m table' v' : ℕ)
      → IsPath own m table' v' s.pmm s.mem
      → IsPath own' m table' v' out.pmm out.mem
  keeps : Keeps own own' s out
  valid : IsBitmap out.pmm
  supply : ℕ → ℕ
  free : HasFree count supply out.pmm

entry_at-IsEntered :
    (mode : Mode) (own : Owners) (n table v count : ℕ) (at : ℕ → ℕ) (s : Vmm)
    → n < 3
    → IsBitmap s.pmm
    → HasFree (suc count) at s.pmm
    → IsPath own (suc n) table v s.pmm s.mem
    → IsEntered own n table v count at s (entry_at mode (slot table v (shift_at (suc n))) true s)
unfolding IsPath
entry_at-IsEntered mode own n table v count at s few valid free path =
    let place = slot table v (shift_at (suc n)) in
    let node = path.0 in
    elim (Bool-cases (load64 place s.mem % 2 == 0)) [
      | inl missing ↦
          let page : place / 4096 ≡ table / 4096 = omega (arith, node.aligned) in
          let made =
            new_table-IsAdded mode place count at s valid free (omega (arith, node.aligned))
              (ap (used s.pmm) page ∙ node.taken) in
          let even = ==→eq (load64 place s.mem % 2) 0 missing in
          let there : address (load64 place made.out.mem) ≡ made.frame * 4096 =
            ap address made.fresh.entry ∙ omega (arith, made.fresh.inside) in
          let own' : Owners = claim own made.frame n (v / 2 ^ shift_at (suc n)) in
          record {
            out = made.out;
            own' = own';
            returns =
                entry_at-new_table mode place s missing
                ∙ made.returns
                ∙ ap (λ (w : ℕ). some (some w, made.out)) (sym made.fresh.entry);
            present = omega (arith, made.fresh.entry);
            path =
                subst (λ (a : ℕ). IsPath own' n a v made.out.pmm made.out.mem) (sym there)
                  (fresh_own-IsPath own n table v made.frame s made.out few node even made.fresh);
            paths = grown-IsPath own n table v made.frame s made.out few node even made.fresh;
            keeps = grown-Keeps own n table v made.frame s made.out few node even made.fresh;
            valid = made.fresh.taken.valid;
            supply = after 1 at;
            free = made.rest;
          }
      | inr present ↦
          let odd : load64 place s.mem % 2 ≡ 1 = omega (arith, ==_false→ne _ _ present) in
          record {
            out = s;
            own' = own;
            returns = entry_at_present mode place true s present;
            present = odd;
            path = path.1 odd;
            paths = λ m table' v' h. h;
            keeps = Keeps-refl own s;
            valid = valid;
            supply = after 1 at;
            free = HasFree-after 1 count (suc count) at s.pmm (omega arith) free;
          }
    ]

-- The walk from a table of the tree on: it ends at the last table, as the processor's walk then does.
pub record IsWalked (own : Owners) (n table v count : ℕ) (s : Vmm)
    (result : Option (Option ℕ × Vmm)) : Type 0 where
  pub out : Vmm
  pub own' : Owners
  pub last : ℕ
  pub returns : result ≡ some (some last, out)
  pub found : tables (shifts_from n) table v out.mem ≡ some last
  pub node : IsNode own' 0 last v out.pmm
  pub paths :
      (m table' v' : ℕ)
      → IsPath own m table' v' s.pmm s.mem
      → IsPath own' m table' v' out.pmm out.mem
  pub keeps : Keeps own own' s out
  pub valid : IsBitmap out.pmm
  pub supply : ℕ → ℕ
  pub free : HasFree count supply out.pmm

-- The processor's walk past an entry that is present.
tables-present :
    (n table v last : ℕ) (mem : ℕ → ℕ)
    → load64 (slot table v (shift_at (suc n))) mem % 2 ≡ 1
    → tables (shifts_from n) (address (load64 (slot table v (shift_at (suc n))) mem)) v mem
      ≡ some last
    → tables (shifts_from (suc n)) table v mem ≡ some last
unfolding tables shifts_from
tables-present n table v last mem odd rest =
    let present : (load64 (slot table v (shift_at (suc n))) mem % 2 == 0) ≡ false = ground arith in
    rw present rest

walk-entered :
    (mode : Mode) (n table v entry : ℕ) (s s' : Vmm)
    → table + 4096 ≤ 2 ^ 64
    → entry_at mode (slot table v (shift_at (suc n))) true s ≡ some (some entry, s')
    → walk mode (shifts_from (suc n)) table v true s
      ≡ walk mode (shifts_from n) (address entry) v true s'
unfolding walk shifts_from
walk-entered mode n table v entry s s' room entered =
    rw (behind-slot mode table v (shift_at (suc n)) room, entered, bit_and-address entry) refl

-- With a free frame for each level, the walk that makes tables succeeds.
pub walk-IsWalked :
    (mode : Mode) (own : Owners) (n table v count : ℕ) (at : ℕ → ℕ) (s : Vmm)
    → n ≤ 3
    → IsBitmap s.pmm
    → HasFree (n + count) at s.pmm
    → IsPath own n table v s.pmm s.mem
    → IsWalked own n table v count s (walk mode (shifts_from n) table v true s)
unfolding IsPath shifts_from walk tables
walk-IsWalked mode own zero table v count at s few valid free path = record {
  out = s;
  own' = own;
  last = table;
  returns = refl;
  found = refl;
  node = path;
  paths = λ m table' v' h. h;
  keeps = Keeps-refl own s;
  valid = valid;
  supply = after 0 at;
  free = HasFree-after 0 count (0 + count) at s.pmm (omega arith) free;
}
walk-IsWalked mode own (suc n) table v count at s few valid free path =
    let place = slot table v (shift_at (suc n)) in
    let node = path.0 in
    let one =
      entry_at-IsEntered mode own n table v (n + count) at s (omega arith) valid
        (subst (λ (k : ℕ). HasFree k at s.pmm) (omega arith) free) path in
    let below =
      walk-IsWalked mode one.own' n (address (load64 place one.out.mem)) v count one.supply one.out
        (omega arith) one.valid one.free one.path in
    let page : place / 4096 ≡ table / 4096 = omega (arith, node.aligned) in
    let same : load64 place below.out.mem ≡ load64 place one.out.mem =
      below.keeps.words place (omega (arith, node.aligned))
        (one.keeps.taken (place / 4096) (ap (used s.pmm) page ∙ node.taken)) one.present in
    record {
      out = below.out;
      own' = below.own';
      last = below.last;
      returns =
          walk-entered mode n table v (load64 place one.out.mem) s one.out
            (omega (arith, node.inside, node.aligned)) one.returns
          ∙ below.returns;
      found =
          tables-present n table v below.last below.out.mem
            (ap (λ (w : ℕ). w % 2) same ∙ one.present)
            (ap (λ (w : ℕ). tables (shifts_from n) (address w) v below.out.mem) same ∙ below.found);
      node = below.node;
      paths = λ m table' v' h. below.paths m table' v' (one.paths m table' v' h);
      keeps = Keeps-trans own one.own' below.own' s one.out below.out one.keeps below.keeps;
      valid = below.valid;
      supply = below.supply;
      free = below.free;
    }
