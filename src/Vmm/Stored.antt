-- ===== src/Vmm/Stored.antt =====
-- kernel/vmm.c: walks and translations across changes of memory that spare the tables on the way.
use bootloader_kernel_in_nas.Base.{
  ℕ, zero, suc, ◌/◌, ◌%◌, ◌^◌, ◌≤◌, some, ◌==◌, Bool-cases, ==_false→ne, ◌≡◌, ◌≢◌, refl, sym, ap,
  ◌∙◌, inl, inr, arith,
}
use mathlib.Core.Path.{subst}
use bootloader_kernel_in_nas.Pmm.{Pmm}
use bootloader_kernel_in_nas.Pmm.Bitmap.{used}
use bootloader_kernel_in_nas.Vmm.{load64, store64}
use bootloader_kernel_in_nas.Vmm.Entry.{address, slot}
use bootloader_kernel_in_nas.Vmm.Memory.{load64-apart}
use bootloader_kernel_in_nas.Vmm.Space.{Owners, IsNode, IsPath, shift_at, shift_up, shifts_from}
use bootloader_kernel_in_nas.Vmm.Walk.{tables, some_same, some_ne_none}

-- The memories agree on the present entries of the tables above the last level.
abbrev pub AgreeAbove : Owners → Pmm → (mem mem' : ℕ → ℕ) → Type 0
AgreeAbove own p mem mem' =
    (a : ℕ)
    → a % 8 ≡ 0
    → used p (a / 4096) ≡ 1
    → own.level (a / 4096) ≢ 0
    → load64 a mem % 2 ≡ 1
    → load64 a mem' ≡ load64 a mem

-- The last table of a walk.
pub record IsReached (own : Owners) (n table v last : ℕ) (p : Pmm) (mem : ℕ → ℕ) : Type 0 where
  pub found : tables (shifts_from n) table v mem ≡ some last
  pub node : IsNode own 0 last v p

pub tables-AgreeAbove :
    (own : Owners) (n table v last : ℕ) (p : Pmm) (mem mem' : ℕ → ℕ)
    → AgreeAbove own p mem mem'
    → IsPath own n table v p mem
    → tables (shifts_from n) table v mem ≡ some last
    → IsReached own n table v last p mem'
unfolding tables shifts_from IsPath
tables-AgreeAbove own zero table v last p mem mem' agree path found = record {
  found = found;
  node = subst (λ (t : ℕ). IsNode own 0 t v p) (some_same found) path;
}
tables-AgreeAbove own (suc n) table v last p mem mem' agree path found =
    let place = slot table v (shift_at (suc n)) in
    let node = path.0 in
    elim (Bool-cases (load64 place mem % 2 == 0)) [
      | inl missing ↦ absurd (some_ne_none (rw missing at found))
      | inr present ↦
          let odd : load64 place mem % 2 ≡ 1 =
            omega (arith, ==_false→ne (load64 place mem % 2) 0 present) in
          let page : place / 4096 ≡ table / 4096 = omega (arith, node.aligned) in
          let below : tables (shifts_from n) (address (load64 place mem)) v mem ≡ some last =
            rw present at found in
          let same : load64 place mem' ≡ load64 place mem =
            agree place (omega (arith, node.aligned)) (ap (used p) page ∙ node.taken)
              (λ e. absurd (omega (arith, e, ap own.level page, node.at_level))) odd in
          let ih =
            tables-AgreeAbove own n (address (load64 place mem)) v last p mem mem' agree
              (path.1 odd) below in
          record { found = rw (same, present) ih.found; node = ih.node }
    ]

-- Two addresses of a page have the same indices.
pub index-page :
    (n v v' : ℕ) → n ≤ 3 → v / 4096 ≡ v' / 4096 → v / 2 ^ shift_at n ≡ v' / 2 ^ shift_at n
unfolding shift_at
index-page zero v v' few e = omega arith
index-page (suc n) v v' few e =
    shift_up n v (omega arith)
    ∙ ap (λ (k : ℕ). k / 512) (index-page n v v' (omega arith) e)
    ∙ sym (shift_up n v' (omega arith))

pub tables-page :
    (n table v v' : ℕ) (mem : ℕ → ℕ)
    → n ≤ 3
    → v / 4096 ≡ v' / 4096
    → tables (shifts_from n) table v mem ≡ tables (shifts_from n) table v' mem
unfolding tables shifts_from
tables-page zero table v v' mem few e = refl
tables-page (suc n) table v v' mem few e =
    let same = index-page (suc n) v v' few e in
    let entry = load64 (slot table v' (shift_at (suc n))) mem in
    rw (same, tables-page n (address entry) v v' mem (omega arith) e) refl

-- A store into a last table is none into the tables above.
pub load64-store-above :
    (own : Owners) (last v value : ℕ) (p : Pmm)
    → IsNode own 0 last v p
    → (a : ℕ) (mem : ℕ → ℕ) → a % 8 ≡ 0
    → own.level (a / 4096) ≢ 0
    → load64 a (store64 (slot last v 12) value mem) ≡ load64 a mem
load64-store-above own last v value p node a mem aligned above =
    let apart : a / 4096 ≢ last / 4096 = λ e. above (ap own.level e ∙ node.at_level) in
    load64-apart (slot last v 12) a value mem (ground (arith, node.aligned))

-- A store into a last table leaves every walk its tables.
pub IsPath-store64 :
    (own : Owners) (last v value : ℕ) (p : Pmm)
    → IsNode own 0 last v p
    → (n table' v' : ℕ) (mem : ℕ → ℕ) → IsPath own n table' v' p mem
    → IsPath own n table' v' p (store64 (slot last v 12) value mem)
unfolding IsPath
IsPath-store64 own last v value p node zero table' v' mem path = path
IsPath-store64 own last v value p node (suc n) table' v' mem path =
    let place = slot last v 12 in
    let place' = slot table' v' (shift_at (suc n)) in
    let same : load64 place' (store64 place value mem) ≡ load64 place' mem =
      load64-store-above own last v value p node place' mem (omega (arith, path.0.aligned)) (λ e.
        absurd (
          omega (
            arith,
            e,
            path.0.at_level,
            ap own.level (page_of (suc n) table' v' path.0.aligned),
          ))) in
    (
      path.0,
      λ odd.
          subst (λ (w : ℕ). IsPath own n (address w) v' p (store64 place value mem)) (sym same)
            (IsPath-store64 own last v value p node n (address (load64 place' mem)) v' mem
              (path.1 (ap (λ (w : ℕ). w % 2) (sym same) ∙ odd))),
    )
  where
    page_of : (n table v : ℕ) → table % 4096 ≡ 0 → slot table v (shift_at n) / 4096 ≡ table / 4096
    page_of n table v aligned = omega arith
