-- ===== src/Vmm/Requests.antt =====
-- kernel/vmm.c: histories of `vmm_page_alloc` and `vmm_page_free`, against the set of pages given.
use bootloader_kernel_in_nas.Base.{
  ℕ, ◌+◌, ◌/◌, ◌^◌, ◌<◌, Bool, true, false, Option, none, some, update, ◌==◌, Bool-cases, List, [],
  ◌∷◌, ◌>>=◌, ◌≡◌, refl, ◌∙◌, inl, inr, arith,
}
use mathlib.Core.Path.{subst}
use bootloader_kernel_in_nas.Vmm.{Vmm, vmm_page_alloc, vmm_page_free}
use bootloader_kernel_in_nas.Vmm.Entry.{address}
use bootloader_kernel_in_nas.Vmm.Serve.{IsServing, IsLoose, vmm_page_alloc-IsServed}
use bootloader_kernel_in_nas.Vmm.Reclaim.{vmm_page_free-IsServing}
use bootloader_kernel_in_nas.Vmm.Space.{Owners}

pub data Request : Type 0 where
  alloc free : (v flags : ℕ) → Request

-- A call; `none` is a fault, or NULL.
unfoldable pub call : Request → Vmm → Option Vmm
call (alloc v flags) s =
    vmm_page_alloc v flags s >>= λ (found, s'). elim found [ none ↦ none | some addr ↦ some s' ]
call (free v flags) s = vmm_page_free v flags s

unfoldable pub calls : List Request → Vmm → Option Vmm
unfolding call
calls [] s = some s
calls (r ∷ rs) s = call r s >>= calls rs

-- The set of pages that are given, after a request and after all of them.
abbrev pub next : Request → (ℕ → Bool) → ℕ → Bool
next (alloc v flags) pages = update pages (v / 4096) true
next (free v flags) pages = update pages (v / 4096) false

abbrev pub pages_after : List Request → (ℕ → Bool) → ℕ → Bool
pages_after [] pages = pages
pages_after (r ∷ rs) pages = pages_after rs (next r pages)

-- Requests for addresses of the lower half outside the fixed pages; only given pages are taken back.
unfoldable pub IsAllowed : (Fixed : ℕ → Type 0) → List Request → (ℕ → Bool) → Type 0
IsAllowed Fixed [] pages = Unit
IsAllowed Fixed (alloc v flags ∷ rs) pages =
    ((flags < 2 ^ 64) × (address flags ≡ 0) × (v < 2 ^ 47) × IsLoose Fixed v)
    × IsAllowed Fixed rs (next (alloc v flags) pages)
IsAllowed Fixed (free v flags ∷ rs) pages =
    (IsLoose Fixed v × (pages (v / 4096) ≡ true)) × IsAllowed Fixed rs (next (free v flags) pages)

abbrev pub is_some : Option ℕ → Bool
is_some none = false
is_some (some x) = true

-- How many free frames the requests may need.
abbrev pub need : List Request → ℕ
need [] = 0
need (alloc v flags ∷ rs) = 4 + need rs
need (free v flags ∷ rs) = need rs

-- `result` is a state that serves with just the pages in `pages` given.
pub record IsKept (Fixed : ℕ → Type 0) (max_pa count : ℕ) (pages : ℕ → Bool) (result : Option Vmm)
    : Type 0 where
  pub out : Vmm
  pub own : Owners
  pub given : ℕ → Option ℕ
  pub returns : result ≡ some out
  pub serving : IsServing own Fixed max_pa count given out
  pub given_pages : (p : ℕ) → is_some (given p) ≡ pages p

is_some-update :
    (given : ℕ → Option ℕ) (pages : ℕ → Bool) (p : ℕ) (o : Option ℕ)
    → ((q : ℕ) → is_some (given q) ≡ pages q)
    → (q : ℕ) → is_some (update given p o q) ≡ update pages p (is_some o) q
is_some-update given pages p o same q = elim (Bool-cases (q == p)) [
  | inl e ↦ rw e refl
  | inr e ↦ rw e (same q)
]

held_frame : (o : Option ℕ) → is_some o ≡ true → (f : ℕ) × (o ≡ some f)
held_frame none h = absurd (ground arith)
held_frame (some f) h = (f, refl)

-- From a state that serves with the pages in `pages` given, every list of allowed requests returns with
-- each page that it asks for, while four frames are free for each of them besides `count` others: the
-- state at the end serves with just the pages given that were asked for and not taken back since.
pub calls-IsKept :
    (rs : List Request) (own : Owners) (Fixed : ℕ → Type 0) (max_pa count : ℕ)
    (given : ℕ → Option ℕ) (pages : ℕ → Bool) (s : Vmm)
    → ((p : ℕ) → is_some (given p) ≡ pages p)
    → IsAllowed Fixed rs pages
    → IsServing own Fixed max_pa (need rs + count) given s
    → IsKept Fixed max_pa count (pages_after rs pages) (calls rs s)
unfolding calls call IsAllowed
calls-IsKept [] own Fixed max_pa count given pages s same allowed i = record {
  out = s;
  own = own;
  given = given;
  returns = refl;
  serving = subst (λ (n : ℕ). IsServing own Fixed max_pa n given s) (omega arith) i;
  given_pages = same;
}
calls-IsKept (alloc v flags ∷ rs) own Fixed max_pa count given pages s same allowed i =
    let (small, clear, low, loose) = allowed.0 in
    let one =
      vmm_page_alloc-IsServed own Fixed max_pa (need rs + count) given v flags s small clear low
        loose (subst (λ (n : ℕ). IsServing own Fixed max_pa n given s) (omega arith) i) in
    let rest =
      calls-IsKept rs one.own' Fixed max_pa count (update given (v / 4096) (some one.frame))
        (next (alloc v flags) pages) one.out
        (is_some-update given pages (v / 4096) (some one.frame) same) allowed.1 one.serving in
    record {
      out = rest.out;
      own = rest.own;
      given = rest.given;
      returns = rw one.returns rest.returns;
      serving = rest.serving;
      given_pages = rest.given_pages;
    }
calls-IsKept (free v flags ∷ rs) own Fixed max_pa count given pages s same allowed i =
    let (f, there) = held_frame (given (v / 4096)) (same (v / 4096) ∙ allowed.0.1) in
    let (out, returns, serving) =
      vmm_page_free-IsServing own Fixed max_pa (need rs + count) given v flags f s allowed.0.0 i
        there in
    let rest =
      calls-IsKept rs own Fixed max_pa count (update given (v / 4096) none)
        (next (free v flags) pages) out (is_some-update given pages (v / 4096) none same) allowed.1
        serving in
    record {
      out = rest.out;
      own = rest.own;
      given = rest.given;
      returns = rw returns rest.returns;
      serving = rest.serving;
      given_pages = rest.given_pages;
    }
