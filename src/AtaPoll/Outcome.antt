-- ===== src/AtaPoll/Outcome.antt =====
-- A whole transfer, whatever the device answers.
use bootloader_kernel_in_nas.Base.{
  ℕ, zero, suc, ◌+◌, ◌*◌, ◌^◌, ◌≤◌, ◌<◌, Bool, true, false, not, ◌&&◌, List, [], ◌∷◌, ◌++◌,
  append_assoc, if◌then◌else◌, Bool-cases, ◌≡◌, inl, inr, refl, sym, ap, ap₂, ◌∙◌, arith,
}
use bootloader_kernel_in_nas.Page.{u64}
use bootloader_kernel_in_nas.Port.{Machine, block, incoming, store_words, load_words}
use bootloader_kernel_in_nas.AtaPoll.{
  Transfer, read_28, write_28, read_48, write_48, command, next_lba, poll_sector, poll_loop,
}
use bootloader_kernel_in_nas.AtaPoll.Wait.{for_idle}
use bootloader_kernel_in_nas.AtaPoll.Round.{IsRound, poll_sector-IsRound}
use bootloader_kernel_in_nas.AtaPoll.Sector.{
  is_read, issued, written, capacity, IsQuiet, wait-IsQuiet,
}

-- One command for each of `n` sectors from `lba` on, the latest first.
abbrev pub requests : Transfer → (n lba : ℕ) → List (ℕ × ℕ × ℕ)
requests t zero lba = []
requests t (suc n) lba = requests t n (lba + 1) ++ (command t, lba, 1) ∷ []

-- `n` sectors of memory from `ptr` on, the latest first.
abbrev pub sectors_of : (n ptr : ℕ) → (ℕ → ℕ) → List (List ℕ)
sectors_of zero ptr mem = []
sectors_of (suc n) ptr mem = sectors_of n (ptr + 512) mem ++ load_words 256 ptr mem ∷ []

-- Memory with `n` sectors of data, the `pos`-th word on, stored from `ptr` on.
unfoldable pub stored : (n ptr pos : ℕ) → (words mem : ℕ → ℕ) → ℕ → ℕ
stored zero ptr pos words mem = mem
stored (suc n) ptr pos words mem =
    stored n (ptr + 512) (pos + 256) words (store_words ptr (incoming 256 pos words) mem)

-- The outcome `r` of a transfer of `n` sectors: how many were begun and how many were moved.
pub record IsTransfer (t : Transfer) (n lba ptr : ℕ) (m : Machine) (r : Bool × Machine)
    : Type 0 where
  pub begun : ℕ
  pub moved : ℕ
  pub begun-le : begun ≤ n
  pub moved-le : moved ≤ begun
  pub one_open : begun ≤ moved + 1
  pub all_moved : r.0 ≡ true → moved ≡ n
  pub commands : issued t r.1.trace ≡ requests t begun lba ++ issued t m.trace
  pub writes :
      written r.1.trace
      ≡ (if is_read t then written m.trace else sectors_of moved ptr m.mem ++ written m.trace)
  pub mem : r.1.mem ≡ (if is_read t then stored moved ptr m.words_read m.words m.mem else m.mem)

next_lba-lt : (t : Transfer) (lba : ℕ) → lba + 1 ≤ capacity t → next_lba t lba ≡ lba + 1
next_lba-lt read_28 lba h = omega arith
next_lba-lt write_28 lba h = omega arith
next_lba-lt read_48 lba h = omega arith
next_lba-lt write_48 lba h = omega arith

-- The commands of a round that ended early.
one_request :
    (b : Bool) (t : Transfer) (lba : ℕ) (commands : List (ℕ × ℕ × ℕ))
    → (if b then (command t, lba, 1) ∷ commands else commands)
      ≡ requests t (if b then 1 else 0) lba ++ commands
one_request true t lba commands = refl
one_request false t lba commands = refl

join_writes :
    (b : Bool) (k ptr : ℕ) (mem mem' other : ℕ → ℕ) (w w' w'' : List (List ℕ))
    → mem' ≡ (if b then other else mem)
    → w' ≡ (if not b then load_words 256 ptr mem ∷ w else w)
    → w'' ≡ (if b then w' else sectors_of k (ptr + 512) mem' ++ w')
    → w'' ≡ (if b then w else sectors_of (suc k) ptr mem ++ w)
join_writes true k ptr mem mem' other w w' w'' hm h h' = h' ∙ h
join_writes false k ptr mem mem' other w w' w'' hm h h' =
    h'
    ∙ ap₂ (λ (f : ℕ → ℕ) (l : List (List ℕ)). sectors_of k (ptr + 512) f ++ l) hm h
    ∙ sym (append_assoc (sectors_of k (ptr + 512) mem) (load_words 256 ptr mem ∷ []) w)

join_mem :
    (b : Bool) (k ptr pos pos' : ℕ) (words words' mem mem' mem'' : ℕ → ℕ)
    → mem' ≡ (if b then store_words ptr (incoming 256 pos words) mem else mem)
    → pos' ≡ (if b then pos + 256 else pos)
    → words' ≡ words
    → mem'' ≡ (if b then stored k (ptr + 512) pos' words' mem' else mem')
    → mem'' ≡ (if b then stored (suc k) ptr pos words mem else mem)
unfolding stored
join_mem true k ptr pos pos' words words' mem mem' mem'' hm hp hw h =
    h
    ∙ ap (λ (p : ℕ). stored k (ptr + 512) p words' mem') hp
    ∙ ap₂ (stored k (ptr + 512) (pos + 256)) hw hm
join_mem false k ptr pos pos' words words' mem mem' mem'' hm hp hw h = h ∙ hm

if_same {ℓ} : {A : Type ℓ} (b : Bool) (x : A) → x ≡ (if b then x else x)
if_same true x = refl
if_same false x = refl

-- The outcome of a round that ended early.
stopped-IsTransfer :
    (t : Transfer) (n lba ptr : ℕ) (m : Machine) (r : Bool × Machine)
    → r.0 ≡ false
    → IsRound t lba ptr m r
    → IsTransfer t (suc n) lba ptr m (false, r.1)
unfolding stored
stopped-IsTransfer t n lba ptr m r failed s =
    let w : written r.1.trace ≡ written m.trace =
      s.writes
      ∙ ap
          (λ (b : Bool).
            if b && not (is_read t)
            then load_words 256 ptr m.mem ∷ written m.trace
            else written m.trace)
          failed in
    let same : r.1.mem ≡ m.mem =
      s.mem
      ∙ ap (λ (b : Bool). if b && is_read t then store_words ptr (block 256 m) m.mem else m.mem)
          failed in
    record {
      begun = if s.begun then 1 else 0;
      moved = 0;
      begun-le = ground arith;
      moved-le = omega arith;
      one_open = ground arith;
      all_moved = λ e. cc;
      commands = s.commands ∙ one_request s.begun t lba (issued t m.trace);
      writes = w ∙ if_same (is_read t) (written m.trace);
      mem = same ∙ if_same (is_read t) m.mem;
    }

-- A whole round before the rest of the transfer.
round-IsTransfer :
    (t : Transfer) (n lba ptr : ℕ) (m : Machine) (r r' : Bool × Machine)
    → r.0 ≡ true
    → IsRound t lba ptr m r
    → IsTransfer t n (lba + 1) (ptr + 512) r.1 r'
    → IsTransfer t (suc n) lba ptr m r'
round-IsTransfer t n lba ptr m r r' done s rest =
    let begun : issued t r.1.trace ≡ (command t, lba, 1) ∷ issued t m.trace =
      s.commands
      ∙ ap (λ (b : Bool). if b then (command t, lba, 1) ∷ issued t m.trace else issued t m.trace)
          (s.begun_first done) in
    let w =
      s.writes
      ∙ ap
          (λ (b : Bool).
            if b && not (is_read t)
            then load_words 256 ptr m.mem ∷ written m.trace
            else written m.trace)
          done in
    let mem' =
      s.mem
      ∙ ap (λ (b : Bool). if b && is_read t then store_words ptr (block 256 m) m.mem else m.mem)
          done in
    let pos =
      s.words_read
      ∙ ap (λ (b : Bool). if b && is_read t then m.words_read + 256 else m.words_read) done in
    record {
      begun = suc rest.begun;
      moved = suc rest.moved;
      begun-le = omega (arith, rest.begun-le);
      moved-le = omega (arith, rest.moved-le);
      one_open = omega (arith, rest.one_open);
      all_moved = λ e. omega (arith, rest.all_moved e);
      commands =
          rest.commands
          ∙ ap (◌++◌ (requests t rest.begun (lba + 1))) begun
          ∙ sym (
              append_assoc (requests t rest.begun (lba + 1)) ((command t, lba, 1) ∷ [])
                (issued t m.trace));
      writes =
          join_writes (is_read t) rest.moved ptr m.mem r.1.mem _ (written m.trace) _ _ mem' w
            rest.writes;
      mem =
          join_mem (is_read t) rest.moved ptr m.words_read r.1.words_read m.words r.1.words m.mem
            r.1.mem r'.1.mem mem' pos s.words rest.mem;
    }

-- A transfer of no sectors only waits.
waited-IsTransfer :
    (t : Transfer) (lba ptr : ℕ) (m : Machine) (r : Bool × Machine)
    → IsQuiet t m r.1
    → IsTransfer t 0 lba ptr m r
unfolding stored
waited-IsTransfer t lba ptr m r q = record {
  begun = 0;
  moved = 0;
  begun-le = omega arith;
  moved-le = omega arith;
  one_open = omega arith;
  all_moved = λ e. refl;
  commands = q.commands;
  writes = q.writes ∙ if_same (is_read t) (written m.trace);
  mem = q.mem ∙ if_same (is_read t) m.mem;
}

pub poll_loop-IsTransfer :
    (t : Transfer) (n lba ptr : ℕ) (m : Machine)
    → lba + n ≤ capacity t
    → ptr + 512 * n < 2 ^ 64
    → IsTransfer t n lba ptr m (poll_loop t n lba ptr m)
unfolding poll_loop
poll_loop-IsTransfer t zero lba ptr m small fits =
    waited-IsTransfer t lba ptr m _ (wait-IsQuiet t for_idle m)
poll_loop-IsTransfer t (suc n) lba ptr m small fits =
    let r = poll_sector t lba ptr m in
    let s = poll_sector-IsRound t lba ptr m (omega arith) in
    let rest = poll_loop-IsTransfer t n (lba + 1) (ptr + 512) r.1 (omega arith) (omega arith) in
    let next = next_lba-lt t lba (omega arith) in
    let place : u64 (ptr + 512) ≡ ptr + 512 = omega arith in
    rw (next, place)
      (elim (Bool-cases r.0) [
        | inl done ↦ rw done (round-IsTransfer t n lba ptr m r _ done s rest)
        | inr failed ↦ rw failed (stopped-IsTransfer t n lba ptr m r failed s)
      ])
