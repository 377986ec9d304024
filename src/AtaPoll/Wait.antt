-- ===== src/AtaPoll/Wait.antt =====
-- The waiting loops: which status ends them, and what it means.
use bootloader_kernel_in_nas.Base.{
  ℕ, zero, suc, ◌+◌, ◌*◌, ◌/◌, ◌%◌, ◌^◌, ◌≤◌, ◌<◌, bit_and, Bool, true, false, ◌||◌, Option, none,
  some, ◌==◌, if◌then◌else◌, ◌≡◌, refl, sym, ap, ◌∙◌, arith,
}
use bootloader_kernel_in_nas.Bits.{bit_and_step, bit_and-ones, bit_and-shift}
use bootloader_kernel_in_nas.Port.{Machine, u8, answer, inb}
use bootloader_kernel_in_nas.AtaPoll.{
  ata_status_get, wait_idle_loop, wait_drq_loop, ata_wait_idle, ata_wait_drq, idle_timeout,
  drq_timeout,
}

-- What a wait waits for.
pub data Wait : Type 0 where
  for_idle for_drq : Wait

-- The digit of the status that a wait waits for: DRDY or DRQ.
abbrev pub wanted : Wait → ℕ → Bool
wanted for_idle status = status / 2 ^ 6 % 2 == 1
wanted for_drq status = status / 2 ^ 3 % 2 == 1

-- What a status says to a wait: no device, an error or a fault, success, or nothing yet.
unfoldable pub verdict : Wait → (status : ℕ) → Option Bool
verdict w status =
    if status == 255
    then some false
    else if status / 2 ^ 7 % 2 == 1
    then none
    else if status % 2 == 1 || status / 2 ^ 5 % 2 == 1
    then some false
    else if wanted w status
    then some true
    else none

abbrev pub wait_loop : Wait → (timeout : ℕ) → Machine → Bool × Machine
wait_loop for_idle timeout m = wait_idle_loop timeout m
wait_loop for_drq timeout m = wait_drq_loop timeout m

-- The machine after `k` more reads of the status.
unfoldable pub polled : (k : ℕ) → Machine → Machine
unfolding ata_status_get
polled zero m = m
polled (suc k) m = polled k (ata_status_get m)

pub has_bsy : (st : ℕ) → bit_and st 0x80 ≡ 128 * (st / 128 % 2)
has_bsy st = omega (arith, bit_and-shift 7 st 1, bit_and-ones 1 (st / 2 ^ 7))

pub has_drdy : (st : ℕ) → bit_and st 0x40 ≡ 64 * (st / 64 % 2)
has_drdy st = omega (arith, bit_and-shift 6 st 1, bit_and-ones 1 (st / 2 ^ 6))

pub has_drq : (st : ℕ) → bit_and st 0x08 ≡ 8 * (st / 8 % 2)
has_drq st = omega (arith, bit_and-shift 3 st 1, bit_and-ones 1 (st / 2 ^ 3))

pub has_df : (st : ℕ) → bit_and st 0x20 ≡ 32 * (st / 32 % 2)
has_df st = omega (arith, bit_and-shift 5 st 1, bit_and-ones 1 (st / 2 ^ 5))

pub has_err : (st : ℕ) → bit_and st 0x01 ≡ st % 2
has_err st = bit_and-ones 1 st

pub has_bad : (st : ℕ) → bit_and st 0x21 ≡ st % 2 + 32 * (st / 32 % 2)
has_bad st =
    omega (arith, bit_and_step st 33, bit_and-shift 4 (st / 2) 1, bit_and-ones 1 (st / 2 / 2 ^ 4))

-- A round of a wait acts on the verdict.
wait_loop_step :
    (w : Wait) (timeout : ℕ) (m : Machine)
    → wait_loop w (suc timeout) m ≡ elim (verdict w (answer m)) [
      | none ↦ wait_loop w timeout (ata_status_get m)
      | some b ↦ (b, ata_status_get m)
    ]
unfolding wait_idle_loop wait_drq_loop verdict
wait_loop_step for_idle timeout m =
    ground (arith, has_bsy (answer m), has_drdy (answer m), has_bad (answer m))
wait_loop_step for_drq timeout m =
    ground (arith, has_bsy (answer m), has_drq (answer m), has_bad (answer m))

-- The `k`-th status from now on.
abbrev pub status_at : Machine → ℕ → ℕ
status_at m k = u8 (m.answers (m.reads + k))

pub later_status : (m : Machine) (k : ℕ) → status_at (ata_status_get m) k ≡ status_at m (suc k)
unfolding ata_status_get inb
later_status m k = ap (λ (n : ℕ). u8 (m.answers n)) (omega arith)

pub now_status : (m : Machine) → status_at m 0 ≡ answer m
now_status m = ap (λ (n : ℕ). u8 (m.answers n)) (omega arith)

wait_loop_first :
    (w : Wait) (timeout k : ℕ) (b : Bool) (m : Machine)
    → k < timeout
    → ((j : ℕ) → j < k → verdict w (status_at m j) ≡ none)
    → verdict w (status_at m k) ≡ some b
    → wait_loop w timeout m ≡ (b, polled (suc k) m)
unfolding polled
wait_loop_first w zero k b m l quiet found = absurd (omega arith)
wait_loop_first w (suc timeout) zero b m l quiet found =
    let here : verdict w (answer m) ≡ some b = ap (verdict w) (sym (now_status m)) ∙ found in
    wait_loop_step w timeout m ∙ rw here refl
wait_loop_first w (suc timeout) (suc k) b m l quiet found =
    let here : verdict w (answer m) ≡ none =
      ap (verdict w) (sym (now_status m)) ∙ quiet 0 (omega arith) in
    let rest =
      wait_loop_first w timeout k b (ata_status_get m) (omega arith)
        (λ j lj. ap (verdict w) (later_status m j) ∙ quiet (suc j) (omega arith))
        (ap (verdict w) (later_status m k) ∙ found) in
    wait_loop_step w timeout m ∙ rw here rest

wait_loop-none :
    (w : Wait) (timeout : ℕ) (m : Machine)
    → ((j : ℕ) → j < timeout → verdict w (status_at m j) ≡ none)
    → wait_loop w timeout m ≡ (false, polled timeout m)
unfolding polled
wait_loop-none for_idle zero m quiet = unfold wait_idle_loop in refl
wait_loop-none for_drq zero m quiet = unfold wait_drq_loop in refl
wait_loop-none w (suc timeout) m quiet =
    let here : verdict w (answer m) ≡ none =
      ap (verdict w) (sym (now_status m)) ∙ quiet 0 (omega arith) in
    let rest =
      wait_loop-none w timeout (ata_status_get m)
        (λ j lj. ap (verdict w) (later_status m j) ∙ quiet (suc j) (omega arith)) in
    wait_loop_step w timeout m ∙ rw here rest

-- Whatever the device answers, a wait does nothing but read the status, at most `timeout` times.
pub wait_loop_polls :
    (w : Wait) (timeout : ℕ) (m : Machine)
    → (k : ℕ) × (k ≤ timeout) × ((wait_loop w timeout m).1 ≡ polled k m)
unfolding polled
wait_loop_polls for_idle zero m = (0, omega arith, unfold wait_idle_loop in refl)
wait_loop_polls for_drq zero m = (0, omega arith, unfold wait_drq_loop in refl)
wait_loop_polls w (suc timeout) m =
    go (verdict w (answer m)) refl (wait_loop_polls w timeout (ata_status_get m))
  where
    go :
        (v : Option Bool)
        → verdict w (answer m) ≡ v
        → (k : ℕ) × (k ≤ timeout)
          × ((wait_loop w timeout (ata_status_get m)).1 ≡ polled k (ata_status_get m))
        → (k : ℕ) × (k ≤ suc timeout) × ((wait_loop w (suc timeout) m).1 ≡ polled k m)
    go none e (k, le, same) = (
      suc k,
      omega arith,
      ap (λ (r : Bool × Machine). r.1) (wait_loop_step w timeout m) ∙ rw e same,
    )
    go (some b) e _ =
        (1, omega arith, ap (λ (r : Bool × Machine). r.1) (wait_loop_step w timeout m) ∙ rw e refl)

-- `ata_wait_idle` and `ata_wait_drq`, and their timeouts
abbrev pub wait : Wait → Machine → Bool × Machine
wait for_idle m = ata_wait_idle m
wait for_drq m = ata_wait_drq m

abbrev pub limit : Wait → ℕ
limit for_idle = idle_timeout
limit for_drq = drq_timeout

wait_lem : (w : Wait) (m : Machine) → wait w m ≡ wait_loop w (limit w) m
unfolding ata_wait_idle ata_wait_drq
wait_lem for_idle m = refl
wait_lem for_drq m = refl

-- `ata_wait_idle` and `ata_wait_drq` end at the first status that has a verdict, within their
-- timeout: they return the verdict and have done nothing but read the status up to that one.
pub wait_first :
    (w : Wait) (k : ℕ) (b : Bool) (m : Machine)
    → k < limit w
    → ((j : ℕ) → j < k → verdict w (status_at m j) ≡ none)
    → verdict w (status_at m k) ≡ some b
    → wait w m ≡ (b, polled (suc k) m)
wait_first w k b m l quiet found = wait_lem w m ∙ wait_loop_first w (limit w) k b m l quiet found

-- While no status has a verdict, `ata_wait_idle` and `ata_wait_drq` give up after exactly their
-- timeout: they return 0 and have done nothing but read the status so often.
pub wait_timeout :
    (w : Wait) (m : Machine)
    → ((j : ℕ) → j < limit w → verdict w (status_at m j) ≡ none)
    → wait w m ≡ (false, polled (limit w) m)
wait_timeout w m quiet = wait_lem w m ∙ wait_loop-none w (limit w) m quiet

pub wait_polls : (w : Wait) (m : Machine) → (k : ℕ) × (k ≤ limit w) × ((wait w m).1 ≡ polled k m)
wait_polls w m =
    let (k, le, same) = wait_loop_polls w (limit w) m in
    (k, le, ap (λ (r : Bool × Machine). r.1) (wait_lem w m) ∙ same)
