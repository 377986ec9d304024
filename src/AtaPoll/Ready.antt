-- ===== src/AtaPoll/Ready.antt =====
-- `ata_init` with a disk that gets ready.
use bootloader_kernel_in_nas.Base.{
  ℕ, zero, suc, ◌+◌, ◌/◌, ◌%◌, ◌^◌, ◌<◌, Bool, true, none, some, ◌≡◌, refl, sym, ap, ◌∙◌, arith,
}
use bootloader_kernel_in_nas.Port.{Machine, u8, answer, inb, outb}
use bootloader_kernel_in_nas.AtaIrq.{ata_reg_command}
use bootloader_kernel_in_nas.AtaPoll.{
  ata_status_get, delay, init_loop, init_check, ata_init, drq_timeout, ata_cmd_set_multiple,
}
use bootloader_kernel_in_nas.AtaPoll.Wait.{
  for_idle, verdict, polled, status_at, now_status, later_status, has_bad, has_drq,
}
use bootloader_kernel_in_nas.AtaPoll.Served.{IsSeen, IsAt, polled-IsAt, wait_seen}
use bootloader_kernel_in_nas.AtaPoll.Init.{before_loop, init_loop_step}

init_loop_first :
    (timeout k : ℕ) (b : Bool) (m : Machine)
    → k < timeout
    → ((j : ℕ) → j < k → verdict for_idle (status_at m j) ≡ none)
    → verdict for_idle (status_at m k) ≡ some b
    → init_loop timeout m ≡ (b, polled (suc k) m)
unfolding polled
init_loop_first zero k b m l quiet found = absurd (omega arith)
init_loop_first (suc timeout) zero b m l quiet found =
    let here : verdict for_idle (answer m) ≡ some b =
      ap (verdict for_idle) (sym (now_status m)) ∙ found in
    init_loop_step timeout m ∙ rw here refl
init_loop_first (suc timeout) (suc k) b m l quiet found =
    let here : verdict for_idle (answer m) ≡ none =
      ap (verdict for_idle) (sym (now_status m)) ∙ quiet 0 (omega arith) in
    let rest =
      init_loop_first timeout k b (ata_status_get m) (omega arith)
        (λ j lj. ap (verdict for_idle) (later_status m j) ∙ quiet (suc j) (omega arith))
        (ap (verdict for_idle) (later_status m k) ∙ found) in
    init_loop_step timeout m ∙ rw here rest

-- The positions of the answers that the last wait and the last test of `ata_init` read first, when
-- the loops before them end at their `k`-th and `k'`-th status.
abbrev pub wait_place : (k pos : ℕ) → ℕ
wait_place k pos = pos + 4 + suc k + 8

abbrev pub test_place : (k k' pos : ℕ) → ℕ
test_place k k' pos = wait_place k pos + suc k'

-- A status with no error, no fault and no data request.
abbrev pub IsFine : (status : ℕ) → Type 0
IsFine status = (status % 2 ≡ 0) × (status / 2 ^ 5 % 2 ≡ 0) × (status / 2 ^ 3 % 2 ≡ 0)

-- The answers from `pos` on are those of a disk that gets ready before the SET MULTIPLE command and
-- after it, each time within the timeout, and is fine then.
pub record GetsReady (k k' pos : ℕ) (answers : ℕ → ℕ) : Type 0 where
  pub within : k < drq_timeout
  pub not_yet : (j : ℕ) → j < k → verdict for_idle (u8 (answers (pos + 4 + j))) ≡ none
  pub ready : verdict for_idle (u8 (answers (pos + 4 + k))) ≡ some true
  pub again : IsSeen for_idle (wait_place k pos) answers k'
  pub fine : IsFine (u8 (answers (test_place k k' pos)))

-- The machine after the loop, after the last wait, and after `ata_init`.
abbrev pub looped : (k : ℕ) → Machine → Machine
looped k m =
    delay (outb ata_reg_command ata_cmd_set_multiple (delay (polled (suc k) (before_loop m))))

abbrev pub initialised : (k k' : ℕ) → Machine → Machine
initialised k k' m = ata_status_get (polled (suc k') (looped k m))

before_loop-IsAt : (m : Machine) → IsAt (before_loop m) (m.reads + 4) m.answers
unfolding delay inb outb
before_loop-IsAt m = record { reads = omega arith; same = refl }

looped-IsAt : (k : ℕ) (m : Machine) → IsAt (looped k m) (wait_place k m.reads) m.answers
unfolding delay inb outb
looped-IsAt k m =
    let a = polled-IsAt (suc k) (before_loop m) (before_loop-IsAt m) in
    record { reads = omega (arith, a.reads); same = a.same }

pub initialised-IsAt :
    (k k' : ℕ) (m : Machine) → IsAt (initialised k k' m) (test_place k k' m.reads + 1) m.answers
unfolding ata_status_get inb
initialised-IsAt k k' m =
    let a = polled-IsAt (suc k') (looped k m) (looped-IsAt k m) in
    record { reads = omega (arith, a.reads); same = a.same }

answer-IsAt :
    (m : Machine) (pos : ℕ) (answers : ℕ → ℕ) → IsAt m pos answers → answer m ≡ u8 (answers pos)
answer-IsAt m pos answers a =
    ap (λ (n : ℕ). u8 (m.answers n)) a.reads ∙ ap (λ (f : ℕ → ℕ). u8 (f pos)) a.same

init_check-fine : (m : Machine) → IsFine (answer m) → init_check m ≡ (true, ata_status_get m)
unfolding init_check
init_check-fine m (err, df, drq) = ground (arith, has_bad (answer m), has_drq (answer m))

pub ata_init-initialised :
    (k k' : ℕ) (m : Machine)
    → GetsReady k k' m.reads m.answers
    → ata_init m ≡ (true, initialised k k' m)
unfolding ata_init
ata_init-initialised k k' m r =
    let a = before_loop-IsAt m in
    let status : (j : ℕ) → status_at (before_loop m) j ≡ u8 (m.answers (m.reads + 4 + j)) = λ j.
      ap (λ (n : ℕ). u8 ((before_loop m).answers (n + j))) a.reads
      ∙ ap (λ (f : ℕ → ℕ). u8 (f (m.reads + 4 + j))) a.same in
    let loop =
      init_loop_first drq_timeout k true (before_loop m) r.within
        (λ j l. ap (verdict for_idle) (status j) ∙ r.not_yet j l)
        (ap (verdict for_idle) (status k) ∙ r.ready) in
    let idle =
      wait_seen for_idle (looped k m) (wait_place k m.reads) m.answers k' (looped-IsAt k m)
        r.again in
    let last = polled-IsAt (suc k') (looped k m) (looped-IsAt k m) in
    let fine : IsFine (answer (polled (suc k') (looped k m))) =
      rw (answer-IsAt (polled (suc k') (looped k m)) _ m.answers last) r.fine in
    rw (loop, idle, init_check-fine (polled (suc k') (looped k m)) fine) refl

-- `ata_init` returns 1 where the disk gets ready, before the SET MULTIPLE command and after it, each
-- time within the timeout, and then reports no error, no fault and no data request.
pub ready-ata_init :
    (k k' : ℕ) (m : Machine) → GetsReady k k' m.reads m.answers → (ata_init m).0 ≡ true
ready-ata_init k k' m r = ap (λ (o : Bool × Machine). o.0) (ata_init-initialised k k' m r)
