-- ===== src/AtaPoll/Init.antt =====
-- `ata_init`: what it writes, when it returns 1, and that it does where the disk answers.
use bootloader_kernel_in_nas.Base.{
  ℕ, zero, suc, ◌/◌, ◌%◌, ◌^◌, Bool, true, false, not, List, ◌∷◌, Option, none, some, ◌==◌,
  if◌then◌else◌, if_cases, ◌≡◌, ◌⊎◌, inl, inr, refl, ap, ◌∙◌, arith,
}
use bootloader_kernel_in_nas.Port.{Machine, PortOp, in_byte, answer, inb, outb}
use bootloader_kernel_in_nas.AtaIrq.{
  ata_reg_status, ata_reg_control, ata_reg_command, ata_reg_seccount, ata_reg_drive_sel,
}
use bootloader_kernel_in_nas.AtaIrq.TaskFile.{sent}
use bootloader_kernel_in_nas.AtaPoll.{
  ata_status_get, delay, init_loop, init_check, ata_init, ata_wait_idle, drq_timeout,
  ata_cmd_set_multiple,
}
use bootloader_kernel_in_nas.AtaPoll.Wait.{
  for_idle, wait_polls, verdict, polled, has_bsy, has_drdy, has_drq, has_df, has_err, has_bad,
}

-- The loop of `ata_init` acts on the verdict of `ata_wait_idle`.
pub init_loop_step :
    (timeout : ℕ) (m : Machine)
    → init_loop (suc timeout) m ≡ elim (verdict for_idle (answer m)) [
      | none ↦ init_loop timeout (ata_status_get m)
      | some b ↦ (b, ata_status_get m)
    ]
unfolding init_loop verdict
init_loop_step timeout m =
    ground (arith, has_bsy (answer m), has_drdy (answer m), has_df (answer m), has_err (answer m))

init_loop_polls : (timeout : ℕ) (m : Machine) → (k : ℕ) × ((init_loop timeout m).1 ≡ polled k m)
unfolding polled
init_loop_polls zero m = (0, unfold init_loop in refl)
init_loop_polls (suc timeout) m =
    go (verdict for_idle (answer m)) refl (init_loop_polls timeout (ata_status_get m))
  where
    go :
        (v : Option Bool)
        → verdict for_idle (answer m) ≡ v
        → (k : ℕ) × ((init_loop timeout (ata_status_get m)).1 ≡ polled k (ata_status_get m))
        → (k : ℕ) × ((init_loop (suc timeout) m).1 ≡ polled k m)
    go none e (k, same) =
        (suc k, ap (λ (r : Bool × Machine). r.1) (init_loop_step timeout m) ∙ rw e same)
    go (some b) e _ = (1, ap (λ (r : Bool × Machine). r.1) (init_loop_step timeout m) ∙ rw e refl)

sent-polled : (port k : ℕ) (m : Machine) → sent port (polled k m).trace ≡ sent port m.trace
unfolding polled ata_status_get inb
sent-polled port zero m = refl
sent-polled port (suc k) m = sent-polled port k (ata_status_get m)

sent-wait : (port : ℕ) (m : Machine) → sent port (ata_wait_idle m).1.trace ≡ sent port m.trace
sent-wait port m = let (k, le, same) = wait_polls for_idle m in rw same (sent-polled port k m)

-- The outcome of `ata_init`: the last status is in `r.1.trace`.
pub record IsInit (m : Machine) (r : Bool × Machine) : Type 0 where
  pub counts : sent ata_reg_seccount r.1.trace ≡ sent ata_reg_seccount m.trace
  pub control : sent ata_reg_control r.1.trace ≡ 0x02 ∷ sent ata_reg_control m.trace
  pub commands :
      (sent ata_reg_command r.1.trace ≡ sent ata_reg_command m.trace)
      ⊎ (sent ata_reg_command r.1.trace ≡ ata_cmd_set_multiple ∷ sent ata_reg_command m.trace)
  pub good :
      r.0 ≡ true
      → (status : ℕ) × (ops : List PortOp) × (r.1.trace ≡ in_byte ata_reg_status status ∷ ops)
        × (status % 2 ≡ 0)
        × (status / 2 ^ 5 % 2 ≡ 0)
        × (status / 2 ^ 3 % 2 ≡ 0)
        × (sent ata_reg_command r.1.trace ≡ ata_cmd_set_multiple ∷ sent ata_reg_command m.trace)

-- The machine before the first loop, after it, and after the last wait.
abbrev pub before_loop : Machine → Machine
before_loop m = delay (outb ata_reg_drive_sel 0xE0 (outb ata_reg_control 0x02 m))

abbrev after_loop : Machine → Machine
after_loop m = (init_loop drq_timeout (before_loop m)).1

abbrev after_wait : Machine → Machine
after_wait m =
    (ata_wait_idle (delay (outb ata_reg_command ata_cmd_set_multiple (delay (after_loop m))))).1

sent-after_loop :
    (port : ℕ) (m : Machine) → sent port (after_loop m).trace ≡ sent port (before_loop m).trace
sent-after_loop port m =
    let (k, same) = init_loop_polls drq_timeout (before_loop m) in
    rw same (sent-polled port k (before_loop m))

-- What has been sent once the SET MULTIPLE command is out.
sent-after_wait :
    (port : ℕ) (m : Machine)
    → sent port (after_wait m).trace ≡ (
        if ata_reg_command == port
        then ata_cmd_set_multiple ∷ sent port (before_loop m).trace
        else sent port (before_loop m).trace)
unfolding delay inb outb
sent-after_wait port m =
    sent-wait port (delay (outb ata_reg_command ata_cmd_set_multiple (delay (after_loop m))))
    ∙ ap (λ (l : List ℕ). if ata_reg_command == port then ata_cmd_set_multiple ∷ l else l)
        (sent-after_loop port m)

sent-check : (port : ℕ) (m : Machine) → sent port (init_check m).1.trace ≡ sent port m.trace
unfolding init_check inb
sent-check port m = ground (arith)

check_good :
    (m : Machine)
    → (init_check m).0 ≡ true
    → ((init_check m).1 ≡ ata_status_get m)
      × (answer m % 2 ≡ 0)
      × (answer m / 2 ^ 5 % 2 ≡ 0)
      × (answer m / 2 ^ 3 % 2 ≡ 0)
unfolding init_check
check_good m e = ground (arith, has_bad (answer m), has_drq (answer m))

loop_failed-IsInit : (m : Machine) → IsInit m (false, after_loop m)
unfolding delay inb outb
loop_failed-IsInit m = record {
  counts = sent-after_loop ata_reg_seccount m;
  control = sent-after_loop ata_reg_control m;
  commands = inl (sent-after_loop ata_reg_command m);
  good = λ e. cc;
}

wait_failed-IsInit : (m : Machine) → IsInit m (false, after_wait m)
unfolding delay inb outb
wait_failed-IsInit m = record {
  counts = sent-after_wait ata_reg_seccount m;
  control = sent-after_wait ata_reg_control m;
  commands = inr (sent-after_wait ata_reg_command m);
  good = λ e. cc;
}

checked-IsInit : (m : Machine) → IsInit m (init_check (after_wait m))
unfolding delay inb outb ata_status_get
checked-IsInit m =
    let command = sent-check ata_reg_command (after_wait m) ∙ sent-after_wait ata_reg_command m in
    record {
      counts = sent-check ata_reg_seccount (after_wait m) ∙ sent-after_wait ata_reg_seccount m;
      control = sent-check ata_reg_control (after_wait m) ∙ sent-after_wait ata_reg_control m;
      commands = inr command;
      good = λ e.
          let (same, err, df, drq) = check_good (after_wait m) e in
          (
            answer (after_wait m),
            (after_wait m).trace,
            ap (λ (m' : Machine). m'.trace) same,
            err,
            df,
            drq,
            command,
          );
    }

-- Whatever the disk answers, `ata_init` disables its interrupts, sends at most the SET MULTIPLE
-- command, and never writes the sector count that this command reads. It returns 1 only after that
-- command, and after a last status with no error, no fault and no data request.
pub ata_init-IsInit : (m : Machine) → IsInit m (ata_init m)
unfolding ata_init
ata_init-IsInit m =
    if_cases (IsInit m) (not (init_loop drq_timeout (before_loop m)).0) (λ e. loop_failed-IsInit m)
      (λ e.
        if_cases (IsInit m)
          (not
            (ata_wait_idle
              (delay (outb ata_reg_command ata_cmd_set_multiple (delay (after_loop m))))).0)
          (λ e'. wait_failed-IsInit m) (λ e'. checked-IsInit m))
