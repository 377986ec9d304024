-- ===== src/AtaIrq/Race.antt =====
-- kernel/ata_driver_irq.c: an interrupt in the middle of the two handlers that send a command.
use bootloader_kernel_in_nas.Base.{
  ℕ, zero, suc, Bool, true, false, ◌==◌, if◌then◌else◌, List, [], ◌∷◌, ◌≡◌, refl, ◌⊎◌,
}
use bootloader_kernel_in_nas.Port.{outb}
use bootloader_kernel_in_nas.AtaIrq.{
  AtaStep, init_identify_wait, io_wait_irq, Driver, irq14_ata, ata_irq_flags_reset,
  ata_reg_seccount, ata_reg_lba_low, ata_reg_lba_mid, ata_reg_lba_high, ata_reg_command,
}
use bootloader_kernel_in_nas.AtaIrq.Tick.{
  is_28, is_init, taskfile_28, taskfile_48, ata_init_identify_cmd_handle,
  ata_io_issue_taskfile_handle,
}

-- The two places that send a command and then wait for an interrupt.
pub data Sender : Type 0 where
  identify_cmd taskfile_cmd : Sender

-- `ata_irq_flags_reset()` in a handler
unfoldable pub flags_reset : Driver → Driver
unfolding ata_irq_flags_reset
flags_reset d = record d { ctx = ata_irq_flags_reset d.ctx }

-- `g_ata_ctx.step = ...`
unfoldable pub step_to : AtaStep → Driver → Driver
step_to step d = record d { ctx = record d.ctx { step = step } }

-- The registers of IDENTIFY, the command last
unfoldable pub send_identify : Driver → Driver
send_identify d = record d {
  io = outb ata_reg_command 0xEC (
      outb ata_reg_lba_high 0
        (outb ata_reg_lba_mid 0 (outb ata_reg_lba_low 0 (outb ata_reg_seccount 0 d.io))));
}

-- The registers of a request, the command last
unfoldable pub send_taskfile : Driver → Driver
unfolding taskfile_28 taskfile_48
send_taskfile d = record d {
  io =
      if is_28 d.ctx.op
      then taskfile_28 d.ctx.op d.ctx.lba d.io
      else taskfile_48 d.ctx.op d.ctx.lba d.io;
}

unfoldable pub one_batch : Driver → Driver
one_batch d = record d { ctx = record d.ctx { batch_left = 1 } }

-- The statements of a sender in their order, those behind the guard of the second.
unfoldable pub statements : Sender → List (Driver → Driver)
unfolding flags_reset step_to send_identify send_taskfile one_batch
statements identify_cmd = send_identify ∷ flags_reset ∷ step_to init_identify_wait ∷ []
statements taskfile_cmd = one_batch ∷ send_taskfile ∷ flags_reset ∷ step_to io_wait_irq ∷ []

unfoldable pub perform : List (Driver → Driver) → Driver → Driver
perform [] d = d
perform (f ∷ fs) d = perform fs (f d)

-- With one interrupt, before the statement at `k`, or after all of them.
unfoldable pub interrupted : (k : ℕ) → List (Driver → Driver) → Driver → Driver
unfolding perform irq14_ata
interrupted zero fs d = perform fs (irq14_ata d)
interrupted (suc k) [] d = irq14_ata d
interrupted (suc k) (f ∷ fs) d = interrupted k fs (f d)

-- The handler as a whole.
abbrev pub handler : Sender → Driver → Driver
handler identify_cmd = ata_init_identify_cmd_handle
handler taskfile_cmd = ata_io_issue_taskfile_handle

-- The place of `ata_irq_flags_reset()` among the statements.
abbrev pub reset_at : Sender → ℕ
reset_at identify_cmd = 1
reset_at taskfile_cmd = 2

-- The step in which the answer is awaited.
abbrev pub awaits : Sender → AtaStep
awaits identify_cmd = init_identify_wait
awaits taskfile_cmd = io_wait_irq

-- Whether the operation is an initialisation.
abbrev pub init_op : Sender → Bool
init_op identify_cmd = true
init_op taskfile_cmd = false

-- No delay runs, the operation is of the sender's kind, and the guard of the second sender passes.
pub record IsSending (i : Sender) (d : Driver) : Type 0 where
  pub no_delay : d.ctx.delay_400 ≡ 0
  pub op : is_init d.ctx.op ≡ init_op i
  pub some_left : (d.ctx.sectors_left == 0) ≡ false

-- Statement by statement, the handlers are what they are as a whole.
pub perform-handler :
    (i : Sender) (d : Driver) → IsSending i d → perform (statements i) d ≡ handler i d
unfolding perform statements ata_init_identify_cmd_handle ata_io_issue_taskfile_handle
perform-handler identify_cmd d h = refl
perform-handler taskfile_cmd d h = rw h.some_left refl

-- A state that no tick changes.
record IsStuck (i : Sender) (d : Driver) : Type 0 where
  no_delay : d.ctx.delay_400 ≡ 0
  op : is_init d.ctx.op ≡ init_op i
  waits : d.ctx.step ≡ awaits i
  forgotten : d.ctx.irq_fired ≡ false
  some_batch : d.ctx.batch_left ≡ 1 ⊎ (init_op i ≡ true)
