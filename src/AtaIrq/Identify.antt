-- ===== src/AtaIrq/Identify.antt =====
-- The initialisation of the driver: IDENTIFY, its interrupt, and the data.
use bootloader_kernel_in_nas.Base.{
  ℕ, zero, suc, ◌+◌, ◌≡◌, Bool, true, false, List, [], ◌∷◌, ◌++◌, if◌then◌else◌,
}
use bootloader_kernel_in_nas.Port.{Machine, u8, inb, outb, block, insw, incoming}
use bootloader_kernel_in_nas.Pic.{send_eoi, pic_irq_ata_primary}
use bootloader_kernel_in_nas.AtaIrq.{
  AtaOp, no_op, init_identify_wait, init_done, init_fail, AtaContext, Driver, ata_reg_data,
  ata_reg_seccount, ata_reg_lba_low, ata_reg_lba_mid, ata_reg_lba_high, ata_reg_drive_sel,
  ata_reg_command, ata_reg_status, ata_reg_control, ata_dh_lba_master, ata_status_is_bad,
}
use bootloader_kernel_in_nas.AtaIrq.Events.{Event, tick, interrupt}
use bootloader_kernel_in_nas.AtaIrq.Sector.{delayed}
use bootloader_kernel_in_nas.AtaIrq.TaskFile.{sent}

abbrev pub ticks : ℕ → List Event
ticks zero = []
ticks (suc n) = tick ∷ ticks n

-- Five ticks up to the command, `n` more before the interrupt comes, and two after it.
abbrev pub identify_events : ℕ → List Event
identify_events n = ticks 5 ++ (ticks n ++ interrupt ∷ ticks 2)

-- The context while IDENTIFY is under way.
abbrev waiting : AtaOp → AtaContext → AtaContext
waiting op c = record c {
  irq_fired = false;
  last_status = 0;
  op = op;
  step = init_identify_wait;
  delay_400 = 0;
}

-- The machine once IDENTIFY is sent, and once its interrupt is handled.
unfoldable identified : Machine → Machine
unfolding delayed
identified m = outb ata_reg_command 0xEC (
    outb ata_reg_lba_high 0 (
      outb ata_reg_lba_mid 0 (
        outb ata_reg_lba_low 0 (
          outb ata_reg_seccount 0
            (delayed (outb ata_reg_drive_sel ata_dh_lba_master (outb ata_reg_control 0 m)))))))

unfoldable acknowledged : Machine → Machine
acknowledged m = send_eoi pic_irq_ata_primary (inb ata_reg_status m)

-- The end of the initialisation: what the interrupt's status `st` makes of it.
abbrev ended : (bad : Bool) (st : ℕ) → AtaContext → Machine → Driver
ended true st c m = record {
  ctx = record c {
    irq_fired = false;
    last_status = st;
    op = no_op;
    step = init_fail;
    delay_400 = 0;
  };
  io = m;
}
ended false st c m = record {
  ctx = record c {
    irq_fired = false;
    last_status = st;
    op = no_op;
    step = init_done;
    delay_400 = 0;
    identify = block 256 m;
  };
  io = insw ata_reg_data 256 m;
}

-- The status that the interrupt's handler reads: the delay before IDENTIFY has read four answers.
abbrev pub interrupt_status : Machine → ℕ
interrupt_status m = u8 (m.answers (m.reads + 4))

-- The driver after its initialisation.
pub record IsIdentified (d d' : Driver) : Type 0 where
  pub step :
      d'.ctx.step ≡ (if ata_status_is_bad (interrupt_status d.io) then init_fail else init_done)
  pub data_read : d'.ctx.identify ≡ (
      if ata_status_is_bad (interrupt_status d.io)
      then d.ctx.identify
      else incoming 256 d.io.words_read d.io.words)
  pub commands : sent ata_reg_command d'.io.trace ≡ 0xEC ∷ sent ata_reg_command d.io.trace
  pub mem : d'.io.mem ≡ d.io.mem
