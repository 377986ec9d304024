-- ===== src/AtaIrq.antt =====
-- kernel/ata_driver_irq.c and kernel/ata_driver_irq.h: the interrupt-driven ATA driver.
-- A function that reads or writes `g_ata_ctx` and ports takes and returns both, as a `Driver`.
-- An interrupt arrives between two calls here; AtaIrq.Race has one inside a call.
pub mod Begin
pub mod Complete
pub mod Events
pub mod Identify
pub mod Invariant
pub mod Race
pub mod Sector
pub mod Transfer
pub mod TaskFile
pub mod Tick
pub mod Typed
use bootloader_kernel_in_nas.Base.{
  ℕ, ◌+◌, ◌-◌, ◌*◌, ◌/◌, ◌%◌, ◌^◌, bit_and, bit_or, Bool, true, false, not, ◌&&◌, ◌||◌, List, [],
  ltb, ◌==◌, if◌then◌else◌,
}
use bootloader_kernel_in_nas.Pic.{send_eoi, pic_irq_ata_primary}
use bootloader_kernel_in_nas.Port.{
  Machine, u8, u32, answer, outb, inb, block, insw, insw_mem, outsw,
}

pub data AtaOp : Type 0 where
  no_op init_28 init_48 read_28 write_28 read_48 write_48 : AtaOp

pub data AtaStep : Type 0 where
  idle : AtaStep
  init_select init_identify_cmd init_identify_wait init_identify_xfer : AtaStep
  init_setmult_cmd init_setmult_wait init_done init_fail : AtaStep
  io_issue_select io_issue_taskfile io_issue_batch io_wait_irq io_xfer_block : AtaStep
  io_wait_done io_done io_fail : AtaStep

-- `ata_context_t`
pub record AtaContext : Type 0 where
  pub irq : ℕ
  pub multiple : ℕ
  pub irq_fired : Bool
  pub last_status : ℕ
  pub op : AtaOp
  pub step : AtaStep
  pub delay_400 : ℕ
  pub lba : ℕ
  pub sectors_left : ℕ
  pub batch_left : ℕ
  pub ptr : ℕ
  pub identify : List ℕ

-- The initial value of `g_ata_ctx`.
abbrev pub g_ata_ctx : AtaContext
g_ata_ctx = record {
  irq = pic_irq_ata_primary;
  multiple = 1;
  irq_fired = false;
  last_status = 0;
  op = no_op;
  step = idle;
  delay_400 = 0;
  lba = 0;
  sectors_left = 0;
  batch_left = 0;
  ptr = 0;
  identify = [];
}

pub record Driver : Type 0 where
  pub ctx : AtaContext
  pub io : Machine

abbrev pub ata_reg_data : ℕ
ata_reg_data = 0x1F0

abbrev pub ata_reg_seccount : ℕ
ata_reg_seccount = 0x1F2

abbrev pub ata_reg_lba_low : ℕ
ata_reg_lba_low = 0x1F3

abbrev pub ata_reg_lba_mid : ℕ
ata_reg_lba_mid = 0x1F4

abbrev pub ata_reg_lba_high : ℕ
ata_reg_lba_high = 0x1F5

abbrev pub ata_reg_drive_sel : ℕ
ata_reg_drive_sel = 0x1F6

abbrev pub ata_reg_command : ℕ
ata_reg_command = 0x1F7

abbrev pub ata_reg_status : ℕ
ata_reg_status = 0x1F7

abbrev pub ata_reg_control : ℕ
ata_reg_control = 0x3F6

-- ATA_SR_ERR | ATA_SR_DF
abbrev pub ata_sr_bad : ℕ
ata_sr_bad = 0x21

abbrev pub ata_sr_drq : ℕ
ata_sr_drq = 0x08

abbrev pub ata_dh_lba_master : ℕ
ata_dh_lba_master = 0xE0

unfoldable pub has_drq : ℕ → Bool
has_drq st = not (bit_and st ata_sr_drq == 0)

unfoldable pub ata_status_is_bad : ℕ → Bool
ata_status_is_bad st = st == 0xFF || not (bit_and st ata_sr_bad == 0)

-- The interrupt handler; `inb_irq` returns the device's answer.
unfoldable pub irq14_ata : Driver → Driver
irq14_ata d = record {
  ctx = record d.ctx { last_status = answer d.io; irq_fired = true };
  io = send_eoi pic_irq_ata_primary (inb ata_reg_status d.io);
}

unfoldable pub is_ata_irq_busy : AtaStep → Bool
is_ata_irq_busy idle = false
is_ata_irq_busy init_done = false
is_ata_irq_busy init_fail = false
is_ata_irq_busy io_done = false
is_ata_irq_busy io_fail = false
is_ata_irq_busy _ = true

unfoldable pub ata_irq_flags_reset : AtaContext → AtaContext
ata_irq_flags_reset c = record c { irq_fired = false; last_status = 0 }

unfoldable pub ata_request_state_reset : AtaContext → AtaContext
unfolding ata_irq_flags_reset
ata_request_state_reset c = ata_irq_flags_reset (record c { delay_400 = 0 })

-- `is_ata_irq_done`, `is_ata_irq_failed`, `is_ata_init_done` and `is_ata_init_failed`
unfoldable pub is_ata_irq_done : AtaStep → Bool
is_ata_irq_done io_done = true
is_ata_irq_done _ = false

unfoldable pub is_ata_irq_failed : AtaStep → Bool
is_ata_irq_failed io_fail = true
is_ata_irq_failed _ = false

unfoldable pub is_ata_init_done : AtaStep → Bool
is_ata_init_done init_done = true
is_ata_init_done _ = false

unfoldable pub is_ata_init_failed : AtaStep → Bool
is_ata_init_failed init_fail = true
is_ata_init_failed _ = false

abbrev pub is_idle : AtaStep → Bool
is_idle idle = true
is_idle _ = false
