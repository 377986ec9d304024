-- ===== src/AtaIrq/Tick.antt =====
-- The state machine of kernel/ata_driver_irq.c: one handler for each step, and `tick_ata`.
use bootloader_kernel_in_nas.Base.{
  ℕ, ◌+◌, ◌-◌, ◌*◌, ◌/◌, ◌^◌, bit_and, bit_or, Bool, true, false, not, ◌&&◌, ltb, ◌==◌,
  if◌then◌else◌,
}
use bootloader_kernel_in_nas.Page.{u64}
use bootloader_kernel_in_nas.Port.{
  Machine, u8, u32, answer, outb, inb, block, insw, insw_mem, outsw,
}
use bootloader_kernel_in_nas.AtaIrq.{
  AtaOp, no_op, init_28, init_48, read_28, write_28, read_48, AtaStep, init_select,
  init_identify_cmd, init_identify_wait, init_identify_xfer, init_done, init_fail, io_issue_select,
  io_issue_taskfile, io_wait_irq, io_xfer_block, io_done, io_fail, AtaContext, Driver, ata_reg_data,
  ata_reg_seccount, ata_reg_lba_low, ata_reg_lba_mid, ata_reg_lba_high, ata_reg_drive_sel,
  ata_reg_command, ata_reg_control, ata_dh_lba_master, has_drq, ata_status_is_bad,
  ata_irq_flags_reset,
}

unfoldable pub ata_finish_io : Bool → AtaContext → AtaContext
ata_finish_io success c = record c { step = if success then io_done else io_fail; op = no_op }

unfoldable pub ata_finish_init : Bool → AtaContext → AtaContext
ata_finish_init success c = record c { step = if success then init_done else init_fail; op = no_op }

unfoldable pub ata_init_select_handle : Driver → Driver
ata_init_select_handle d = record {
  ctx = record d.ctx { delay_400 = 4; step = init_identify_cmd };
  io = outb ata_reg_drive_sel ata_dh_lba_master (outb ata_reg_control 0 d.io);
}

unfoldable pub ata_init_identify_cmd_handle : Driver → Driver
unfolding ata_irq_flags_reset
ata_init_identify_cmd_handle d = record {
  ctx = record (ata_irq_flags_reset d.ctx) { step = init_identify_wait };
  io = outb ata_reg_command 0xEC (
      outb ata_reg_lba_high 0
        (outb ata_reg_lba_mid 0 (outb ata_reg_lba_low 0 (outb ata_reg_seccount 0 d.io))));
}

-- `ata_alt_status_read_once` returns `answer d.io`.
unfoldable pub ata_init_identify_wait_handle : Driver → Driver
unfolding ata_finish_init has_drq ata_status_is_bad
ata_init_identify_wait_handle d =
    let c = record d.ctx { irq_fired = false } in
    let st = c.last_status in
    let st' = answer d.io in
    let io' = inb ata_reg_control d.io in
    if not d.ctx.irq_fired
    then d
    else if ata_status_is_bad st
    then record d { ctx = ata_finish_init false c }
    else if has_drq st
    then record d { ctx = record c { step = init_identify_xfer } }
    else if ata_status_is_bad st'
    then record { ctx = ata_finish_init false c; io = io' }
    else if has_drq st'
    then record { ctx = record c { step = init_identify_xfer }; io = io' }
    else record { ctx = c; io = io' }

unfoldable pub ata_init_identify_xfer_handle : Driver → Driver
unfolding ata_finish_init
ata_init_identify_xfer_handle d = record {
  ctx = ata_finish_init true (record d.ctx { identify = block 256 d.io });
  io = insw ata_reg_data 256 d.io;
}

unfoldable pub init_dispatch : AtaStep → Driver → Driver
unfolding ata_init_select_handle ata_init_identify_cmd_handle ata_init_identify_wait_handle
    ata_init_identify_xfer_handle
init_dispatch init_select d = ata_init_select_handle d
init_dispatch init_identify_cmd d = ata_init_identify_cmd_handle d
init_dispatch init_identify_wait d = ata_init_identify_wait_handle d
init_dispatch init_identify_xfer d = ata_init_identify_xfer_handle d
init_dispatch _ d = d

unfoldable pub ata_init_tick : Driver → Driver
unfolding init_dispatch
ata_init_tick d = init_dispatch d.ctx.step d

-- `op == ATA_OP_READ_28 || op == ATA_OP_WRITE_28`
abbrev pub is_28 : AtaOp → Bool
is_28 read_28 = true
is_28 write_28 = true
is_28 _ = false

-- `op == ATA_OP_READ_28 || op == ATA_OP_READ_48`
abbrev pub is_read : AtaOp → Bool
is_read read_28 = true
is_read read_48 = true
is_read _ = false

unfoldable pub ata_io_issue_select_handle : Driver → Driver
ata_io_issue_select_handle d =
    let lba28 = u32 d.ctx.lba in
    let top4 = u8 (bit_and (lba28 / 2 ^ 24) 0x0F) in
    record {
      ctx = record d.ctx { delay_400 = 4; step = io_issue_taskfile };
      io =
          if is_28 d.ctx.op
          then outb ata_reg_drive_sel (u8 (bit_or ata_dh_lba_master top4)) d.io
          else outb ata_reg_drive_sel ata_dh_lba_master d.io;
    }

-- The command byte of a request.
abbrev pub command : AtaOp → ℕ
command read_28 = 0x20
command write_28 = 0x30
command read_48 = 0x24
command _ = 0x34

unfoldable pub taskfile_28 : AtaOp → (lba : ℕ) → Machine → Machine
taskfile_28 op lba m =
    let lba28 = u32 lba in
    outb ata_reg_command (command op) (
      outb ata_reg_lba_high (u8 (lba28 / 2 ^ 16)) (
        outb ata_reg_lba_mid (u8 (lba28 / 2 ^ 8))
          (outb ata_reg_lba_low (u8 lba28) (outb ata_reg_seccount 1 m))))

unfoldable pub taskfile_48 : AtaOp → (lba : ℕ) → Machine → Machine
taskfile_48 op lba m =
    let high = outb ata_reg_lba_high (u8 (lba / 2 ^ 40)) (
      outb ata_reg_lba_mid (u8 (lba / 2 ^ 32))
        (outb ata_reg_lba_low (u8 (lba / 2 ^ 24)) (outb ata_reg_seccount 0 m))) in
    outb ata_reg_command (command op) (
      outb ata_reg_lba_high (u8 (lba / 2 ^ 16)) (
        outb ata_reg_lba_mid (u8 (lba / 2 ^ 8))
          (outb ata_reg_lba_low (u8 lba) (outb ata_reg_seccount 1 high))))

unfoldable pub ata_io_issue_taskfile_handle : Driver → Driver
unfolding ata_finish_io ata_irq_flags_reset taskfile_28 taskfile_48
ata_io_issue_taskfile_handle d =
    let c = record d.ctx { batch_left = 1 } in
    if d.ctx.sectors_left == 0 then record d { ctx = ata_finish_io true d.ctx } else record {
      ctx = record (ata_irq_flags_reset c) { step = io_wait_irq };
      io =
          if is_28 d.ctx.op
          then taskfile_28 d.ctx.op d.ctx.lba d.io
          else taskfile_48 d.ctx.op d.ctx.lba d.io;
    }

-- What `ata_io_wait_irq_handle` does with the status that it has got.
unfoldable pub wait_decide : (st : ℕ) → Driver → Driver
unfolding ata_finish_io has_drq ata_status_is_bad
wait_decide st d =
    let st' = answer d.io in
    let io' = inb ata_reg_control d.io in
    if ata_status_is_bad st
    then record d { ctx = ata_finish_io false d.ctx }
    else if has_drq st
    then record d { ctx = record d.ctx { step = io_xfer_block } }
    else if d.ctx.batch_left == 0
    then (if d.ctx.sectors_left == 0
        then record d { ctx = ata_finish_io true d.ctx }
        else record d { ctx = record d.ctx { step = io_issue_select } })
    else if ata_status_is_bad st'
    then record { ctx = ata_finish_io false d.ctx; io = io' }
    else if has_drq st'
    then record { ctx = record d.ctx { step = io_xfer_block }; io = io' }
    else record d { io = io' }

unfoldable pub ata_io_wait_irq_handle : Driver → Driver
ata_io_wait_irq_handle d =
    if d.ctx.irq_fired
    then wait_decide d.ctx.last_status (record d { ctx = record d.ctx { irq_fired = false } })
    else if not (d.ctx.batch_left == 0)
    then d
    else wait_decide (answer d.io) (record d { io = inb ata_reg_control d.io })

unfoldable pub ata_io_xfer_block_handle : Driver → Driver
ata_io_xfer_block_handle d =
    let n = if ltb d.ctx.batch_left 1 then d.ctx.batch_left else 1 in
    let word_count = n * 256 in
    if n == 0 then record d { ctx = record d.ctx { step = io_wait_irq } } else record {
      ctx = record d.ctx {
        ptr = u64 (d.ctx.ptr + 2 * word_count);
        lba = u64 (d.ctx.lba + n);
        batch_left = d.ctx.batch_left - n;
        sectors_left = u32 (d.ctx.sectors_left + 2 ^ 32 - n);
        step = io_wait_irq;
      };
      io =
          if is_read d.ctx.op
          then insw_mem ata_reg_data d.ctx.ptr word_count d.io
          else outsw ata_reg_data d.ctx.ptr word_count d.io;
    }

unfoldable pub io_dispatch : AtaStep → Driver → Driver
unfolding ata_io_issue_select_handle ata_io_issue_taskfile_handle ata_io_wait_irq_handle
    ata_io_xfer_block_handle
io_dispatch io_issue_select d = ata_io_issue_select_handle d
io_dispatch io_issue_taskfile d = ata_io_issue_taskfile_handle d
io_dispatch io_wait_irq d = ata_io_wait_irq_handle d
io_dispatch io_xfer_block d = ata_io_xfer_block_handle d
io_dispatch _ d = d

unfoldable pub ata_io_tick : Driver → Driver
unfolding io_dispatch
ata_io_tick d = io_dispatch d.ctx.step d

-- The driver after `ata_delay_400ns_tick`.
unfoldable pub ata_delay_400ns_tick : Driver → Driver
ata_delay_400ns_tick d = if d.ctx.delay_400 == 0 then d else record {
  ctx = record d.ctx { delay_400 = d.ctx.delay_400 - 1 };
  io = inb ata_reg_control d.io;
}

-- `op == ATA_OP_INIT_28 || op == ATA_OP_INIT_48`
abbrev pub is_init : AtaOp → Bool
is_init init_28 = true
is_init init_48 = true
is_init _ = false

-- What `tick_ata` does once no delay is left.
unfoldable pub run_step : Driver → Driver
run_step d = if is_init d.ctx.op then ata_init_tick d else ata_io_tick d

unfoldable pub tick_ata : Driver → Driver
tick_ata d =
    let d' = ata_delay_400ns_tick d in
    if not (d.ctx.delay_400 == 0) && not (d'.ctx.delay_400 == 0) then d' else run_step d'
