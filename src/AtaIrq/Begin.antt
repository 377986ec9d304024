-- ===== src/AtaIrq/Begin.antt =====
-- The `begin_...` functions of kernel/ata_driver_irq.c, which start a request.
use bootloader_kernel_in_nas.Base.{ℕ, Bool, true, false, not, ◌||◌, ◌==◌, if◌then◌else◌}
use bootloader_kernel_in_nas.AtaIrq.{
  AtaOp, init_28, init_48, read_28, write_28, read_48, write_48, init_select, io_issue_select,
  Driver, is_idle, ata_request_state_reset,
}

-- The body that `begin_init_ata_28_irq` and `begin_init_ata_48_irq` share, by the operation that
-- they record. The Boolean is the function's result.
unfoldable pub begin_init : AtaOp → Driver → Driver × Bool
unfolding ata_request_state_reset
begin_init op d = if not (is_idle d.ctx.step) then (d, false) else (
  record d { ctx = ata_request_state_reset (record d.ctx { op = op; step = init_select }) },
  true,
)

-- The body that the four functions for reads and writes share, by the operation.
unfoldable pub begin_io : AtaOp → (lba addr sector_count : ℕ) → Driver → Driver × Bool
unfolding ata_request_state_reset
begin_io op lba addr sector_count d =
    if not (is_idle d.ctx.step) || sector_count == 0 then (d, false) else (
      record d {
        ctx = ata_request_state_reset (record d.ctx {
          op = op;
          step = io_issue_select;
          lba = lba;
          sectors_left = sector_count;
          batch_left = 0;
          ptr = addr;
        });
      },
      true,
    )

unfoldable pub begin_init_ata_28_irq : Driver → Driver × Bool
unfolding begin_init
begin_init_ata_28_irq = begin_init init_28

unfoldable pub begin_init_ata_48_irq : Driver → Driver × Bool
unfolding begin_init
begin_init_ata_48_irq = begin_init init_48

unfoldable pub initialize_ata_28_irq : Driver → Driver × Bool
unfolding begin_init_ata_28_irq
initialize_ata_28_irq = begin_init_ata_28_irq

unfoldable pub begin_read_from_disk_ata_28_irq :
    (lba addr sector_count : ℕ) → Driver → Driver × Bool
unfolding begin_io
begin_read_from_disk_ata_28_irq = begin_io read_28

unfoldable pub begin_write_to_disk_ata_28_irq : (lba addr sector_count : ℕ) → Driver → Driver × Bool
unfolding begin_io
begin_write_to_disk_ata_28_irq = begin_io write_28

unfoldable pub begin_read_from_disk_ata_48_irq :
    (lba addr sector_count : ℕ) → Driver → Driver × Bool
unfolding begin_io
begin_read_from_disk_ata_48_irq = begin_io read_48

unfoldable pub begin_write_to_disk_ata_48_irq : (lba addr sector_count : ℕ) → Driver → Driver × Bool
unfolding begin_io
begin_write_to_disk_ata_48_irq = begin_io write_48
