-- ===== src/Tests/AtaIrqRuns.antt =====
-- The interrupt-driven driver at concrete requests and devices.
use bootloader_kernel_in_nas.Base.{
  List, ◌+◌, ◌*◌, ◌≤◌, ◌≡◌, refl, arith, false, [], ◌∷◌, ◌==◌, if◌then◌else◌,
}
use bootloader_kernel_in_nas.Page.{u64}
use bootloader_kernel_in_nas.Port.{Machine}
use bootloader_kernel_in_nas.AtaIrq.{init_48, read_28, write_48, io_done, Driver, g_ata_ctx}
use bootloader_kernel_in_nas.AtaIrq.Begin.{
  begin_io, begin_init_ata_28_irq, begin_init_ata_48_irq, begin_read_from_disk_ata_28_irq,
  begin_read_from_disk_ata_48_irq, begin_write_to_disk_ata_28_irq, begin_write_to_disk_ata_48_irq,
}
use bootloader_kernel_in_nas.AtaIrq.Identify.{identify_events}
use bootloader_kernel_in_nas.AtaIrq.Events.{
  Event, tick, interrupt, init_28, init_48, run, run-Inv, over-begin_refused,
}
use bootloader_kernel_in_nas.AtaIrq.Invariant.{Inv, g_ata_ctx-Inv}
use bootloader_kernel_in_nas.AtaIrq.Sector.{one_sector, sectors}
use bootloader_kernel_in_nas.AtaIrq.Tick.{ata_io_issue_select_handle, ata_io_issue_taskfile_handle}
use bootloader_kernel_in_nas.AtaIrq.TaskFile.{
  address_28, address_48, count_48, taskfile-address_28, taskfile-address_48,
}
use bootloader_kernel_in_nas.AtaIrq.Transfer.{blocks, begin_io-run-blocks}

-- A device that serves one sector: ready and requesting data, and then ready.
abbrev disk : Machine
disk = record {
  answers = λ n. if n == 5 then 0x50 else 0x58;
  words = λ n. n + 7;
  reads = 0;
  words_read = 0;
  mem = λ a. 0;
  trace = [];
}

abbrev start : Driver
start = record { ctx = g_ata_ctx; io = disk }

begin_io-run-blocks_example :
    let d' = run (sectors 1) (begin_io write_48 100 0x40_0000 1 start).0 in
    (blocks d'.io.trace ≤ 0 + 1)
    × (d'.ctx.step ≡ io_done
        → (blocks d'.io.trace ≡ 0 + 1)
          × (u64 d'.ctx.lba ≡ u64 (100 + 1))
          × (u64 d'.ctx.ptr ≡ u64 (0x40_0000 + 512 * 1)))
begin_io-run-blocks_example =
    begin_io-run-blocks write_48 100 0x40_0000 1 start (sectors 1) refl (omega arith) (omega arith)
      g_ata_ctx-Inv refl refl

run-Inv_example : Inv (run (init_28 ∷ one_sector) start).ctx
run-Inv_example = run-Inv (init_28 ∷ one_sector) start g_ata_ctx-Inv

-- The driver after a request that ended well.
abbrev ended : Driver
ended = record { ctx = record g_ata_ctx { step = io_done }; io = disk }

ended-Inv : Inv ended.ctx
ended-Inv = ground arith

over-begin_refused_example :
    let d = run (tick ∷ interrupt ∷ []) ended in
    (begin_read_from_disk_ata_28_irq 7 0 1 d ≡ (d, false))
    × (begin_read_from_disk_ata_48_irq 7 0 1 d ≡ (d, false))
    × (begin_write_to_disk_ata_28_irq 7 0 1 d ≡ (d, false))
    × (begin_write_to_disk_ata_48_irq 7 0 1 d ≡ (d, false))
    × (begin_init_ata_28_irq d ≡ (d, false))
    × (begin_init_ata_48_irq d ≡ (d, false))
over-begin_refused_example = over-begin_refused (tick ∷ interrupt ∷ []) ended 7 0 1 ended-Inv refl

-- Requests of three sectors.
abbrev wide_request : Driver
wide_request = record {
  ctx = record g_ata_ctx { op = write_48; lba = 0x1234_5678_9ABC; sectors_left = 3 };
  io = disk;
}

abbrev narrow_request : Driver
narrow_request = record {
  ctx = record g_ata_ctx { op = read_28; lba = 0xABC_DEF0; sectors_left = 3 };
  io = disk;
}

taskfile-address_48_example :
    (address_48 (ata_io_issue_taskfile_handle wide_request).io.trace ≡ 0x1234_5678_9ABC)
    × (count_48 (ata_io_issue_taskfile_handle wide_request).io.trace ≡ 1)
taskfile-address_48_example = taskfile-address_48 wide_request refl (omega arith) (omega arith)

taskfile-address_28_example :
    address_28 (ata_io_issue_taskfile_handle (ata_io_issue_select_handle narrow_request)).io.trace
    ≡ 0xABC_DEF0
taskfile-address_28_example = taskfile-address_28 narrow_request refl (omega arith) (omega arith)

-- An identification that ends well.
abbrev identification : List Event
identification = init_48 ∷ identify_events 3
