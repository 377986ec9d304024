-- ===== src/Tests/RaceRuns.antt =====
-- An interrupt in the middle of a handler, at a concrete request.
use bootloader_kernel_in_nas.Base.{[]}
use bootloader_kernel_in_nas.AtaIrq.{read_28, io_issue_taskfile, Driver, g_ata_ctx}

-- A disk that always requests data, and a read of one sector that is about to be sent.
abbrev sending : Driver
sending = record {
  ctx = record g_ata_ctx { op = read_28; step = io_issue_taskfile; sectors_left = 1; lba = 100 };
  io = record {
    answers = λ n. 0x58;
    words = λ n. n;
    reads = 0;
    words_read = 0;
    mem = λ a. 0;
    trace = [];
  };
}
