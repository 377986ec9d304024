-- ===== src/Tests/AsmRuns.antt =====
-- Calls of the port wrappers with concrete registers.
use bootloader_kernel_in_nas.Base.{◌≡◌, refl, arith, [], some, false}
use bootloader_kernel_in_nas.Port.{insw_mem}
use bootloader_kernel_in_nas.Asm.{Cpu, outb_irq, insw_w, inb_irq, run, program}
use bootloader_kernel_in_nas.Asm.Access.{IsCall, program-IsCall}
use bootloader_kernel_in_nas.Asm.Saved.{IsSaved, irq-IsSaved, block-port}

-- A read of 256 words from the data port into memory at 4 MiB.
abbrev reading : Cpu
reading = record {
  a = 7;
  c = 9;
  d = 256;
  si = 0x40_0000;
  di = 0x1F0;
  stack = [];
  backward = false;
  io = record {
    answers = λ n. 0x58;
    words = λ n. n;
    reads = 0;
    words_read = 0;
    mem = λ a. 0;
    trace = [];
  };
}

program-IsCall_example : IsCall outb_irq reading
program-IsCall_example = program-IsCall outb_irq reading

irq-IsSaved_example :
    (out : Cpu) × (run (program inb_irq) reading ≡ some out) × IsSaved inb_irq reading out
irq-IsSaved_example = irq-IsSaved inb_irq reading refl

block-port_example :
    (out : Cpu) × (run (program insw_w) reading ≡ some out)
    × (out.io ≡ insw_mem 0x1F0 0x40_0000 496 reading.io)
block-port_example = block-port insw_w reading refl (omega arith)
