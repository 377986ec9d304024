-- ===== src/Tests/PicRuns.antt =====
-- The interrupt controllers at concrete answers.
use bootloader_kernel_in_nas.Base.{◌^◌, [], ◌==◌, if◌then◌else◌}
use bootloader_kernel_in_nas.Port.{Machine}
use bootloader_kernel_in_nas.Pic.{setup_ata_irq}
use bootloader_kernel_in_nas.Pic.Remap.{
  Controller, master, slave, read_at, IsOpen, setup_ata_irq-IsOpen,
}

-- Controllers whose masks are read as 0xB8 and 0x8E.
abbrev chips : Machine
chips = record {
  answers = λ n. if n == 0 then 0xB8 else if n == 3 then 0xB8 else 0x8E;
  words = λ n. 0;
  reads = 0;
  words_read = 0;
  mem = λ a. 0;
  trace = [];
}

-- A controller in the middle of an initialisation.
abbrev halfway : Controller
halfway = record { stage = 2; offset = 8; cascade = 0; mode = 0; mask = 0 }

setup_ata_irq-IsOpen_example :
    IsOpen 0x20 (2 ^ 2) 2 (read_at chips 3) (master halfway (setup_ata_irq chips))
    × IsOpen 0x28 2 6 (read_at chips 2) (slave halfway (setup_ata_irq chips))
setup_ata_irq-IsOpen_example = setup_ata_irq-IsOpen chips halfway halfway
