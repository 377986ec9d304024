-- ===== src/Loader.antt =====
-- kernelLoader/main.c: the order in which the loader sets up its interrupt table and its disk, and
-- what it writes.
pub mod Filled
pub mod Written
use bootloader_kernel_in_nas.Base.{
  ℕ, zero, suc, ◌+◌, ◌-◌, ◌*◌, Bool, true, false, Option, none, some, if◌then◌else◌, ◌>>=◌, update,
}
use bootloader_kernel_in_nas.Port.{Machine}
use bootloader_kernel_in_nas.AtaPoll.{ata_init, ata_disk_write_48_poll}
use bootloader_kernel_in_nas.Idt

-- The interrupt table, and the machine with the memory.
pub record Loader : Type 0 where
  pub idt : Idt.Idt
  pub io : Machine

abbrev pub image_address : ℕ
image_address = 0x0040_0000

-- `for (p = ...; p < ...; p++) *p = byte;`, with `left` rounds to go
unfoldable pub fill_bytes : (left p byte : ℕ) → (ℕ → ℕ) → ℕ → ℕ
fill_bytes zero p byte mem = mem
fill_bytes (suc left) p byte mem = fill_bytes left (p + 1) byte (update mem p byte)

abbrev pub zero_gate : Idt.IdtGate
zero_gate = record {
  handler_offset_low = 0;
  segment_selector = 0;
  ist = 0;
  type = 0;
  handler_offset_mid = 0;
  handler_offset_high = 0;
  reserved = 0;
}

-- The loop that zeroes .bss, which holds the interrupt table too.
unfoldable pub zero_bss : (bss_start bss_end : ℕ) → Loader → Loader
unfolding fill_bytes
zero_bss bss_start bss_end s = record {
  idt = record s.idt { gates = λ v. zero_gate };
  io = record s.io { mem = fill_bytes (bss_end - bss_start) bss_start 0 s.io.mem };
}

-- `while (!ata_init()) continue;`: `none` without fuel
unfoldable pub init_again : (fuel : ℕ) → Machine → Option Machine
init_again zero m = none
init_again (suc fuel) m =
    let (done, m') = ata_init m in let rest = init_again fuel m' in if done then some m' else rest

-- The machine at the first call of `ata_init`.
unfoldable pub prepared : (bss_start bss_end : ℕ) → (address : Idt.Isr → ℕ) → Loader → Loader
unfolding zero_bss
prepared bss_start bss_end address s =
    let zeroed = zero_bss bss_start bss_end s in
    record {
      idt = Idt.idt_init address zeroed.idt;
      io = record zeroed.io { mem = fill_bytes (256 * 512) image_address 0xCC zeroed.io.mem };
    }

-- True is a return of `kmain`, false an endless `hlt`. The linker's symbols and the addresses of
-- the handlers are arguments.
unfoldable pub kmain :
    (bss_start bss_end : ℕ) → (address : Idt.Isr → ℕ) → (fuel : ℕ) → Loader → Option (Bool × Loader)
unfolding prepared init_again
kmain bss_start bss_end address fuel s =
    let ready = prepared bss_start bss_end address s in
    init_again fuel ready.io >>= λ m.
    let (success, m') = ata_disk_write_48_poll 2048 image_address 256 m in
    some (success, record ready { io = m' })
