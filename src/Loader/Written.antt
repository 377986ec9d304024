-- ===== src/Loader/Written.antt =====
-- What the loader leaves behind: its table, its memory, and the disk's sectors.
use bootloader_kernel_in_nas.Base.{ℕ, ◌+◌, ◌*◌, ◌≤◌, ◌<◌, ◌∷◌, ◌++◌, ◌≡◌, ◌≢◌, ◌⊎◌}
use bootloader_kernel_in_nas.Port.{Machine}
use bootloader_kernel_in_nas.AtaPoll.{write_48, ata_cmd_set_multiple}
use bootloader_kernel_in_nas.AtaPoll.Sector.{issued, written}
use bootloader_kernel_in_nas.AtaPoll.Outcome.{requests}
use bootloader_kernel_in_nas.AtaPoll.Disk.{disk_poll}
use bootloader_kernel_in_nas.AtaPoll.Ready.{initialised}
use bootloader_kernel_in_nas.Idt
use bootloader_kernel_in_nas.Idt.Gates.{IsGate, vector}
use bootloader_kernel_in_nas.Loader.{Loader, image_address, prepared}
use bootloader_kernel_in_nas.Loader.Filled.{repeated, AreAll}

-- What `ata_init` leaves of memory and gives to the disk, where it succeeds.
record IsInitialised (m m' : Machine) : Type 0 where
  mem : m'.mem ≡ m.mem
  writes : written m'.trace ≡ written m.trace
  place : ℕ
  count : ℕ
  commands :
      issued write_48 m'.trace ≡ (ata_cmd_set_multiple, place, count) ∷ issued write_48 m.trace

-- What the loader leaves: the image and .bss in memory, the table, and the commands and blocks that
-- the disk got, the latest first; the first command is the one of `ata_init`.
pub record IsWritten (bss_start bss_end : ℕ) (address : Idt.Isr → ℕ) (s s' : Loader) : Type 0 where
  pub blocks : written s'.io.trace ≡ repeated 256 (repeated 256 0xCCCC) ++ written s.io.trace
  pub place : ℕ
  pub count : ℕ
  pub commands :
      issued write_48 s'.io.trace
      ≡ requests write_48 256 2048
        ++ (ata_cmd_set_multiple, place, count) ∷ issued write_48 s.io.trace
  pub image : AreAll image_address (image_address + 256 * 512) 0xCC s'.io.mem
  pub bss : (a : ℕ) → bss_start ≤ a → a < bss_end → a < image_address → s'.io.mem a ≡ 0
  pub kept :
      (a : ℕ)
      → (a < bss_start) ⊎ (bss_end ≤ a)
      → (a < image_address) ⊎ (image_address + 256 * 512 ≤ a)
      → s'.io.mem a ≡ s.io.mem a
  pub gates :
      (h : Idt.Isr)
      → IsGate (address h) Idt.kernel_cs 0 Idt.idt_attr_intgate (s'.idt.gates (vector h))
  pub absent : (v : ℕ) → ((h : Idt.Isr) → v ≢ vector h) → (s'.idt.gates v).type ≡ 0

-- The state that the last call leaves, and that `kmain` returns it.
abbrev final : (bss_start bss_end : ℕ) → (address : Idt.Isr → ℕ) → (k k' : ℕ) → Loader → Loader
final bss_start bss_end address k k' s =
    let ready = prepared bss_start bss_end address s in
    record ready { io = (disk_poll write_48 2048 image_address 256 (initialised k k' ready.io)).1 }
