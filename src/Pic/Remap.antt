-- ===== src/Pic/Remap.antt =====
-- `setup_ata_irq` against the way in which an 8259 controller takes what is written
-- to its two ports.
use bootloader_kernel_in_nas.Base.{
  ℕ, ◌+◌, ◌/◌, ◌%◌, ◌^◌, ◌<◌, List, [], ◌∷◌, ◌==◌, if◌then◌else◌, ◌≡◌, refl, ap, ◌∙◌, arith,
}
use bootloader_kernel_in_nas.Bits.{bit}
use bootloader_kernel_in_nas.Port.{u8, Machine, PortOp, out_byte, inb, outb}
use bootloader_kernel_in_nas.Pic.{
  pic1_cmd, pic1_data, pic2_cmd, pic2_data, pic_io_wait, remap_pic, setup_ata_irq, unmask_irq,
}
use bootloader_kernel_in_nas.Pic.Masks.{unmasked-bit}

-- `stage` counts the words of an initialisation that came; 0 is normal operation.
pub record Controller : Type 0 where
  pub stage : ℕ
  pub offset : ℕ
  pub cascade : ℕ
  pub mode : ℕ
  pub mask : ℕ

-- A word with the fourth digit begins an initialisation, which clears the mask.
abbrev pub write_cmd : (value : ℕ) → Controller → Controller
write_cmd value c = if value / 2 ^ 4 % 2 == 1 then record c { stage = 1; mask = 0 } else c

abbrev pub write_data : (value : ℕ) → Controller → Controller
write_data value c =
    if c.stage == 1
    then record c { offset = value; stage = 2 }
    else if c.stage == 2
    then record c { cascade = value; stage = 3 }
    else if c.stage == 3
    then record c { mode = value; stage = 0 }
    else record c { mask = value }

-- A controller at these ports after the accesses, the latest first.
abbrev pub controller : (cmd data_port : ℕ) → Controller → List PortOp → Controller
controller cmd data_port c [] = c
controller cmd data_port c (out_byte p v ∷ ops) =
    let before = controller cmd data_port c ops in
    if p == cmd then write_cmd v before else if p == data_port then write_data v before else before
controller cmd data_port c (_ ∷ ops) = controller cmd data_port c ops

-- The two controllers after the accesses.
abbrev pub master : Controller → Machine → Controller
master c m = controller pic1_cmd pic1_data c m.trace

abbrev pub slave : Controller → Machine → Controller
slave c m = controller pic2_cmd pic2_data c m.trace

-- What the `k`-th read from now on returns.
abbrev pub read_at : Machine → ℕ → ℕ
read_at m k = u8 (m.answers (m.reads + k))

-- A controller in normal operation whose mask is `old` but for the cleared digit of `line`.
pub record IsOpen (offset cascade line old : ℕ) (c : Controller) : Type 0 where
  pub stage : c.stage ≡ 0
  pub offset' : c.offset ≡ offset
  pub cascade' : c.cascade ≡ cascade
  pub mode : c.mode ≡ 1
  pub digits : (j : ℕ) → j < 8 → bit j c.mask ≡ (if j == line then 0 else bit j old)

-- From whatever states of the controllers, even in the middle of an initialisation, `setup_ata_irq`
-- leaves both in normal operation, joined by line 2, in 8086 mode, with the vectors from 0x20 and from
-- 0x28 on. The second has the disk's line 14 - 8 unmasked and the first the line 2 of the second;
-- every other digit of a mask is the one that was read last from that controller.
pub setup_ata_irq-IsOpen :
    (m : Machine) (c c' : Controller)
    → IsOpen 0x20 (2 ^ 2) 2 (read_at m 3) (master c (setup_ata_irq m))
      × IsOpen 0x28 2 6 (read_at m 2) (slave c' (setup_ata_irq m))
unfolding setup_ata_irq remap_pic unmask_irq pic_io_wait inb outb
setup_ata_irq-IsOpen m c c' =
    let third : m.reads + 1 + 1 ≡ m.reads + 2 = omega arith in
    let fourth : m.reads + 1 + 1 + 1 ≡ m.reads + 3 = omega arith in
    (
      record {
        stage = refl;
        offset' = refl;
        cascade' = refl;
        mode = refl;
        digits = λ j l.
            unmasked-bit (u8 (m.answers (m.reads + 1 + 1 + 1))) 2 j (omega arith) (omega arith) l
            ∙ ap (λ (n : ℕ). if j == 2 then 0 else bit j (u8 (m.answers n))) fourth;
      },
      record {
        stage = refl;
        offset' = refl;
        cascade' = refl;
        mode = refl;
        digits = λ j l.
            unmasked-bit (u8 (m.answers (m.reads + 1 + 1))) 6 j (omega arith) (omega arith) l
            ∙ ap (λ (n : ℕ). if j == 6 then 0 else bit j (u8 (m.answers n))) third;
      },
    )
