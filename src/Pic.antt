-- ===== src/Pic.antt =====
-- The interrupt controllers in kernel/ata_driver_irq.c: remapping, unmasking, end of interrupt.
pub mod Masks
pub mod Remap
use bootloader_kernel_in_nas.Base.{ℕ, ◌-◌, ◌^◌, bit_and, bit_or, ltb, if◌then◌else◌}
use bootloader_kernel_in_nas.Port.{Machine, u8, u32, answer, outb, inb}

abbrev pub pic1_cmd : ℕ
pic1_cmd = 0x20

abbrev pub pic1_data : ℕ
pic1_data = 0x21

abbrev pub pic2_cmd : ℕ
pic2_cmd = 0xA0

abbrev pub pic2_data : ℕ
pic2_data = 0xA1

abbrev pub pic_cmd_eoi : ℕ
pic_cmd_eoi = 0x20

-- PIC_ICW1_INIT | PIC_ICW1_ICW4
abbrev pub pic_icw1 : ℕ
pic_icw1 = bit_or 0x10 0x01

abbrev pub pic_icw4_8086 : ℕ
pic_icw4_8086 = 0x01

abbrev pub pic_remap_master : ℕ
pic_remap_master = 0x20

abbrev pub pic_remap_slave : ℕ
pic_remap_slave = 0x28

abbrev pub pic_irq_cascade : ℕ
pic_irq_cascade = 2

abbrev pub pic_irq_ata_primary : ℕ
pic_irq_ata_primary = 14

unfoldable pub pic_io_wait : Machine → Machine
pic_io_wait m = outb 0x80 0 m

-- A write to a controller and the wait behind it.
abbrev pub out_wait : (port value : ℕ) → Machine → Machine
out_wait port value m = pic_io_wait (outb port value m)

unfoldable pub remap_pic : (master_offset slave_offset : ℕ) → Machine → Machine
remap_pic master_offset slave_offset m =
    let master_mask = answer m in
    let m1 = inb pic1_data m in
    let slave_mask = answer m1 in
    let m2 = inb pic2_data m1 in
    let m3 = out_wait pic2_cmd pic_icw1 (out_wait pic1_cmd pic_icw1 m2) in
    let m4 = out_wait pic2_data slave_offset (out_wait pic1_data master_offset m3) in
    let m5 = out_wait pic2_data 0x02 (out_wait pic1_data 0x04 m4) in
    let m6 = out_wait pic2_data pic_icw4_8086 (out_wait pic1_data pic_icw4_8086 m5) in
    outb pic2_data slave_mask (outb pic1_data master_mask m6)

-- (uint8_t)(mask & (uint8_t)~(1u << line))
unfoldable pub unmasked : (mask line : ℕ) → ℕ
unmasked mask line = u8 (bit_and mask (u8 (2 ^ 32 - 1 - u32 (2 ^ line))))

unfoldable pub unmask_irq : ℕ → Machine → Machine
unmask_irq irq m =
    let m1 = inb pic2_data m in
    let m2 = outb pic2_data (unmasked (answer m) (irq - 8)) m1 in
    let m3 = inb pic1_data m2 in
    if ltb irq 8
    then outb pic1_data (unmasked (answer m) irq) (inb pic1_data m)
    else outb pic1_data (unmasked (answer m2) pic_irq_cascade) m3

unfoldable pub send_eoi : ℕ → Machine → Machine
send_eoi irq m = outb pic1_cmd pic_cmd_eoi (if ltb irq 8 then m else outb pic2_cmd pic_cmd_eoi m)

unfoldable pub setup_ata_irq : Machine → Machine
unfolding remap_pic unmask_irq
setup_ata_irq m = unmask_irq pic_irq_ata_primary (remap_pic pic_remap_master pic_remap_slave m)
