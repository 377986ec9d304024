-- ===== src/AtaPoll/Older.antt =====
-- kernelLoader/ata_driver.c: an older copy of the driver, built into the loader beside it.
use bootloader_kernel_in_nas.Base.{
  ℕ, zero, suc, ◌+◌, ◌*◌, ◌/◌, ◌^◌, bit_and, bit_or, Bool, true, false, not, ◌==◌, if◌then◌else◌,
}
use bootloader_kernel_in_nas.Page.{u64}
use bootloader_kernel_in_nas.Port.{Machine, u8, u32, answer, outb, inb, insw_mem, outsw}
use bootloader_kernel_in_nas.AtaIrq.{
  ata_reg_data, ata_reg_seccount, ata_reg_lba_low, ata_reg_lba_mid, ata_reg_lba_high,
  ata_reg_drive_sel, ata_reg_command, ata_reg_status, ata_reg_control,
}
use bootloader_kernel_in_nas.AtaPoll.{
  ata_sr_bsy, ata_sr_drdy, ata_sr_df, ata_sr_drq, ata_sr_err, ata_cmd_set_multiple, init_loop,
  init_check,
}

unfoldable pub get_status_ata : Machine → Machine
get_status_ata m = inb ata_reg_status m

-- `while (timeout--)` of `waitForIdleATA`
unfoldable pub idle_loop : (timeout : ℕ) → Machine → Bool × Machine
unfolding get_status_ata
idle_loop zero m = (false, m)
idle_loop (suc timeout) m =
    let status = answer m in
    let m' = get_status_ata m in
    let again = idle_loop timeout m' in
    if status == 0xFF
    then (false, m')
    else if not (bit_and status ata_sr_bsy == 0)
    then again
    else if not (bit_and status (bit_or ata_sr_err ata_sr_df) == 0)
    then (false, m')
    else if bit_and status ata_sr_drdy == 0
    then again
    else (true, m')

unfoldable pub wait_for_idle_ata : Machine → Bool × Machine
wait_for_idle_ata m = idle_loop 100_000_000 m

-- `while (timeout--)` of `waitForDRQATA`
unfoldable pub drq_loop : (timeout : ℕ) → Machine → Bool × Machine
unfolding get_status_ata
drq_loop zero m = (false, m)
drq_loop (suc timeout) m =
    let status = answer m in
    let m' = get_status_ata m in
    let again = drq_loop timeout m' in
    if status == 0xFF
    then (false, m')
    else if not (bit_and status ata_sr_bsy == 0)
    then again
    else if not (bit_and status (bit_or ata_sr_err ata_sr_df) == 0)
    then (false, m')
    else if bit_and status ata_sr_drq == 0
    then again
    else (true, m')

unfoldable pub wait_for_drq_ata : Machine → Bool × Machine
wait_for_drq_ata m = drq_loop 10_000_000 m

-- `for (int i = 0; i < 4; i++) inb(ATA_REG_CONTROL);`
unfoldable pub control_reads : (left : ℕ) → Machine → Machine
control_reads zero m = m
control_reads (suc left) m = control_reads left (inb ata_reg_control m)

-- Its `while` loop and what follows its last wait have the text of `ata_init`'s.
unfoldable pub initialize_ata : Machine → Bool × Machine
unfolding control_reads
initialize_ata m =
    let (going, m1) =
      init_loop 10_000_000
        (control_reads 4 (outb ata_reg_drive_sel 0xE0 (outb ata_reg_control 0x02 m))) in
    let (idle, m2) = wait_for_idle_ata (
      control_reads 4 (
        outb ata_reg_command ata_cmd_set_multiple
          (outb ata_reg_seccount 16 (control_reads 4 m1)))) in
    if not going then (false, m1) else if not idle then (false, m2) else init_check m2

unfoldable pub setup_lba_dest_28 : (lba : ℕ) → Machine → Machine
unfolding control_reads
setup_lba_dest_28 lba m =
    let low = outb ata_reg_lba_low (u8 lba) m in
    let mid = outb ata_reg_lba_mid (u8 (lba / 2 ^ 8)) low in
    let high = outb ata_reg_lba_high (u8 (lba / 2 ^ 16)) mid in
    control_reads 4 (outb ata_reg_drive_sel (bit_or 0xE0 (bit_and (lba / 2 ^ 24) 0x0F)) high)

unfoldable pub setup_lba_dest_48 : (lba sector_count : ℕ) → Machine → Machine
unfolding control_reads
setup_lba_dest_48 lba sector_count m =
    let count_high = if sector_count == 65536 then 0 else u8 (sector_count / 2 ^ 8) in
    let count_low = if sector_count == 65536 then 0 else u8 (bit_and sector_count 0xFF) in
    let selected = control_reads 4 (outb ata_reg_drive_sel 0xE0 m) in
    let counted = outb ata_reg_seccount count_high selected in
    let upper = outb ata_reg_lba_high (u8 (lba / 2 ^ 40)) (
      outb ata_reg_lba_mid (u8 (lba / 2 ^ 32))
        (outb ata_reg_lba_low (u8 (lba / 2 ^ 24)) counted)) in
    let counted' = outb ata_reg_seccount count_low upper in
    control_reads 4 (
      outb ata_reg_lba_high (u8 (lba / 2 ^ 16))
        (outb ata_reg_lba_mid (u8 (lba / 2 ^ 8)) (outb ata_reg_lba_low (u8 lba) counted')))

-- `if (!waitForIdleATA()) return 0;`, the rest of a round, and its `waitForDRQATA`
unfoldable pub round :
    (start : Machine → Machine) (transfer : Machine → Machine) → Machine → Bool × Machine
round start transfer m =
    let (idle, m1) = wait_for_idle_ata m in
    let (drq, m2) = wait_for_drq_ata (start m1) in
    if not idle then (false, m1) else if not drq then (false, m2) else (true, transfer m2)

unfoldable pub write_to_disk_ata_28 : (lba addr sector_count : ℕ) → Machine → Bool × Machine
unfolding round control_reads
write_to_disk_ata_28 lba ptr zero m = wait_for_idle_ata m
write_to_disk_ata_28 lba ptr (suc sector_count) m =
    let (done, m') =
      round
        (λ s.
          control_reads 4
            (outb ata_reg_command 0x30 (outb ata_reg_seccount 1 (setup_lba_dest_28 lba s))))
        (outsw ata_reg_data ptr 256) m in
    let rest = write_to_disk_ata_28 (u32 (lba + 1)) (u64 (ptr + 2 * 256)) sector_count m' in
    if done then rest else (false, m')

unfoldable pub read_from_disk_ata_28 : (lba addr sector_count : ℕ) → Machine → Bool × Machine
unfolding round control_reads
read_from_disk_ata_28 lba ptr zero m = wait_for_idle_ata m
read_from_disk_ata_28 lba ptr (suc sector_count) m =
    let (done, m') =
      round
        (λ s.
          control_reads 4
            (outb ata_reg_command 0x20 (outb ata_reg_seccount 1 (setup_lba_dest_28 lba s))))
        (insw_mem ata_reg_data ptr 256) m in
    let rest = read_from_disk_ata_28 (u32 (lba + 1)) (u64 (ptr + 2 * 256)) sector_count m' in
    if done then rest else (false, m')

unfoldable pub write_to_disk_ata_48 : (lba addr sector_count : ℕ) → Machine → Bool × Machine
unfolding round control_reads
write_to_disk_ata_48 lba ptr zero m = wait_for_idle_ata m
write_to_disk_ata_48 lba ptr (suc sector_count) m =
    let (done, m') =
      round (λ s. control_reads 4 (outb ata_reg_command 0x34 (setup_lba_dest_48 lba 1 s)))
        (outsw ata_reg_data ptr 256) m in
    let rest = write_to_disk_ata_48 (u64 (lba + 1)) (u64 (ptr + 2 * 256)) sector_count m' in
    if done then rest else (false, m')

unfoldable pub read_from_disk_ata_48 : (lba addr sector_count : ℕ) → Machine → Bool × Machine
unfolding round control_reads
read_from_disk_ata_48 lba ptr zero m = wait_for_idle_ata m
read_from_disk_ata_48 lba ptr (suc sector_count) m =
    let (done, m') =
      round (λ s. control_reads 4 (outb ata_reg_command 0x24 (setup_lba_dest_48 lba 1 s)))
        (insw_mem ata_reg_data ptr 256) m in
    let rest = read_from_disk_ata_48 (u64 (lba + 1)) (u64 (ptr + 2 * 256)) sector_count m' in
    if done then rest else (false, m')
