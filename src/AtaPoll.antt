-- ===== src/AtaPoll.antt =====
-- kernelLoader/atadriver.c and kernelLoader/ata_driver.h: the loader's disk driver, which polls.
-- A function that talks to ports takes and returns the machine; a uint8_t result is a Bool.
pub mod Same
pub mod Sector
pub mod Disk
pub mod Init
pub mod Older
pub mod Outcome
pub mod Ready
pub mod Round
pub mod Served
pub mod Wait
use bootloader_kernel_in_nas.Base.{
  ℕ, zero, suc, ◌+◌, ◌/◌, ◌*◌, ◌^◌, bit_and, bit_or, Bool, true, false, not, ◌||◌, ◌==◌,
  if◌then◌else◌,
}
use bootloader_kernel_in_nas.Page.{u64}
use bootloader_kernel_in_nas.Port.{Machine, u8, u32, answer, outb, inb, insw_mem, outsw}
use bootloader_kernel_in_nas.AtaIrq.{
  ata_reg_data, ata_reg_seccount, ata_reg_lba_low, ata_reg_lba_mid, ata_reg_lba_high,
  ata_reg_drive_sel, ata_reg_command, ata_reg_status, ata_reg_control,
}

abbrev pub ata_sr_bsy : ℕ
ata_sr_bsy = 0x80

abbrev pub ata_sr_drdy : ℕ
ata_sr_drdy = 0x40

abbrev pub ata_sr_df : ℕ
ata_sr_df = 0x20

abbrev pub ata_sr_drq : ℕ
ata_sr_drq = 0x08

abbrev pub ata_sr_err : ℕ
ata_sr_err = 0x01

abbrev pub ata_cmd_set_multiple : ℕ
ata_cmd_set_multiple = 0xC6

-- `status & mask`, as a condition
unfoldable pub has : (status mask : ℕ) → Bool
has status mask = not (bit_and status mask == 0)

-- The machine after `ata_status_get`, which returns `answer`.
unfoldable pub ata_status_get : Machine → Machine
ata_status_get m = inb ata_reg_status m

-- `for (int i = 0; i < 4; i++) inb(ATA_REG_CONTROL);`
unfoldable pub delay : Machine → Machine
delay m = inb ata_reg_control (inb ata_reg_control (inb ata_reg_control (inb ata_reg_control m)))

-- `while (timeout--)` of `ata_wait_idle`
unfoldable pub wait_idle_loop : (timeout : ℕ) → Machine → Bool × Machine
unfolding has ata_status_get
wait_idle_loop zero m = (false, m)
wait_idle_loop (suc timeout) m =
    let status = answer m in
    let m' = ata_status_get m in
    let rest = wait_idle_loop timeout m' in
    if status == 0xFF
    then (false, m')
    else if has status ata_sr_bsy
    then rest
    else if has status (bit_or ata_sr_err ata_sr_df)
    then (false, m')
    else if not (has status ata_sr_drdy)
    then rest
    else (true, m')

abbrev pub idle_timeout : ℕ
idle_timeout = 100_000_000

unfoldable pub ata_wait_idle : Machine → Bool × Machine
ata_wait_idle m = wait_idle_loop idle_timeout m

-- `while (timeout--)` of `ata_wait_drq`
unfoldable pub wait_drq_loop : (timeout : ℕ) → Machine → Bool × Machine
unfolding has ata_status_get
wait_drq_loop zero m = (false, m)
wait_drq_loop (suc timeout) m =
    let status = answer m in
    let m' = ata_status_get m in
    let rest = wait_drq_loop timeout m' in
    if status == 0xFF
    then (false, m')
    else if has status ata_sr_bsy
    then rest
    else if has status (bit_or ata_sr_err ata_sr_df)
    then (false, m')
    else if has status ata_sr_drq
    then (true, m')
    else rest

abbrev pub drq_timeout : ℕ
drq_timeout = 10_000_000

unfoldable pub ata_wait_drq : Machine → Bool × Machine
ata_wait_drq m = wait_drq_loop drq_timeout m

-- The loop of `ata_init`: false is an early `return 0`; a loop that runs out goes on.
unfoldable pub init_loop : (timeout : ℕ) → Machine → Bool × Machine
unfolding has ata_status_get
init_loop zero m = (true, m)
init_loop (suc timeout) m =
    let status = answer m in
    let m' = ata_status_get m in
    let rest = init_loop timeout m' in
    if status == 0xFF
    then (false, m')
    else if has status ata_sr_bsy
    then rest
    else if has status ata_sr_df || has status ata_sr_err
    then (false, m')
    else if not (has status ata_sr_drdy)
    then rest
    else (true, m')

-- What follows the last wait of `ata_init`.
unfoldable pub init_check : Machine → Bool × Machine
unfolding has ata_status_get
init_check m =
    let status = answer m in
    let m' = ata_status_get m in
    if has status (bit_or ata_sr_err ata_sr_df)
    then (false, m')
    else if has status ata_sr_drq
    then (false, m')
    else (true, m')

unfoldable pub ata_init : Machine → Bool × Machine
unfolding delay
ata_init m =
    let (going, m1) =
      init_loop drq_timeout (delay (outb ata_reg_drive_sel 0xE0 (outb ata_reg_control 0x02 m))) in
    let (idle, m2) = ata_wait_idle (delay (outb ata_reg_command ata_cmd_set_multiple (delay m1))) in
    if not going then (false, m1) else if not idle then (false, m2) else init_check m2

unfoldable pub ata_lba28_set : (lba : ℕ) → Machine → Machine
unfolding delay
ata_lba28_set lba m = delay (
    outb ata_reg_drive_sel (bit_or 0xE0 (bit_and (lba / 2 ^ 24) 0x0F)) (
      outb ata_reg_lba_high (u8 (lba / 2 ^ 16))
        (outb ata_reg_lba_mid (u8 (lba / 2 ^ 8)) (outb ata_reg_lba_low (u8 lba) m))))

unfoldable pub ata_lba48_set : (lba sector_count : ℕ) → Machine → Machine
unfolding delay
ata_lba48_set lba sector_count m =
    let full = sector_count == 65536 in
    let count_high = if full then 0 else u8 (sector_count / 2 ^ 8) in
    let count_low = if full then 0 else u8 (bit_and sector_count 0xFF) in
    let selected = delay (outb ata_reg_drive_sel 0xE0 m) in
    let high = outb ata_reg_lba_high (u8 (lba / 2 ^ 40)) (
      outb ata_reg_lba_mid (u8 (lba / 2 ^ 32))
        (outb ata_reg_lba_low (u8 (lba / 2 ^ 24)) (outb ata_reg_seccount count_high selected))) in
    delay (
      outb ata_reg_lba_high (u8 (lba / 2 ^ 16)) (
        outb ata_reg_lba_mid (u8 (lba / 2 ^ 8))
          (outb ata_reg_lba_low (u8 lba) (outb ata_reg_seccount count_low high))))

-- The four transfer functions, which differ in their command, in how they write the address, and in
-- the direction.
pub data Transfer : Type 0 where
  read_28 write_28 read_48 write_48 : Transfer

abbrev pub command : Transfer → ℕ
command read_28 = 0x20
command write_28 = 0x30
command read_48 = 0x24
command write_48 = 0x34

-- From the address to the delay after the command.
unfoldable pub issue : Transfer → (lba : ℕ) → Machine → Machine
unfolding delay ata_lba28_set ata_lba48_set
issue read_28 lba m =
    delay (outb ata_reg_command (command read_28) (outb ata_reg_seccount 1 (ata_lba28_set lba m)))
issue write_28 lba m =
    delay (outb ata_reg_command (command write_28) (outb ata_reg_seccount 1 (ata_lba28_set lba m)))
issue read_48 lba m = delay (outb ata_reg_command (command read_48) (ata_lba48_set lba 1 m))
issue write_48 lba m = delay (outb ata_reg_command (command write_48) (ata_lba48_set lba 1 m))

-- The `insw` or `outsw` of a sector.
unfoldable pub move_sector : Transfer → (ptr : ℕ) → Machine → Machine
move_sector read_28 ptr m = insw_mem ata_reg_data ptr 256 m
move_sector write_28 ptr m = outsw ata_reg_data ptr 256 m
move_sector read_48 ptr m = insw_mem ata_reg_data ptr 256 m
move_sector write_48 ptr m = outsw ata_reg_data ptr 256 m

-- One round of a transfer loop, up to the transfer; false is an early `return 0`.
unfoldable pub poll_sector : Transfer → (lba ptr : ℕ) → Machine → Bool × Machine
poll_sector t lba ptr m =
    let (idle, m1) = ata_wait_idle m in
    let (drq, m2) = ata_wait_drq (issue t lba m1) in
    if not idle then (false, m1) else if not drq then (false, m2) else (true, move_sector t ptr m2)

-- `lba += 1`, in uint32_t or uint64_t
abbrev pub next_lba : Transfer → ℕ → ℕ
next_lba read_28 lba = u32 (lba + 1)
next_lba write_28 lba = u32 (lba + 1)
next_lba read_48 lba = u64 (lba + 1)
next_lba write_48 lba = u64 (lba + 1)

-- `while (sector_count)`, and the wait after it
unfoldable pub poll_loop : Transfer → (sector_count lba ptr : ℕ) → Machine → Bool × Machine
poll_loop t zero lba ptr m = ata_wait_idle m
poll_loop t (suc sector_count) lba ptr m =
    let (done, m') = poll_sector t lba ptr m in
    let rest = poll_loop t sector_count (next_lba t lba) (u64 (ptr + 512)) m' in
    if done then rest else (false, m')

unfoldable pub ata_disk_write_28_poll : (lba addr sector_count : ℕ) → Machine → Bool × Machine
unfolding poll_loop
ata_disk_write_28_poll lba addr sector_count m = poll_loop write_28 sector_count lba addr m

unfoldable pub ata_disk_read_28_poll : (lba addr sector_count : ℕ) → Machine → Bool × Machine
unfolding poll_loop
ata_disk_read_28_poll lba addr sector_count m = poll_loop read_28 sector_count lba addr m

unfoldable pub ata_disk_write_48_poll : (lba addr sector_count : ℕ) → Machine → Bool × Machine
unfolding poll_loop
ata_disk_write_48_poll lba addr sector_count m = poll_loop write_48 sector_count lba addr m

unfoldable pub ata_disk_read_48_poll : (lba addr sector_count : ℕ) → Machine → Bool × Machine
unfolding poll_loop
ata_disk_read_48_poll lba addr sector_count m = poll_loop read_48 sector_count lba addr m
