-- ===== src/AtaPoll/Same.antt =====
-- The two drivers in the loader, function by function.
use bootloader_kernel_in_nas.Base.{
  ℕ, zero, suc, ◌+◌, Bool, false, if◌then◌else◌, ◌≡◌, refl, sym, ◌∙◌, arith,
}
use bootloader_kernel_in_nas.Page.{u64}
use bootloader_kernel_in_nas.Port.{Machine, u32}
use bootloader_kernel_in_nas.AtaPoll.{
  has, ata_status_get, wait_idle_loop, wait_drq_loop, ata_wait_idle, ata_wait_drq, ata_lba28_set,
  ata_lba48_set, delay, Transfer, read_28, write_28, read_48, write_48, issue, move_sector,
  poll_sector, poll_loop, next_lba,
}
use bootloader_kernel_in_nas.AtaPoll.Disk.{disk_poll, disk_poll-poll_loop}
use bootloader_kernel_in_nas.AtaPoll.Older.{
  idle_loop, drq_loop, get_status_ata, wait_for_idle_ata, wait_for_drq_ata, setup_lba_dest_28,
  setup_lba_dest_48, round, read_from_disk_ata_28, write_to_disk_ata_28, read_from_disk_ata_48,
  write_to_disk_ata_48,
}

idle_loop-same : (timeout : ℕ) (m : Machine) → idle_loop timeout m ≡ wait_idle_loop timeout m
unfolding idle_loop wait_idle_loop get_status_ata ata_status_get has
idle_loop-same zero m = refl
idle_loop-same (suc timeout) m = ground (arith, idle_loop-same timeout (ata_status_get m))

drq_loop-same : (timeout : ℕ) (m : Machine) → drq_loop timeout m ≡ wait_drq_loop timeout m
unfolding drq_loop wait_drq_loop get_status_ata ata_status_get has
drq_loop-same zero m = refl
drq_loop-same (suc timeout) m = ground (arith, drq_loop-same timeout (ata_status_get m))

wait_idle-same : (m : Machine) → wait_for_idle_ata m ≡ ata_wait_idle m
unfolding wait_for_idle_ata ata_wait_idle
wait_idle-same m = idle_loop-same 100_000_000 m

wait_drq-same : (m : Machine) → wait_for_drq_ata m ≡ ata_wait_drq m
unfolding wait_for_drq_ata ata_wait_drq
wait_drq-same m = drq_loop-same 10_000_000 m

lba28-same : (lba : ℕ) (m : Machine) → setup_lba_dest_28 lba m ≡ ata_lba28_set lba m
unfolding setup_lba_dest_28 ata_lba28_set delay
lba28-same lba m = refl

lba48-same :
    (lba count : ℕ) (m : Machine) → setup_lba_dest_48 lba count m ≡ ata_lba48_set lba count m
unfolding setup_lba_dest_48 ata_lba48_set delay
lba48-same lba count m = refl

-- The transfer functions of the older driver.
abbrev pub older_poll : Transfer → (lba addr sector_count : ℕ) → Machine → Bool × Machine
older_poll read_28 = read_from_disk_ata_28
older_poll write_28 = write_to_disk_ata_28
older_poll read_48 = read_from_disk_ata_48
older_poll write_48 = write_to_disk_ata_48

round-same :
    (t : Transfer) (lba ptr : ℕ) (m : Machine)
    → round (issue t lba) (move_sector t ptr) m ≡ poll_sector t lba ptr m
unfolding round poll_sector
round-same t lba ptr m = rw (wait_idle-same m, wait_drq-same (issue t lba (ata_wait_idle m).1)) refl

-- One step of a loop of the older driver.
step_same :
    (t : Transfer) (n lba ptr : ℕ) (m : Machine)
    → (k : Machine → Bool × Machine)
    → ((m' : Machine) → k m' ≡ poll_loop t n (next_lba t lba) (u64 (ptr + 512)) m')
    → (let (done, m') = round (issue t lba) (move_sector t ptr) m in
        let rest = k m' in if done then rest else (false, m'))
      ≡ poll_loop t (suc n) lba ptr m
unfolding poll_loop
step_same t n lba ptr m k same = rw (round-same t lba ptr m, same (poll_sector t lba ptr m).1) refl

older-poll_loop :
    (t : Transfer) (n lba ptr : ℕ) (m : Machine)
    → older_poll t lba ptr n m ≡ poll_loop t n lba ptr m
unfolding read_from_disk_ata_28 write_to_disk_ata_28 read_from_disk_ata_48 write_to_disk_ata_48
    setup_lba_dest_28 setup_lba_dest_48 issue move_sector ata_lba28_set ata_lba48_set delay
older-poll_loop read_28 zero lba ptr m = wait_idle-same m ∙ unfold poll_loop in refl
older-poll_loop write_28 zero lba ptr m = wait_idle-same m ∙ unfold poll_loop in refl
older-poll_loop read_48 zero lba ptr m = wait_idle-same m ∙ unfold poll_loop in refl
older-poll_loop write_48 zero lba ptr m = wait_idle-same m ∙ unfold poll_loop in refl
older-poll_loop read_28 (suc n) lba ptr m =
    step_same read_28 n lba ptr m _ (older-poll_loop read_28 n (u32 (lba + 1)) (u64 (ptr + 512)))
older-poll_loop write_28 (suc n) lba ptr m =
    step_same write_28 n lba ptr m _ (older-poll_loop write_28 n (u32 (lba + 1)) (u64 (ptr + 512)))
older-poll_loop read_48 (suc n) lba ptr m =
    step_same read_48 n lba ptr m _ (older-poll_loop read_48 n (u64 (lba + 1)) (u64 (ptr + 512)))
older-poll_loop write_48 (suc n) lba ptr m =
    step_same write_48 n lba ptr m _ (older-poll_loop write_48 n (u64 (lba + 1)) (u64 (ptr + 512)))

-- Each of the four transfer functions of ata_driver.c does exactly what its namesake of atadriver.c
-- does, on every machine.
pub older_poll-disk_poll :
    (t : Transfer) (lba addr n : ℕ) (m : Machine)
    → older_poll t lba addr n m ≡ disk_poll t lba addr n m
older_poll-disk_poll t lba addr n m =
    older-poll_loop t n lba addr m ∙ sym (disk_poll-poll_loop t lba addr n m)
