-- ===== src/Tests/AtaPollRuns.antt =====
-- The polling driver at concrete devices.
use bootloader_kernel_in_nas.Base.{
  ℕ, zero, suc, ◌+◌, ◌≡◌, refl, arith, true, false, none, some, [], ◌==◌, if◌then◌else◌,
}
use bootloader_kernel_in_nas.Port.{Machine}
use bootloader_kernel_in_nas.AtaPoll.{read_28, write_28, ata_init}
use bootloader_kernel_in_nas.AtaPoll.Wait.{
  for_idle, for_drq, wait, limit, verdict, polled, wait_timeout,
}
use bootloader_kernel_in_nas.AtaPoll.Served.{IsSeen, Serves}
use bootloader_kernel_in_nas.AtaPoll.Disk.{disk_poll, served-disk_poll}
use bootloader_kernel_in_nas.AtaPoll.Init.{IsInit, ata_init-IsInit}
use bootloader_kernel_in_nas.AtaPoll.Same.{older_poll, older_poll-disk_poll}

abbrev device : (ℕ → ℕ) → Machine
device answers = record {
  answers = answers;
  words = λ n. n + 7;
  reads = 0;
  words_read = 0;
  mem = λ a. 3;
  trace = [];
}

-- A disk that is busy at first and then ready, and one that stays busy.
abbrev ready_later : Machine
ready_later = device (λ n. if n == 0 then 0x80 else 0x50)

abbrev busy : Machine
busy = device (λ n. 0x80)

-- A disk that is ready and has data.
abbrev serving : Machine
serving = device (λ n. 0x58)

still_busy : verdict for_drq 0x80 ≡ none
unfolding verdict
still_busy = refl

wait_timeout_example : wait for_drq busy ≡ (false, polled (limit for_drq) busy)
wait_timeout_example = wait_timeout for_drq busy (λ j l. still_busy)

serving_ready : verdict for_idle 0x58 ≡ some true
unfolding verdict
serving_ready = refl

serving_data : verdict for_drq 0x58 ≡ some true
unfolding verdict
serving_data = refl

IsSeen-ready : (pos : ℕ) → IsSeen for_idle pos (λ n. 0x58) 0
IsSeen-ready pos = (omega arith, (λ j l. absurd (omega arith)), serving_ready)

IsSeen-data : (pos : ℕ) → IsSeen for_drq pos (λ n. 0x58) 0
IsSeen-data pos = (omega arith, (λ j l. absurd (omega arith)), serving_data)

serves : (n pos : ℕ) → Serves read_28 n pos (λ n. 0x58)
unfolding Serves
serves zero pos = (0, IsSeen-ready pos)
serves (suc n) pos = (0, 0, IsSeen-ready pos, IsSeen-data (pos + 9), serves n (pos + 9 + 1))

served-disk_poll_example : (disk_poll read_28 100 0x40_0000 3 serving).0 ≡ true
served-disk_poll_example = served-disk_poll read_28 100 0x40_0000 3 serving (serves 3 0)

ata_init-IsInit_example : IsInit ready_later (ata_init ready_later)
ata_init-IsInit_example = ata_init-IsInit ready_later

older_poll-disk_poll_example :
    older_poll write_28 7 0x40_0000 3 ready_later ≡ disk_poll write_28 7 0x40_0000 3 ready_later
older_poll-disk_poll_example = older_poll-disk_poll write_28 7 0x40_0000 3 ready_later
