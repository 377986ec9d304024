-- ===== src/AtaPoll/Disk.antt =====
-- The four transfer functions of the polling driver.
use bootloader_kernel_in_nas.Base.{
  ℕ, ◌+◌, ◌*◌, ◌≤◌, ◌<◌, Bool, true, false, ◌++◌, ◌≡◌, ◌⊎◌, refl, ap, ◌∙◌,
}
use bootloader_kernel_in_nas.Port.{Machine, incoming, load_words}
use bootloader_kernel_in_nas.AtaPoll.{
  Transfer, read_28, write_28, read_48, write_48, poll_loop, ata_disk_read_28_poll,
  ata_disk_write_28_poll, ata_disk_read_48_poll, ata_disk_write_48_poll,
}
use bootloader_kernel_in_nas.AtaPoll.Sector.{is_read, issued, written}
use bootloader_kernel_in_nas.AtaPoll.Outcome.{requests, sectors_of}
use bootloader_kernel_in_nas.AtaPoll.Served.{Serves, served-poll_loop}

-- The function that makes a transfer.
abbrev pub disk_poll : Transfer → (lba addr sector_count : ℕ) → Machine → Bool × Machine
disk_poll read_28 = ata_disk_read_28_poll
disk_poll write_28 = ata_disk_write_28_poll
disk_poll read_48 = ata_disk_read_48_poll
disk_poll write_48 = ata_disk_write_48_poll

pub disk_poll-poll_loop :
    (t : Transfer) (lba addr n : ℕ) (m : Machine)
    → disk_poll t lba addr n m ≡ poll_loop t n lba addr m
unfolding ata_disk_read_28_poll ata_disk_write_28_poll ata_disk_read_48_poll ata_disk_write_48_poll
disk_poll-poll_loop read_28 lba addr n m = refl
disk_poll-poll_loop write_28 lba addr n m = refl
disk_poll-poll_loop read_48 lba addr n m = refl
disk_poll-poll_loop write_48 lba addr n m = refl

-- The outcome of a transfer function: `moved` sectors moved and `begun` commands issued.
pub record IsPolled (t : Transfer) (lba addr n : ℕ) (m : Machine) (r : Bool × Machine)
    : Type 0 where
  pub begun : ℕ
  pub moved : ℕ
  pub begun-le : begun ≤ n
  pub moved-le : moved ≤ begun
  pub one_open : begun ≤ moved + 1
  pub all_moved : r.0 ≡ true → moved ≡ n
  pub commands : issued t r.1.trace ≡ requests t begun lba ++ issued t m.trace
  pub data_written :
      is_read t ≡ false → written r.1.trace ≡ sectors_of moved addr m.mem ++ written m.trace
  pub data_read :
      is_read t ≡ true
      → (i : ℕ) → i < moved
      → load_words 256 (addr + 512 * i) r.1.mem ≡ incoming 256 (m.words_read + 256 * i) m.words
  pub rest_kept :
      (a : ℕ) → (is_read t ≡ false) ⊎ ((a < addr) ⊎ (addr + 512 * moved ≤ a)) → r.1.mem a ≡ m.mem a

-- A transfer function returns 1 where the disk serves its sectors within the timeouts: it is ready
-- before each sector and after the last, and asks for the data of each.
pub served-disk_poll :
    (t : Transfer) (lba addr n : ℕ) (m : Machine)
    → Serves t n m.reads m.answers
    → (disk_poll t lba addr n m).0 ≡ true
served-disk_poll t lba addr n m serves =
    ap (λ (r : Bool × Machine). r.0) (disk_poll-poll_loop t lba addr n m)
    ∙ served-poll_loop t n lba addr m serves
