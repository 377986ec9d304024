-- ===== src/AtaPoll/Round.antt =====
-- One round of a transfer loop: the command that it gives and the block that it moves.
use bootloader_kernel_in_nas.Base.{
  ℕ, ◌+◌, ◌*◌, ◌/◌, ◌%◌, ◌^◌, ◌<◌, bit_and, bit_or, Bool, true, false, not, ◌&&◌, if_cases, List,
  ◌∷◌, if◌then◌else◌, ◌≡◌, refl, ap, ap₂, ◌∙◌, arith,
}
use bootloader_kernel_in_nas.Bits.{bit_and-ones, bit_or-sum}
use bootloader_kernel_in_nas.Port.{
  Machine, u8, inb, outb, insw_mem, outsw, block, incoming, store_words, load_words,
}
use bootloader_kernel_in_nas.AtaIrq.TaskFile.{address_28, address_48, count_48}
use bootloader_kernel_in_nas.AtaPoll.{
  Transfer, read_28, write_28, read_48, write_48, command, issue, move_sector, poll_sector,
  ata_lba28_set, ata_lba48_set,
}
use bootloader_kernel_in_nas.AtaPoll.Wait.{for_idle, for_drq, wait}
use bootloader_kernel_in_nas.AtaPoll.Sector.{
  is_read, issued, written, IsQuiet, wait-IsQuiet, capacity,
}

drive_digits : (lba : ℕ) → bit_or 0xE0 (bit_and lba 0x0F) % 16 ≡ lba % 16
drive_digits lba = omega (arith, bit_and-ones 4 lba, bit_or-sum 4 14 (bit_and lba 15))

low_address :
    (lba : ℕ)
    → lba < 2 ^ 28
    → u8 lba
        + 2 ^ 8 * u8 (lba / 2 ^ 8)
        + 2 ^ 16 * u8 (lba / 2 ^ 16)
        + 2 ^ 24 * (bit_or 0xE0 (bit_and (lba / 2 ^ 24) 0x0F) % 16)
      ≡ lba
low_address lba small = omega (arith, drive_digits (lba / 2 ^ 24))

high_address :
    (lba : ℕ)
    → lba < 2 ^ 48
    → u8 lba
        + 2 ^ 8 * u8 (lba / 2 ^ 8)
        + 2 ^ 16 * u8 (lba / 2 ^ 16)
        + 2 ^ 24 * u8 (lba / 2 ^ 24)
        + 2 ^ 32 * u8 (lba / 2 ^ 32)
        + 2 ^ 40 * u8 (lba / 2 ^ 40)
      ≡ lba
high_address lba small = omega arith

-- After the address, the command and the delay the disk has got one more command, for the sector
-- at `lba`.
issue_commands :
    (t : Transfer) (lba : ℕ) (m : Machine)
    → lba < capacity t
    → issued t (issue t lba m).trace ≡ (command t, lba, 1) ∷ issued t m.trace
unfolding issue ata_lba28_set ata_lba48_set inb outb address_28 address_48 count_48
issue_commands read_28 lba m small =
    ap (λ (a : ℕ). (0x20, a, 1) ∷ issued read_28 m.trace) (low_address lba small)
issue_commands write_28 lba m small =
    ap (λ (a : ℕ). (0x30, a, 1) ∷ issued write_28 m.trace) (low_address lba small)
issue_commands read_48 lba m small =
    ap (λ (a : ℕ). (0x24, a, 1) ∷ issued read_48 m.trace) (high_address lba small)
issue_commands write_48 lba m small =
    ap (λ (a : ℕ). (0x34, a, 1) ∷ issued write_48 m.trace) (high_address lba small)

-- What issuing a command leaves alone.
record IsIssue (m m' : Machine) : Type 0 where
  answers : m'.answers ≡ m.answers
  words : m'.words ≡ m.words
  words_read : m'.words_read ≡ m.words_read
  mem : m'.mem ≡ m.mem
  writes : written m'.trace ≡ written m.trace

issue-IsIssue : (t : Transfer) (lba : ℕ) (m : Machine) → IsIssue m (issue t lba m)
unfolding issue ata_lba28_set ata_lba48_set inb outb
issue-IsIssue read_28 lba m = record {
  answers = refl;
  words = refl;
  words_read = refl;
  mem = refl;
  writes = refl;
}
issue-IsIssue write_28 lba m = record {
  answers = refl;
  words = refl;
  words_read = refl;
  mem = refl;
  writes = refl;
}
issue-IsIssue read_48 lba m = record {
  answers = refl;
  words = refl;
  words_read = refl;
  mem = refl;
  writes = refl;
}
issue-IsIssue write_48 lba m = record {
  answers = refl;
  words = refl;
  words_read = refl;
  mem = refl;
  writes = refl;
}

-- The outcome of one round: whether a command was begun, and what a whole sector leaves.
pub record IsRound (t : Transfer) (lba ptr : ℕ) (m : Machine) (r : Bool × Machine) : Type 0 where
  pub begun : Bool
  pub begun_first : r.0 ≡ true → begun ≡ true
  pub answers : r.1.answers ≡ m.answers
  pub words : r.1.words ≡ m.words
  pub words_read : r.1.words_read ≡ (if r.0 && is_read t then m.words_read + 256 else m.words_read)
  pub mem : r.1.mem ≡ (if r.0 && is_read t then store_words ptr (block 256 m) m.mem else m.mem)
  pub writes : written r.1.trace ≡ (
      if r.0 && not (is_read t)
      then load_words 256 ptr m.mem ∷ written m.trace
      else written m.trace)
  pub commands :
      issued t r.1.trace
      ≡ (if begun then (command t, lba, 1) ∷ issued t m.trace else issued t m.trace)

-- The transfer itself, on a machine that has the memory and the data of `m`.
read_sector_mem :
    (ptr : ℕ) (m m' : Machine)
    → IsIssue m m'
    → store_words ptr (block 256 m') m'.mem ≡ store_words ptr (block 256 m) m.mem
read_sector_mem ptr m m' i = ap₂ (store_words ptr) (ap₂ (incoming 256) i.words_read i.words) i.mem

write_sector :
    (ptr : ℕ) (m m' : Machine)
    → IsIssue m m'
    → ◌≡◌ {A = List (List ℕ)}
        (load_words 256 ptr m'.mem ∷ written m'.trace)
        (load_words 256 ptr m.mem ∷ written m.trace)
write_sector ptr m m' i = ap₂ ◌∷◌ (ap (load_words 256 ptr) i.mem) i.writes

move_sector-IsRound :
    (t : Transfer) (lba ptr : ℕ) (m m' : Machine)
    → IsIssue m m'
    → issued t m'.trace ≡ (command t, lba, 1) ∷ issued t m.trace
    → IsRound t lba ptr m (true, move_sector t ptr m')
unfolding move_sector insw_mem outsw
move_sector-IsRound read_28 lba ptr m m' i c = record {
  begun = true;
  begun_first = λ e. refl;
  answers = i.answers;
  words = i.words;
  words_read = ap (λ (n : ℕ). n + 256) i.words_read;
  mem = read_sector_mem ptr m m' i;
  writes = i.writes;
  commands = c;
}
move_sector-IsRound read_48 lba ptr m m' i c = record {
  begun = true;
  begun_first = λ e. refl;
  answers = i.answers;
  words = i.words;
  words_read = ap (λ (n : ℕ). n + 256) i.words_read;
  mem = read_sector_mem ptr m m' i;
  writes = i.writes;
  commands = c;
}
move_sector-IsRound write_28 lba ptr m m' i c = record {
  begun = true;
  begun_first = λ e. refl;
  answers = i.answers;
  words = i.words;
  words_read = i.words_read;
  mem = i.mem;
  writes = write_sector ptr m m' i;
  commands = c;
}
move_sector-IsRound write_48 lba ptr m m' i c = record {
  begun = true;
  begun_first = λ e. refl;
  answers = i.answers;
  words = i.words;
  words_read = i.words_read;
  mem = i.mem;
  writes = write_sector ptr m m' i;
  commands = c;
}

-- A round that ends without a transfer.
stopped-IsRound :
    (t : Transfer) (lba ptr : ℕ) (m m' : Machine) (begun : Bool)
    → IsIssue m m'
    → issued t m'.trace
      ≡ (if begun then (command t, lba, 1) ∷ issued t m.trace else issued t m.trace)
    → IsRound t lba ptr m (false, m')
stopped-IsRound t lba ptr m m' begun i c = record {
  begun = begun;
  begun_first = λ e. cc;
  answers = i.answers;
  words = i.words;
  words_read = i.words_read;
  mem = i.mem;
  writes = i.writes;
  commands = c;
}

quiet-IsIssue : {t : Transfer} {m m' : Machine} → IsQuiet t m m' → IsIssue m m'
quiet-IsIssue q = record {
  answers = q.answers;
  words = q.words;
  words_read = q.words_read;
  mem = q.mem;
  writes = q.writes;
}

IsIssue-trans : {m m' m'' : Machine} → IsIssue m m' → IsIssue m' m'' → IsIssue m m''
IsIssue-trans a b = record {
  answers = b.answers ∙ a.answers;
  words = b.words ∙ a.words;
  words_read = b.words_read ∙ a.words_read;
  mem = b.mem ∙ a.mem;
  writes = b.writes ∙ a.writes;
}

pub poll_sector-IsRound :
    (t : Transfer) (lba ptr : ℕ) (m : Machine)
    → lba < capacity t
    → IsRound t lba ptr m (poll_sector t lba ptr m)
unfolding poll_sector
poll_sector-IsRound t lba ptr m small =
    let m1 = (wait for_idle m).1 in
    let m2 = (wait for_drq (issue t lba m1)).1 in
    let q1 = wait-IsQuiet t for_idle m in
    let q2 = wait-IsQuiet t for_drq (issue t lba m1) in
    let i1 = quiet-IsIssue q1 in
    let i2 = IsIssue-trans (IsIssue-trans i1 (issue-IsIssue t lba m1)) (quiet-IsIssue q2) in
    let c2 : issued t m2.trace ≡ (command t, lba, 1) ∷ issued t m.trace =
      q2.commands ∙ issue_commands t lba m1 small ∙ ap (◌∷◌ (command t, lba, 1)) q1.commands in
    if_cases (IsRound t lba ptr m) (not (wait for_idle m).0)
      (λ e. stopped-IsRound t lba ptr m m1 false i1 q1.commands)
      (λ e.
        if_cases (IsRound t lba ptr m) (not (wait for_drq (issue t lba m1)).0)
          (λ e'. stopped-IsRound t lba ptr m m2 true i2 c2)
          (λ e'. move_sector-IsRound t lba ptr m m2 i2 c2))
