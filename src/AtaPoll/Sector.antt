-- ===== src/AtaPoll/Sector.antt =====
-- What the disk gets from a trace of accesses: commands and blocks; accesses that give it nothing.
use bootloader_kernel_in_nas.Base.{
  ℕ, zero, suc, ◌+◌, ◌^◌, Bool, true, false, List, [], ◌∷◌, ◌==◌, if◌then◌else◌, ◌≡◌, refl, ◌∙◌,
  arith,
}
use bootloader_kernel_in_nas.Port.{Machine, PortOp, out_byte, out_words, inb}
use bootloader_kernel_in_nas.AtaIrq.{ata_reg_command, ata_reg_seccount}
use bootloader_kernel_in_nas.AtaIrq.TaskFile.{sent, previous, address_28, address_48, count_48}
use bootloader_kernel_in_nas.AtaPoll.{
  Transfer, read_28, write_28, read_48, write_48, ata_status_get,
}
use bootloader_kernel_in_nas.AtaPoll.Wait.{Wait, wait, polled, wait_polls}

abbrev pub is_read : Transfer → Bool
is_read read_28 = true
is_read write_28 = false
is_read read_48 = true
is_read write_48 = false

abbrev pub is_28 : Transfer → Bool
is_28 read_28 = true
is_28 write_28 = true
is_28 _ = false

-- The commands that the disk gets, the latest first: each with the address and the sector count that
-- the disk reads from its registers.
abbrev pub issued : Transfer → List PortOp → List (ℕ × ℕ × ℕ)
issued t [] = []
issued t (out_byte p v ∷ ops) =
    let rest = issued t ops in
    let place = if is_28 t then address_28 ops else address_48 ops in
    let count = if is_28 t then previous 0 (sent ata_reg_seccount ops) else count_48 ops in
    if p == ata_reg_command then (v, place, count) ∷ rest else rest
issued t (_ ∷ ops) = issued t ops

-- The blocks that the disk gets, the latest first.
abbrev pub written : List PortOp → List (List ℕ)
written [] = []
written (out_words p ws ∷ ops) = ws ∷ written ops
written (_ ∷ ops) = written ops

-- `m'` differs from `m` in what has been read from ports only.
pub record IsQuiet (t : Transfer) (m m' : Machine) : Type 0 where
  pub answers : m'.answers ≡ m.answers
  pub words : m'.words ≡ m.words
  pub words_read : m'.words_read ≡ m.words_read
  pub mem : m'.mem ≡ m.mem
  pub writes : written m'.trace ≡ written m.trace
  pub commands : issued t m'.trace ≡ issued t m.trace

pub IsQuiet-read : (t : Transfer) (m : Machine) → IsQuiet t m (ata_status_get m)
unfolding ata_status_get inb
IsQuiet-read t m = record {
  answers = refl;
  words = refl;
  words_read = refl;
  mem = refl;
  writes = refl;
  commands = refl;
}

pub IsQuiet-trans :
    {t : Transfer} {m m' m'' : Machine} → IsQuiet t m m' → IsQuiet t m' m'' → IsQuiet t m m''
IsQuiet-trans a b = record {
  answers = b.answers ∙ a.answers;
  words = b.words ∙ a.words;
  words_read = b.words_read ∙ a.words_read;
  mem = b.mem ∙ a.mem;
  writes = b.writes ∙ a.writes;
  commands = b.commands ∙ a.commands;
}

pub polled-IsQuiet : (t : Transfer) (k : ℕ) (m : Machine) → IsQuiet t m (polled k m)
unfolding polled
polled-IsQuiet t zero m = record {
  answers = refl;
  words = refl;
  words_read = refl;
  mem = refl;
  writes = refl;
  commands = refl;
}
polled-IsQuiet t (suc k) m =
    IsQuiet-trans (IsQuiet-read t m) (polled-IsQuiet t k (ata_status_get m))

pub wait-IsQuiet : (t : Transfer) (w : Wait) (m : Machine) → IsQuiet t m (wait w m).1
wait-IsQuiet t w m = let (k, le, same) = wait_polls w m in rw same (polled-IsQuiet t k m)

pub reads-polled : (k : ℕ) (m : Machine) → (polled k m).reads ≡ m.reads + k
unfolding polled
reads-polled zero m = omega arith
reads-polled (suc k) m =
    reads-polled k (ata_status_get m) ∙ (unfold ata_status_get inb in omega arith)

-- How many sectors a form of address can name.
abbrev pub capacity : Transfer → ℕ
capacity t = if is_28 t then 2 ^ 28 else 2 ^ 48
