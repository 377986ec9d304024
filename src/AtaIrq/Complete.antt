-- ===== src/AtaIrq/Complete.antt =====
-- A whole request, served by a device that answers as the ATA protocol has it.
use bootloader_kernel_in_nas.Base.{
  ℕ, zero, suc, ◌+◌, ◌*◌, ◌≤◌, ◌<◌, ◌≡◌, ◌⊎◌, true, false, if◌then◌else◌,
}
use bootloader_kernel_in_nas.Page.{u64}
use bootloader_kernel_in_nas.Port.{Machine, u8, block, incoming, store_words, load_words}
use bootloader_kernel_in_nas.AtaIrq.{AtaOp, no_op, io_done, AtaContext, Driver}
use bootloader_kernel_in_nas.AtaIrq.Tick.{is_read}
use bootloader_kernel_in_nas.AtaIrq.Sector.{IsReady, IsThrough, sector_io}

-- For each of `n` sectors the device asserts DRQ when the interrupt's status is read, and drops it
-- before the last read of the alternate status, with no error and no fault in either.
abbrev pub Serves : (n : ℕ) → Machine → Type 0
Serves n m =
    (i : ℕ)
    → i < n
    → IsReady (u8 (m.answers (m.reads + 6 * i + 4)))
      × IsThrough (u8 (m.answers (m.reads + 6 * i + 5)))

-- What a sector leaves of the machine's streams and memory.
record IsSector (op : AtaOp) (ptr : ℕ) (m m' : Machine) : Type 0 where
  reads : m'.reads ≡ m.reads + 6
  answers : m'.answers ≡ m.answers
  words : m'.words ≡ m.words
  words_read : m'.words_read ≡ (if is_read op then m.words_read + 256 else m.words_read)
  mem : m'.mem ≡ (if is_read op then store_words ptr (block 256 m) m.mem else m.mem)

-- The machine after `n` sectors.
all_io : AtaOp → (lba n ptr : ℕ) → Machine → Machine
all_io op lba zero ptr m = m
all_io op lba (suc n) ptr m = all_io op (u64 (lba + 1)) n (u64 (ptr + 512)) (sector_io op lba ptr m)

-- The driver at the good end of a request.
abbrev pub at_done : AtaContext → (lba ptr status : ℕ) → AtaContext
at_done c lba ptr status = record c {
  irq_fired = false;
  last_status = status;
  op = no_op;
  step = io_done;
  delay_400 = 0;
  lba = lba;
  sectors_left = 0;
  batch_left = 0;
  ptr = ptr;
}

-- The outcome of a request for `n` sectors at `lba`, for memory at `addr`.
pub record IsComplete (op : AtaOp) (lba n addr : ℕ) (d d' : Driver) : Type 0 where
  pub done : d'.ctx.step ≡ io_done
  pub next_lba : d'.ctx.lba ≡ u64 (lba + n)
  pub next_ptr : d'.ctx.ptr ≡ u64 (addr + 512 * n)
  pub data_read :
      is_read op ≡ true
      → (i : ℕ) → i < n
      → load_words 256 (addr + 512 * i) d'.io.mem
        ≡ incoming 256 (d.io.words_read + 256 * i) d.io.words
  pub rest_kept : (a : ℕ) → (a < addr) ⊎ (addr + 512 * n ≤ a) → d'.io.mem a ≡ d.io.mem a
