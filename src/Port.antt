-- ===== src/Port.antt =====
-- The port instructions as kernel/common.h and kernelLoader/common.h declare them and the C code calls
-- them: insw and outsw move `count` words. Asm has the wrappers behind the declarations. What the
-- device answers is data of the machine: the `n`-th byte that is read from a port is `answers n`, the
-- `n`-th word of a block read is `words n`.
pub mod Memory
use bootloader_kernel_in_nas.Base.{ℕ, zero, suc, ◌+◌, ◌*◌, ◌/◌, ◌%◌, ◌^◌, List, [], ◌∷◌, update}

-- One access; a block write carries the words that were sent.
pub data PortOp : Type 0 where
  out_byte : (port value : ℕ) → PortOp
  in_byte : (port value : ℕ) → PortOp
  in_words : (port count : ℕ) → PortOp
  out_words : (port : ℕ) → List ℕ → PortOp

pub record Machine : Type 0 where
  pub answers : ℕ → ℕ
  pub words : ℕ → ℕ
  pub reads : ℕ
  pub words_read : ℕ
  pub mem : ℕ → ℕ  -- one byte at each address
  pub trace : List PortOp  -- the latest access first

abbrev pub u8 : ℕ → ℕ
u8 n = n % 2 ^ 8

abbrev pub u16 : ℕ → ℕ
u16 n = n % 2 ^ 16

abbrev pub u32 : ℕ → ℕ
u32 n = n % 2 ^ 32

-- What the next `inb` returns.
abbrev pub answer : Machine → ℕ
answer m = u8 (m.answers m.reads)

unfoldable pub outb : (port value : ℕ) → Machine → Machine
outb port value m = record m { trace = out_byte port value ∷ m.trace }

-- The machine after an `inb`, which returns `answer`.
unfoldable pub inb : (port : ℕ) → Machine → Machine
inb port m = record m { reads = m.reads + 1; trace = in_byte port (answer m) ∷ m.trace }

-- `count` words from the position `pos` of the device's data on
unfoldable pub incoming : (count pos : ℕ) → (ℕ → ℕ) → List ℕ
incoming zero pos words = []
incoming (suc count) pos words = u16 (words pos) ∷ incoming count (pos + 1) words

-- Words in memory are little-endian.
unfoldable pub store_words : (addr : ℕ) → List ℕ → (ℕ → ℕ) → ℕ → ℕ
store_words addr [] mem = mem
store_words addr (w ∷ ws) mem =
    store_words (addr + 2) ws (update (update mem addr (w % 256)) (addr + 1) (w / 256 % 256))

unfoldable pub load_words : (count addr : ℕ) → (ℕ → ℕ) → List ℕ
load_words zero addr mem = []
load_words (suc count) addr mem =
    (mem addr + 256 * mem (addr + 1)) ∷ load_words count (addr + 2) mem

-- The words that the next block read of `count` words transfers.
abbrev pub block : (count : ℕ) → Machine → List ℕ
block count m = incoming count m.words_read m.words

-- The machine after `insw`, but for the memory that it writes.
unfoldable pub insw : (port count : ℕ) → Machine → Machine
insw port count m = record m {
  words_read = m.words_read + count;
  trace = in_words port count ∷ m.trace;
}

-- `insw` into memory at `addr`
unfoldable pub insw_mem : (port addr count : ℕ) → Machine → Machine
unfolding insw
insw_mem port addr count m = record (insw port count m) {
  mem = store_words addr (block count m) m.mem;
}

unfoldable pub outsw : (port addr count : ℕ) → Machine → Machine
outsw port addr count m = record m {
  trace = out_words port (load_words count addr m.mem) ∷ m.trace;
}
