-- ===== src/Asm.antt =====
-- kernel/io_wrapper.asm, which kernelLoader/io_wrapper.asm repeats: the wrappers of the port
-- instructions, instruction by instruction. Port has what they are declared to do.
pub mod Access
pub mod Saved
use bootloader_kernel_in_nas.Base.{
  ℕ, ◌+◌, ◌*◌, ◌/◌, ◌%◌, ◌^◌, Bool, true, false, Option, none, some, List, [], ◌∷◌, ◌++◌, ◌>>=◌,
}
use bootloader_kernel_in_nas.Port.{
  Machine, u8, u16, u32, answer, outb, inb, insw_mem, outsw, out_words, in_words,
}

pub data Register : Type 0 where
  rax rcx rdx rsi rdi : Register

-- The registers that the wrappers touch, the stack, the direction flag, and what is outside.
pub record Cpu : Type 0 where
  pub a : ℕ
  pub c : ℕ
  pub d : ℕ
  pub si : ℕ
  pub di : ℕ
  pub stack : List ℕ
  pub backward : Bool
  pub io : Machine

unfoldable pub get : Register → Cpu → ℕ
get rax m = m.a
get rcx m = m.c
get rdx m = m.d
get rsi m = m.si
get rdi m = m.di

unfoldable pub put : Register → ℕ → Cpu → Cpu
put rax v m = record m { a = v }
put rcx v m = record m { c = v }
put rdx v m = record m { d = v }
put rsi v m = record m { si = v }
put rdi v m = record m { di = v }

-- `mov` of 8, 16 and 64 digits, `movzx` into `eax`, `in` and `out` of a byte and of a word.
pub data Instruction : Type 0 where
  mov8 mov16 mov64 : (to from : Register) → Instruction
  movzx8 movzx16 : Instruction
  out8 out16 in8 in16 : Instruction
  cld rep_insw rep_outsw : Instruction
  push pop : Register → Instruction

-- `out dx, ax`: one word
unfoldable pub outw : (port value : ℕ) → Machine → Machine
outw port value m = record m { trace = out_words port (u16 value ∷ []) ∷ m.trace }

-- The word that the next `in ax, dx` gets, and the machine after it
abbrev pub word_answer : Machine → ℕ
word_answer m = u16 (m.words m.words_read)

unfoldable pub inw : (port : ℕ) → Machine → Machine
inw port m = record m { words_read = m.words_read + 1; trace = in_words port 1 ∷ m.trace }

-- The low digits of one value in place of those of another.
abbrev pub low8 : (old new : ℕ) → ℕ
low8 old new = old / 2 ^ 8 * 2 ^ 8 + new % 2 ^ 8

abbrev pub low16 : (old new : ℕ) → ℕ
low16 old new = old / 2 ^ 16 * 2 ^ 16 + new % 2 ^ 16

-- A block instruction that runs backward is not modelled.
unfoldable pub execute : Instruction → Cpu → Option Cpu
unfolding get put outw inw
execute (mov8 to from) m = some (put to (low8 (get to m) (get from m)) m)
execute (mov16 to from) m = some (put to (low16 (get to m) (get from m)) m)
execute (mov64 to from) m = some (put to (get from m) m)
execute movzx8 m = some (record m { a = u8 m.a })
execute movzx16 m = some (record m { a = u16 m.a })
execute out8 m = some (record m { io = outb (u16 m.d) (u8 m.a) m.io })
execute out16 m = some (record m { io = outw (u16 m.d) (u16 m.a) m.io })
execute in8 m = some (record m { a = low8 m.a (answer m.io); io = inb (u16 m.d) m.io })
execute in16 m = some (record m { a = low16 m.a (word_answer m.io); io = inw (u16 m.d) m.io })
execute cld m = some (record m { backward = false })
execute rep_insw m = elim m.backward [
  | true ↦ none
  | false ↦ some (record m { c = 0; di = m.di + 2 * m.c; io = insw_mem (u16 m.d) m.di m.c m.io })
]
execute rep_outsw m = elim m.backward [
  | true ↦ none
  | false ↦ some (record m { c = 0; si = m.si + 2 * m.c; io = outsw (u16 m.d) m.si m.c m.io })
]
execute (push r) m = some (record m { stack = get r m ∷ m.stack })
execute (pop r) m = elim m.stack [
  | [] ↦ none
  | v ∷ rest ↦ some (put r v (record m { stack = rest }))
]

unfoldable pub run : List Instruction → Cpu → Option Cpu
unfolding execute
run [] m = some m
run (i ∷ is) m = execute i m >>= run is

-- The wrappers; each ends with `ret`.
pub data Wrapper : Type 0 where
  outb_w inb_w outw_w inw_w insw_w outsw_w : Wrapper
  outb_irq inb_irq outw_irq inw_irq insw_irq outsw_irq : Wrapper

unfoldable pub outb_body : List Instruction
outb_body = mov16 rdx rdi ∷ mov8 rax rsi ∷ out8 ∷ []

unfoldable pub inb_body : List Instruction
inb_body = mov16 rdx rdi ∷ in8 ∷ movzx8 ∷ []

unfoldable pub outw_body : List Instruction
outw_body = mov16 rdx rdi ∷ mov16 rax rsi ∷ out16 ∷ []

unfoldable pub inw_body : List Instruction
inw_body = mov16 rdx rdi ∷ in16 ∷ movzx16 ∷ []

unfoldable pub insw_body : List Instruction
insw_body = mov16 rdx rdi ∷ mov64 rdi rsi ∷ mov64 rcx rdx ∷ cld ∷ rep_insw ∷ []

unfoldable pub outsw_body : List Instruction
outsw_body = mov16 rdx rdi ∷ mov64 rcx rdx ∷ cld ∷ rep_outsw ∷ []

unfoldable pub program : Wrapper → List Instruction
unfolding outb_body inb_body outw_body inw_body insw_body outsw_body
program outb_w = outb_body
program inb_w = inb_body
program outw_w = outw_body
program inw_w = inw_body
program insw_w = insw_body
program outsw_w = outsw_body
program outb_irq = push rax ∷ push rdx ∷ (outb_body ++ (pop rdx ∷ pop rax ∷ []))
program inb_irq = push rdx ∷ (inb_body ++ (pop rdx ∷ []))
program outw_irq = push rax ∷ push rdx ∷ (outw_body ++ (pop rdx ∷ pop rax ∷ []))
program inw_irq = push rdx ∷ (inw_body ++ (pop rdx ∷ []))
program insw_irq =
    push rcx ∷ push rdx ∷ push rdi ∷ (insw_body ++ (pop rdi ∷ pop rdx ∷ pop rcx ∷ []))
program outsw_irq =
    push rcx ∷ push rdx ∷ push rsi ∷ (outsw_body ++ (pop rsi ∷ pop rdx ∷ pop rcx ∷ []))
