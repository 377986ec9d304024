-- ===== src/Asm/Access.antt =====
-- What the wrappers of kernel/io_wrapper.asm do at the ports.
use bootloader_kernel_in_nas.Base.{ℕ, Option, none, some, ◌≡◌, refl, ap, ap₂, arith}
use bootloader_kernel_in_nas.Port.{Machine, u8, u16, answer, outb, inb, insw_mem, outsw}
use bootloader_kernel_in_nas.Asm.{
  Cpu, Wrapper, outb_w, inb_w, outw_w, inw_w, insw_w, outsw_w, outb_irq, inb_irq, outw_irq, inw_irq,
  insw_irq, outsw_irq, outw, inw, word_answer, low8, low16, execute, run, program, get, put,
  outb_body, inb_body, outw_body, inw_body, insw_body, outsw_body,
}

-- The words that a block wrapper moves: the port stands in the low digits of the count.
abbrev pub moved : Cpu → ℕ
moved m = low16 m.d m.di

-- The access that each wrapper makes, in terms of the registers that hold its arguments.
abbrev pub access : Wrapper → Cpu → Machine
access outb_w m = outb (u16 m.di) (u8 m.si) m.io
access outb_irq m = outb (u16 m.di) (u8 m.si) m.io
access inb_w m = inb (u16 m.di) m.io
access inb_irq m = inb (u16 m.di) m.io
access outw_w m = outw (u16 m.di) (u16 m.si) m.io
access outw_irq m = outw (u16 m.di) (u16 m.si) m.io
access inw_w m = inw (u16 m.di) m.io
access inw_irq m = inw (u16 m.di) m.io
access insw_w m = insw_mem (u16 m.di) m.si (moved m) m.io
access insw_irq m = insw_mem (u16 m.di) m.si (moved m) m.io
access outsw_w m = outsw (u16 m.di) m.si (moved m) m.io
access outsw_irq m = outsw (u16 m.di) m.si (moved m) m.io

-- What a wrapper for reading one value returns in rax; the others return nothing.
abbrev pub result : Wrapper → Cpu → Option ℕ
result inb_w m = some (answer m.io)
result inb_irq m = some (answer m.io)
result inw_w m = some (word_answer m.io)
result inw_irq m = some (word_answer m.io)
result _ m = none

-- A call of the wrapper: it comes to its `ret` with the stack as it was.
pub record IsCall (w : Wrapper) (m : Cpu) : Type 0 where
  pub out : Cpu
  pub returns : run (program w) m ≡ some out
  pub does : out.io ≡ access w m
  pub balanced : out.stack ≡ m.stack
  pub value : (v : ℕ) → result w m ≡ some v → out.a ≡ v

pub none_ne_some : {v : ℕ} → ◌≡◌ {A = Option ℕ} none (some v) → ⊥
none_ne_some h = cc

some_same : {v v' : ℕ} → ◌≡◌ {A = Option ℕ} (some v) (some v') → v ≡ v'
some_same h = cc

port_is : (old new : ℕ) → u16 (low16 old new) ≡ u16 new
port_is old new = omega arith

byte_is : (old new : ℕ) → u8 (low8 old new) ≡ u8 new
byte_is old new = omega arith

-- Whatever the registers hold, every wrapper comes to its end with the stack as it was, and makes its
-- access: one byte or word at the port in the first argument, the value being the second one; a block
-- wrapper moves words between that port and the address in the second argument, as many as the third
-- argument says with its low sixteen digits replaced by the port. A wrapper that reads one value
-- returns it.
pub program-IsCall : (w : Wrapper) (m : Cpu) → IsCall w m
unfolding run program execute get put outb_body inb_body outw_body inw_body insw_body outsw_body
program-IsCall outb_w m = record {
  out = _;
  returns = refl;
  does = ap₂ (λ (p v : ℕ). outb p v m.io) (port_is m.d m.di) (byte_is m.a m.si);
  balanced = refl;
  value = λ v h. absurd (none_ne_some h);
}
program-IsCall outb_irq m = record {
  out = _;
  returns = refl;
  does = ap₂ (λ (p v : ℕ). outb p v m.io) (port_is m.d m.di) (byte_is m.a m.si);
  balanced = refl;
  value = λ v h. absurd (none_ne_some h);
}
program-IsCall inb_w m = record {
  out = _;
  returns = refl;
  does = ap (λ (p : ℕ). inb p m.io) (port_is m.d m.di);
  balanced = refl;
  value = λ v h. omega (arith, some_same h);
}
program-IsCall inb_irq m = record {
  out = _;
  returns = refl;
  does = ap (λ (p : ℕ). inb p m.io) (port_is m.d m.di);
  balanced = refl;
  value = λ v h. omega (arith, some_same h);
}
program-IsCall outw_w m = record {
  out = _;
  returns = refl;
  does = ap₂ (λ (p v : ℕ). outw p v m.io) (port_is m.d m.di) (port_is m.a m.si);
  balanced = refl;
  value = λ v h. absurd (none_ne_some h);
}
program-IsCall outw_irq m = record {
  out = _;
  returns = refl;
  does = ap₂ (λ (p v : ℕ). outw p v m.io) (port_is m.d m.di) (port_is m.a m.si);
  balanced = refl;
  value = λ v h. absurd (none_ne_some h);
}
program-IsCall inw_w m = record {
  out = _;
  returns = refl;
  does = ap (λ (p : ℕ). inw p m.io) (port_is m.d m.di);
  balanced = refl;
  value = λ v h. omega (arith, some_same h);
}
program-IsCall inw_irq m = record {
  out = _;
  returns = refl;
  does = ap (λ (p : ℕ). inw p m.io) (port_is m.d m.di);
  balanced = refl;
  value = λ v h. omega (arith, some_same h);
}
program-IsCall insw_w m = record {
  out = _;
  returns = refl;
  does = ap (λ (p : ℕ). insw_mem p m.si (moved m) m.io) (port_is m.d m.di);
  balanced = refl;
  value = λ v h. absurd (none_ne_some h);
}
program-IsCall insw_irq m = record {
  out = _;
  returns = refl;
  does = ap (λ (p : ℕ). insw_mem p m.si (moved m) m.io) (port_is m.d m.di);
  balanced = refl;
  value = λ v h. absurd (none_ne_some h);
}
program-IsCall outsw_w m = record {
  out = _;
  returns = refl;
  does = ap (λ (p : ℕ). outsw p m.si (moved m) m.io) (port_is m.d m.di);
  balanced = refl;
  value = λ v h. absurd (none_ne_some h);
}
program-IsCall outsw_irq m = record {
  out = _;
  returns = refl;
  does = ap (λ (p : ℕ). outsw p m.si (moved m) m.io) (port_is m.d m.di);
  balanced = refl;
  value = λ v h. absurd (none_ne_some h);
}
