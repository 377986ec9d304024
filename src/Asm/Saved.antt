-- ===== src/Asm/Saved.antt =====
-- The registers that the wrappers of kernel/io_wrapper.asm leave, and the count of the block wrappers.
use bootloader_kernel_in_nas.Base.{
  ℕ, ◌^◌, ◌<◌, Bool, true, false, none, some, ◌≡◌, refl, sym, ap, ◌∙◌, arith,
}
use bootloader_kernel_in_nas.Port.{Machine, u16, insw_mem, outsw}
use bootloader_kernel_in_nas.Asm.{
  Cpu, Wrapper, outb_w, inb_w, outw_w, inw_w, insw_w, outsw_w, outb_irq, inb_irq, outw_irq, inw_irq,
  insw_irq, outsw_irq, execute, run, program, get, put, outb_body, inb_body, outw_body, inw_body,
  insw_body, outsw_body,
}
use bootloader_kernel_in_nas.Asm.Access.{access, result, moved, program-IsCall, none_ne_some}

-- The wrappers that an interrupt handler may call.
abbrev pub is_irq : Wrapper → Bool
is_irq outb_irq = true
is_irq inb_irq = true
is_irq outw_irq = true
is_irq inw_irq = true
is_irq insw_irq = true
is_irq outsw_irq = true
is_irq _ = false

-- All registers but rax are as they were, and rax too where nothing is returned in it.
pub record IsSaved (w : Wrapper) (m out : Cpu) : Type 0 where
  pub c : out.c ≡ m.c
  pub d : out.d ≡ m.d
  pub si : out.si ≡ m.si
  pub di : out.di ≡ m.di
  pub a : result w m ≡ none → out.a ≡ m.a

-- The wrappers for interrupt handlers return with every register as it was, but for the one that
-- holds a result.
pub irq-IsSaved :
    (w : Wrapper) (m : Cpu)
    → is_irq w ≡ true
    → (out : Cpu) × (run (program w) m ≡ some out) × IsSaved w m out
unfolding run program execute get put outb_body inb_body outw_body inw_body insw_body outsw_body
irq-IsSaved outb_irq m h =
    (_, refl, record { c = refl; d = refl; si = refl; di = refl; a = λ h. refl })
irq-IsSaved inb_irq m h = (
  _,
  refl,
  record { c = refl; d = refl; si = refl; di = refl; a = λ h. absurd (none_ne_some (sym h)) },
)
irq-IsSaved outw_irq m h =
    (_, refl, record { c = refl; d = refl; si = refl; di = refl; a = λ h. refl })
irq-IsSaved inw_irq m h = (
  _,
  refl,
  record { c = refl; d = refl; si = refl; di = refl; a = λ h. absurd (none_ne_some (sym h)) },
)
irq-IsSaved insw_irq m h =
    (_, refl, record { c = refl; d = refl; si = refl; di = refl; a = λ h. refl })
irq-IsSaved outsw_irq m h =
    (_, refl, record { c = refl; d = refl; si = refl; di = refl; a = λ h. refl })
irq-IsSaved outb_w m h = absurd (ground arith)
irq-IsSaved inb_w m h = absurd (ground arith)
irq-IsSaved outw_w m h = absurd (ground arith)
irq-IsSaved inw_w m h = absurd (ground arith)
irq-IsSaved insw_w m h = absurd (ground arith)
irq-IsSaved outsw_w m h = absurd (ground arith)

-- The wrappers that move a block.
abbrev pub is_block : Wrapper → Bool
is_block insw_w = true
is_block insw_irq = true
is_block outsw_w = true
is_block outsw_irq = true
is_block _ = false

-- The block transfer of `count` words that such a wrapper stands for, with its first two arguments.
abbrev pub transfer : Wrapper → (count : ℕ) → Cpu → Machine
transfer insw_w count m = insw_mem (u16 m.di) m.si count m.io
transfer insw_irq count m = insw_mem (u16 m.di) m.si count m.io
transfer outsw_w count m = outsw (u16 m.di) m.si count m.io
transfer outsw_irq count m = outsw (u16 m.di) m.si count m.io
transfer _ count m = m.io

access-transfer : (w : Wrapper) (m : Cpu) → is_block w ≡ true → access w m ≡ transfer w (moved m) m
access-transfer insw_w m h = refl
access-transfer insw_irq m h = refl
access-transfer outsw_w m h = refl
access-transfer outsw_irq m h = refl
access-transfer outb_w m h = absurd (ground arith)
access-transfer inb_w m h = absurd (ground arith)
access-transfer outw_w m h = absurd (ground arith)
access-transfer inw_w m h = absurd (ground arith)
access-transfer outb_irq m h = absurd (ground arith)
access-transfer inb_irq m h = absurd (ground arith)
access-transfer outw_irq m h = absurd (ground arith)
access-transfer inw_irq m h = absurd (ground arith)

-- A block wrapper that is asked, by the third argument, for fewer than 2^16 words moves as many words
-- as the number of the port says, whatever it was asked for.
pub block-port :
    (w : Wrapper) (m : Cpu)
    → is_block w ≡ true
    → m.d < 2 ^ 16
    → (out : Cpu) × (run (program w) m ≡ some out) × (out.io ≡ transfer w (u16 m.di) m)
block-port w m h few =
    let c = program-IsCall w m in
    let count : moved m ≡ u16 m.di = omega arith in
    (c.out, c.returns, c.does ∙ access-transfer w m h ∙ ap (λ (n : ℕ). transfer w n m) count)
