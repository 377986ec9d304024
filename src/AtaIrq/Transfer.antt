-- ===== src/AtaIrq/Transfer.antt =====
-- How many blocks pass through the data register, whatever the device answers.
use bootloader_kernel_in_nas.Base.{
  ℕ, suc, ◌+◌, ◌*◌, ◌^◌, ◌≤◌, ◌<◌, ◌≡◌, refl, arith, Bool, true, false, List, [], ◌∷◌, ap₂, ◌∙◌,
}
use bootloader_kernel_in_nas.Page.{u64}
use bootloader_kernel_in_nas.Port.{
  PortOp, in_words, out_words, in_byte, out_byte, Machine, inb, outb, insw_mem, outsw,
}
use bootloader_kernel_in_nas.AtaIrq.{
  AtaOp, AtaStep, idle, io_issue_select, io_issue_taskfile, io_wait_irq, io_xfer_block, io_done,
  Driver, irq14_ata, ata_reg_control,
}
use bootloader_kernel_in_nas.Pic.{send_eoi}
use bootloader_kernel_in_nas.AtaIrq.Begin.{begin_io}
use bootloader_kernel_in_nas.AtaIrq.Tick.{
  ata_io_issue_select_handle, ata_io_issue_taskfile_handle, wait_decide, ata_io_xfer_block_handle,
  io_dispatch, ata_io_tick, run_step, tick_ata, ata_delay_400ns_tick, is_init, taskfile_28,
  taskfile_48,
}
use bootloader_kernel_in_nas.AtaIrq.Events.{Event, tick, interrupt, apply, run, run-Inv}
use bootloader_kernel_in_nas.AtaIrq.Invariant.{
  Inv, is_io, tick_ata_cases, wait_cases, tick_ata-Inv, irq14_ata-Inv, ata_delay_400ns_tick-Inv,
  begin_io-Inv,
}

-- The block transfers in a trace.
abbrev pub blocks : List PortOp → ℕ
blocks [] = 0
blocks (in_words port count ∷ ops) = suc (blocks ops)
blocks (out_words port ws ∷ ops) = suc (blocks ops)
blocks (out_byte port v ∷ ops) = blocks ops
blocks (in_byte port v ∷ ops) = blocks ops

-- `d'` has moved on from `d` with every block accounted for: sectors left, sector address and
-- memory pointer move in step with the blocks transferred.
pub record Accounts (d d' : Driver) : Type 0 where
  pub sectors : blocks d'.io.trace + d'.ctx.sectors_left ≡ blocks d.io.trace + d.ctx.sectors_left
  pub lba : u64 (d'.ctx.lba + d'.ctx.sectors_left) ≡ u64 (d.ctx.lba + d.ctx.sectors_left)
  pub ptr :
      u64 (d'.ctx.ptr + 512 * d'.ctx.sectors_left) ≡ u64 (d.ctx.ptr + 512 * d.ctx.sectors_left)
  pub no_init : is_init d'.ctx.op ≡ false

pub Accounts-trans : {d e f : Driver} → Accounts d e → Accounts e f → Accounts d f
Accounts-trans a b = record {
  sectors = b.sectors ∙ a.sectors;
  lba = b.lba ∙ a.lba;
  ptr = b.ptr ∙ a.ptr;
  no_init = b.no_init;
}

wait_decide-Accounts :
    (st : ℕ) (d : Driver) → is_init d.ctx.op ≡ false → Accounts d (wait_decide st d)
unfolding wait_decide inb
wait_decide-Accounts st d e = ground arith

dispatch-Accounts :
    (s : AtaStep) (d : Driver) → is_init d.ctx.op ≡ false → Inv d.ctx → Accounts d (io_dispatch s d)
unfolding ata_io_issue_select_handle ata_io_issue_taskfile_handle ata_io_xfer_block_handle inb outb
    taskfile_28 taskfile_48 insw_mem outsw
dispatch-Accounts io_issue_select d e v = unfold io_dispatch in ground arith
dispatch-Accounts io_issue_taskfile d e v = unfold io_dispatch in ground arith
dispatch-Accounts io_wait_irq d e v =
    unfold io_dispatch in
    wait_cases (Accounts d) d
      (λ f.
        Accounts-trans {e = record d { ctx = record d.ctx { irq_fired = false } }} (ground arith)
          (wait_decide-Accounts _ _ e))
      (λ f b. ground arith)
      (λ f b.
        Accounts-trans {e = record d { io = inb ata_reg_control d.io }} (ground arith)
          (wait_decide-Accounts _ _ e))
dispatch-Accounts io_xfer_block d e v = unfold io_dispatch in ground arith
dispatch-Accounts s d e v = unfold io_dispatch in ground arith

delay-Accounts : (d : Driver) → is_init d.ctx.op ≡ false → Accounts d (ata_delay_400ns_tick d)
unfolding ata_delay_400ns_tick inb
delay-Accounts d e = ground arith

tick_ata-Accounts : (d : Driver) → is_init d.ctx.op ≡ false → Inv d.ctx → Accounts d (tick_ata d)
tick_ata-Accounts d e v =
    let a = delay-Accounts d e in
    let v' = ata_delay_400ns_tick-Inv d v in
    tick_ata_cases (Accounts d) d (λ _. a)
      (λ _.
        unfold run_step ata_io_tick in
        rw a.no_init (Accounts-trans a (dispatch-Accounts _ (ata_delay_400ns_tick d) a.no_init v')))

irq14_ata-Accounts : (d : Driver) → is_init d.ctx.op ≡ false → Accounts d (irq14_ata d)
unfolding irq14_ata send_eoi inb outb
irq14_ata-Accounts d e = ground arith

-- Ticks and interrupts, and no further request.
abbrev pub is_quiet : List Event → Bool
is_quiet [] = true
is_quiet (tick ∷ es) = is_quiet es
is_quiet (interrupt ∷ es) = is_quiet es
is_quiet (_ ∷ es) = false

pub run-Accounts :
    (es : List Event) (d : Driver)
    → is_quiet es ≡ true
    → is_init d.ctx.op ≡ false
    → Inv d.ctx
    → Accounts d (run es d)
unfolding run apply
run-Accounts [] d q e v = record { sectors = refl; lba = refl; ptr = refl; no_init = e }
run-Accounts (tick ∷ es) d q e v =
    let a = tick_ata-Accounts d e v in
    Accounts-trans a (run-Accounts es (tick_ata d) q a.no_init (tick_ata-Inv d v))
run-Accounts (interrupt ∷ es) d q e v =
    let a = irq14_ata-Accounts d e in
    Accounts-trans a (run-Accounts es (irq14_ata d) q a.no_init (irq14_ata-Inv d v))
run-Accounts (_ ∷ es) d q e v = cc

begin_io_started :
    (op : AtaOp) (lba addr n : ℕ) (d : Driver)
    → is_io op ≡ true
    → 0 < n
    → d.ctx.step ≡ idle
    → let d' = (begin_io op lba addr n d).0 in
      (is_init d'.ctx.op ≡ false)
      × (d'.io ≡ d.io)
      × (d'.ctx.lba ≡ lba)
      × (d'.ctx.ptr ≡ addr)
      × (d'.ctx.sectors_left ≡ n)
unfolding begin_io
begin_io_started op lba addr n d o pos i = ground arith

-- A request for `n` sectors never moves more than `n` blocks, in any order of ticks and
-- interrupts and whatever the device answers. When it ends well it has moved exactly `n`, and the
-- sector address and the memory pointer stand `n` sectors further on.
pub begin_io-run-blocks :
    (op : AtaOp) (lba addr n : ℕ) (d : Driver) (es : List Event)
    → is_io op ≡ true
    → 0 < n
    → n < 2 ^ 32
    → Inv d.ctx
    → d.ctx.step ≡ idle
    → is_quiet es ≡ true
    → let d' = run es (begin_io op lba addr n d).0 in
      (blocks d'.io.trace ≤ blocks d.io.trace + n)
      × (d'.ctx.step ≡ io_done
          → (blocks d'.io.trace ≡ blocks d.io.trace + n)
            × (u64 d'.ctx.lba ≡ u64 (lba + n))
            × (u64 d'.ctx.ptr ≡ u64 (addr + 512 * n)))
begin_io-run-blocks op lba addr n d es o pos small v i q =
    let d1 = (begin_io op lba addr n d).0 in
    let (no_init, same, at_lba, at_addr, at_n) = begin_io_started op lba addr n d o pos i in
    let v' = begin_io-Inv op lba addr n d o small v in
    let a = run-Accounts es d1 q no_init v' in
    let end = run-Inv es d1 v' in
    let moved : blocks (run es d1).io.trace + (run es d1).ctx.sectors_left ≡ blocks d.io.trace + n =
      a.sectors ∙ ap₂ (λ (m : Machine) (k : ℕ). blocks m.trace + k) same at_n in
    let lba_moved : u64 ((run es d1).ctx.lba + (run es d1).ctx.sectors_left) ≡ u64 (lba + n) =
      a.lba ∙ ap₂ (λ (x k : ℕ). u64 (x + k)) at_lba at_n in
    let ptr_moved : u64 ((run es d1).ctx.ptr + 512 * (run es d1).ctx.sectors_left)
        ≡ u64 (addr + 512 * n) =
      a.ptr ∙ ap₂ (λ (x k : ℕ). u64 (x + 512 * k)) at_addr at_n in
    (
      omega arith,
      λ done. let none_left = end.done_all done in (omega arith, omega arith, omega arith),
    )
