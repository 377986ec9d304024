-- ===== src/AtaIrq/Invariant.antt =====
-- What holds of `g_ata_ctx` between two calls, whatever the device answers.
use bootloader_kernel_in_nas.Base.{
  ℕ, ◌^◌, ◌≤◌, ◌<◌, ◌≡◌, refl, arith, Bool, true, false, not, ◌&&◌, ◌⊎◌, Bool-cases, if_cases, ◌≢◌,
  inl, inr, ◌==◌,
}
use bootloader_kernel_in_nas.Port.{answer, inb}
use bootloader_kernel_in_nas.AtaIrq.{
  AtaOp, no_op, init_28, init_48, AtaStep, idle, init_select, init_identify_cmd, init_identify_wait,
  init_identify_xfer, init_done, init_fail, io_issue_select, io_issue_taskfile, io_wait_irq,
  io_xfer_block, io_done, io_fail, AtaContext, Driver, g_ata_ctx, irq14_ata, ata_reg_control,
}
use bootloader_kernel_in_nas.AtaIrq.Begin.{begin_init, begin_io}
use bootloader_kernel_in_nas.AtaIrq.Tick.{
  ata_io_issue_select_handle, ata_io_issue_taskfile_handle, wait_decide, ata_io_wait_irq_handle,
  ata_io_xfer_block_handle, init_dispatch, io_dispatch, ata_init_tick, ata_io_tick, run_step,
  tick_ata, ata_delay_400ns_tick, is_init,
}

abbrev pub is_init_step : AtaStep → Bool
is_init_step init_select = true
is_init_step init_identify_cmd = true
is_init_step init_identify_wait = true
is_init_step init_identify_xfer = true
is_init_step _ = false

abbrev pub is_io_step : AtaStep → Bool
is_io_step io_issue_select = true
is_io_step io_issue_taskfile = true
is_io_step io_wait_irq = true
is_io_step io_xfer_block = true
is_io_step _ = false

-- Idle, or at the end of a request.
abbrev pub is_final_step : AtaStep → Bool
is_final_step idle = true
is_final_step init_done = true
is_final_step init_fail = true
is_final_step io_done = true
is_final_step io_fail = true
is_final_step _ = false

-- Which steps the machine takes for which operation. No operation is under way in an idle or a
-- final step; the steps for multiple mode, batches and completion are never taken.
abbrev pub agrees : AtaOp → AtaStep → Bool
agrees no_op s = is_final_step s
agrees init_28 s = is_init_step s
agrees init_48 s = is_init_step s
agrees _ s = is_io_step s

-- The step in which a delay may still be running.
abbrev pub awaits_delay : AtaStep → Bool
awaits_delay init_identify_cmd = true
awaits_delay io_issue_taskfile = true
awaits_delay _ = false

pub record Inv (c : AtaContext) : Type 0 where
  pub op_step : agrees c.op c.step ≡ true
  pub delay-le : c.delay_400 ≤ 4
  pub delay_where : 0 < c.delay_400 → awaits_delay c.step ≡ true
  pub batch-le : c.batch_left ≤ 1
  pub batch-le-sectors : c.batch_left ≤ c.sectors_left
  pub sectors-lt : c.sectors_left < 2 ^ 32
  pub done_all : c.step ≡ io_done → c.sectors_left ≡ 0
  pub to_issue : (c.step ≡ io_issue_select) ⊎ (c.step ≡ io_issue_taskfile) → 0 < c.sectors_left

pub g_ata_ctx-Inv : Inv g_ata_ctx
g_ata_ctx-Inv = ground arith

pub irq14_ata-Inv : (d : Driver) → Inv d.ctx → Inv (irq14_ata d).ctx
unfolding irq14_ata
irq14_ata-Inv d v = ground arith

pub begin_init-Inv :
    (op : AtaOp) (d : Driver) → is_init op ≡ true → Inv d.ctx → Inv (begin_init op d).0.ctx
unfolding begin_init
begin_init-Inv op d e v = ground arith

abbrev pub is_io : AtaOp → Bool
is_io no_op = false
is_io init_28 = false
is_io init_48 = false
is_io _ = true

pub begin_io-Inv :
    (op : AtaOp) (lba addr n : ℕ) (d : Driver)
    → is_io op ≡ true
    → n < 2 ^ 32
    → Inv d.ctx
    → Inv (begin_io op lba addr n d).0.ctx
unfolding begin_io
begin_io-Inv op lba addr n d e small v = ground arith

init_dispatch-Inv :
    (s : AtaStep) (d : Driver)
    → d.ctx.step ≡ s
    → d.ctx.delay_400 ≡ 0
    → is_init d.ctx.op ≡ true
    → Inv d.ctx
    → Inv (init_dispatch s d).ctx
unfolding init_dispatch
init_dispatch-Inv init_select d e z i v = ground arith
init_dispatch-Inv s d e z i v = ground arith

wait_decide-Inv :
    (st : ℕ) (d : Driver) → d.ctx.step ≡ io_wait_irq → Inv d.ctx → Inv (wait_decide st d).ctx
unfolding wait_decide
wait_decide-Inv st d e v = ground arith

-- The wait handler takes its status from the interrupt or, once a block is through, from the
-- device; otherwise it does nothing.
pub wait_cases {ℓ} :
    (P : Driver → Type ℓ) (d : Driver)
    → (d.ctx.irq_fired ≡ true
        → P (wait_decide d.ctx.last_status (record d { ctx = record d.ctx { irq_fired = false } })))
    → (d.ctx.irq_fired ≡ false → d.ctx.batch_left ≢ 0 → P d)
    → (d.ctx.irq_fired ≡ false
        → d.ctx.batch_left ≡ 0
        → P (wait_decide (answer d.io) (record d { io = inb ata_reg_control d.io })))
    → P (ata_io_wait_irq_handle d)
unfolding ata_io_wait_irq_handle
wait_cases P d fired waiting polled = if_cases P d.ctx.irq_fired fired λ f.
    if_cases P (not (d.ctx.batch_left == 0)) (λ b. waiting f (ground arith))
      (λ b. polled f (ground arith))

wait_handle-Inv :
    (d : Driver) → d.ctx.step ≡ io_wait_irq → Inv d.ctx → Inv (ata_io_wait_irq_handle d).ctx
wait_handle-Inv d e v =
    wait_cases (λ d'. Inv d'.ctx) d
      (λ f.
        wait_decide-Inv _ (record d { ctx = record d.ctx { irq_fired = false } }) e (ground arith))
      (λ f b. v) (λ f b. wait_decide-Inv _ (record d { io = inb ata_reg_control d.io }) e v)

io_dispatch-Inv :
    (s : AtaStep) (d : Driver)
    → d.ctx.step ≡ s
    → d.ctx.delay_400 ≡ 0
    → Inv d.ctx
    → Inv (io_dispatch s d).ctx
unfolding ata_io_issue_select_handle ata_io_issue_taskfile_handle ata_io_xfer_block_handle
io_dispatch-Inv io_issue_select d e z v = unfold io_dispatch in ground arith
io_dispatch-Inv io_issue_taskfile d e z v = unfold io_dispatch in ground arith
io_dispatch-Inv io_wait_irq d e z v = unfold io_dispatch in wait_handle-Inv d e v
io_dispatch-Inv io_xfer_block d e z v = unfold io_dispatch in ground arith
io_dispatch-Inv s d e z v = unfold io_dispatch in ground arith

run_step-Inv : (d : Driver) → d.ctx.delay_400 ≡ 0 → Inv d.ctx → Inv (run_step d).ctx
unfolding run_step ata_init_tick ata_io_tick
run_step-Inv d z v = elim (Bool-cases (is_init d.ctx.op)) [
  | inl i ↦ rw i (init_dispatch-Inv d.ctx.step d refl z i v)
  | inr i ↦ rw i (io_dispatch-Inv d.ctx.step d refl z v)
]

pub ata_delay_400ns_tick-Inv : (d : Driver) → Inv d.ctx → Inv (ata_delay_400ns_tick d).ctx
unfolding ata_delay_400ns_tick
ata_delay_400ns_tick-Inv d v = ground arith

-- A tick lets the delay run on, or runs a step once it is over.
pub tick_ata_cases {ℓ} :
    (P : Driver → Type ℓ) (d : Driver)
    → ((ata_delay_400ns_tick d).ctx.delay_400 ≢ 0 → P (ata_delay_400ns_tick d))
    → ((ata_delay_400ns_tick d).ctx.delay_400 ≡ 0 → P (run_step (ata_delay_400ns_tick d)))
    → P (tick_ata d)
unfolding tick_ata
tick_ata_cases P d running over =
    if_cases P (not (d.ctx.delay_400 == 0) && not ((ata_delay_400ns_tick d).ctx.delay_400 == 0))
      (λ b. running (ground arith)) (λ b. over (unfold ata_delay_400ns_tick in ground arith))

-- Every tick keeps the invariant, whatever the device answers.
pub tick_ata-Inv : (d : Driver) → Inv d.ctx → Inv (tick_ata d).ctx
tick_ata-Inv d v =
    let v' = ata_delay_400ns_tick-Inv d v in
    tick_ata_cases (λ d'. Inv d'.ctx) d (λ _. v') (λ z. run_step-Inv _ z v')
