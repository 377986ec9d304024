-- ===== src/AtaIrq/Events.antt =====
-- Histories of the driver: ticks, interrupts and requests in any order.
use bootloader_kernel_in_nas.Base.{ℕ, ◌≡◌, refl, arith, Bool, true, false, List, [], ◌∷◌, ◌∙◌}
use bootloader_kernel_in_nas.Page.{u64}
use bootloader_kernel_in_nas.Port.{u32}
use bootloader_kernel_in_nas.AtaIrq.{
  AtaStep, init_done, init_fail, io_done, io_fail, Driver, irq14_ata, is_idle,
}
use bootloader_kernel_in_nas.AtaIrq.Begin.{
  begin_init, begin_io, begin_init_ata_28_irq, begin_init_ata_48_irq,
  begin_read_from_disk_ata_28_irq, begin_write_to_disk_ata_28_irq, begin_read_from_disk_ata_48_irq,
  begin_write_to_disk_ata_48_irq,
}
use bootloader_kernel_in_nas.AtaIrq.Tick.{
  tick_ata, ata_delay_400ns_tick, run_step, init_dispatch, io_dispatch, ata_init_tick, ata_io_tick,
}
use bootloader_kernel_in_nas.AtaIrq.Invariant.{
  Inv, irq14_ata-Inv, begin_init-Inv, begin_io-Inv, tick_ata-Inv, tick_ata_cases,
}

pub data Event : Type 0 where
  tick interrupt init_28 init_48 : Event
  read_28 write_28 read_48 write_48 : (lba addr sector_count : ℕ) → Event

-- A call converts its arguments to the types of the parameters.
unfoldable pub apply : Event → Driver → Driver
apply tick d = tick_ata d
apply interrupt d = irq14_ata d
apply init_28 d = (begin_init_ata_28_irq d).0
apply init_48 d = (begin_init_ata_48_irq d).0
apply (read_28 lba addr n) d = (begin_read_from_disk_ata_28_irq (u32 lba) (u64 addr) (u32 n) d).0
apply (write_28 lba addr n) d = (begin_write_to_disk_ata_28_irq (u32 lba) (u64 addr) (u32 n) d).0
apply (read_48 lba addr n) d = (begin_read_from_disk_ata_48_irq (u64 lba) (u64 addr) (u32 n) d).0
apply (write_48 lba addr n) d = (begin_write_to_disk_ata_48_irq (u64 lba) (u64 addr) (u32 n) d).0

unfoldable pub run : List Event → Driver → Driver
run [] d = d
run (e ∷ es) d = run es (apply e d)

apply-Inv : (e : Event) (d : Driver) → Inv d.ctx → Inv (apply e d).ctx
unfolding apply begin_init_ata_28_irq begin_init_ata_48_irq begin_read_from_disk_ata_28_irq
    begin_write_to_disk_ata_28_irq begin_read_from_disk_ata_48_irq begin_write_to_disk_ata_48_irq
apply-Inv tick d v = tick_ata-Inv d v
apply-Inv interrupt d v = irq14_ata-Inv d v
apply-Inv init_28 d v = begin_init-Inv _ d refl v
apply-Inv init_48 d v = begin_init-Inv _ d refl v
apply-Inv (read_28 lba addr n) d v = begin_io-Inv _ _ _ (u32 n) d refl (omega arith) v
apply-Inv (write_28 lba addr n) d v = begin_io-Inv _ _ _ (u32 n) d refl (omega arith) v
apply-Inv (read_48 lba addr n) d v = begin_io-Inv _ _ _ (u32 n) d refl (omega arith) v
apply-Inv (write_48 lba addr n) d v = begin_io-Inv _ _ _ (u32 n) d refl (omega arith) v

-- Every sequence of ticks, interrupts and requests keeps the driver's invariant, whatever the device
-- answers: the step belongs to the operation, a delay of at most four ticks runs only before a task
-- file or an IDENTIFY, at most one sector is in transfer and it is one of those left, a request that
-- ended well has none left, and none is issued without one.
pub run-Inv : (es : List Event) (d : Driver) → Inv d.ctx → Inv (run es d).ctx
unfolding run
run-Inv [] d v = v
run-Inv (e ∷ es) d v = run-Inv es (apply e d) (apply-Inv e d v)

-- The end of a request, good or bad.
abbrev pub is_over : AtaStep → Bool
is_over init_done = true
is_over init_fail = true
is_over io_done = true
is_over io_fail = true
is_over _ = false

apply-over :
    (e : Event) (d : Driver)
    → Inv d.ctx
    → is_over d.ctx.step ≡ true
    → (apply e d).ctx.step ≡ d.ctx.step
unfolding apply begin_init_ata_28_irq begin_init_ata_48_irq begin_read_from_disk_ata_28_irq
    begin_write_to_disk_ata_28_irq begin_read_from_disk_ata_48_irq begin_write_to_disk_ata_48_irq
    irq14_ata
apply-over tick d v o =
    tick_ata_cases (λ d'. d'.ctx.step ≡ d.ctx.step) d
      (λ _. unfold ata_delay_400ns_tick in ground arith)
      (λ _.
        unfold run_step ata_delay_400ns_tick ata_init_tick ata_io_tick init_dispatch io_dispatch in
        ground arith)
apply-over interrupt d v o = refl
apply-over init_28 d v o = unfold begin_init in ground arith
apply-over init_48 d v o = unfold begin_init in ground arith
apply-over (read_28 lba addr n) d v o = unfold begin_io in ground arith
apply-over (write_28 lba addr n) d v o = unfold begin_io in ground arith
apply-over (read_48 lba addr n) d v o = unfold begin_io in ground arith
apply-over (write_48 lba addr n) d v o = unfold begin_io in ground arith

-- Once a request has ended, no history leaves its final step.
pub run-over :
    (es : List Event) (d : Driver)
    → Inv d.ctx
    → is_over d.ctx.step ≡ true
    → (run es d).ctx.step ≡ d.ctx.step
unfolding run
run-over [] d v o = refl
run-over (e ∷ es) d v o =
    let same = apply-over e d v o in run-over es (apply e d) (apply-Inv e d v) (rw same o) ∙ same

over-not_idle : (s : AtaStep) → is_over s ≡ true → is_idle s ≡ false
over-not_idle s o = ground arith

-- After the end of a request the driver refuses every further one: whatever happens in between,
-- a read and an initialisation that start then return 0 and change nothing.
pub over-begin_refused :
    (es : List Event) (d : Driver) (lba addr n : ℕ)
    → Inv d.ctx
    → is_over d.ctx.step ≡ true
    → (begin_read_from_disk_ata_28_irq lba addr n (run es d) ≡ (run es d, false))
      × (begin_read_from_disk_ata_48_irq lba addr n (run es d) ≡ (run es d, false))
      × (begin_write_to_disk_ata_28_irq lba addr n (run es d) ≡ (run es d, false))
      × (begin_write_to_disk_ata_48_irq lba addr n (run es d) ≡ (run es d, false))
      × (begin_init_ata_28_irq (run es d) ≡ (run es d, false))
      × (begin_init_ata_48_irq (run es d) ≡ (run es d, false))
unfolding begin_init_ata_28_irq begin_init_ata_48_irq begin_read_from_disk_ata_28_irq
    begin_write_to_disk_ata_28_irq begin_read_from_disk_ata_48_irq begin_write_to_disk_ata_48_irq
    begin_io begin_init
over-begin_refused es d lba addr n v o =
    let busy : is_idle (run es d).ctx.step ≡ false = rw (run-over es d v o) (over-not_idle _ o) in
    (rw busy refl, rw busy refl, rw busy refl, rw busy refl, rw busy refl, rw busy refl)
