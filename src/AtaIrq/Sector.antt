-- ===== src/AtaIrq/Sector.antt =====
-- One sector of a request, served by a device that answers as the ATA protocol has it.
use bootloader_kernel_in_nas.Base.{
  ℕ, zero, suc, ◌+◌, ◌-◌, ◌/◌, ◌^◌, bit_and, bit_or, ◌<◌, ◌≡◌, refl, arith, true, false, List, [],
  ◌∷◌, ◌++◌, if◌then◌else◌, ap, ◌∙◌, ne→==,
}
use bootloader_kernel_in_nas.Page.{u64}
use bootloader_kernel_in_nas.Port.{Machine, u8, u32, answer, inb, outb, insw_mem, outsw}
use bootloader_kernel_in_nas.AtaIrq.{
  AtaOp, no_op, init_28, init_48, read_28, write_28, read_48, write_48, io_issue_select,
  io_wait_irq, io_xfer_block, io_done, AtaContext, irq14_ata, ata_reg_control, ata_reg_status,
  ata_reg_drive_sel, ata_reg_data, ata_dh_lba_master, has_drq, ata_status_is_bad,
}
use bootloader_kernel_in_nas.Pic.{send_eoi, pic_irq_ata_primary}
use bootloader_kernel_in_nas.AtaIrq.Tick.{
  ata_io_issue_taskfile_handle, wait_decide, ata_io_wait_irq_handle, ata_io_xfer_block_handle,
  io_dispatch, ata_io_tick, run_step, tick_ata, ata_delay_400ns_tick, is_28, is_read, taskfile_28,
  taskfile_48,
}
use bootloader_kernel_in_nas.AtaIrq.Events.{Event, tick, interrupt, apply, run}
use bootloader_kernel_in_nas.AtaIrq.Invariant.{is_io}

-- The schedule of one sector: select, four ticks of delay of which the last issues the command,
-- the interrupt, and three ticks that see the status, move the block and see its end.
abbrev pub one_sector : List Event
one_sector = tick ∷ tick ∷ tick ∷ tick ∷ tick ∷ interrupt ∷ tick ∷ tick ∷ tick ∷ []

abbrev pub sectors : ℕ → List Event
sectors zero = []
sectors (suc n) = one_sector ++ sectors n

-- What one sector does to the ports and to memory, in order from the inside out.
unfoldable pub selected : AtaOp → (lba : ℕ) → Machine → Machine
selected op lba m =
    if is_28 op
    then outb ata_reg_drive_sel
        (u8 (bit_or ata_dh_lba_master (u8 (bit_and (u32 lba / 2 ^ 24) 0x0F)))) m
    else outb ata_reg_drive_sel ata_dh_lba_master m

unfoldable pub commanded : AtaOp → (lba : ℕ) → Machine → Machine
commanded op lba m = if is_28 op then taskfile_28 op lba m else taskfile_48 op lba m

unfoldable pub delayed : Machine → Machine
delayed m = inb ata_reg_control (inb ata_reg_control (inb ata_reg_control (inb ata_reg_control m)))

unfoldable pub moved : AtaOp → (ptr : ℕ) → Machine → Machine
moved op ptr m =
    if is_read op then insw_mem ata_reg_data ptr 256 m else outsw ata_reg_data ptr 256 m

-- The machine when the interrupt arrives, and after the whole sector.
unfoldable pub before_irq : AtaOp → (lba : ℕ) → Machine → Machine
before_irq op lba m = commanded op lba (delayed (selected op lba m))

unfoldable pub sector_io : AtaOp → (lba ptr : ℕ) → Machine → Machine
sector_io op lba ptr m =
    inb ata_reg_control
      (moved op ptr (send_eoi pic_irq_ata_primary (inb ata_reg_status (before_irq op lba m))))

-- The context at the start of a sector.
abbrev pub at_select : AtaContext → AtaOp → (lba n ptr status : ℕ) → AtaContext
at_select c op lba n ptr status = record c {
  irq_fired = false;
  last_status = status;
  op = op;
  step = io_issue_select;
  delay_400 = 0;
  lba = lba;
  sectors_left = n;
  batch_left = 0;
  ptr = ptr;
}

at_irq :
    (c : AtaContext) (op : AtaOp) (lba k ptr status : ℕ) (m : Machine)
    → is_io op ≡ true
    → run
        (tick ∷ tick ∷ tick ∷ tick ∷ tick ∷ [])
        (record { ctx = at_select c op lba (suc k) ptr status; io = m })
      ≡ record {
        ctx = record (at_select c op lba (suc k) ptr 0) { step = io_wait_irq; batch_left = 1 };
        io = before_irq op lba m;
      }
unfolding run apply tick_ata ata_delay_400ns_tick run_step ata_io_tick io_dispatch
    ata_io_issue_taskfile_handle before_irq commanded delayed selected
at_irq c read_28 lba k ptr status m o = rw (ne→== (suc k) 0 (omega arith)) refl
at_irq c write_28 lba k ptr status m o = rw (ne→== (suc k) 0 (omega arith)) refl
at_irq c read_48 lba k ptr status m o = rw (ne→== (suc k) 0 (omega arith)) refl
at_irq c write_48 lba k ptr status m o = rw (ne→== (suc k) 0 (omega arith)) refl
at_irq c no_op lba k ptr status m o = cc
at_irq c init_28 lba k ptr status m o = cc
at_irq c init_48 lba k ptr status m o = cc

-- A status that asks for the data, and one that ends the sector.
abbrev pub IsReady : ℕ → Type 0
IsReady st = (ata_status_is_bad st ≡ false) × (has_drq st ≡ true)

abbrev pub IsThrough : ℕ → Type 0
IsThrough st = (ata_status_is_bad st ≡ false) × (has_drq st ≡ false)

-- The context after a sector: at the next one, or at the end of the request.
unfoldable pub after_sector : AtaContext → AtaOp → (lba k ptr status : ℕ) → AtaContext
after_sector c op lba zero ptr status = record (at_select c op lba 0 ptr status) {
  op = no_op;
  step = io_done;
}
after_sector c op lba (suc k) ptr status = at_select c op lba (suc k) ptr status

one_less : (k : ℕ) → suc k < 2 ^ 32 → u32 (suc k + 2 ^ 32 - 1) ≡ k
one_less k h = omega arith

-- The tick that finds the interrupt and its status.
see_status :
    (c : AtaContext) (op : AtaOp) (lba n ptr : ℕ) (m : Machine)
    → is_io op ≡ true
    → IsReady (answer m)
    → tick_ata (
        irq14_ata (record {
          ctx = record (at_select c op lba n ptr 0) { step = io_wait_irq; batch_left = 1 };
          io = m;
        }))
      ≡ record {
        ctx = record (at_select c op lba n ptr (answer m)) { step = io_xfer_block; batch_left = 1 };
        io = send_eoi pic_irq_ata_primary (inb ata_reg_status m);
      }
unfolding irq14_ata tick_ata ata_delay_400ns_tick run_step ata_io_tick io_dispatch
    ata_io_wait_irq_handle wait_decide
see_status c read_28 lba n ptr m o ready = rw (ready.0, ready.1) refl
see_status c write_28 lba n ptr m o ready = rw (ready.0, ready.1) refl
see_status c read_48 lba n ptr m o ready = rw (ready.0, ready.1) refl
see_status c write_48 lba n ptr m o ready = rw (ready.0, ready.1) refl
see_status c no_op lba n ptr m o ready = cc
see_status c init_28 lba n ptr m o ready = cc
see_status c init_48 lba n ptr m o ready = cc

-- The tick that moves the block.
move_block :
    (c : AtaContext) (op : AtaOp) (lba k ptr status : ℕ) (m : Machine)
    → is_io op ≡ true
    → suc k < 2 ^ 32
    → tick_ata (record {
      ctx = record (at_select c op lba (suc k) ptr status) { step = io_xfer_block; batch_left = 1 };
      io = m;
    })
      ≡ record {
        ctx = record (at_select c op (u64 (lba + 1)) k (u64 (ptr + 512)) status) {
          step = io_wait_irq;
        };
        io = moved op ptr m;
      }
unfolding tick_ata ata_delay_400ns_tick run_step ata_io_tick io_dispatch ata_io_xfer_block_handle
    moved
move_block c read_28 lba k ptr status m o small = rw (one_less k small) refl
move_block c write_28 lba k ptr status m o small = rw (one_less k small) refl
move_block c read_48 lba k ptr status m o small = rw (one_less k small) refl
move_block c write_48 lba k ptr status m o small = rw (one_less k small) refl
move_block c no_op lba k ptr status m o small = cc
move_block c init_28 lba k ptr status m o small = cc
move_block c init_48 lba k ptr status m o small = cc

-- The tick that sees the end of the sector.
see_end :
    (c : AtaContext) (op : AtaOp) (lba k ptr status : ℕ) (m : Machine)
    → is_io op ≡ true
    → IsThrough (answer m)
    → tick_ata
        (record { ctx = record (at_select c op lba k ptr status) { step = io_wait_irq }; io = m })
      ≡ record { ctx = after_sector c op lba k ptr status; io = inb ata_reg_control m }
unfolding tick_ata ata_delay_400ns_tick run_step ata_io_tick io_dispatch ata_io_wait_irq_handle
    wait_decide after_sector
see_end c read_28 lba zero ptr status m o through = rw (through.0, through.1) refl
see_end c read_28 lba (suc k) ptr status m o through =
    rw (through.0, through.1, ne→== (suc k) 0 (omega arith)) refl
see_end c write_28 lba zero ptr status m o through = rw (through.0, through.1) refl
see_end c write_28 lba (suc k) ptr status m o through =
    rw (through.0, through.1, ne→== (suc k) 0 (omega arith)) refl
see_end c read_48 lba zero ptr status m o through = rw (through.0, through.1) refl
see_end c read_48 lba (suc k) ptr status m o through =
    rw (through.0, through.1, ne→== (suc k) 0 (omega arith)) refl
see_end c write_48 lba zero ptr status m o through = rw (through.0, through.1) refl
see_end c write_48 lba (suc k) ptr status m o through =
    rw (through.0, through.1, ne→== (suc k) 0 (omega arith)) refl
see_end c no_op lba k ptr status m o through = cc
see_end c init_28 lba k ptr status m o through = cc
see_end c init_48 lba k ptr status m o through = cc

-- The answers of the device during one sector.
pub record IsServed (op : AtaOp) (lba ptr : ℕ) (m : Machine) : Type 0 where
  pub ready : IsReady (answer (before_irq op lba m))
  pub through : IsThrough (
      answer
        (moved op ptr (send_eoi pic_irq_ata_primary (inb ata_reg_status (before_irq op lba m)))))

-- One sector that the device serves.
pub one_sector_lem :
    (c : AtaContext) (op : AtaOp) (lba k ptr status : ℕ) (m : Machine)
    → is_io op ≡ true
    → suc k < 2 ^ 32
    → IsServed op lba ptr m
    → run one_sector (record { ctx = at_select c op lba (suc k) ptr status; io = m }) ≡ record {
      ctx = after_sector c op (u64 (lba + 1)) k (u64 (ptr + 512)) (answer (before_irq op lba m));
      io = sector_io op lba ptr m;
    }
unfolding run apply sector_io
one_sector_lem c op lba k ptr status m o small served =
    ap (λ d. tick_ata (tick_ata (tick_ata (irq14_ata d)))) (at_irq c op lba k ptr status m o)
    ∙ ap (λ d. tick_ata (tick_ata d)) (see_status c op lba (suc k) ptr _ o served.ready)
    ∙ ap tick_ata (move_block c op lba k ptr _ _ o small)
    ∙ see_end c op _ k _ _ _ o served.through
