-- ===== src/AtaIrq/TaskFile.antt =====
-- The sector address in the disk's task file, as the disk reads it from what was written to its
-- registers.
use bootloader_kernel_in_nas.Base.{
  ℕ, zero, suc, ◌+◌, ◌*◌, ◌/◌, ◌%◌, ◌^◌, ◌<◌, bit_and, true, false, List, [], ◌∷◌, ◌==◌,
  if◌then◌else◌, ◌≡◌, ◌≢◌, refl, arith, if_cases, ==→eq, sym, ◌∙◌,
}
use bootloader_kernel_in_nas.Bits.{bit_and-ones, bit_or-sum}
use bootloader_kernel_in_nas.Port.{Machine, PortOp, out_byte, outb, u8, u32}
use bootloader_kernel_in_nas.AtaIrq.{
  AtaOp, Driver, ata_reg_seccount, ata_reg_lba_low, ata_reg_lba_mid, ata_reg_lba_high,
  ata_reg_drive_sel,
}
use bootloader_kernel_in_nas.AtaIrq.Tick.{
  is_28, taskfile_28, taskfile_48, ata_io_issue_select_handle, ata_io_issue_taskfile_handle,
}

-- The bytes that were written to a port, the latest first.
abbrev pub sent : (port : ℕ) → List PortOp → List ℕ
sent port [] = []
sent port (out_byte p v ∷ ops) = let rest = sent port ops in if p == port then v ∷ rest else rest
sent port (_ ∷ ops) = sent port ops

-- The byte that was written `k` writes before the latest one.
abbrev pub previous : (k : ℕ) → List ℕ → ℕ
previous k [] = 0
previous zero (v ∷ vs) = v
previous (suc k) (v ∷ vs) = previous k vs

-- A 28-bit address: a byte in each of three registers and the low digits of the drive register.
unfoldable pub address_28 : List PortOp → ℕ
address_28 ops =
    previous 0 (sent ata_reg_lba_low ops)
    + 2 ^ 8 * previous 0 (sent ata_reg_lba_mid ops)
    + 2 ^ 16 * previous 0 (sent ata_reg_lba_high ops)
    + 2 ^ 24 * (previous 0 (sent ata_reg_drive_sel ops) % 16)

-- A 48-bit address: each of three registers keeps two bytes, the earlier one the higher.
unfoldable pub address_48 : List PortOp → ℕ
address_48 ops =
    previous 0 (sent ata_reg_lba_low ops)
    + 2 ^ 8 * previous 0 (sent ata_reg_lba_mid ops)
    + 2 ^ 16 * previous 0 (sent ata_reg_lba_high ops)
    + 2 ^ 24 * previous 1 (sent ata_reg_lba_low ops)
    + 2 ^ 32 * previous 1 (sent ata_reg_lba_mid ops)
    + 2 ^ 40 * previous 1 (sent ata_reg_lba_high ops)

-- The sector count of a 48-bit command, two bytes of one register.
unfoldable pub count_48 : List PortOp → ℕ
count_48 ops =
    previous 0 (sent ata_reg_seccount ops) + 2 ^ 8 * previous 1 (sent ata_reg_seccount ops)

taskfile_48-address :
    (op : AtaOp) (lba : ℕ) (m : Machine)
    → lba < 2 ^ 48
    → (address_48 (taskfile_48 op lba m).trace ≡ lba) × (count_48 (taskfile_48 op lba m).trace ≡ 1)
unfolding taskfile_48 outb address_48 count_48
taskfile_48-address op lba m small = (omega arith, refl)

taskfile_28-address :
    (op : AtaOp) (lba : ℕ) (m : Machine)
    → lba < 2 ^ 28
    → previous 0 (sent ata_reg_drive_sel m.trace) % 16 ≡ lba / 2 ^ 24
    → address_28 (taskfile_28 op lba m).trace ≡ lba
unfolding taskfile_28 outb address_28
taskfile_28-address op lba m small top = omega arith

-- The accesses of the task file handler while sectors are left.
issued_io :
    (d : Driver)
    → d.ctx.sectors_left ≢ 0
    → (ata_io_issue_taskfile_handle d).io ≡ (
        if is_28 d.ctx.op
        then taskfile_28 d.ctx.op d.ctx.lba d.io
        else taskfile_48 d.ctx.op d.ctx.lba d.io)
unfolding ata_io_issue_taskfile_handle
issued_io d some_left =
    if_cases
      (λ (r : Driver). r.io ≡ (
        if is_28 d.ctx.op
        then taskfile_28 d.ctx.op d.ctx.lba d.io
        else taskfile_48 d.ctx.op d.ctx.lba d.io))
      (d.ctx.sectors_left == 0) (λ z. absurd (some_left (==→eq _ _ z))) (λ nz. refl)

true_ne_false : true ≡ false → ⊥
true_ne_false e = cc

-- The drive register gets the four highest digits of a 28-bit address.
selected :
    (d : Driver)
    → is_28 d.ctx.op ≡ true
    → d.ctx.lba < 2 ^ 28
    → previous 0 (sent ata_reg_drive_sel (ata_io_issue_select_handle d).io.trace) % 16
      ≡ d.ctx.lba / 2 ^ 24
unfolding ata_io_issue_select_handle outb
selected d narrow small =
    if_cases
      (λ (m : Machine). previous 0 (sent ata_reg_drive_sel m.trace) % 16 ≡ d.ctx.lba / 2 ^ 24)
      (is_28 d.ctx.op)
      (λ n. omega (
        arith,
        bit_and-ones 4 (u32 d.ctx.lba / 2 ^ 24),
        bit_or-sum 4 14 (u8 (bit_and (u32 d.ctx.lba / 2 ^ 24) 0x0F)),
      ))
      (λ w. absurd (true_ne_false (sym narrow ∙ w)))

-- A request with a 48-bit command and sectors left writes a task file from which the disk reads
-- the address of the request, below 2 ^ 48, and one sector.
pub taskfile-address_48 :
    (d : Driver)
    → is_28 d.ctx.op ≡ false
    → d.ctx.sectors_left ≢ 0
    → d.ctx.lba < 2 ^ 48
    → (address_48 (ata_io_issue_taskfile_handle d).io.trace ≡ d.ctx.lba)
      × (count_48 (ata_io_issue_taskfile_handle d).io.trace ≡ 1)
taskfile-address_48 d wide some_left small =
    let sent_out : (ata_io_issue_taskfile_handle d).io ≡ taskfile_48 d.ctx.op d.ctx.lba d.io =
      issued_io d some_left ∙ rw wide refl in
    rw sent_out (taskfile_48-address d.ctx.op d.ctx.lba d.io small)

-- A request with a 28-bit command and sectors left first selects the drive and then writes a task
-- file, from which the disk reads the address of the request, below 2 ^ 28.
pub taskfile-address_28 :
    (d : Driver)
    → is_28 d.ctx.op ≡ true
    → d.ctx.sectors_left ≢ 0
    → d.ctx.lba < 2 ^ 28
    → address_28 (ata_io_issue_taskfile_handle (ata_io_issue_select_handle d)).io.trace ≡ d.ctx.lba
unfolding ata_io_issue_select_handle
taskfile-address_28 d narrow some_left small =
    let d' = ata_io_issue_select_handle d in
    let sent_out : (ata_io_issue_taskfile_handle d').io ≡ taskfile_28 d.ctx.op d.ctx.lba d'.io =
      issued_io d' some_left ∙ rw narrow refl in
    rw sent_out (taskfile_28-address d.ctx.op d.ctx.lba d'.io small (selected d narrow small))
