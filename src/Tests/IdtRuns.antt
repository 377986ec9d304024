-- ===== src/Tests/IdtRuns.antt =====
-- Gates and exception screens at concrete addresses.
use bootloader_kernel_in_nas.Base.{ℕ, ◌+◌, ◌*◌, ◌^◌, ◌<◌, ◌≡◌, ◌≢◌, arith}
use bootloader_kernel_in_nas.Idt
use bootloader_kernel_in_nas.Idt.Gates.{IsGate, vector, pushes_error_code, idt_init-IsGate}
use bootloader_kernel_in_nas.Idt.Screen.{IsScreen, rows_of, isr-IsScreen}

abbrev empty_gate : Idt.IdtGate
empty_gate = record {
  handler_offset_low = 0;
  segment_selector = 0;
  ist = 0;
  type = 0;
  handler_offset_mid = 0;
  handler_offset_high = 0;
  reserved = 0;
}

abbrev empty : Idt.Idt
empty = record { gates = λ v. empty_gate; limit = 0 }

-- The handlers, 64 bytes each, from 0x20100 on.
abbrev placed : Idt.Isr → ℕ
placed h = 0x2_0100 + 64 * vector h

placed-lt : (h : Idt.Isr) → placed h < 2 ^ 64
placed-lt Idt.isr0_divide_error = omega arith
placed-lt h = omega arith

idt_init-IsGate_example :
    ((h : Idt.Isr)
      → IsGate
          (placed h)
          Idt.kernel_cs
          0
          Idt.idt_attr_intgate
          ((Idt.idt_init placed empty).gates (vector h))
        × (Idt.has_ec h ≡ pushes_error_code (vector h)))
    × ((v : ℕ)
        → ((h : Idt.Isr) → v ≢ vector h)
        → (Idt.idt_init placed empty).gates v ≡ empty.gates v)
    × ((Idt.idt_init placed empty).limit + 1 ≡ 256 * 16)
idt_init-IsGate_example = idt_init-IsGate placed empty placed-lt

abbrev frame : Idt.InterruptFrame
frame = record { ip = 0x2_0040; cs = 0x18; flags = 0x202; sp = 0x1_FFF0; ss = 0x20 }

isr-IsScreen_example :
    IsScreen
      (Idt.codes (Idt.message Idt.isr14_page_fault))
      (rows_of (Idt.has_ec Idt.isr14_page_fault) frame 2 0x1_FFC8 0x8000_0000 0x1_FF00)
      (λ i. 0)
      (Idt.isr Idt.isr14_page_fault frame 2 0x1_FFC8 0x8000_0000 0x1_FF00 (λ i. 0))
isr-IsScreen_example =
    isr-IsScreen Idt.isr14_page_fault frame 2 0x1_FFC8 0x8000_0000 0x1_FF00 (λ i. 0) (omega arith)
      (omega arith) (omega arith) (omega arith) (omega arith) (omega arith) (omega arith)
