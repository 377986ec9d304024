-- ===== src/Idt.antt =====
-- kernelLoader/idt.c and kernelLoader/idt.h: the interrupt descriptor table and the exception
-- screens. The screen is the text buffer at 0xB8000, one cell of 16 bits at each index.
pub mod Gates
pub mod Hex
pub mod Screen
use Prim.Native.Char.{code}
use Prim.Native.String.{String}
use bootloader_kernel_in_nas.Base.{
  ℕ, zero, suc, ◌+◌, ◌-◌, ◌*◌, ◌/◌, ◌^◌, bit_and, bit_or, Bool, true, false, List, [], ◌∷◌,
  if◌then◌else◌, update,
}
use bootloader_kernel_in_nas.Port.{u8, u16, u32}

-- `idt_gate_t`
pub record IdtGate : Type 0 where
  pub handler_offset_low : ℕ
  pub segment_selector : ℕ
  pub ist : ℕ
  pub type : ℕ
  pub handler_offset_mid : ℕ
  pub handler_offset_high : ℕ
  pub reserved : ℕ

-- `interrupt_frame_t`
pub record InterruptFrame : Type 0 where
  pub ip : ℕ
  pub cs : ℕ
  pub flags : ℕ
  pub sp : ℕ
  pub ss : ℕ

-- The table and the limit that `lidt` loads.
pub record Idt : Type 0 where
  pub gates : ℕ → IdtGate
  pub limit : ℕ

abbrev pub idt_attr_intgate : ℕ
idt_attr_intgate = 0x8E

abbrev pub kernel_cs : ℕ
kernel_cs = 0x18

-- The code points of a text: its bytes, as it is ASCII.
abbrev pub codes : String → List ℕ
codes String.[] = []
codes (String.◌∷◌ c s) = code c ∷ codes s

abbrev pub get_or : List ℕ → (i d : ℕ) → ℕ
get_or [] i d = d
get_or (x ∷ xs) zero d = x
get_or (x ∷ xs) (suc i) d = get_or xs i d

-- A character with the light grey attribute.
unfoldable pub cell : ℕ → ℕ
cell c = bit_or c (0x07 * 2 ^ 8)

abbrev pub hex_chars : List ℕ
hex_chars = codes "0123456789ABCDEF"

-- `for (i = 60; i >= 0; i -= 4)` with `left` rounds to go: i is 4 * (left - 1).
unfoldable pub nibble_loop : (left offset value : ℕ) → (ℕ → ℕ) → ℕ → ℕ
unfolding cell
nibble_loop zero offset value v = v
nibble_loop (suc left) offset value v =
    let nibble = u8 (bit_and (value / 2 ^ (4 * left)) 0xF) in
    nibble_loop left (offset + 1) value (update v offset (cell (get_or hex_chars nibble 0)))

unfoldable pub vga_hex_draw : (value row : ℕ) → (ℕ → ℕ) → ℕ → ℕ
unfolding cell nibble_loop
vga_hex_draw value row v =
    let offset = row * 80 in
    nibble_loop 16 (offset + 2) value
      (update (update v offset (cell b'0')) (offset + 1) (cell b'x'))

-- `for (i = 0; i < 80 * 25; i++) v[i] = ' '`, with `left` rounds to go
unfoldable pub clear_loop : (left i : ℕ) → (ℕ → ℕ) → ℕ → ℕ
unfolding cell
clear_loop zero i v = v
clear_loop (suc left) i v = clear_loop left (i + 1) (update v i (cell b' '))

-- `for (i = 0; msg[i] != '\0'; i++)`
unfoldable pub message_loop : (msg : List ℕ) (i : ℕ) → (ℕ → ℕ) → ℕ → ℕ
unfolding cell
message_loop [] i v = v
message_loop (c ∷ msg) i v = message_loop msg (i + 1) (update v i (cell c))

-- The screen at the endless `hlt`.
unfoldable pub isr_general_exception_no_ec : (msg : List ℕ) → InterruptFrame → (ℕ → ℕ) → ℕ → ℕ
unfolding clear_loop message_loop vga_hex_draw
isr_general_exception_no_ec msg frame v = vga_hex_draw frame.flags 4 (
    vga_hex_draw frame.sp 3
      (vga_hex_draw frame.ip 2 (message_loop msg 0 (clear_loop (80 * 25) 0 v))))

-- The frame's own address, CR2 and RSP are arguments.
unfoldable pub isr_general_exception_ec :
    (msg : List ℕ) → InterruptFrame → (error_code frame_address cr2 rsp : ℕ) → (ℕ → ℕ) → ℕ → ℕ
unfolding clear_loop message_loop vga_hex_draw
isr_general_exception_ec msg frame error_code frame_address cr2 rsp v = vga_hex_draw rsp 5 (
    vga_hex_draw frame_address 4 (
      vga_hex_draw frame.ip 3 (
        vga_hex_draw cr2 2
          (vga_hex_draw error_code 1 (message_loop msg 0 (clear_loop (80 * 25) 0 v))))))

-- The handlers.
pub data Isr : Type 0 where
  isr0_divide_error isr1_debug isr2_nmi isr5_bound isr6_invalid_opcode isr7_device_na : Isr
  isr8_double_fault isr9_coprocessor_overrun isr10_invalid_tss isr11_seg_np : Isr
  isr12_stack_fault isr13_gp isr14_page_fault isr16_x87_fp isr17_alignment : Isr
  isr18_machine_check isr19_simd_fp isr20_virtualization isr21_control_protection : Isr

abbrev pub message : Isr → String
message isr0_divide_error = "#DE Divide Error"
message isr1_debug = "#DB Debug"
message isr2_nmi = "Non-Maskable Interrupt"
message isr5_bound = "#BR BOUND Range Exceeded"
message isr6_invalid_opcode = "#UD Invalid Opcode"
message isr7_device_na = "#NM Device Not Available"
message isr8_double_fault = "#DF Double Fault"
message isr9_coprocessor_overrun = "Coprocessor Segment Overrun"
message isr10_invalid_tss = "#TS Invalid TSS"
message isr11_seg_np = "#NP Segment Not Present"
message isr12_stack_fault = "#SS Stack Fault"
message isr13_gp = "#GP General Protection"
message isr14_page_fault = "#PF Page Fault"
message isr16_x87_fp = "#MF x87 FPU FP Error"
message isr17_alignment = "#AC Alignment Check"
message isr18_machine_check = "#MC Machine Check"
message isr19_simd_fp = "#XM SIMD FP Exception"
message isr20_virtualization = "#VE Virtualization Exception"
message isr21_control_protection = "#CP Control Protection"

-- The handlers with an argument `ec`.
abbrev pub has_ec : Isr → Bool
has_ec isr8_double_fault = true
has_ec isr10_invalid_tss = true
has_ec isr11_seg_np = true
has_ec isr12_stack_fault = true
has_ec isr13_gp = true
has_ec isr14_page_fault = true
has_ec isr17_alignment = true
has_ec isr21_control_protection = true
has_ec _ = false

unfoldable pub idt_gate_set : (vec addr selector ist_index type_attr : ℕ) → Idt → Idt
idt_gate_set vec addr selector ist_index type_attr t = record t {
  gates = update t.gates vec (record {
    handler_offset_low = u16 (bit_and addr 0xFFFF);
    segment_selector = selector;
    ist = u8 (bit_and ist_index 7);
    type = type_attr;
    handler_offset_mid = u16 (bit_and (addr / 2 ^ 16) 0xFFFF);
    handler_offset_high = u32 (bit_and (addr / 2 ^ 32) 0xFFFF_FFFF);
    reserved = 0;
  });
}

-- The calls of `idt_init`, the first one first.
abbrev pub calls : List (ℕ × Isr)
calls =
    (0, isr0_divide_error)
    ∷ (1, isr1_debug)
    ∷ (2, isr2_nmi)
    ∷ (5, isr5_bound)
    ∷ (6, isr6_invalid_opcode)
    ∷ (7, isr7_device_na)
    ∷ (8, isr8_double_fault)
    ∷ (9, isr9_coprocessor_overrun)
    ∷ (10, isr10_invalid_tss)
    ∷ (11, isr11_seg_np)
    ∷ (12, isr12_stack_fault)
    ∷ (13, isr13_gp)
    ∷ (14, isr14_page_fault)
    ∷ (16, isr16_x87_fp)
    ∷ (17, isr17_alignment)
    ∷ (18, isr18_machine_check)
    ∷ (19, isr19_simd_fp)
    ∷ (20, isr20_virtualization)
    ∷ (21, isr21_control_protection)
    ∷ []

unfoldable pub set_gates : (address : Isr → ℕ) → List (ℕ × Isr) → Idt → Idt
unfolding idt_gate_set
set_gates address [] t = t
set_gates address ((vec, handler) ∷ rest) t =
    set_gates address rest (idt_gate_set vec (address handler) kernel_cs 0 idt_attr_intgate t)

-- The handlers' addresses are an argument. The table has 256 gates of 16 bytes.
unfoldable pub idt_init : (address : Isr → ℕ) → Idt → Idt
unfolding set_gates
idt_init address t = record (set_gates address calls t) { limit = 256 * 16 - 1 }

-- What the handlers do: the screen that they leave.
unfoldable pub isr : Isr → InterruptFrame → (error_code frame_address cr2 rsp : ℕ) → (ℕ → ℕ) → ℕ → ℕ
unfolding isr_general_exception_ec isr_general_exception_no_ec
isr handler frame error_code frame_address cr2 rsp v =
    let msg = codes (message handler) in
    if has_ec handler
    then isr_general_exception_ec msg frame error_code frame_address cr2 rsp v
    else isr_general_exception_no_ec msg frame v
