-- ===== src/Idt/Gates.antt =====
-- The gates of the table.
use bootloader_kernel_in_nas.Base.{
  ℕ, ◌+◌, ◌*◌, ◌/◌, ◌^◌, ◌<◌, Bool, true, false, ◌||◌, ◌&&◌, List, [], ◌∷◌, Option, none, some, leb,
  ◌==◌, if◌then◌else◌, ==_refl, ne→==, ◌≡◌, ◌≢◌, refl, ap, ◌∙◌, arith,
}
use bootloader_kernel_in_nas.Bits.{bit_and-ones}
use bootloader_kernel_in_nas.Idt

-- The handler that the processor jumps to through a gate.
abbrev pub offset : Idt.IdtGate → ℕ
offset g = g.handler_offset_low + 2 ^ 16 * g.handler_offset_mid + 2 ^ 32 * g.handler_offset_high

-- A gate that a gate call leaves.
pub record IsGate (addr selector ist_index type_attr : ℕ) (g : Idt.IdtGate) : Type 0 where
  pub target : offset g ≡ addr
  pub segment : g.segment_selector ≡ selector
  pub stack : g.ist ≡ ist_index
  pub kind : g.type ≡ type_attr
  pub rest : g.reserved ≡ 0
  pub low-lt : g.handler_offset_low < 2 ^ 16
  pub mid-lt : g.handler_offset_mid < 2 ^ 16
  pub high-lt : g.handler_offset_high < 2 ^ 32

-- `idt_gate_set` writes a gate from which the processor reads the 64-bit address, the selector, the
-- stack index below 8 and the type back, each part within its field, and no other gate.
pub idt_gate_set-IsGate :
    (vec addr selector ist_index type_attr : ℕ) (t : Idt.Idt)
    → addr < 2 ^ 64
    → ist_index < 8
    → IsGate addr selector ist_index type_attr
        ((Idt.idt_gate_set vec addr selector ist_index type_attr t).gates vec)
      × ((v : ℕ)
          → v ≢ vec
          → (Idt.idt_gate_set vec addr selector ist_index type_attr t).gates v ≡ t.gates v)
unfolding Idt.idt_gate_set
idt_gate_set-IsGate vec addr selector ist_index type_attr t small few = (
  rw (==_refl vec) (record {
    target = omega (
      arith,
      bit_and-ones 16 addr,
      bit_and-ones 16 (addr / 2 ^ 16),
      bit_and-ones 32 (addr / 2 ^ 32),
    );
    segment = refl;
    stack = omega (arith, bit_and-ones 3 ist_index);
    kind = refl;
    rest = refl;
    low-lt = omega arith;
    mid-lt = omega arith;
    high-lt = omega arith;
  }),
  λ v ne. rw (ne→== v vec ne) refl,
)

-- The vectors that the processor has for the exceptions, and those with an error code.
abbrev pub vector : Idt.Isr → ℕ
vector Idt.isr0_divide_error = 0
vector Idt.isr1_debug = 1
vector Idt.isr2_nmi = 2
vector Idt.isr5_bound = 5
vector Idt.isr6_invalid_opcode = 6
vector Idt.isr7_device_na = 7
vector Idt.isr8_double_fault = 8
vector Idt.isr9_coprocessor_overrun = 9
vector Idt.isr10_invalid_tss = 10
vector Idt.isr11_seg_np = 11
vector Idt.isr12_stack_fault = 12
vector Idt.isr13_gp = 13
vector Idt.isr14_page_fault = 14
vector Idt.isr16_x87_fp = 16
vector Idt.isr17_alignment = 17
vector Idt.isr18_machine_check = 18
vector Idt.isr19_simd_fp = 19
vector Idt.isr20_virtualization = 20
vector Idt.isr21_control_protection = 21

abbrev pub pushes_error_code : (vector : ℕ) → Bool
pushes_error_code v = v == 8 || (leb 10 v && leb v 14) || v == 17 || v == 21

-- The handler of the last call for a vector, the rest of the calls after it.
abbrev called : (v : ℕ) → List (ℕ × Idt.Isr) → Option Idt.Isr
called v [] = none
called v ((vec, handler) ∷ rest) = elim (called v rest) [
  | some h ↦ some h
  | none ↦ if v == vec then some handler else none
]

abbrev gate_of : (address : Idt.Isr → ℕ) → Option Idt.Isr → Idt.IdtGate → Idt.IdtGate
gate_of address none g = g
gate_of address (some h) g =
    (Idt.idt_gate_set 0 (address h) Idt.kernel_cs 0 Idt.idt_attr_intgate
        (record { gates = λ v. g; limit = 0 })).gates
      0

-- One call before the others.
call_before :
    (address : Idt.Isr → ℕ) (v vec : ℕ) (handler : Idt.Isr) (t : Idt.Idt) (later : Option Idt.Isr)
    (hit : Bool)
    → (v == vec) ≡ hit
    → gate_of address later
        ((Idt.idt_gate_set vec (address handler) Idt.kernel_cs 0 Idt.idt_attr_intgate t).gates v)
      ≡ gate_of address
          (elim later [ some h ↦ some h | none ↦ if v == vec then some handler else none ])
          (t.gates v)
unfolding Idt.idt_gate_set
call_before address v vec handler t (some h) hit e = refl
call_before address v vec handler t none true e = rw e refl
call_before address v vec handler t none false e = rw e refl

gates-set_gates :
    (address : Idt.Isr → ℕ) (v : ℕ) (calls : List (ℕ × Idt.Isr)) (t : Idt.Idt)
    → (Idt.set_gates address calls t).gates v ≡ gate_of address (called v calls) (t.gates v)
unfolding Idt.set_gates
gates-set_gates address v [] t = refl
gates-set_gates address v ((vec, handler) ∷ rest) t =
    gates-set_gates address v rest _
    ∙ call_before address v vec handler t (called v rest) (v == vec) refl

called-vector : (h : Idt.Isr) → called (vector h) Idt.calls ≡ some h
called-vector Idt.isr0_divide_error = refl
called-vector Idt.isr1_debug = refl
called-vector Idt.isr2_nmi = refl
called-vector Idt.isr5_bound = refl
called-vector Idt.isr6_invalid_opcode = refl
called-vector Idt.isr7_device_na = refl
called-vector Idt.isr8_double_fault = refl
called-vector Idt.isr9_coprocessor_overrun = refl
called-vector Idt.isr10_invalid_tss = refl
called-vector Idt.isr11_seg_np = refl
called-vector Idt.isr12_stack_fault = refl
called-vector Idt.isr13_gp = refl
called-vector Idt.isr14_page_fault = refl
called-vector Idt.isr16_x87_fp = refl
called-vector Idt.isr17_alignment = refl
called-vector Idt.isr18_machine_check = refl
called-vector Idt.isr19_simd_fp = refl
called-vector Idt.isr20_virtualization = refl
called-vector Idt.isr21_control_protection = refl

has_ec-pushes : (h : Idt.Isr) → Idt.has_ec h ≡ pushes_error_code (vector h)
has_ec-pushes Idt.isr0_divide_error = refl
has_ec-pushes h = refl

-- A vector of no handler is in no call: every vector in the calls is a handler's.
AreVectors : List (ℕ × Idt.Isr) → Type 0
AreVectors [] = Unit {0}
AreVectors ((vec, handler) ∷ rest) = (vec ≡ vector handler) × AreVectors rest

not_called :
    (v : ℕ) (calls : List (ℕ × Idt.Isr))
    → AreVectors calls
    → ((h : Idt.Isr) → v ≢ vector h)
    → called v calls ≡ none
unfolding AreVectors
not_called v [] ok ne = refl
not_called v ((vec, handler) ∷ rest) ok ne =
    let other : (v == vec) ≡ false = ne→== v vec (λ e. ne handler (e ∙ ok.0)) in
    rw (not_called v rest ok.1 ne, other) refl

calls-AreVectors : AreVectors Idt.calls
unfolding AreVectors
calls-AreVectors = omega arith

-- After `idt_init` the gate at the vector of each handled exception is a present interrupt gate of
-- the kernel's code segment that leads to that exception's handler, the handler takes an error code
-- just where the processor pushes one, and the gates of all other vectors are as before. The limit
-- is that of 256 gates.
pub idt_init-IsGate :
    (address : Idt.Isr → ℕ) (t : Idt.Idt)
    → ((h : Idt.Isr) → address h < 2 ^ 64)
    → ((h : Idt.Isr)
        → IsGate
            (address h)
            Idt.kernel_cs
            0
            Idt.idt_attr_intgate
            ((Idt.idt_init address t).gates (vector h))
          × (Idt.has_ec h ≡ pushes_error_code (vector h)))
      × ((v : ℕ) → ((h : Idt.Isr) → v ≢ vector h) → (Idt.idt_init address t).gates v ≡ t.gates v)
      × ((Idt.idt_init address t).limit + 1 ≡ 256 * 16)
unfolding Idt.idt_init
idt_init-IsGate address t small = (
  λ h.
      let there =
        gates-set_gates address (vector h) Idt.calls t
        ∙ ap (λ (o : Option Idt.Isr). gate_of address o (t.gates (vector h))) (called-vector h) in
      (
        rw there
            (idt_gate_set-IsGate 0 (address h) Idt.kernel_cs 0 Idt.idt_attr_intgate
              (record { gates = λ v. t.gates (vector h); limit = 0 }) (small h) (omega arith)).0,
        has_ec-pushes h,
      ),
  λ v ne.
      gates-set_gates address v Idt.calls t
      ∙ ap (λ (o : Option Idt.Isr). gate_of address o (t.gates v))
          (not_called v Idt.calls calls-AreVectors ne),
  refl,
)
