-- ===== src/Idt/Screen.antt =====
-- The whole screen of an exception.
use mathlib.Core.Path.{subst}
use bootloader_kernel_in_nas.Base.{
  ℕ, zero, suc, ◌+◌, ◌*◌, ◌^◌, ◌<◌, ◌≤◌, Bool, true, false, ◌&&◌, List, [], ◌∷◌, ltb, leb, ◌==◌,
  if◌then◌else◌, ==→eq, inl, inr, ◌≡◌, ◌⊎◌, refl, sym, ap, ◌∙◌, arith, update,
}
use bootloader_kernel_in_nas.Port.Memory.{length}
use bootloader_kernel_in_nas.Idt
use bootloader_kernel_in_nas.Idt.Hex.{
  all_below, below_all, character, ShowsRow, ShowsRow-same, vga_hex_draw_outside,
  vga_hex_draw-ShowsRow,
}

-- The cells from `place` on show a text.
abbrev pub ShowsText : List ℕ → (place : ℕ) → (ℕ → ℕ) → Type 0
ShowsText [] place v = Unit {0}
ShowsText (c ∷ text) place v = (character (v place) ≡ c) × ShowsText text (place + 1) v

abbrev pub AreBytes : List ℕ → Type 0
AreBytes [] = Unit {0}
AreBytes (c ∷ text) = (c < 256) × AreBytes text

character_table : all_below 256 (λ c. character (Idt.cell c) == c) ≡ true
unfolding all_below Idt.cell
character_table = refl

character-cell : (c : ℕ) → c < 256 → character (Idt.cell c) ≡ c
character-cell c l = ==→eq _ _ (below_all 256 _ c character_table l)

-- Rows with their numbers, from the top down.
abbrev pub Rows : Type 0
Rows = List (ℕ × ℕ)

draw_rows : Rows → (ℕ → ℕ) → ℕ → ℕ
draw_rows [] v = v
draw_rows ((row, value) ∷ rows) v = draw_rows rows (Idt.vga_hex_draw value row v)

-- The rows go down from `from` on, and the numbers have 64 digits.
abbrev pub GoDown : (from : ℕ) → Rows → Type 0
GoDown from [] = Unit {0}
GoDown from ((row, value) ∷ rows) = (from ≤ row) × (value < 2 ^ 64) × GoDown (row + 1) rows

-- The cell is in none of the rows' numbers.
abbrev pub IsFree : (i : ℕ) → Rows → Type 0
IsFree i [] = Unit {0}
IsFree i ((row, value) ∷ rows) = ((i < row * 80) ⊎ (row * 80 + 18 ≤ i)) × IsFree i rows

abbrev pub ShowRows : Rows → (ℕ → ℕ) → Type 0
ShowRows [] v = Unit {0}
ShowRows ((row, value) ∷ rows) v = ShowsRow row value v × ShowRows rows v

draw_rows_free : (rows : Rows) (v : ℕ → ℕ) (i : ℕ) → IsFree i rows → draw_rows rows v i ≡ v i
unfolding draw_rows
draw_rows_free [] v i free = refl
draw_rows_free ((row, value) ∷ rows) v i free =
    draw_rows_free rows (Idt.vga_hex_draw value row v) i free.1
    ∙ vga_hex_draw_outside value row v i free.0

above-IsFree : (from : ℕ) (rows : Rows) (i : ℕ) → GoDown from rows → i < from * 80 → IsFree i rows
above-IsFree from [] i down l = tt
above-IsFree from ((row, value) ∷ rows) i (le, small, down) l =
    (inl (omega arith), above-IsFree (row + 1) rows i down (omega arith))

draw_rows-ShowRows :
    (from : ℕ) (rows : Rows) (v : ℕ → ℕ) → GoDown from rows → ShowRows rows (draw_rows rows v)
unfolding draw_rows
draw_rows-ShowRows from [] v down = tt
draw_rows-ShowRows from ((row, value) ∷ rows) v (le, small, down) = (
  ShowsRow-same
      (λ i l u. sym (
        draw_rows_free rows (Idt.vga_hex_draw value row v) i
          (above-IsFree (row + 1) rows i down (omega arith))))
      (vga_hex_draw-ShowsRow value row v small).0,
  draw_rows-ShowRows (row + 1) rows (Idt.vga_hex_draw value row v) down,
)

clear_loop_lem :
    (left i : ℕ) (v : ℕ → ℕ) (j : ℕ)
    → Idt.clear_loop left i v j ≡ (if leb i j && ltb j (i + left) then Idt.cell b' ' else v j)
unfolding Idt.clear_loop
clear_loop_lem zero i v j = ground arith
clear_loop_lem (suc left) i v j =
    clear_loop_lem left (i + 1) (update v i (Idt.cell b' ')) j ∙ ground arith

message_loop_outside :
    (msg : List ℕ) (i : ℕ) (v : ℕ → ℕ) (j : ℕ)
    → (j < i) ⊎ (i + length msg ≤ j)
    → Idt.message_loop msg i v j ≡ v j
unfolding Idt.message_loop
message_loop_outside [] i v j away = refl
message_loop_outside (c ∷ msg) i v j away =
    message_loop_outside msg (i + 1) (update v i (Idt.cell c)) j (ground arith) ∙ ground arith

ShowsText-same :
    (text : List ℕ) (place : ℕ) (v v' : ℕ → ℕ)
    → ((i : ℕ) → place ≤ i → i < place + length text → v i ≡ v' i)
    → ShowsText text place v
    → ShowsText text place v'
ShowsText-same [] place v v' same s = tt
ShowsText-same (c ∷ text) place v v' same s = (
  ap character (sym (same place (omega arith) (omega arith))) ∙ s.0,
  ShowsText-same text (place + 1) v v' (λ i l u. same i (omega arith) (omega arith)) s.1,
)

pub message_loop-ShowsText :
    (msg : List ℕ) (i : ℕ) (v : ℕ → ℕ) → AreBytes msg → ShowsText msg i (Idt.message_loop msg i v)
unfolding Idt.message_loop
message_loop-ShowsText [] i v bytes = tt
message_loop-ShowsText (c ∷ msg) i v bytes =
    let here : update v i (Idt.cell c) i ≡ Idt.cell c = ground arith in
    (
      ap character (
            message_loop_outside msg (i + 1) (update v i (Idt.cell c)) i (inl (omega arith)) ∙ here)
          ∙ character-cell c bytes.0,
      message_loop-ShowsText msg (i + 1) (update v i (Idt.cell c)) bytes.1,
    )

-- A screen with a message in its first row and numbers in others, and nothing else.
pub record IsScreen (msg : List ℕ) (rows : Rows) (v v' : ℕ → ℕ) : Type 0 where
  pub text : ShowsText msg 0 v'
  pub numbers : ShowRows rows v'
  pub blank : (i : ℕ) → length msg ≤ i → i < 80 * 25 → IsFree i rows → character (v' i) ≡ b' '
  pub beyond : (i : ℕ) → 80 * 25 ≤ i → IsFree i rows → v' i ≡ v i

draw_rows-IsScreen :
    (msg : List ℕ) (rows : Rows) (v : ℕ → ℕ)
    → AreBytes msg
    → length msg ≤ 80
    → GoDown 1 rows
    → IsScreen msg rows v (draw_rows rows (Idt.message_loop msg 0 (Idt.clear_loop (80 * 25) 0 v)))
draw_rows-IsScreen msg rows v bytes short down =
    let cleared = Idt.clear_loop (80 * 25) 0 v in
    let texted = Idt.message_loop msg 0 cleared in
    record {
      text =
          ShowsText-same msg 0 texted (draw_rows rows texted)
            (λ i l u. sym (draw_rows_free rows texted i (above-IsFree 1 rows i down (omega arith))))
            (message_loop-ShowsText msg 0 cleared bytes);
      numbers = draw_rows-ShowRows 1 rows texted down;
      blank = λ i l u free.
          let kept =
            draw_rows_free rows texted i free
            ∙ message_loop_outside msg 0 cleared i (inr (omega arith)) in
          let empty : cleared i ≡ Idt.cell b' ' = clear_loop_lem (80 * 25) 0 v i ∙ ground arith in
          ap character (kept ∙ empty) ∙ character-cell b' ' (omega arith);
      beyond = λ i l free.
          let empty : cleared i ≡ v i = clear_loop_lem (80 * 25) 0 v i ∙ ground arith in
          draw_rows_free rows texted i free
          ∙ message_loop_outside msg 0 cleared i (inr (omega arith))
          ∙ empty;
    }

message-AreBytes : (h : Idt.Isr) → AreBytes (Idt.codes (Idt.message h))
message-AreBytes Idt.isr0_divide_error = omega arith
message-AreBytes h = omega arith

message_short : (h : Idt.Isr) → length (Idt.codes (Idt.message h)) ≤ 80
message_short Idt.isr0_divide_error = omega arith
message_short h = omega arith

-- The numbers of a handler's screen.
abbrev pub rows_of : Bool → Idt.InterruptFrame → (error_code frame_address cr2 rsp : ℕ) → Rows
rows_of true frame error_code frame_address cr2 rsp =
    (1, error_code) ∷ (2, cr2) ∷ (3, frame.ip) ∷ (4, frame_address) ∷ (5, rsp) ∷ []
rows_of false frame error_code frame_address cr2 rsp =
    (2, frame.ip) ∷ (3, frame.sp) ∷ (4, frame.flags) ∷ []

abbrev pub Is64 : ℕ → Type 0
Is64 n = n < 2 ^ 64

-- What is drawn for a message, with an error code and without.
drawn :
    Bool
    → Idt.InterruptFrame
    → (error_code frame_address cr2 rsp : ℕ) → (msg : List ℕ) → (ℕ → ℕ)
    → ℕ
    → ℕ
drawn ec frame error_code frame_address cr2 rsp msg v =
    draw_rows (rows_of ec frame error_code frame_address cr2 rsp)
      (Idt.message_loop msg 0 (Idt.clear_loop (80 * 25) 0 v))

exception-drawn :
    (ec : Bool) (msg : List ℕ) (frame : Idt.InterruptFrame) (error_code frame_address cr2 rsp : ℕ)
    (v : ℕ → ℕ)
    → (if ec
        then Idt.isr_general_exception_ec msg frame error_code frame_address cr2 rsp v
        else Idt.isr_general_exception_no_ec msg frame v)
      ≡ drawn ec frame error_code frame_address cr2 rsp msg v
unfolding Idt.isr_general_exception_ec Idt.isr_general_exception_no_ec drawn draw_rows
exception-drawn true msg frame error_code frame_address cr2 rsp v = refl
exception-drawn false msg frame error_code frame_address cr2 rsp v = refl

isr-drawn :
    (h : Idt.Isr) (frame : Idt.InterruptFrame) (error_code frame_address cr2 rsp : ℕ) (v : ℕ → ℕ)
    → Idt.isr h frame error_code frame_address cr2 rsp v
      ≡ drawn (Idt.has_ec h) frame error_code frame_address cr2 rsp (Idt.codes (Idt.message h)) v
unfolding Idt.isr
isr-drawn h frame error_code frame_address cr2 rsp v =
    exception-drawn (Idt.has_ec h) (Idt.codes (Idt.message h)) frame error_code frame_address cr2
      rsp v

rows-GoDown :
    (ec : Bool) (frame : Idt.InterruptFrame) (error_code frame_address cr2 rsp : ℕ)
    → Is64 frame.ip
    → Is64 frame.sp
    → Is64 frame.flags
    → Is64 error_code
    → Is64 frame_address
    → Is64 cr2
    → Is64 rsp
    → GoDown 1 (rows_of ec frame error_code frame_address cr2 rsp)
rows-GoDown true frame error_code frame_address cr2 rsp a b c d e f g = omega arith
rows-GoDown false frame error_code frame_address cr2 rsp a b c d e f g = omega arith

-- Every exception handler leaves a screen that shows its message in the first row and its 64-bit
-- numbers below, each in its own row and readable digit by digit: error code, CR2, instruction
-- pointer, frame address and stack pointer where the exception has an error code, else instruction
-- pointer, stack pointer and flags. The rest of the screen is blank and no cell beyond it changes.
pub isr-IsScreen :
    (h : Idt.Isr) (frame : Idt.InterruptFrame) (error_code frame_address cr2 rsp : ℕ) (v : ℕ → ℕ)
    → Is64 frame.ip
    → Is64 frame.sp
    → Is64 frame.flags
    → Is64 error_code
    → Is64 frame_address
    → Is64 cr2
    → Is64 rsp
    → IsScreen
        (Idt.codes (Idt.message h))
        (rows_of (Idt.has_ec h) frame error_code frame_address cr2 rsp)
        v
        (Idt.isr h frame error_code frame_address cr2 rsp v)
unfolding drawn
isr-IsScreen h frame error_code frame_address cr2 rsp v a b c d e f g =
    let msg = Idt.codes (Idt.message h) in
    let rows = rows_of (Idt.has_ec h) frame error_code frame_address cr2 rsp in
    subst (IsScreen msg rows v) (sym (isr-drawn h frame error_code frame_address cr2 rsp v)) (
      draw_rows-IsScreen msg rows v (message-AreBytes h) (message_short h)
        (rows-GoDown (Idt.has_ec h) frame error_code frame_address cr2 rsp a b c d e f g))
